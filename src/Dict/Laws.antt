-- ===== src/Dict/Laws.antt =====
-- Lookups, sums and predicates over the entries of a dict.
use mathlib.Core.Path.{subst, subst₂}
use scrapy.Prelude.{
  ℕ, ◌+◌, ◌≡◌, sym, inl, inr, Bool-cases, refl, none, some, [], ◌∷◌, arith, HasEq, ◌==◌,
  if◌then◌else◌, total, All,
}
use scrapy.Dict.{Dict, get, put, remove, discard}

module _ {ℓ κ} {K : Type ℓ} {V : Type κ} ⦃e : HasEq K⦄ where
  -- A set key has its new value, and every other key its old one.
  pub get-put :
      (k j : K) (v : V) (d : Dict K V) → get j (put k v d) ≡ (if k == j then some v else get j d)
  unfolding get put
  get-put k j v [] = refl
  get-put k j v ((i, w) ∷ d) =
      ground (arith, e.same_iff k j, e.same_iff i k, e.same_iff i j, get-put k j v d)

  -- A discarded key is gone, and every other key has its old value.
  pub get-discard :
      (k j : K) (d : Dict K V) → get j (discard k d) ≡ (if k == j then none else get j d)
  unfolding get discard
  get-discard k j [] = ground arith
  get-discard k j ((i, w) ∷ d) =
      ground (arith, e.same_iff k j, e.same_iff i k, e.same_iff i j, get-discard k j d)

  -- Setting a key that is there replaces its value in every sum over the dict.
  pub total-put-some :
      (g : V → ℕ) (k : K) (v u : V) (d : Dict K V)
      → get k d ≡ some v
      → total (λ x. g x.1) (put k u d) + g v ≡ total (λ x. g x.1) d + g u
  unfolding get put
  total-put-some g k v u [] h = ground arith
  total-put-some g k v u ((i, w) ∷ d) h = ground (arith, total-put-some g k v u d)

  pub total-put-none :
      (g : V → ℕ) (k : K) (u : V) (d : Dict K V)
      → get k d ≡ none
      → total (λ x. g x.1) (put k u d) ≡ total (λ x. g x.1) d + g u
  unfolding get put
  total-put-none g k u [] h = ground arith
  total-put-none g k u ((i, w) ∷ d) h = ground (arith, total-put-none g k u d)

  pub total-remove :
      (g : V → ℕ) (k : K) (v : V) (d : Dict K V)
      → get k d ≡ some v
      → total (λ x. g x.1) (remove k d) + g v ≡ total (λ x. g x.1) d
  unfolding get remove
  total-remove g k v [] h = ground arith
  total-remove g k v ((i, w) ∷ d) h = ground (arith, total-remove g k v d)

  module _ {μ} (P : K × V → Type μ) where
    pub All-get : (k : K) (v : V) (d : Dict K V) → get k d ≡ some v → All P d → P (k, v)
    unfolding get
    All-get k v [] h a = absurd (ground arith)
    All-get k v ((i, w) ∷ d) h a = elim (Bool-cases (i == k)) [
      | inl y ↦
          subst₂ (λ z u. P (z, u)) ((e.same_iff i k).0 y)
            (let q : some w ≡ some v = rw y at h in ground arith) a.0
      | inr n ↦ All-get k v d (rw n at h) a.1
    ]

    pub All-put : (k : K) (v : V) (d : Dict K V) → P (k, v) → All P d → All P (put k v d)
    unfolding put
    All-put k v [] p a = (p, tt)
    All-put k v ((i, w) ∷ d) p a = elim (Bool-cases (i == k)) [
      | inl y ↦ rw y (subst (λ z. P (z, v)) (sym ((e.same_iff i k).0 y)) p, a.1)
      | inr n ↦ rw n (a.0, All-put k v d p a.1)
    ]

    pub All-remove : (k : K) (d : Dict K V) → All P d → All P (remove k d)
    unfolding remove
    All-remove k [] a = tt
    All-remove k ((i, w) ∷ d) a = elim (Bool-cases (i == k)) [
      | inl y ↦ rw y a.1
      | inr n ↦ rw n (a.0, All-remove k d a.1)
    ]
