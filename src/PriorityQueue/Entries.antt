-- ===== src/PriorityQueue/Entries.antt =====
-- The dicts of queues of `ScrapyPriorityQueue`: what they hold, and the least key of a queue that
-- is not empty (the body of `_update_curprio`).
use scrapy.Dict.{get}
use scrapy.Prelude.Int.{int_eq, beq_ℤ_iff}
use scrapy.Prelude.{
  true, contains, ◌||◌, inl, inr, Option-cases, is_some, ℕ, ◌≡◌, refl, Option, none, some, List, [],
  ◌∷◌, ◌++◌, arith, if◌then◌else◌, total, total-append, All, All-map, nat_beq,
}
use scrapy.Prelude.Int.{ℤ, ltb_ℤ, ◌≤ℤ◌}
use scrapy.Dict.{Dict}
use scrapy.QueueClass.{QueueClass}
use scrapy.Request.{Request}

module _ (C : QueueClass) where
  -- the keys `p` with `if q`
  unfoldable pub live_keys : Dict ℤ C.Q → List ℤ
  live_keys [] = []
  live_keys ((p, q) ∷ d) = let rest = live_keys d in if nat_beq (C.size q) 0 then rest else p ∷ rest

  abbrev pub held : Dict ℤ C.Q → List Request
  held [] = []
  held ((p, q) ∷ d) = C.items q ++ held d

  pub total-held :
      (w : Request → ℕ) (d : Dict ℤ C.Q) → total w (held d) ≡ total (λ e. total w (C.items e.1)) d
  total-held w [] = refl
  total-held w ((p, q) ∷ d) = omega (arith, total-append w (C.items q) (held d), total-held w d)

-- `min(prios) if prios else None`
unfoldable pub min_prio : List ℤ → Option ℤ
min_prio [] = none
min_prio (p ∷ ps) = elim (min_prio ps) [
  | none ↦ some p
  | some m ↦ if ltb_ℤ m p then some m else some p
]

-- The least key is one of the keys.
pub min_prio-mem : (ps : List ℤ) (m : ℤ) → min_prio ps ≡ some m → contains m ps ≡ true
unfolding min_prio
min_prio-mem [] m h = ground arith
min_prio-mem (p ∷ ps) m h = ground (arith, min_prio-mem ps m, beq_ℤ_iff m p)

pub min_prio-eq-none : (ps : List ℤ) → min_prio ps ≡ none → ps ≡ []
unfolding min_prio
min_prio-eq-none [] h = refl
min_prio-eq-none (p ∷ ps) h = ground arith

-- The least key is at most each key.
pub min_prio-le : (ps : List ℤ) (m : ℤ) → min_prio ps ≡ some m → All (λ p. m ≤ℤ p) ps
unfolding min_prio
min_prio-le [] m h = tt
min_prio-le (p ∷ ps) m h = elim (Option-cases (min_prio ps)) [
  | inl e ↦ rw (min_prio-eq-none ps e) (min_le, tt)
  | inr (k, e) ↦ (
    min_le,
    All-map (λ i. k ≤ℤ i) (λ i. m ≤ℤ i) (λ i l. omega (arith, le_least k e)) ps
        (min_prio-le ps k e),
  )
]
  where
    min_le : m ≤ℤ p
    min_le = ground arith

    le_least : (k : ℤ) → min_prio ps ≡ some k → m ≤ℤ k
    le_least k e = ground arith

pub contains-append :
    (m : ℤ) (xs ys : List ℤ) → contains m (xs ++ ys) ≡ (contains m xs || contains m ys)
contains-append m [] ys = refl
contains-append m (x ∷ xs) ys = ground (arith, contains-append m xs ys)

module _ (C : QueueClass) where
  -- A key of a queue that is not empty has a queue.
  pub get-live_keys :
      (m : ℤ) (d : Dict ℤ C.Q) → contains m (live_keys C d) ≡ true → is_some (get m d) ≡ true
  unfolding live_keys get
  get-live_keys m [] h = h
  get-live_keys m ((p, q) ∷ d) h = ground (arith, get-live_keys m d, beq_ℤ_iff m p, beq_ℤ_iff p m)
