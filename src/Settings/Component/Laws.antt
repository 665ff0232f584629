-- ===== src/Settings/Component/Laws.antt =====
-- Which classes a component priority dictionary names after a change.
use scrapy.Prelude.{
  ℕ, ◌≡◌, ◌≢◌, ap, sym, ◌∙◌, Option, none, some, List, [], ◌∷◌, String, if◌then◌else◌, nat_beq,
  nat_beq_iff, get_or, arith, Bool-cases, Option-cases, inl, inr,
}
use scrapy.Dict
use scrapy.Dict.{Dict}
use scrapy.Settings.Component.{
  Component, path, class, component_eq, loaded, drop_paths, set_in_component_priority_dict,
  take_component, replace_in_component_priority_dict,
}

module _ {P : Type 0} (load : String → Option ℕ) where
  -- What the entries of a class say, in their order.
  unfoldable pub priorities : ℕ → Dict Component (Option P) → List (Option P)
  unfolding loaded
  priorities cls [] = []
  priorities cls ((k, v) ∷ d) =
      let rest = priorities cls d in
      elim (loaded load k) [ none ↦ rest | some c ↦ if nat_beq c cls then v ∷ rest else rest ]

  -- The entries that are the class itself, and none of its paths.
  drop_paths-priorities :
      (cls other : ℕ) (d d' : Dict Component (Option P))
      → drop_paths load cls d ≡ some d'
      → other ≢ cls
      → priorities other d' ≡ priorities other d
  unfolding drop_paths priorities loaded
  drop_paths-priorities cls other [] d' h n = ground arith
  drop_paths-priorities cls other ((class c, v) ∷ d) d' h n =
      elim (Option-cases (drop_paths load cls d)) [
        | inl e ↦ absurd (ground arith)
        | inr (d1, e) ↦ ground (arith, drop_paths-priorities cls other d d1 e n)
      ]
  drop_paths-priorities cls other ((path p, v) ∷ d) d' h n = elim (Option-cases (load p)) [
    | inl e ↦ absurd (ground arith)
    | inr (c, l) ↦ elim (Option-cases (drop_paths load cls d)) [
      | inl e ↦ absurd (ground arith)
      | inr (d1, e) ↦
          ground (
            arith,
            drop_paths-priorities cls other d d1 e n,
            nat_beq_iff c cls,
            nat_beq_iff c other,
          )
    ]
  ]

  put-other :
      (cls other : ℕ) (p : Option P) (d : Dict Component (Option P))
      → other ≢ cls
      → priorities other (Dict.put (class cls) p d) ≡ priorities other d
  unfolding Dict.put priorities loaded
  put-other cls other p [] n = ground (arith, nat_beq_iff cls other)
  put-other cls other p ((class c, v) ∷ d) n = ground (
    arith,
    nat_beq_iff cls other,
    nat_beq_iff c cls,
    nat_beq_iff c other,
    put-other cls other p d n,
  )
  put-other cls other p ((path q, v) ∷ d) n = ground (arith, put-other cls other p d n)

  -- Without the class itself nothing of the class is left.
  drop_paths-none :
      (cls : ℕ) (d d' : Dict Component (Option P))
      → drop_paths load cls d ≡ some d'
      → Dict.get (class cls) d ≡ none
      → priorities cls d' ≡ []
  unfolding drop_paths priorities loaded Dict.get
  drop_paths-none cls [] d' h g = ground arith
  drop_paths-none cls ((class c, v) ∷ d) d' h g = elim (Option-cases (drop_paths load cls d)) [
    | inl e ↦ absurd (ground arith)
    | inr (d1, e) ↦ ground (arith, drop_paths-none cls d d1 e)
  ]
  drop_paths-none cls ((path p, v) ∷ d) d' h g = elim (Option-cases (load p)) [
    | inl e ↦ absurd (ground arith)
    | inr (c, l) ↦ elim (Option-cases (drop_paths load cls d)) [
      | inl e ↦ absurd (ground arith)
      | inr (d1, e) ↦ ground (arith, drop_paths-none cls d d1 e)
    ]
  ]

  -- A dict holds a key once.
  abbrev pub Distinct : Dict Component (Option P) → Type 0
  Distinct [] = Unit
  Distinct ((k, v) ∷ d) = (Dict.get k d ≡ none) × Distinct d

  put-drop_paths :
      (cls : ℕ) (p : Option P) (d d' : Dict Component (Option P))
      → drop_paths load cls d ≡ some d'
      → Distinct d
      → priorities cls (Dict.put (class cls) p d') ≡ p ∷ []
  unfolding drop_paths priorities loaded Dict.put
  put-drop_paths cls p [] d' h u = ground (arith, nat_beq_iff cls cls)
  put-drop_paths cls p ((class c, v) ∷ d) d' h (g, u) =
      elim (Option-cases (drop_paths load cls d)) [
        | inl e ↦ absurd (ground arith)
        | inr (d1, e) ↦ elim (Bool-cases (nat_beq c cls)) [
          | inl y ↦
              let same = (nat_beq_iff c cls).0 y in
              ground
                (arith, drop_paths-none cls d d1 e (ap (λ x. Dict.get (class x) d) (sym same) ∙ g))
          | inr n ↦ ground (arith, put-drop_paths cls p d d1 e u)
        ]
      ]
  put-drop_paths cls p ((path q, v) ∷ d) d' h (g, u) = elim (Option-cases (load q)) [
    | inl e ↦ absurd (ground arith)
    | inr (c, l) ↦ elim (Option-cases (drop_paths load cls d)) [
      | inl e ↦ absurd (ground arith)
      | inr (d1, e) ↦ ground (arith, put-drop_paths cls p d d1 e u)
    ]
  ]

  -- After set_in_component_priority_dict the dict has exactly one entry of the class, with the given
  -- priority; the entries of every other class are as before, in their order.
  pub set_in-priorities :
      (cls : ℕ) (p : Option P) (d d' : Dict Component (Option P))
      → set_in_component_priority_dict load cls p d ≡ some d'
      → Distinct d
      → (priorities cls d' ≡ p ∷ [])
        × ((other : ℕ) → other ≢ cls → priorities other d' ≡ priorities other d)
  unfolding set_in_component_priority_dict
  set_in-priorities cls p d d' h u = elim (Option-cases (drop_paths load cls d)) [
    | inl e ↦ absurd (ground arith)
    | inr (d1, e) ↦ (
      ground (arith, put-drop_paths cls p d d1 e u),
      λ other n.
          ground (arith, put-other cls other p d1 n, drop_paths-priorities cls other d d1 e n),
    )
  ]

  take_component-priorities :
      (cls : ℕ) (d d' : Dict Component (Option P)) (o : Option P)
      → take_component load cls d ≡ some (o, d')
      → (priorities cls d' ≡ [])
        × ((other : ℕ) → other ≢ cls → priorities other d' ≡ priorities other d)
  unfolding take_component priorities
  take_component-priorities cls [] d' o h = (ground arith, λ other n. ground arith)
  take_component-priorities cls ((k, v) ∷ d) d' o h = elim (Option-cases (loaded load k)) [
    | inl e ↦ absurd (ground arith)
    | inr (c, l) ↦ elim (Option-cases (take_component load cls d)) [
      | inl e ↦ absurd (ground arith)
      | inr ((o1, d1), e) ↦
          let (gone, others) = take_component-priorities cls d d1 o1 e in
          (
            ground arith,
            λ other n. ground (arith, others other n, nat_beq_iff c cls, nat_beq_iff c other),
          )
    ]
  ]

  -- After replace_in_component_priority_dict, where it does not raise, no entry of the old class is
  -- left, where the new class is another one, and the entries of all other classes are as before.
  pub replace_in-priorities :
      (old new : ℕ) (p : Option P) (d d' : Dict Component (Option P))
      → replace_in_component_priority_dict load old new p d ≡ some d'
      → old ≢ new
      → (priorities old d' ≡ [])
        × ((other : ℕ) → other ≢ old → other ≢ new → priorities other d' ≡ priorities other d)
  unfolding replace_in_component_priority_dict
  replace_in-priorities old new p d d' h n = elim (Option-cases (take_component load old d)) [
    | inl e ↦ absurd (ground arith)
    | inr ((none, d1), e) ↦ absurd (ground arith)
    | inr ((some q, d1), e) ↦
        let (gone, others) = take_component-priorities old d d1 (some q) e in
        let v = some (get_or p q) in
        (
          ground (arith, put-other new old v d1 n),
          λ other m k. ground (arith, put-other new other v d1 k, others other m),
        )
  ]
