-- ===== src/AwareQueue/Selection.antt =====
-- Which slot `_next_slot` chooses.
use scrapy.Prelude.{ℕ, ◌≤◌, ◌≡◌, Bool, true, Option, none, some, List, [], ◌∷◌, String, arith, All}
use scrapy.AwareQueue.{Choice, choose, choices, no_choice, picked, next_slot}

-- The smallest number so far is not above a bound.
abbrev pub AtMost : ℕ → Choice → Type 0
AtMost a c = elim c.min_active [ none ↦ ⊥ | some m ↦ m ≤ a ]

choose-AtMost :
    (last : Option String) (a : ℕ) (slot : String) (c : Choice) → AtMost a (choose last a slot c)
unfolding choose
choose-AtMost last a slot c = ground arith

AtMost-choose :
    (last : Option String) (a b : ℕ) (slot : String) (c : Choice)
    → AtMost b c
    → AtMost b (choose last a slot c)
unfolding choose
AtMost-choose last a b slot c h = ground arith

AtMost-choices :
    (last : Option String) (b : ℕ) (stats : List (ℕ × String)) (c : Choice)
    → AtMost b c
    → AtMost b (choices last stats c)
unfolding choices
AtMost-choices last b [] c h = h
AtMost-choices last b ((a, slot) ∷ stats) c h =
    AtMost-choices last b stats (choose last a slot c) (AtMost-choose last a b slot c h)

choices-AtMost :
    (last : Option String) (stats : List (ℕ × String)) (c : Choice)
    → All (λ e. AtMost e.0 (choices last stats c)) stats
unfolding choices
choices-AtMost last [] c = tt
choices-AtMost last ((a, slot) ∷ stats) c =
    let c' = choose last a slot c in
    (AtMost-choices last a stats c' (choose-AtMost last a slot c), choices-AtMost last stats c')

module _ (active : String → ℕ) (known : String → Bool) where
  -- A candidate is a known slot that has the smallest number so far.
  abbrev pub Counted : Option ℕ → Option String → Type 0
  Counted m none = Unit
  Counted m (some slot) = (some (active slot) ≡ m) × (known slot ≡ true)

  abbrev pub Genuine : Choice → Type 0
  Genuine c = Counted c.min_active c.best_slot × Counted c.min_active c.best_slot_after_last

  choose-Genuine :
      (last : Option String) (slot : String) (c : Choice)
      → known slot ≡ true
      → Genuine c
      → Genuine (choose last (active slot) slot c)
  unfolding choose
  choose-Genuine last slot c k g = ground arith

  choices-Genuine :
      (last : Option String) (stats : List (ℕ × String)) (c : Choice)
      → All (λ e. (e.0 ≡ active e.1) × (known e.1 ≡ true)) stats
      → Genuine c
      → Genuine (choices last stats c)
  unfolding choices
  choices-Genuine last [] c h g = g
  choices-Genuine last ((a, slot) ∷ stats) c ((e, k), h) g =
      choices-Genuine last stats (choose last a slot c) h (rw e (choose-Genuine last slot c k g))

  picked-Genuine :
      (c : Choice) (slot : String)
      → Genuine c
      → picked c ≡ some slot
      → (c.min_active ≡ some (active slot)) × (known slot ≡ true)
  picked-Genuine c slot g h = (ground arith, ground arith)

  AtMost-min :
      (m : ℕ) (c : Choice) (stats : List (ℕ × String))
      → c.min_active ≡ some m
      → All (λ e. AtMost e.0 c) stats
      → All (λ e. m ≤ e.0) stats
  AtMost-min m c [] h a = tt
  AtMost-min m c (e ∷ stats) h a = (ground arith, AtMost-min m c stats h a.1)

  -- The chosen slot is one of the slots, and no slot has fewer active requests.
  pub next_slot_least :
      (last : Option String) (stats : List (ℕ × String)) (slot : String)
      → All (λ e. (e.0 ≡ active e.1) × (known e.1 ≡ true)) stats
      → next_slot last stats ≡ some slot
      → (known slot ≡ true) × All (λ e. active slot ≤ e.0) stats
  unfolding next_slot
  next_slot_least last stats slot h e =
      let c = choices last stats no_choice in
      let (m, k) = picked-Genuine c slot (choices-Genuine last stats no_choice h (tt, tt)) e in
      (k, AtMost-min (active slot) c stats m (choices-AtMost last stats no_choice))
