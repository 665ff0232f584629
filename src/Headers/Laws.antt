-- ===== src/Headers/Laws.antt =====
-- Header names are compared without regard to the case of letters.
use scrapy.Prelude.{
  ℕ, ◌≡◌, ◌↔◌, refl, sym, ap, ◌∙◌, Bool, true, false, ◌||◌, List, [], ◌∷◌, ◌++◌, map, if◌then◌else◌,
  ◌==◌, nat_eq, arith, Bool-cases, inl, inr,
}
use scrapy.Dict.Laws.{get-put}
use scrapy.Headers.{
  bytes_eq, bytes_beq_iff, is_upper, is_lower, to_lower, to_upper, title, normkey, Value, no_value,
  normvalue, Headers, set_item, getlist, setlist, appendlist,
}

abbrev pub lower : List ℕ → List ℕ
lower = map to_lower

to_lower_idem : (c : ℕ) → to_lower (to_lower c) ≡ to_lower c
to_lower_idem c = ground arith

to_lower-to_upper : (c : ℕ) → to_lower (to_upper c) ≡ to_lower c
to_lower-to_upper c = ground arith

same_letter :
    (c d : ℕ)
    → to_lower c ≡ to_lower d
    → (to_upper c ≡ to_upper d) × ((is_upper c || is_lower c) ≡ (is_upper d || is_lower d))
same_letter c d h = (ground (arith, h), ground (arith, h))

lower-title : (cased : Bool) (s : List ℕ) → lower (title cased s) ≡ lower s
unfolding title
lower-title cased [] = refl
lower-title true (c ∷ s) =
    let rest = lower-title (is_upper c || is_lower c) s in ground (arith, rest, to_lower_idem c)
lower-title false (c ∷ s) =
    let rest = lower-title (is_upper c || is_lower c) s in ground (arith, rest, to_lower-to_upper c)

head : ℕ → List ℕ → ℕ
head d [] = d
head d (c ∷ s) = c

tail : List ℕ → List ℕ
tail [] = []
tail (c ∷ s) = s

cased_letter :
    (c d : ℕ) (cased : Bool)
    → to_lower c ≡ to_lower d
    → to_upper c ≡ to_upper d
    → (if cased then to_lower c else to_upper c) ≡ (if cased then to_lower d else to_upper d)
cased_letter c d true low up = low
cased_letter c d false low up = up

title-lower : (cased : Bool) (s t : List ℕ) → lower s ≡ lower t → title cased s ≡ title cased t
unfolding title head tail
title-lower cased [] [] h = refl
title-lower cased [] (d ∷ t) h = absurd (ground arith)
title-lower cased (c ∷ s) [] h = absurd (ground arith)
title-lower cased (c ∷ s) (d ∷ t) h =
    let first : to_lower c ≡ to_lower d = ap (head 0) h in
    let others : lower s ≡ lower t = ap tail h in
    let (up, kind) = same_letter c d first in
    let rest : title (is_upper c || is_lower c) s ≡ title (is_upper d || is_lower d) t =
      title-lower (is_upper c || is_lower c) s t others ∙ ap (λ b. title b t) kind in
    ap (λ x. x ∷ title (is_upper c || is_lower c) s) (cased_letter c d cased first up)
    ∙ ap (λ l. (if cased then to_lower d else to_upper d) ∷ l) rest

-- Two names have one key exactly when they are the same but for the case of their letters.
normkey_iff : (s t : List ℕ) → (normkey s ≡ normkey t) ↔ (lower s ≡ lower t)
unfolding normkey
normkey_iff s t =
    (λ h. sym (lower-title false s) ∙ ap lower h ∙ lower-title false t, title-lower false s t)

same_key : (s t : List ℕ) → (normkey s == normkey t) ≡ (lower s == lower t)
same_key s t = ground (
  arith,
  normkey_iff s t,
  bytes_beq_iff (normkey s) (normkey t),
  bytes_beq_iff (lower s) (lower t),
)

-- After an append to a name, the values of any name that is the same but for the case of its letters
-- are those that were there and then the appended ones, in order, and no other name has changed.
pub appendlist_lem :
    (key other : List ℕ) (value : Value) (h : Headers)
    → getlist other no_value (appendlist key value h) ≡ (
        if lower key == lower other
        then getlist key no_value h ++ normvalue value
        else getlist other no_value h)
unfolding getlist appendlist setlist set_item normvalue
appendlist_lem key other value h =
    let new = getlist key no_value h ++ normvalue value in
    let found = get-put (normkey key) (normkey other) new h in
    let same = same_key key other in
    elim (Bool-cases (lower key == lower other)) [
      | inl y ↦ ground (arith, found, same, y)
      | inr n ↦ ground (arith, found, same, n)
    ]
