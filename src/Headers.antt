-- ===== src/Headers.antt =====
-- http/headers.py: Headers, over bytes. A value is None, a text or an iterable of texts; numbers and
-- what raises TypeError are left out, as are the views that only print. The keys of the dict are
-- normalized, and a key has a list of values.
pub mod Laws
mod Tests
use scrapy.Prelude.{
  ℕ, ◌+◌, ◌-◌, ◌≡◌, ◌↔◌, Bool, true, false, ◌&&◌, ◌||◌, Option, none, some, List, [], ◌∷◌, ◌++◌,
  refl, ap, if◌then◌else◌, HasEq, ◌==◌, leb, nat_beq, nat_eq, arith,
}
use scrapy.Dict
use scrapy.Dict.{Dict}

abbrev pub bytes_beq : List ℕ → List ℕ → Bool
bytes_beq [] [] = true
bytes_beq (c ∷ s) (d ∷ t) = nat_beq c d && bytes_beq s t
bytes_beq _ _ = false

pub bytes_beq_iff : (s t : List ℕ) → (bytes_beq s t ≡ true) ↔ (s ≡ t)
bytes_beq_iff [] [] = ground arith
bytes_beq_iff [] (d ∷ t) = ground arith
bytes_beq_iff (c ∷ s) [] = ground arith
bytes_beq_iff (c ∷ s) (d ∷ t) = ground (arith, bytes_beq_iff s t)

instance abbrev pub bytes_eq : HasEq (List ℕ)
bytes_eq = record { same = bytes_beq; same_iff = bytes_beq_iff }

abbrev pub is_upper : ℕ → Bool
is_upper c = leb b'A' c && leb c b'Z'

abbrev pub is_lower : ℕ → Bool
is_lower c = leb b'a' c && leb c b'z'

abbrev pub to_lower : ℕ → ℕ
to_lower c = if is_upper c then c + 32 else c

abbrev pub to_upper : ℕ → ℕ
to_upper c = if is_lower c then c - 32 else c

-- key.title(), after a letter or not
unfoldable pub title : Bool → List ℕ → List ℕ
title cased [] = []
title cased (c ∷ s) =
    (if cased then to_lower c else to_upper c) ∷ title (is_upper c || is_lower c) s

unfoldable pub normkey : List ℕ → List ℕ
normkey key = title false key

pub data Value : Type 0 where
  no_value : Value
  text : List ℕ → Value
  texts : List (List ℕ) → Value

unfoldable pub normvalue : Value → List (List ℕ)
normvalue no_value = []
normvalue (text s) = s ∷ []
normvalue (texts xs) = xs

abbrev pub Headers : Type 0
Headers = Dict (List ℕ) (List (List ℕ))

-- values[-1], which raises IndexError for no values
unfoldable pub last_value : List (List ℕ) → Option (List ℕ)
last_value [] = none
last_value (v ∷ []) = some v
last_value (v ∷ w ∷ vs) = last_value (w ∷ vs)

-- __setitem__
unfoldable pub set_item : List ℕ → Value → Headers → Headers
set_item key value h = Dict.put (normkey key) (normvalue value) h

-- __delitem__ and pop without a default; none is KeyError
unfoldable pub del_item : List ℕ → Headers → Option Headers
del_item key h = elim (Dict.get (normkey key) h) [
  | none ↦ none
  | some vs ↦ some (Dict.remove (normkey key) h)
]

-- __contains__
unfoldable pub contains_key : List ℕ → Headers → Bool
contains_key key h = elim (Dict.get (normkey key) h) [ none ↦ false | some vs ↦ true ]

unfoldable pub setdefault : List ℕ → Value → Headers → List (List ℕ) × Headers
setdefault key value h = elim (Dict.get (normkey key) h) [
  | none ↦ (normvalue value, Dict.put (normkey key) (normvalue value) h)
  | some vs ↦ (vs, h)
]

-- __getitem__: none is KeyError, and some none is None
unfoldable pub get_item : List ℕ → Headers → Option (Option (List ℕ))
get_item key h = elim (Dict.get (normkey key) h) [ none ↦ none | some vs ↦ some (last_value vs) ]

unfoldable pub get : List ℕ → Value → Headers → Option (List ℕ)
get key default h = elim (Dict.get (normkey key) h) [
  | none ↦ last_value (normvalue default)
  | some vs ↦ last_value vs
]

unfoldable pub getlist : List ℕ → Value → Headers → List (List ℕ)
getlist key default h = elim (Dict.get (normkey key) h) [ none ↦ normvalue default | some vs ↦ vs ]

unfoldable pub setlist : List ℕ → List (List ℕ) → Headers → Headers
setlist key values h = set_item key (texts values) h

unfoldable pub appendlist : List ℕ → Value → Headers → Headers
appendlist key value h = setlist key (getlist key no_value h ++ normvalue value) h

-- The loop of `update`, over the items of its argument.
unfoldable pub collect : List (List ℕ × Value) → Headers → Headers
collect [] iseq = iseq
collect ((k, v) ∷ seq) iseq =
    let (old, iseq') = setdefault k no_value iseq in
    collect seq (Dict.put (normkey k) (old ++ normvalue v) iseq')

-- dict.update(self, iseq)
unfoldable pub put_all : Headers → Headers → Headers
put_all [] h = h
put_all ((k, vs) ∷ iseq) h = put_all iseq (Dict.put k vs h)

unfoldable pub update : List (List ℕ × Value) → Headers → Headers
update seq h = put_all (collect seq []) h
