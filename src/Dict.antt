-- ===== src/Dict.antt =====
-- Python's `dict`: keys compared by `==`, entries in the order in which their keys were first set.
-- A dict holds a key once, so deleting the first entry of a key deletes the key.
pub mod Laws
use scrapy.Prelude.{Bool, Option, none, some, List, [], ◌∷◌, HasEq, ◌==◌, if◌then◌else◌}

abbrev pub Dict {ℓ κ} : Type ℓ → Type κ → Type (ℓ ⊔ κ)
Dict K V = List (K × V)

module _ {ℓ κ} {K : Type ℓ} {V : Type κ} ⦃e : HasEq K⦄ where
  -- d.get(k)
  unfoldable pub get : K → Dict K V → Option V
  get k [] = none
  get k ((j, v) ∷ d) = if j == k then some v else get k d

  -- d[k] = v
  unfoldable pub put : K → V → Dict K V → Dict K V
  put k v [] = (k, v) ∷ []
  put k v ((j, w) ∷ d) = if j == k then (j, v) ∷ d else (j, w) ∷ put k v d

  -- del d[k], d.pop(k)
  unfoldable pub remove : K → Dict K V → Dict K V
  remove k [] = []
  remove k ((j, v) ∷ d) = if j == k then d else (j, v) ∷ remove k d

  -- d.pop(k, None)
  unfoldable pub discard : K → Dict K V → Dict K V
  discard k [] = []
  discard k ((j, v) ∷ d) = let rest = discard k d in if j == k then rest else (j, v) ∷ rest
