-- ===== src/Settings/Component.antt =====
-- settings/__init__.py: component priority dictionaries, whose keys are classes or import paths, and
-- the settings that hold them. `load` is `load_object` of a path, the class as its identity; `none`
-- is an exception. The priorities in a dictionary are of any type, `none` is None.
pub mod Laws
use scrapy.Prelude.{
  ℕ, ◌≡◌, ◌↔◌, refl, ap, sym, Bool, true, false, Option, none, some, List, [], ◌∷◌, String,
  if◌then◌else◌, HasEq, ◌==◌, string_eq, nat_eq, nat_beq, nat_beq_iff, get_or, arith,
}
use scrapy.Dict
use scrapy.Dict.{Dict}
use scrapy.Settings.Values.{ValueClass}
use scrapy.Settings.{BaseSettings, level, set, getpriority}

pub data Component : Type 0 where
  path : String → Component
  class : ℕ → Component

abbrev pub same_component : Component → Component → Bool
same_component (path p) (path q) = p == q
same_component (class c) (class d) = nat_beq c d
same_component _ _ = false

path_of : Component → String
path_of (path p) = p
path_of (class c) = ""

class_of : Component → ℕ
class_of (path p) = 0
class_of (class c) = c

pub same_component_iff : (x y : Component) → (same_component x y ≡ true) ↔ (x ≡ y)
unfolding path_of class_of
same_component_iff (path p) (path q) =
    (λ h. ap path ((string_eq.same_iff p q).0 h), λ h. (string_eq.same_iff p q).1 (ap path_of h))
same_component_iff (class c) (class d) =
    (λ h. ap class ((nat_eq.same_iff c d).0 h), λ h. (nat_eq.same_iff c d).1 (ap class_of h))
same_component_iff (path p) (class d) = (λ h. absurd (ground arith), λ h. absurd (ground arith))
same_component_iff (class c) (path q) = (λ h. absurd (ground arith), λ h. absurd (ground arith))

instance abbrev pub component_eq : HasEq Component
component_eq = record { same = same_component; same_iff = same_component_iff }

-- load_object
unfoldable pub loaded : (String → Option ℕ) → Component → Option ℕ
loaded load (path p) = load p
loaded load (class c) = some c

module _ {P : Type 0} (load : String → Option ℕ) where
  -- The loop of set_in_component_priority_dict: it drops the paths of a class.
  unfoldable pub drop_paths : ℕ → Dict Component (Option P) → Option (Dict Component (Option P))
  drop_paths cls [] = some []
  drop_paths cls ((class c, v) ∷ d) = elim (drop_paths cls d) [
    | none ↦ none
    | some d' ↦ some ((class c, v) ∷ d')
  ]
  drop_paths cls ((path p, v) ∷ d) =
      let rest = drop_paths cls d in
      elim (load p) [
        | none ↦ none
        | some c ↦ elim rest [
          | none ↦ none
          | some d' ↦ some (if nat_beq c cls then d' else (path p, v) ∷ d')
        ]
      ]

  unfoldable pub set_in_component_priority_dict :
      ℕ → Option P → Dict Component (Option P) → Option (Dict Component (Option P))
  set_in_component_priority_dict cls priority d = elim (drop_paths cls d) [
    | none ↦ none
    | some d' ↦ some (Dict.put (class cls) priority d')
  ]

  -- Whether a key is of the class, up to the first one that is.
  unfoldable pub has_component : ℕ → Dict Component (Option P) → Option Bool
  unfolding loaded
  has_component cls [] = some false
  has_component cls ((k, v) ∷ d) =
      let rest = has_component cls d in
      elim (loaded load k) [ none ↦ none | some c ↦ if nat_beq c cls then some true else rest ]

  unfoldable pub setdefault_in_component_priority_dict :
      ℕ → Option P → Dict Component (Option P) → Option (Dict Component (Option P))
  setdefault_in_component_priority_dict cls priority d = elim (has_component cls d) [
    | none ↦ none
    | some b ↦ some (if b then d else Dict.put (class cls) priority d)
  ]

  -- The loop of replace_in_component_priority_dict: the priority that is taken out last, if any, and
  -- the other entries. A priority None ends in KeyError.
  unfoldable pub take_component :
      ℕ → Dict Component (Option P) → Option (Option P × Dict Component (Option P))
  unfolding loaded
  take_component cls [] = some (none, [])
  take_component cls ((k, v) ∷ d) =
      let rest = take_component cls d in
      elim (loaded load k) [
        | none ↦ none
        | some c ↦
            if nat_beq c cls
            then elim v [
              | none ↦ none
              | some p ↦ elim rest [ none ↦ none | some (o, d') ↦ some (some (get_or o p), d') ]
            ]
            else elim rest [ none ↦ none | some (o, d') ↦ some (o, (k, v) ∷ d') ]
      ]

  unfoldable pub replace_in_component_priority_dict :
      ℕ → ℕ → Option P → Dict Component (Option P) → Option (Dict Component (Option P))
  replace_in_component_priority_dict old new priority d = elim (take_component old d) [
    | none ↦ none
    | some (o, d') ↦ elim o [
      | none ↦ none
      | some p ↦ some (Dict.put (class new) (some (get_or priority p)) d')
    ]
  ]

-- The end of each of these methods, and of add_to_list and remove_from_list.
unfoldable pub put_back :
    {A : Type 0} → ValueClass A → String → A → BaseSettings A → Option (BaseSettings A)
put_back C name v s = set C name v (level (get_or (getpriority name s) 0)) s
