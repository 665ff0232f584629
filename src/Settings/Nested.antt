-- ===== src/Settings/Nested.antt =====
-- settings/__init__.py: settings whose values may be settings, one level up from the values of a
-- class. `falsy` and `parse` are what `bool` and the first lines of `update` make of a value that is
-- neither None, a dict nor a BaseSettings: the dict in a JSON text, the pairs of an iterable.
use Prim.Native.String.{◌++◌}
use scrapy.Prelude.{
  ℕ, Bool, true, false, Option, none, some, List, [], ◌∷◌, String, if◌then◌else◌, get_or,
}
use scrapy.Dict.{Dict}
use scrapy.Settings.Values.{ValueClass}
use scrapy.Settings.{
  BaseSettings, Priority, level, named, entries, new_settings, maxpriority, getitem, set, update,
  update_settings, setmodule,
}

pub data Value (V : Type 0) : Type 0 where
  nothing : Value V
  plain : V → Value V
  mapping : Dict String V → Value V
  nested : BaseSettings V → Value V

abbrev pub is_nothing : {A : Type 0} → Value A → Bool
is_nothing nothing = true
is_nothing _ = false

abbrev pub nested_priority : {A : Type 0} → Value A → Option ℕ
nested_priority (nested t) = some (maxpriority t)
nested_priority _ = none

module _ {V : Type 0} (C : ValueClass V) (falsy : V → Bool)
    (parse : V → Option (Dict String V)) where
  -- update, of any value
  unfoldable pub update_value : Value V → Priority → BaseSettings V → Option (BaseSettings V)
  update_value nothing priority s = if s.frozen then none else some s
  update_value (plain v) priority s = elim (parse v) [
    | none ↦ none
    | some d ↦ update C d priority s
  ]
  update_value (mapping d) priority s = update C d priority s
  update_value (nested t) priority s = update_settings C t s

  -- BaseSettings.__init__
  unfoldable pub init : Value V → Priority → Option (BaseSettings V)
  unfolding update_value
  init (plain v) priority =
      if falsy v then some new_settings else update_value (plain v) priority new_settings
  init value priority = update_value value priority new_settings

  abbrev pub build_nested : Value V → ℕ → Option (Value V)
  build_nested v p = elim (init v (level p)) [ none ↦ none | some t ↦ some (nested t) ]

  -- The values of settings that are one level up.
  abbrev pub value_class : ValueClass (Value V)
  value_class = record {
    is_none = is_nothing;
    value_priority = nested_priority;
    build = build_nested;
  }

  -- The loop of Settings.__init__ that makes settings of the dicts among the default settings.
  unfoldable pub promote :
      List (String × Value V × ℕ) → BaseSettings (Value V) → Option (BaseSettings (Value V))
  unfolding init
  promote [] s = some s
  promote ((name, mapping d, p) ∷ rest) s = elim (init (mapping d) (named "default")) [
    | none ↦ none
    | some t ↦ elim (set value_class name (nested t) (named "default") s) [
      | none ↦ none
      | some s' ↦ promote rest s'
    ]
  ]
  promote ((name, v, p) ∷ rest) s = promote rest s

  -- Settings.__init__, of a dict of values: the default settings with their names, then the values
  unfoldable pub init_settings :
      (String → Bool)
      → List (String × Value V)
      → Dict String (Value V)
      → Priority
      → Option (BaseSettings (Value V))
  init_settings isupper defaults values priority =
      elim (setmodule value_class isupper defaults (named "default") new_settings) [
        | none ↦ none
        | some s ↦ elim (promote (entries s.attributes) s) [
          | none ↦ none
          | some s' ↦ update value_class values priority s'
        ]
      ]

  -- getwithbase
  unfoldable pub getwithbase : String → BaseSettings (Value V) → Option (BaseSettings V)
  unfolding getitem
  getwithbase name s =
      elim (update_value (get_or (getitem (name ++ "_BASE") s) nothing) (named "project")
        new_settings) [
          | none ↦ none
          | some t ↦ update_value (get_or (getitem name s) nothing) (named "project") t
        ]
