-- ===== src/Settings.antt =====
-- settings/__init__.py: BaseSettings, over the interface of its values. A value that is a
-- SettingsAttribute is left out, and so are deprecation warnings. `none` is an exception: TypeError
-- of frozen settings, KeyError of an unknown name of a priority, or what a value raises.
pub mod Values
pub mod Nested
pub mod Writes
pub mod Frozen
pub mod Component
mod Tests
use Values.{ValueClass, SettingsAttribute, new_attribute, set_attribute, max}
use scrapy.Prelude.{
  ℕ, ◌≤◌, Bool, true, false, Option, none, some, List, [], ◌∷◌, String, if◌then◌else◌, leb, is_some,
  ◌==◌, string_eq,
}
use scrapy.Dict
use scrapy.Dict.{Dict}

-- A priority: a number or a name.
pub data Priority : Type 0 where
  level : ℕ → Priority
  named : String → Priority

abbrev pub settings_priorities : Dict String ℕ
settings_priorities =
    ("default", 0)
    ∷ ("command", 10)
    ∷ ("addon", 15)
    ∷ ("project", 20)
    ∷ ("spider", 30)
    ∷ ("cmdline", 40)
    ∷ []

unfoldable pub get_settings_priority : Priority → Option ℕ
get_settings_priority (level p) = some p
get_settings_priority (named s) = Dict.get s settings_priorities

pub record BaseSettings (V : Type 0) : Type 0 where
  pub frozen : Bool
  pub attributes : Dict String (SettingsAttribute V)

abbrev pub max_of : {A : Type 0} → Dict String (SettingsAttribute A) → ℕ
max_of [] = 0
max_of ((k, a) ∷ d) = max a.priority (max_of d)

abbrev pub entries : {A : Type 0} → Dict String (SettingsAttribute A) → List (String × A × ℕ)
entries [] = []
entries ((k, a) ∷ d) = (k, a.value, a.priority) ∷ entries d

module _ {V : Type 0} where
  -- BaseSettings()
  abbrev pub new_settings : BaseSettings V
  new_settings = record { frozen = false; attributes = [] }

  -- __getitem__; `none` stands for the None of a missing name
  unfoldable pub getitem : String → BaseSettings V → Option V
  getitem name s = elim (Dict.get name s.attributes) [ none ↦ none | some a ↦ some a.value ]

  unfoldable pub has_name : String → BaseSettings V → Bool
  has_name name s = is_some (Dict.get name s.attributes)

  unfoldable pub getpriority : String → BaseSettings V → Option ℕ
  getpriority name s = elim (Dict.get name s.attributes) [ none ↦ none | some a ↦ some a.priority ]

  -- The priorities are at least that of "default", the one of empty settings.
  unfoldable pub maxpriority : BaseSettings V → ℕ
  maxpriority s = max_of s.attributes

  -- delete
  unfoldable pub delete : String → Priority → BaseSettings V → Option (BaseSettings V)
  unfolding get_settings_priority
  delete name priority s = elim (Dict.get name s.attributes) [
    | none ↦ none
    | some a ↦ if s.frozen then none else elim (get_settings_priority priority) [
      | none ↦ none
      | some p ↦
          some (
            if leb a.priority p then record s { attributes = Dict.remove name s.attributes } else s)
    ]
  ]

  -- __delitem__
  unfoldable pub delitem : String → BaseSettings V → Option (BaseSettings V)
  delitem name s =
      if s.frozen
      then none
      else if is_some (Dict.get name s.attributes)
      then some (record s { attributes = Dict.remove name s.attributes })
      else none

  -- pop, with a default or without one
  unfoldable pub pop : String → Option V → BaseSettings V → Option (V × BaseSettings V)
  unfolding delitem
  pop name default s = elim (Dict.get name s.attributes) [
    | none ↦ elim default [ none ↦ none | some v ↦ some (v, s) ]
    | some a ↦ elim (delitem name s) [ none ↦ none | some s' ↦ some (a.value, s') ]
  ]

  unfoldable pub freeze : BaseSettings V → BaseSettings V
  freeze s = record s { frozen = true }

  -- `copy` of values that do not change is the same settings.
  unfoldable pub frozencopy : BaseSettings V → BaseSettings V
  unfolding freeze
  frozencopy s = freeze s

  module _ (C : ValueClass V) where
    unfoldable pub get : String → V → BaseSettings V → V
    unfolding getitem
    get name default s = elim (getitem name s) [
      | none ↦ default
      | some v ↦ if C.is_none v then default else v
    ]

    -- set
    unfoldable pub set : String → V → Priority → BaseSettings V → Option (BaseSettings V)
    unfolding get_settings_priority
    set name value priority s = if s.frozen then none else elim (get_settings_priority priority) [
      | none ↦ none
      | some p ↦ elim (Dict.get name s.attributes) [
        | none ↦
            some (record s { attributes = Dict.put name (new_attribute C value p) s.attributes })
        | some a ↦ elim (set_attribute C value p a) [
          | none ↦ none
          | some a' ↦ some (record s { attributes = Dict.put name a' s.attributes })
        ]
      ]
    ]

    -- setdefault: what it returns, and the settings
    unfoldable pub setdefault : String → V → Priority → BaseSettings V → Option (V × BaseSettings V)
    unfolding set
    setdefault name default priority s = elim (Dict.get name s.attributes) [
      | none ↦ elim (set name default priority s) [ none ↦ none | some s' ↦ some (default, s') ]
      | some a ↦ some (a.value, s)
    ]

    -- The loop of `update` over items that are not a BaseSettings.
    unfoldable pub set_all : Priority → List (String × V) → BaseSettings V → Option (BaseSettings V)
    set_all priority [] s = some s
    set_all priority ((name, v) ∷ rest) s = elim (set name v priority s) [
      | none ↦ none
      | some s' ↦ set_all priority rest s'
    ]

    -- The loop of `update` over the settings of a BaseSettings, each with its own priority.
    unfoldable pub set_each : List (String × V × ℕ) → BaseSettings V → Option (BaseSettings V)
    set_each [] s = some s
    set_each ((name, v, p) ∷ rest) s = elim (set name v (level p) s) [
      | none ↦ none
      | some s' ↦ set_each rest s'
    ]

    -- update
    unfoldable pub update : List (String × V) → Priority → BaseSettings V → Option (BaseSettings V)
    update values priority s = if s.frozen then none else set_all priority values s

    unfoldable pub update_settings : BaseSettings V → BaseSettings V → Option (BaseSettings V)
    update_settings values s = if s.frozen then none else set_each (entries values.attributes) s

    -- setmodule; `isupper` is that of `str`, `module` the names of the module with their values
    unfoldable pub set_upper :
        (String → Bool) → Priority → List (String × V) → BaseSettings V → Option (BaseSettings V)
    set_upper isupper priority [] s = some s
    set_upper isupper priority ((name, v) ∷ rest) s =
        if isupper name
        then elim (set name v priority s) [
          | none ↦ none
          | some s' ↦ set_upper isupper priority rest s'
        ]
        else set_upper isupper priority rest s

    unfoldable pub setmodule :
        (String → Bool) → List (String × V) → Priority → BaseSettings V → Option (BaseSettings V)
    setmodule isupper values priority s =
        if s.frozen then none else set_upper isupper priority values s
