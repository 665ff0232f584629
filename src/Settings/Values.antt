-- ===== src/Settings/Values.antt =====
-- settings/__init__.py: the interface of the values of settings, for settings of one level of
-- nesting, and SettingsAttribute, which is for internal use.
use scrapy.Prelude.{ℕ, Bool, Option, none, some, if◌then◌else◌, leb}

-- What the settings ask of a value. Its own settings, where it is a BaseSettings, are of the level
-- below.
pub record ValueClass (V : Type 0) : Type 0 where
  pub is_none : V → Bool
  -- `value.maxpriority()`, where the value is a BaseSettings
  pub value_priority : V → Option ℕ
  -- `BaseSettings(value, priority=priority)`; `none` when it raises
  pub build : V → ℕ → Option V

pub record SettingsAttribute (V : Type 0) : Type 0 where
  pub value : V
  pub priority : ℕ

abbrev pub max : ℕ → ℕ → ℕ
max m n = if leb m n then n else m

module _ {V : Type 0} (C : ValueClass V) where
  -- SettingsAttribute.__init__
  unfoldable pub new_attribute : V → ℕ → SettingsAttribute V
  new_attribute value priority = elim (C.value_priority value) [
    | none ↦ record { value = value; priority = priority }
    | some m ↦ record { value = value; priority = max m priority }
  ]

  -- SettingsAttribute.set; `none` when it raises
  unfoldable pub set_attribute : V → ℕ → SettingsAttribute V → Option (SettingsAttribute V)
  set_attribute value priority a =
      if leb a.priority priority
      then elim (C.value_priority a.value) [
        | none ↦ some (record { value = value; priority = priority })
        | some m ↦ elim (C.build value priority) [
          | none ↦ none
          | some v ↦ some (record { value = v; priority = priority })
        ]
      ]
      else some a
