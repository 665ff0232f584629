-- ===== src/Settings/Tests.antt =====
-- Runs of settings with numbers as their values.
use scrapy.Prelude.{
  ℕ, ◌≡◌, refl, Bool, true, false, Option, none, some, List, [], ◌∷◌, String, nat_beq,
}
use scrapy.Dict
use scrapy.Dict.{Dict}
use scrapy.Settings.Values.{ValueClass, new_attribute, set_attribute}
use scrapy.Settings.{
  BaseSettings, new_settings, set, set_each, update, update_settings, get_settings_priority,
  set_all, maxpriority,
}
use scrapy.Settings.Nested.{Value, mapping, nested, value_class, init, update_value}
use scrapy.Settings.Writes.{set_each-winner, current, over, winner}
use scrapy.Settings.Component.{Component, path, class}

abbrev numbers : ValueClass ℕ
numbers = record { is_none = λ v. false; value_priority = λ v. none; build = λ v p. none }

abbrev writes : List (String × ℕ × ℕ)
writes =
    ("RETRY_TIMES", 2, 0)
    ∷ ("RETRY_TIMES", 9, 40)
    ∷ ("DEPTH_LIMIT", 3, 20)
    ∷ ("RETRY_TIMES", 5, 20)
    ∷ []

abbrev empty : BaseSettings ℕ
empty = new_settings

highest : winner "RETRY_TIMES" writes ≡ some (9, 40)
highest = refl

set_each-winner_example :
    (s' : BaseSettings ℕ) × (set_each numbers writes empty ≡ some s')
    × ((name : String) → current name s' ≡ over (current name empty) (winner name writes))
unfolding Dict.get
set_each-winner_example =
    set_each-winner numbers writes empty refl (λ name. _) (refl, (refl, (refl, (refl, _))))

abbrev one_set : BaseSettings ℕ
one_set = record {
  frozen = false;
  attributes = ("DEPTH_LIMIT", record { value = 3; priority = 20 }) ∷ [];
}

abbrev upper : String → Bool
upper s = true

-- Two paths of the class 1.
abbrev load : String → Option ℕ
load p = some 1

abbrev both : Dict Component (Option ℕ)
both = (path "a.A", some 100) ∷ (class 2, some 200) ∷ (path "b.B", none) ∷ []

abbrev replaced : Dict Component (Option ℕ)
replaced = (class 2, some 200) ∷ (class 1, some 300) ∷ []

-- A setting that holds settings is set to settings with a priority of 40: its own priority is then
-- 20, so a write at 30 takes the place of what was set at 40.
abbrev levels : ValueClass (Value ℕ)
levels = value_class numbers (nat_beq 0) (λ v. none)

abbrev from_cmdline : Value ℕ
from_cmdline =
    nested (record { frozen = false; attributes = ("x", record { value = 1; priority = 40 }) ∷ [] })

abbrev promoted : BaseSettings (Value ℕ)
promoted = record {
  frozen = false;
  attributes = ("X", record { value = nested empty; priority = 0 }) ∷ [];
}

nested_priority_lost :
    set_each levels (("X", from_cmdline, 20) ∷ ("X", mapping (("y", 2) ∷ []), 30) ∷ []) promoted
    ≡ some (record {
      frozen = false;
      attributes =
          (
            "X",
            record {
              value = nested (record {
                frozen = false;
                attributes = ("y", record { value = 2; priority = 30 }) ∷ [];
              });
              priority = 30;
            },
          )
          ∷ [];
    })
unfolding set_each set get_settings_priority set_attribute new_attribute Dict.get Dict.put init
    update_value update update_settings set_all maxpriority
nested_priority_lost = refl
