-- ===== src/Settings/Writes.antt =====
-- What a setting is after a run of writes.
use scrapy.Prelude.{
  ℕ, ◌≡◌, refl, false, Option, none, some, List, [], ◌∷◌, String, if◌then◌else◌, ltb, leb, ◌==◌,
  string_eq, arith, inl, inr, Bool-cases, Option-cases, All,
}
use scrapy.Dict
use scrapy.Dict.{Dict}
use scrapy.Dict.Laws.{get-put}
use scrapy.Settings.Values.{ValueClass, SettingsAttribute, new_attribute, set_attribute}
use scrapy.Settings.{BaseSettings, level, set, set_each, get_settings_priority}

-- The write that counts for a name: of those with the highest priority, the last.
abbrev pub winner : {A : Type 0} → String → List (String × A × ℕ) → Option (A × ℕ)
winner name [] = none
winner name ((k, v, p) ∷ rest) =
    let later = winner name rest in
    if k == name
    then elim later [
      | none ↦ some (v, p)
      | some (u, q) ↦ if ltb q p then some (v, p) else some (u, q)
    ]
    else later

-- A write on top of what is there.
abbrev pub over : {A : Type 0} → Option (A × ℕ) → Option (A × ℕ) → Option (A × ℕ)
over none w = w
over (some (u, q)) none = some (u, q)
over (some (u, q)) (some (v, p)) = if leb q p then some (v, p) else some (u, q)

over_assoc : {V : Type 0} (a b c : Option (V × ℕ)) → over (over a b) c ≡ over a (over b c)
over_assoc none b c = refl
over_assoc (some (u, q)) none c = refl
over_assoc (some (u, q)) (some (v, p)) none = ground arith
over_assoc (some (u, q)) (some (v, p)) (some (w, r)) = ground arith

module _ {V : Type 0} where
  abbrev pub shown : Option (SettingsAttribute V) → Option (V × ℕ)
  shown none = none
  shown (some a) = some (a.value, a.priority)

  -- The value of a setting with its priority.
  abbrev pub current : String → BaseSettings V → Option (V × ℕ)
  current name s = shown (Dict.get name s.attributes)

  winner-cons :
      (name k : String) (v : V) (p : ℕ) (rest : List (String × V × ℕ))
      → winner name ((k, v, p) ∷ rest)
        ≡ (if k == name then over (some (v, p)) (winner name rest) else winner name rest)
  winner-cons name k v p rest = ground arith

  module _ (C : ValueClass V) where
    abbrev pub PlainOr : Option (SettingsAttribute V) → Type 0
    PlainOr none = Unit
    PlainOr (some a) = C.value_priority a.value ≡ none

    -- No value is a BaseSettings.
    abbrev pub Plain : BaseSettings V → Type 0
    Plain s = (name : String) → PlainOr (Dict.get name s.attributes)

    -- One write of a plain value.
    set-over :
        (k : String) (v : V) (p : ℕ) (s : BaseSettings V)
        → s.frozen ≡ false
        → Plain s
        → C.value_priority v ≡ none
        → (a : SettingsAttribute V) × (set C k v (level p) s
            ≡ some (record s { attributes = Dict.put k a s.attributes }))
          × (C.value_priority a.value ≡ none)
          × (some (a.value, a.priority) ≡ over (current k s) (some (v, p)))
    unfolding set get_settings_priority set_attribute new_attribute
    set-over k v p s f h c =
        let hk = h k in
        elim (Option-cases (Dict.get k s.attributes)) [
          | inl n ↦ (record { value = v; priority = p }, ground arith, c, ground arith)
          | inr (a, n) ↦ elim (Bool-cases (leb a.priority p)) [
            | inl y ↦ (record { value = v; priority = p }, ground arith, c, ground arith)
            | inr y ↦ (a, ground arith, ground arith, ground arith)
          ]
        ]

    put-Plain :
        (k : String) (a : SettingsAttribute V) (s : BaseSettings V)
        → C.value_priority a.value ≡ none
        → Plain s
        → Plain (record s { attributes = Dict.put k a s.attributes })
    put-Plain k a s c h = λ name. let hn = h name in ground (arith, get-put k name a s.attributes)

    current-put :
        (name k : String) (a : SettingsAttribute V) (s : BaseSettings V)
        → current name (record s { attributes = Dict.put k a s.attributes })
          ≡ (if k == name then some (a.value, a.priority) else current name s)
    current-put name k a s = ground (arith, get-put k name a s.attributes)

    -- Any run of writes of plain values succeeds on settings that are not frozen, and each setting is
    -- then what the write that counts for it says: of the writes with the highest priority, the last
    -- one, where what was there before counts as the first write.
    pub set_each-winner :
        (ws : List (String × V × ℕ)) (s : BaseSettings V)
        → s.frozen ≡ false
        → Plain s
        → All (λ w. C.value_priority w.1 ≡ none) ws
        → (s' : BaseSettings V) × (set_each C ws s ≡ some s')
          × ((name : String) → current name s' ≡ over (current name s) (winner name ws))
    unfolding set_each
    set_each-winner [] s f h a = (s, refl, λ name. ground arith)
    set_each-winner ((k, v, p) ∷ rest) s f h (c, cs) =
        let (a, e, ca, o) = set-over k v p s f h c in
        let s1 : BaseSettings V = record s { attributes = Dict.put k a s.attributes } in
        let (s', e', all) = set_each-winner rest s1 f (put-Plain k a s ca h) cs in
        (
          s',
          ground (arith, e, e'),
          λ name. ground (
            arith,
            all name,
            current-put name k a s,
            winner-cons name k v p rest,
            over_assoc (current name s) (some (v, p)) (winner name rest),
            string_eq.same_iff k name,
          ),
        )
