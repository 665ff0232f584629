-- ===== src/Settings/Frozen.antt =====
-- Frozen settings, and the priorities of settings.
use mathlib.Core.Path.{subst}
use scrapy.Prelude.{
  get_or, sym, ap, ◌∙◌, ℕ, ◌≤◌, ◌≡◌, refl, Bool, Option, none, some, List, String, if◌then◌else◌,
  ◌==◌, string_eq, arith, is_some, inl, inr, Bool-cases, Option-cases,
}
use scrapy.Dict
use scrapy.Dict.Laws.{get-put}
use scrapy.Settings.Values.{ValueClass, SettingsAttribute, new_attribute, set_attribute}
use scrapy.Settings.Component.{put_back}
use scrapy.Settings.{
  BaseSettings, Priority, level, set, setdefault, update, update_settings, setmodule, delete,
  delitem, pop, getpriority, get_settings_priority, freeze, getitem,
}

-- The priority of a name that is set.
abbrev pub AtLeast : ℕ → Option ℕ → Type 0
AtLeast p none = ⊥
AtLeast p (some q) = p ≤ q

module _ {A : Type 0} (C : ValueClass A) where
  -- On frozen settings every method that changes settings raises. `pop` and `setdefault` only return
  -- what they return without a change, else they raise too.
  pub frozen_kept :
      (s : BaseSettings A) (name : String) (v : A) (priority : Priority)
      (values : List (String × A)) (t : BaseSettings A) (isupper : String → Bool)
      (default : Option A)
      → (set C name v priority (freeze s) ≡ none)
        × (delete name priority (freeze s) ≡ none)
        × (delitem name (freeze s) ≡ none)
        × (update C values priority (freeze s) ≡ none)
        × (update_settings C t (freeze s) ≡ none)
        × (setmodule C isupper values priority (freeze s) ≡ none)
        × (pop name default (freeze s) ≡ (
            if is_some (getitem name s)
            then none
            else elim default [ none ↦ none | some d ↦ some (d, freeze s) ]))
        × (setdefault C name v priority (freeze s)
            ≡ elim (getitem name s) [ none ↦ none | some u ↦ some (u, freeze s) ])
  unfolding freeze set delete delitem update update_settings setmodule pop setdefault getitem
  frozen_kept s name v priority values t isupper default =
      (refl, ground arith, refl, refl, refl, refl, ground arith, ground arith)

  set_attribute-priority :
      (v : A) (p : ℕ) (a a' : SettingsAttribute A)
      → set_attribute C v p a ≡ some a'
      → (a.priority ≤ a'.priority) × (p ≤ a'.priority)
  unfolding set_attribute
  set_attribute-priority v p a a' h = (ground arith, ground arith)

  new_attribute-priority : (v : A) (p : ℕ) → p ≤ (new_attribute C v p).priority
  unfolding new_attribute
  new_attribute-priority v p = ground arith

  getpriority-put :
      (name k : String) (a : SettingsAttribute A) (s : BaseSettings A)
      → getpriority k (record s { attributes = Dict.put name a s.attributes })
        ≡ (if name == k then some a.priority else getpriority k s)
  unfolding getpriority
  getpriority-put name k a s = ground (arith, get-put name k a s.attributes)

  -- What `set` does to the attributes.
  set-put :
      (name : String) (v : A) (p : ℕ) (s s' : BaseSettings A)
      → set C name v (level p) s ≡ some s'
      → (a : SettingsAttribute A) × (s' ≡ record s { attributes = Dict.put name a s.attributes })
        × (p ≤ a.priority)
        × ((q : ℕ) → getpriority name s ≡ some q → q ≤ a.priority)
  unfolding set get_settings_priority getpriority
  set-put name v p s s' h = elim (Option-cases (Dict.get name s.attributes)) [
    | inl n ↦ (
      new_attribute C v p,
      ground arith,
      new_attribute-priority v p,
      λ q e. absurd (ground arith),
    )
    | inr (a, n) ↦ elim (Option-cases (set_attribute C v p a)) [
      | inl m ↦ absurd (ground arith)
      | inr (a', m) ↦
          let (old, new) = set_attribute-priority v p a a' m in
          (a', ground arith, new, λ q e. ground arith)
    ]
  ]

  -- After `set` the setting has at least the priority of the write, and no setting has lost priority.
  pub set-priority :
      (name : String) (v : A) (p : ℕ) (s s' : BaseSettings A)
      → set C name v (level p) s ≡ some s'
      → AtLeast p (getpriority name s')
        × ((k : String) (q : ℕ) → getpriority k s ≡ some q → AtLeast q (getpriority k s'))
  set-priority name v p s s' h =
      let (a, e, new, old) = set-put name v p s s' h in
      let found : (k : String)
          → getpriority k s' ≡ (if name == k then some a.priority else getpriority k s) =
        λ k. ap (getpriority k) e ∙ getpriority-put name k a s in
      (
        subst (AtLeast p) (sym (found name)) (ground (arith, string_eq.same_iff name name)),
        λ k q g. elim (Bool-cases (name == k)) [
          | inl y ↦
              let same = (string_eq.same_iff name k).0 y in
              subst (AtLeast q) (sym (found k))
                (ground (arith, old q (ap (λ x. getpriority x s) same ∙ g)))
          | inr n ↦ subst (AtLeast q) (sym (found k)) (ground arith)
        ],
      )

  -- put_back, the end of the methods that change a list or a component priority dictionary, neither
  -- loses nor raises the priority of the setting; a name that was not set gets the lowest priority.
  pub put_back-priority :
      (name : String) (v : A) (s s' : BaseSettings A)
      → put_back C name v s ≡ some s'
      → C.value_priority v ≡ none
      → getpriority name s' ≡ some (get_or (getpriority name s) 0)
  unfolding put_back set get_settings_priority getpriority set_attribute new_attribute
  put_back-priority name v s s' h c = elim (Option-cases (Dict.get name s.attributes)) [
    | inl n ↦ ground (
      arith,
      get-put name name (record { value = v; priority = 0 }) s.attributes,
      string_eq.same_iff name name,
    )
    | inr (a, n) ↦ elim (Option-cases (set_attribute C v a.priority a)) [
      | inl m ↦ absurd (ground arith)
      | inr (a', m) ↦
          ground (arith, get-put name name a' s.attributes, string_eq.same_iff name name)
    ]
  ]
