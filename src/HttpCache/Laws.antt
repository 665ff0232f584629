-- ===== src/HttpCache/Laws.antt =====
-- When a cached response is used.
use scrapy.Prelude.{
  ℕ, ◌+◌, ◌*◌, ◌<◌, ◌≡◌, ◌⊎◌, ◌↔◌, leb, refl, Bool, true, false, Option, none, some, String, ltb,
  string_eq, arith, inl, inr, Bool-cases, Option-cases,
}
use scrapy.Dict
use scrapy.Dict.{Dict}
use scrapy.Dict.Laws.{get-put}
use scrapy.Response.{Response}
use scrapy.HttpCache.{
  CacheControl, has, get_max_age, compute_freshness_lifetime, compute_current_age, limited_lifetime,
  min, accepts_stale, is_cached_response_fresh, set_conditional_validators,
}

module _ (int_of : String → Option ℕ) (epoch : String → Option ℕ) (unit : ℕ) where
  -- The age is below the lifetime, and below the max-age of the request if it has one, each made
  -- longer by `slack`.
  abbrev pub IsYoung : ℕ → ℕ → ℕ → Option ℕ → Type 0
  IsYoung slack age lifetime none = age < lifetime + slack
  IsYoung slack age lifetime (some m) = (age < lifetime + slack) × (age < 10 * (unit * m) + slack)

  -- The max-stale of the request, if there is one, covers the age.
  abbrev pub IsCovered : Option (Option String) → ℕ → ℕ → Option ℕ → Type 0
  IsCovered none age lifetime limit = ⊥
  IsCovered (some none) age lifetime limit = Unit
  IsCovered (some (some t)) age lifetime limit =
      (n : ℕ) × (int_of t ≡ some n) × IsYoung (10 * (unit * n)) age lifetime limit

  -- The lifetime under the max-age of the request.
  abbrev limited : ℕ → Option ℕ → ℕ
  limited lifetime none = lifetime
  limited lifetime (some m) = min int_of epoch unit lifetime (10 * (unit * m))

  IsYoung-iff :
      (slack age lifetime : ℕ) (limit : Option ℕ)
      → (age < limited lifetime limit + slack) ↔ IsYoung slack age lifetime limit
  IsYoung-iff slack age lifetime none = (λ h. h, λ w. w)
  IsYoung-iff slack age lifetime (some m) = elim (Bool-cases (leb lifetime (10 * (unit * m)))) [
    | inl y ↦ (λ h. (ground arith, ground arith), λ w. ground (arith, w.0))
    | inr n ↦ (λ h. (ground arith, ground arith), λ w. ground (arith, w.1))
  ]

  accepts_stale_iff :
      (o : Option (Option String)) (must : Bool) (age lifetime : ℕ) (limit : Option ℕ)
      → (accepts_stale int_of epoch unit o must age (limited lifetime limit) ≡ true)
        ↔ ((must ≡ false) × IsCovered o age lifetime limit)
  unfolding accepts_stale
  accepts_stale_iff none must age lifetime limit = (λ h. absurd (ground arith), λ w. absurd w.1)
  accepts_stale_iff (some none) must age lifetime limit =
      (λ h. (ground arith, tt), λ w. ground (arith, w.0))
  accepts_stale_iff (some (some t)) must age lifetime limit = (
    λ h. elim (Option-cases (int_of t)) [
      | inl e ↦ absurd (ground arith)
      | inr (n, e) ↦ (
        ground arith,
        (n, e, (IsYoung-iff (10 * (unit * n)) age lifetime limit).0 (ground arith)),
      )
    ],
    λ w.
        let (must_not, (n, e, young)) = w in
        let below = (IsYoung-iff (10 * (unit * n)) age lifetime limit).1 young in
        ground (arith, must_not, e, below),
  )

  limited_lifetime_lem :
      (cc ccreq : CacheControl) (cached : Response) (now lifetime : ℕ) (limit : Option ℕ)
      → compute_freshness_lifetime int_of epoch unit cc cached now ≡ some lifetime
      → get_max_age int_of ccreq ≡ some limit
      → limited_lifetime int_of epoch unit cc ccreq cached now ≡ some (limited lifetime limit)
  unfolding limited_lifetime
  limited_lifetime_lem cc ccreq cached now lifetime none e e' = rw (limited_lifetime, e, e') refl
  limited_lifetime_lem cc ccreq cached now lifetime (some m) e e' =
      rw (limited_lifetime, e, e') refl

  limited_lifetime-some :
      (cc ccreq : CacheControl) (cached : Response) (now bound : ℕ)
      → limited_lifetime int_of epoch unit cc ccreq cached now ≡ some bound
      → (lifetime : ℕ) × (limit : Option ℕ) × (compute_freshness_lifetime int_of epoch unit cc
            cached now
          ≡ some lifetime)
        × (get_max_age int_of ccreq ≡ some limit)
  unfolding limited_lifetime
  limited_lifetime-some cc ccreq cached now bound h =
      elim (Option-cases (compute_freshness_lifetime int_of epoch unit cc cached now)) [
        | inl e ↦ absurd (ground arith)
        | inr (lifetime, e) ↦ elim (Option-cases (get_max_age int_of ccreq)) [
          | inl e' ↦ absurd (ground arith)
          | inr (limit, e') ↦ (lifetime, limit, e, e')
        ]
      ]

  -- A cached response is used without asking the server exactly where neither it nor the request says
  -- no-cache, its lifetime and the max-age of the request can be read, and either its age is below
  -- its lifetime and below the max-age that the request may have, or it has no must-revalidate and
  -- the max-stale of the request is without a value or covers the time since. The headers of the
  -- request are then as before.
  pub is_cached_response_fresh_lem :
      (cc ccreq : CacheControl) (cached : Response) (now : ℕ)
      (headers headers' : Dict String String)
      → (is_cached_response_fresh int_of epoch unit cc ccreq cached now headers
          ≡ some (true, headers'))
        ↔ ((headers' ≡ headers)
            × (has "no-cache" cc ≡ false)
            × (has "no-cache" ccreq ≡ false)
            × (lifetime : ℕ) × (limit : Option ℕ) × (compute_freshness_lifetime int_of epoch unit cc
                  cached now
                ≡ some lifetime)
            × (get_max_age int_of ccreq ≡ some limit)
            × (IsYoung 0 (compute_current_age int_of epoch unit cached now) lifetime limit
                ⊎ ((has "must-revalidate" cc ≡ false)
                    × IsCovered
                        (Dict.get "max-stale" ccreq)
                        (compute_current_age int_of epoch unit cached now)
                        lifetime
                        limit)))
  unfolding is_cached_response_fresh
  is_cached_response_fresh_lem cc ccreq cached now headers headers' =
      let stale = Dict.get "max-stale" ccreq in
      let must = has "must-revalidate" cc in
      let age = compute_current_age int_of epoch unit cached now in
      (
        λ h. elim (Option-cases (limited_lifetime int_of epoch unit cc ccreq cached now)) [
          | inl e ↦ absurd (ground arith)
          | inr (bound, e) ↦
              let (lifetime, limit, l, m) = limited_lifetime-some cc ccreq cached now bound e in
              let at : bound ≡ limited lifetime limit =
                ground (arith, limited_lifetime_lem cc ccreq cached now lifetime limit l m) in
              (
                ground arith,
                ground arith,
                ground arith,
                lifetime,
                limit,
                l,
                m,
                elim (Bool-cases (ltb age bound)) [
                  | inl y ↦ inl ((IsYoung-iff 0 age lifetime limit).0 (ground arith))
                  | inr n ↦ inr ((accepts_stale_iff stale must age lifetime limit).0 (ground arith))
                ],
              )
        ],
        λ w.
            let (same, own, asked, lifetime, limit, l, m, used) = w in
            let at = limited_lifetime_lem cc ccreq cached now lifetime limit l m in
            elim used [
              | inl y ↦
                  let below = (IsYoung-iff 0 age lifetime limit).1 y in
                  ground (arith, same, own, asked, at, below)
              | inr c ↦
                  let stands = (accepts_stale_iff stale must age lifetime limit).1 c in
                  ground (arith, same, own, asked, at, stands)
            ],
      )

  copied-get :
      (cached : Response) (headers : Dict String String) (v : String)
      → Dict.get "ETag" cached.headers ≡ some v
      → Dict.get "If-None-Match" (set_conditional_validators cached headers) ≡ some v
  unfolding set_conditional_validators
  copied-get cached headers v h = elim (Option-cases (Dict.get "Last-Modified" cached.headers)) [
    | inl e ↦ ground (arith, get-put "If-None-Match" "If-None-Match" v headers)
    | inr (t, e) ↦
        ground (
          arith,
          get-put "If-None-Match" "If-None-Match" v (Dict.put "If-Modified-Since" t headers),
        )
  ]

  -- A response with a max-age without a value makes is_cached_response_fresh raise, unless it or the
  -- request says no-cache.
  pub max_age_raises :
      (cc ccreq : CacheControl) (cached : Response) (now : ℕ) (headers : Dict String String)
      → Dict.get "max-age" cc ≡ some none
      → has "no-cache" cc ≡ false
      → has "no-cache" ccreq ≡ false
      → is_cached_response_fresh int_of epoch unit cc ccreq cached now headers ≡ none
  unfolding is_cached_response_fresh limited_lifetime compute_freshness_lifetime get_max_age
  max_age_raises cc ccreq cached now headers m n k = ground arith

  -- A stale response with an ETag makes the request conditional on it.
  pub stale-conditional :
      (cc ccreq : CacheControl) (cached : Response) (now : ℕ)
      (headers headers' : Dict String String) (v : String)
      → is_cached_response_fresh int_of epoch unit cc ccreq cached now headers
        ≡ some (false, headers')
      → has "no-cache" cc ≡ false
      → has "no-cache" ccreq ≡ false
      → Dict.get "ETag" cached.headers ≡ some v
      → Dict.get "If-None-Match" headers' ≡ some v
  unfolding is_cached_response_fresh
  stale-conditional cc ccreq cached now headers headers' v h n k t =
      elim (Option-cases (limited_lifetime int_of epoch unit cc ccreq cached now)) [
        | inl e ↦ absurd (ground arith)
        | inr (lifetime, e) ↦ ground (arith, copied-get cached headers v t)
      ]
