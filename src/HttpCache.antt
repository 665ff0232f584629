-- ===== src/HttpCache.antt =====
-- extensions/httpcache.py: RFC2616Policy. The Cache-Control headers are given as the dicts that
-- `_parse_cachecontrol` makes of them; `none` in a dict is None. `int_of` is `max(0, int(text))` and
-- `epoch` is rfc1123_to_epoch. The clock has `unit` units in a second, and a lifetime and an age are
-- in tenths of these units, so that the tenth of a difference is exact.
pub mod Laws
pub mod Serving
mod Tests
use scrapy.Prelude.{
  ℕ, zero, suc, ◌+◌, ◌-◌, ◌*◌, Bool, true, false, not, ◌&&◌, ◌||◌, Option, none, some, List, [],
  ◌∷◌, String, if◌then◌else◌, ltb, leb, is_some, ◌==◌, string_eq, nat_eq, contains, nat_beq,
}
use scrapy.Dict
use scrapy.Dict.{Dict}
use scrapy.Response.{Response}

abbrev pub CacheControl : Type 0
CacheControl = Dict String (Option String)

abbrev pub has : {A : Type 0} → String → Dict String A → Bool
has k d = is_some (Dict.get k d)

-- The loop of _parse_cachecontrol over the directives that are to be ignored in responses.
unfoldable pub ignore_controls : List String → CacheControl → CacheControl
ignore_controls [] cc = cc
ignore_controls (k ∷ ks) cc = ignore_controls ks (Dict.discard k cc)

-- should_cache_request, of the scheme of its URL
unfoldable pub should_cache_request : List String → String → CacheControl → Bool
should_cache_request ignore_schemes scheme cc =
    if contains scheme ignore_schemes then false else not (has "no-store" cc)

unfoldable pub should_cache_response : Bool → CacheControl → Response → Bool
should_cache_response always_store cc response =
    if has "no-store" cc
    then false
    else if nat_beq response.status 304
    then false
    else if always_store
    then true
    else if has "max-age" cc || has "Expires" response.headers
    then true
    else if contains response.status (300 ∷ 301 ∷ 308 ∷ [])
    then true
    else if contains response.status (200 ∷ 203 ∷ 401 ∷ [])
    then has "Last-Modified" response.headers || has "ETag" response.headers
    else false

unfoldable pub is_cached_response_valid : CacheControl → Response → Bool
is_cached_response_valid cached_cc response =
    if leb 500 response.status && not (has "must-revalidate" cached_cc)
    then true
    else nat_beq response.status 304

-- `request.headers[name] = ...`, where the cached response has the header
abbrev pub copy_header : String → String → Response → Dict String String → Dict String String
copy_header source target cached headers = elim (Dict.get source cached.headers) [
  | none ↦ headers
  | some v ↦ Dict.put target v headers
]

-- _set_conditional_validators, of the headers of a request
unfoldable pub set_conditional_validators : Response → Dict String String → Dict String String
set_conditional_validators cached headers =
    copy_header "ETag" "If-None-Match" cached
      (copy_header "Last-Modified" "If-Modified-Since" cached headers)

module _ (int_of : String → Option ℕ) where
  -- _get_max_age; `none` when it raises: TypeError of a max-age without a value, which it does not
  -- catch
  unfoldable pub get_max_age : CacheControl → Option (Option ℕ)
  get_max_age cc = elim (Dict.get "max-age" cc) [
    | none ↦ some none
    | some none ↦ none
    | some (some t) ↦ some (int_of t)
  ]

  module _ (epoch : String → Option ℕ) (unit : ℕ) where
    -- `rfc1123_to_epoch(headers.get(name))`, in clock units, where it is not None or 0
    unfoldable pub header_time : String → Response → Option ℕ
    header_time name r = elim (Dict.get name r.headers) [
      | none ↦ none
      | some t ↦ elim (epoch t) [ none ↦ none | some n ↦ if ltb 0 n then some (unit * n) else none ]
    ]

    unfoldable pub response_date : Response → ℕ → ℕ
    unfolding header_time
    response_date r now = elim (header_time "Date" r) [ none ↦ now | some date ↦ date ]

    -- _compute_freshness_lifetime after the max-age, in tenths; a difference below 0 is 0
    unfoldable pub header_lifetime : Response → ℕ → ℕ
    unfolding response_date
    header_lifetime r now =
        let date = response_date r now in
        let heuristic =
          if contains r.status (300 ∷ 301 ∷ 308 ∷ []) then 10 * (unit * 31536000) else 0 in
        if has "Expires" r.headers
        then elim (header_time "Expires" r) [ none ↦ 0 | some expires ↦ 10 * (expires - date) ]
        else elim (header_time "Last-Modified" r) [
          | none ↦ heuristic
          | some last_modified ↦ if leb last_modified date then date - last_modified else heuristic
        ]

    unfoldable pub compute_freshness_lifetime : CacheControl → Response → ℕ → Option ℕ
    unfolding header_lifetime get_max_age
    compute_freshness_lifetime cc r now = elim (get_max_age cc) [
      | none ↦ none
      | some (some m) ↦ some (10 * (unit * m))
      | some none ↦ some (header_lifetime r now)
    ]

    -- _compute_current_age, in tenths
    unfoldable pub compute_current_age : Response → ℕ → ℕ
    unfolding response_date
    compute_current_age r now =
        let apparent = 10 * (now - response_date r now) in
        elim (Dict.get "Age" r.headers) [
          | none ↦ apparent
          | some t ↦ elim (int_of t) [
            | none ↦ apparent
            | some a ↦ if ltb apparent (10 * (unit * a)) then 10 * (unit * a) else apparent
          ]
        ]

    abbrev pub min : ℕ → ℕ → ℕ
    min m n = if leb m n then m else n

    -- The lifetime, not above the max-age of the request.
    unfoldable pub limited_lifetime : CacheControl → CacheControl → Response → ℕ → Option ℕ
    unfolding compute_freshness_lifetime
    limited_lifetime cc ccreq cached now = elim (compute_freshness_lifetime cc cached now) [
      | none ↦ none
      | some lifetime ↦ elim (get_max_age ccreq) [
        | none ↦ none
        | some none ↦ some lifetime
        | some (some m) ↦ some (min lifetime (10 * (unit * m)))
      ]
    ]

    -- Whether the max-stale of a request, if it has one, accepts a response of this age beyond its
    -- lifetime; `must` tells whether the response has must-revalidate.
    unfoldable pub accepts_stale : Option (Option String) → Bool → ℕ → ℕ → Bool
    accepts_stale none must age lifetime = false
    accepts_stale (some none) must age lifetime = not must
    accepts_stale (some (some t)) must age lifetime =
        not must && elim (int_of t) [ none ↦ false | some n ↦ ltb age (lifetime + 10 * (unit * n)) ]

    -- is_cached_response_fresh, and the headers of the request after it; `none` when it raises
    unfoldable pub is_cached_response_fresh :
        CacheControl
        → CacheControl
        → Response
        → ℕ
        → Dict String String
        → Option (Bool × Dict String String)
    unfolding limited_lifetime compute_current_age accepts_stale
    is_cached_response_fresh cc ccreq cached now headers =
        if has "no-cache" cc || has "no-cache" ccreq
        then some (false, headers)
        else elim (limited_lifetime cc ccreq cached now) [
          | none ↦ none
          | some lifetime ↦
              let age = compute_current_age cached now in
              if ltb age lifetime
                || accepts_stale (Dict.get "max-stale" ccreq) (has "must-revalidate" cc) age
                    lifetime
              then some (true, headers)
              else some (false, set_conditional_validators cached headers)
        ]
