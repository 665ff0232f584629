-- ===== src/HttpCache/Serving.antt =====
-- downloadermiddlewares/httpcache.py: HttpCacheMiddleware, over the interfaces of its policy and of
-- its storage. `R` is the type of requests without the meta keys that the middleware uses.
use scrapy.Prelude.{
  ◌≡◌, List, [], ◌∷◌, contains, Option-cases, ap, ◌∙◌, Bool, true, false, not, ◌||◌, Option, none,
  some, String, if◌then◌else◌, get_or, string_eq, arith, inl, inr, Bool-cases,
}
use scrapy.Dict
use scrapy.Response.{Response}
use scrapy.HttpCache.{has}
use scrapy.Stats.{Stats, inc}

-- A response with its flags; one that a storage returns has none.
pub record Flagged : Type 0 where
  pub response : Response
  pub flags : List String

-- The keys `dont_cache`, `_dont_cache` and `cached_response` of the meta of a request.
pub record CacheMeta : Type 0 where
  pub dont_cache : Bool
  pub uncacheable : Bool
  pub cached_response : Option Flagged

module _ (R : Type 0) where
  pub record CachePolicy : Type 0 where
    pub should_cache_request : R → Bool
    pub should_cache_response : Response → R → Bool
    -- it may add validators to the request
    pub is_cached_response_fresh : Response → R → Bool × R
    pub is_cached_response_valid : Response → Response → R → Bool

  pub record CacheStorage : Type 1 where
    pub S : Type 0
    -- `none` when it raises
    pub retrieve_response : R → S → Option (Option Response)
    pub store_response : R → Response → S → S

-- The middleware has no answer to a request, raises IgnoreRequest, or returns a cached response.
pub data Found : Type 0 where
  pass_on : Found
  ignored : Found
  hit : Flagged → Found

module _ {R : Type 0} (P : CachePolicy R) (T : CacheStorage R) where
  unfoldable pub process_request :
      Bool → R → CacheMeta → T.S → Stats → Found × R × CacheMeta × Stats
  process_request ignore_missing r meta s stats =
      if meta.dont_cache
      then (pass_on, r, meta, stats)
      else if not (P.should_cache_request r)
      then (pass_on, r, record meta { uncacheable = true }, stats)
      else (let retrieved = T.retrieve_response r s in
          let stats' : Stats = elim retrieved [
            | none ↦ inc "httpcache/retrieve_error" stats
            | some o ↦ stats
          ] in
          elim (get_or retrieved none) [
            | none ↦
                if ignore_missing
                then (ignored, r, meta, inc "httpcache/ignore" (inc "httpcache/miss" stats'))
                else (pass_on, r, meta, inc "httpcache/miss" stats')
            | some p ↦
                let c : Flagged = record { response = p; flags = "cached" ∷ [] } in
                let (fresh, r') = P.is_cached_response_fresh p r in
                if fresh
                then (hit c, r', meta, inc "httpcache/hit" stats')
                else (pass_on, r', record meta { cached_response = some c }, stats')
          ])

  -- _cache_response
  unfoldable pub cache_response : Response → R → T.S → Stats → T.S × Stats
  cache_response p r s stats =
      if P.should_cache_response p r
      then (T.store_response r p s, inc "httpcache/store" stats)
      else (s, inc "httpcache/uncacheable" stats)

  -- The response with a Date header; `now` is what formatdate returns.
  unfoldable pub dated : String → Response → Response
  dated now p =
      if has "Date" p.headers then p else record p { headers = Dict.put "Date" now p.headers }

  -- process_response
  unfoldable pub process_response :
      String → R → Flagged → CacheMeta → T.S → Stats → Flagged × CacheMeta × T.S × Stats
  unfolding dated cache_response
  process_response now r p meta s stats =
      if meta.dont_cache
      then (p, meta, s, stats)
      else if meta.uncacheable || contains "cached" p.flags
      then (p, record meta { uncacheable = false }, s, stats)
      else (let p' = dated now p.response in
          let dated_p : Flagged = record p { response = p' } in
          let meta' : CacheMeta = record meta { cached_response = none } in
          elim meta.cached_response [
            | none ↦
                let (s', stats') = cache_response p' r s (inc "httpcache/firsthand" stats) in
                (dated_p, meta', s', stats')
            | some c ↦
                if P.is_cached_response_valid c.response p' r
                then (c, meta', s, inc "httpcache/revalidate" stats)
                else (let (s', stats') = cache_response p' r s (inc "httpcache/invalidate" stats) in
                    (dated_p, meta', s', stats'))
          ])

  -- process_exception; `download` tells whether the exception is one of DOWNLOAD_EXCEPTIONS.
  unfoldable pub process_exception : Bool → CacheMeta → Stats → Option Flagged × CacheMeta × Stats
  process_exception download meta stats =
      let meta' : CacheMeta = record meta { cached_response = none } in
      elim meta.cached_response [
        | none ↦ (none, meta', stats)
        | some c ↦
            if download
            then (some c, meta', inc "httpcache/errorrecovery" stats)
            else (none, meta', stats)
      ]

  -- What the policy does not want to be cached is not stored, and a request with `dont_cache` neither
  -- reads nor writes the storage: after both methods it is as before, whatever the response.
  pub refused-unstored :
      (ignore_missing : Bool) (now : String) (r : R) (p : Flagged) (meta : CacheMeta) (s : T.S)
      (stats : Stats)
      → (meta.dont_cache || not (P.should_cache_request r)) ≡ true
      → (let (found, r', meta', stats') = process_request ignore_missing r meta s stats in
          (found ≡ pass_on) × ((process_response now r' p meta' s stats').2 ≡ s))
  unfolding process_request process_response
  refused-unstored ignore_missing now r p meta s stats h = elim (Bool-cases meta.dont_cache) [
    | inl y ↦ (ground arith, ground arith)
    | inr n ↦ (ground arith, ground arith)
  ]

  hit-request :
      (ignore_missing : Bool) (r : R) (meta : CacheMeta) (s : T.S) (stats : Stats) (c : Flagged)
      → (process_request ignore_missing r meta s stats).0 ≡ hit c
      → (meta.dont_cache ≡ false)
        × (contains "cached" c.flags ≡ true)
        × ((process_request ignore_missing r meta s stats).2 ≡ meta)
  unfolding process_request
  hit-request ignore_missing r meta s stats c h =
      elim (Option-cases (get_or (T.retrieve_response r s) none)) [
        | inl e ↦ absurd (ground arith)
        | inr (p, e) ↦ elim (Bool-cases (P.is_cached_response_fresh p r).0) [
          | inl y ↦ (ground arith, ground arith, ground arith)
          | inr n ↦ absurd (ground arith)
        ]
      ]

  cached-unchanged :
      (now : String) (r : R) (meta : CacheMeta) (s : T.S) (stats : Stats) (c : Flagged)
      → meta.dont_cache ≡ false
      → contains "cached" c.flags ≡ true
      → process_response now r c meta s stats ≡ (c, record meta { uncacheable = false }, s, stats)
  unfolding process_response
  cached-unchanged now r meta s stats c d f = ground arith

  pub hit-unstored :
      (ignore_missing : Bool) (now : String) (r : R) (meta : CacheMeta) (s : T.S) (stats : Stats)
      (c : Flagged)
      → (process_request ignore_missing r meta s stats).0 ≡ hit c
      → (let (found, r', meta', stats') = process_request ignore_missing r meta s stats in
          process_response now r' c meta' s stats'
          ≡ (c, record meta { uncacheable = false }, s, stats'))
  hit-unstored ignore_missing now r meta s stats c h =
      let (d, f, same) = hit-request ignore_missing r meta s stats c h in
      let (found, r', meta', stats') = process_request ignore_missing r meta s stats in
      cached-unchanged now r' meta' s stats' c (ap (λ (m : CacheMeta). m.dont_cache) same ∙ d) f
      ∙ ap (λ (m : CacheMeta). (c, record m { uncacheable = false }, s, stats')) same
