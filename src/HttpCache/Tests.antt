-- ===== src/HttpCache/Tests.antt =====
-- Cached responses with and without a max-age.
use scrapy.Prelude.{
  ◌↔◌, not, ◌==◌, ℕ, ◌≡◌, ◌⊎◌, refl, true, false, Option, none, some, [], ◌∷◌, String, string_eq,
}
use scrapy.Dict
use scrapy.Dict.{Dict}
use scrapy.Response.{Response}
use scrapy.HttpCache.{
  CacheControl, has, is_cached_response_fresh, compute_current_age, compute_freshness_lifetime,
  get_max_age,
}
use scrapy.Stats.{Stats}
use scrapy.HttpCache.Serving.{
  CacheMeta, CachePolicy, CacheStorage, process_request, process_response, hit-unstored,
}
use scrapy.HttpCache.Laws.{is_cached_response_fresh_lem, IsYoung, IsCovered}

-- The numbers of these tests.
abbrev number : String → Option ℕ
number t = Dict.get t (("60", 60) ∷ ("100", 100) ∷ [])

abbrev page : Response
page = record { url = "http://a/"; status = 200; headers = ("Date", "100") ∷ []; body_size = 0 }

abbrev fresh_cc : CacheControl
fresh_cc = ("max-age", some "60") ∷ []

abbrev nothing_asked : CacheControl
nothing_asked = []

abbrev no_headers : Dict String String
no_headers = []

is_cached_response_fresh_lem_example :
    (is_cached_response_fresh number number 10 fresh_cc nothing_asked page 1050 no_headers
      ≡ some (true, no_headers))
    ↔ ((no_headers ≡ no_headers)
        × (has "no-cache" fresh_cc ≡ false)
        × (has "no-cache" nothing_asked ≡ false)
        × (lifetime : ℕ) × (limit : Option ℕ) × (compute_freshness_lifetime number number 10
              fresh_cc page 1050
            ≡ some lifetime)
        × (get_max_age number nothing_asked ≡ some limit)
        × (IsYoung number number 10 0
              (compute_current_age number number 10 page 1050)
              lifetime
              limit
            ⊎ ((has "must-revalidate" fresh_cc ≡ false)
                × IsCovered number number 10
                    (Dict.get "max-stale" nothing_asked)
                    (compute_current_age number number 10 page 1050)
                    lifetime
                    limit)))
is_cached_response_fresh_lem_example =
    is_cached_response_fresh_lem number number 10 fresh_cc nothing_asked page 1050 no_headers
      no_headers

abbrev bare_cc : CacheControl
bare_cc = ("max-age", none) ∷ []

-- A policy that caches everything for ever, and a storage by URL.
abbrev keeps : CachePolicy String
keeps = record {
  should_cache_request = λ r. not (r == "");
  should_cache_response = λ p r. true;
  is_cached_response_fresh = λ p r. (true, r);
  is_cached_response_valid = λ c p r. true;
}

abbrev by_url : CacheStorage String
by_url = record {
  S = Dict String Response;
  retrieve_response = λ r s. some (Dict.get r s);
  store_response = λ r p s. Dict.put r p s;
}

abbrev plain_meta : CacheMeta
plain_meta = record { dont_cache = false; uncacheable = false; cached_response = none }

abbrev no_stats : Stats
no_stats = []

abbrev stored : Dict String Response
stored = ("http://a/", page) ∷ []

hit-unstored_example :
    (let (found, r', meta', stats') =
        process_request keeps by_url true "http://a/" plain_meta stored no_stats in
      process_response keeps by_url "now" r'
        (record { response = page; flags = "cached" ∷ [] })
        meta'
        stored
        stats'
      ≡ (record { response = page; flags = "cached" ∷ [] }, plain_meta, stored, stats'))
unfolding process_request Dict.get
hit-unstored_example =
    hit-unstored keeps by_url true "now" "http://a/" plain_meta stored no_stats
      (record { response = page; flags = "cached" ∷ [] }) refl
