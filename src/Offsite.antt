-- ===== src/Offsite.antt =====
-- downloadermiddlewares/offsite.py: OffsiteMiddleware. Regex has what `re` documents of the expression
-- that get_host_regex builds. No domain is None. A host is a list of bytes; `none` is a URL without
-- one.
pub mod Regex
pub mod Laws
pub mod Search
mod Tests
use scrapy.Prelude.{
  ℕ, suc, Bool, true, false, not, ◌&&◌, ◌||◌, Option, none, some, List, [], ◌∷◌, ◌++◌,
  if◌then◌else◌, map, HasEq, ◌==◌, get_or, contains,
}
use scrapy.Headers.{bytes_eq}
use scrapy.Offsite.Regex.{
  Pattern, start, end_of_text, byte, any_bytes, empty, seq, either, optional, search_in,
}
use scrapy.Stats.{Stats, inc}

pub record Request : Type 0 where
  pub dont_filter : Bool
  pub allow_offsite : Bool
  -- urlparse_cached(request).hostname
  pub hostname : Option (List ℕ)

pub record OffsiteMiddleware : Type 0 where
  pub stats : Stats
  pub domains_seen : List (List ℕ)
  -- the domains of which host_regex was made
  pub allowed_domains : List (List ℕ)

-- re.escape(domain)
unfoldable pub escape : List ℕ → Pattern
escape [] = empty
escape (c ∷ s) = seq (byte c) (escape s)

-- "|".join(domains)
unfoldable pub alternatives : List Pattern → Pattern
alternatives [] = empty
alternatives (r ∷ []) = r
alternatives (r ∷ q ∷ rs) = either r (alternatives (q ∷ rs))

-- get_host_regex: ^(.*\.)?(…|…)$, or the empty expression when no domain is given
unfoldable pub get_host_regex : List (List ℕ) → Pattern
unfolding escape alternatives
get_host_regex [] = empty
get_host_regex (d ∷ ds) = seq start (
    seq (optional (seq any_bytes (byte b'.')))
      (seq (alternatives (map escape (d ∷ ds))) end_of_text))

-- regex.search(host)
unfoldable pub search : List (List ℕ) → List ℕ → Bool
unfolding get_host_regex search_in
search domains host = search_in (get_host_regex domains) host

-- _update_host_regex
unfoldable pub update_host_regex : List (List ℕ) → OffsiteMiddleware → OffsiteMiddleware
update_host_regex domains m = record m { allowed_domains = domains }

-- should_follow, with the spider's allowed domains
unfoldable pub should_follow :
    List (List ℕ) → Request → OffsiteMiddleware → Bool × OffsiteMiddleware
should_follow domains r m =
    let m' = update_host_regex domains m in (search m'.allowed_domains (get_or r.hostname []), m')

-- The domain of a filtered request, when it is new.
unfoldable pub see : Option (List ℕ) → OffsiteMiddleware → OffsiteMiddleware
see none m = m
see (some []) m = m
see (some (c ∷ s)) m =
    if contains (c ∷ s) m.domains_seen
    then m
    else record m { domains_seen = (c ∷ s) ∷ m.domains_seen; stats = inc "offsite/domains" m.stats }

-- process_request: false is IgnoreRequest
unfoldable pub process_request :
    List (List ℕ) → Request → OffsiteMiddleware → Bool × OffsiteMiddleware
process_request domains r m =
    let (follow, m') = should_follow domains r m in
    let m'' = see r.hostname m' in
    if r.dont_filter || r.allow_offsite
    then (true, m)
    else (if follow
        then (true, m')
        else (false, record m'' { stats = inc "offsite/filtered" m''.stats }))

-- Requests, each with the spider's allowed domains of the time.
unfoldable pub run : List (List (List ℕ) × Request) → OffsiteMiddleware → OffsiteMiddleware
run [] m = m
run ((domains, r) ∷ rs) m = run rs (process_request domains r m).1
