-- ===== src/Retry/Laws.antt =====
-- How often a request is retried, and what a retry changes.
use scrapy.Prelude.{
  ℕ, zero, suc, ◌+◌, ◌≤◌, ◌≡◌, true, not, ◌&&◌, Option, none, some, String, get_or, arith, leb,
  if◌then◌else◌, contains, nat_eq,
}
use scrapy.Prelude.Int.{◌+ℤ◌}
use scrapy.Request.{Request}
use scrapy.Response.{Response, Outcome, response}
use scrapy.Stats.{Stats}
use scrapy.Retry.{retry_limit, retry, get_retry_request, RetryMiddleware, retried, process_response}

-- How often a request has been retried.
abbrev pub times : Request → ℕ
times r = get_or r.meta.retry_times 0

-- The limit that the middleware applies to a request.
abbrev pub limit : RetryMiddleware → Request → ℕ
limit m r = retry_limit m.settings (get_or r.meta.max_retry_times (some m.max_retry_times)) r

-- A request that is retried was retried less often than its limit allows. The retry counts
-- once more, skips the duplicate filter, has its priority adjusted, and keeps everything
-- else, its limit included.
pub retried_lem :
    (m : RetryMiddleware) (reason : String) (r r' : Request) (stats : Stats)
    → (retried m reason r stats).0 ≡ retry r'
    → (times r + 1 ≤ limit m r)
      × (times r' ≡ times r + 1)
      × (limit m r' ≡ limit m r)
      × (r'.dont_filter ≡ true)
      × (r'.priority
          ≡ r.priority
            +ℤ get_or
                (get_or r.meta.priority_adjust (some m.priority_adjust))
                m.settings.priority_adjust)
      × (r'.url ≡ r.url)
      × (r'.method ≡ r.method)
      × (r'.headers ≡ r.headers)
      × (r'.body ≡ r.body)
unfolding retried get_retry_request retry_limit
retried_lem m reason r r' stats h = (
  ground arith,
  ground arith,
  ground arith,
  ground arith,
  ground arith,
  ground arith,
  ground arith,
  ground arith,
  ground arith,
)

-- `k` successive retries, for any reasons, lead from one request to another.
abbrev pub RetriesTo : RetryMiddleware → ℕ → Request → Request → Type 0
RetriesTo m zero r r' = r ≡ r'
RetriesTo m (suc k) r r' =
    (x : Request) × (reason : String) × (stats : Stats) × ((retried m reason r stats).0 ≡ retry x)
    × RetriesTo m k x r'

-- A request is retried no more often than its limit allows, however the retries are caused: with
-- those before it, the successive retries of a request stay within the limit that it has at first.
pub retries_bounded :
    (m : RetryMiddleware) (k : ℕ) (r r' : Request)
    → RetriesTo m (suc k) r r'
    → suc k + times r ≤ limit m r
retries_bounded m zero r r' (x, reason, stats, h, _) =
    omega (arith, (retried_lem m reason r x stats h).0)
retries_bounded m (suc k) r r' (x, reason, stats, h, rest) =
    omega (arith, retried_lem m reason r x stats h, retries_bounded m k x r' rest)

-- The response that the middleware hands on, if it is one.
abbrev pub answer : Option (Outcome Request) → Option Response
answer (some (response p)) = some p
answer _ = none

-- Where the log level is valid, the middleware hands on a request exactly if the status is one to
-- retry, the request allows retries and has some left; else it hands on the response as it is.
pub process_response_lem :
    (status_message : ℕ → String) (m : RetryMiddleware) (r : Request) (p : Response) (stats : Stats)
    → get_or r.meta.give_up_level_ok m.level_ok ≡ true
    → answer (process_response status_message m r p stats).0 ≡ (
        if not r.meta.dont_retry
          && (contains p.status m.retry_http_codes && leb (times r + 1) (limit m r))
        then none
        else some p)
unfolding process_response get_retry_request retry_limit
process_response_lem status_message m r p stats h = ground arith
