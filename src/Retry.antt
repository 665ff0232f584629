-- ===== src/Retry.antt =====
-- downloadermiddlewares/retry.py: get_retry_request and RetryMiddleware. Counts and settings are
-- natural numbers (a negative maximum acts as 0). `reason` is the text that the stats show: the
-- message of the status, or the name of the class of the exception.
pub mod Laws
mod Tests
use Prim.Native.String.{◌++◌ as append}
use scrapy.Prelude.{
  ℕ, ◌+◌, Bool, true, false, not, ◌&&◌, Option, none, some, List, String, get_or, leb, contains,
  if◌then◌else◌, nat_eq,
}
use scrapy.Prelude.Int.{ℤ, ◌+ℤ◌}
use scrapy.Request.{Request}
use scrapy.Response.{Response, Outcome, response, request}
use scrapy.Stats.{Stats, inc}

-- The settings RETRY_TIMES and RETRY_PRIORITY_ADJUST.
pub record Settings : Type 0 where
  pub retry_times : ℕ
  pub priority_adjust : ℤ

-- `max_retry_times` as an argument, then the meta key, then the setting
unfoldable pub retry_limit : Settings → Option ℕ → Request → ℕ
retry_limit c (some n) r = n
retry_limit c none r = elim r.meta.max_retry_times [
  | none ↦ c.retry_times
  | some o ↦ elim o [ none ↦ c.retry_times | some n ↦ n ]
]

pub data Retried : Type 0 where
  retry : Request → Retried
  give_up : Retried
  -- an invalid `give_up_log_level`
  value_error : Retried

-- `level_ok`: the level to log a given-up request at is a valid one.
unfoldable pub get_retry_request :
    Settings → String → Bool → Option ℕ → Option ℤ → String → Request → Stats → Retried × Stats
unfolding retry_limit
get_retry_request c base level_ok max_retry_times priority_adjust reason r stats =
    let retry_times = get_or r.meta.retry_times 0 + 1 in
    if leb retry_times (retry_limit c max_retry_times r)
    then (
      retry (record r {
        meta = record (r.meta) { retry_times = some retry_times };
        dont_filter = true;
        priority = r.priority +ℤ get_or priority_adjust c.priority_adjust;
      }),
      inc (append base (append "/reason_count/" reason)) (inc (append base "/count") stats),
    )
    else if level_ok
    then (give_up, inc (append base "/max_reached") stats)
    else (value_error, stats)

pub record RetryMiddleware : Type 0 where
  pub max_retry_times : ℕ
  pub retry_http_codes : List ℕ
  pub priority_adjust : ℤ
  pub level_ok : Bool
  pub settings : Settings

-- _retry
unfoldable pub retried : RetryMiddleware → String → Request → Stats → Retried × Stats
retried m reason r stats =
    get_retry_request m.settings "retry" (get_or r.meta.give_up_level_ok m.level_ok)
      (get_or r.meta.max_retry_times (some m.max_retry_times))
      (get_or r.meta.priority_adjust (some m.priority_adjust)) reason r stats

-- `self._retry(request, reason) or response`; `none` when it raises
unfoldable pub or_response : Response → Retried → Option (Outcome Request)
or_response p (retry r) = some (request r)
or_response p give_up = some (response p)
or_response p value_error = none

-- process_response; `status_message` is response_status_message, whose table is third-party code
unfoldable pub process_response :
    (ℕ → String) → RetryMiddleware → Request → Response → Stats → Option (Outcome Request) × Stats
unfolding retried or_response
process_response status_message m r p stats =
    if r.meta.dont_retry
    then (some (response p), stats)
    else if contains p.status m.retry_http_codes
    then (let (o, stats') = retried m (status_message p.status) r stats in
        (or_response p o, stats'))
    else (some (response p), stats)

-- process_exception; `to_retry`: the exception is one of those to retry. `give_up` is `None`.
unfoldable pub process_exception :
    Bool → String → RetryMiddleware → Request → Stats → Retried × Stats
unfolding retried
process_exception to_retry reason m r stats =
    if to_retry && not r.meta.dont_retry then retried m reason r stats else (give_up, stats)
