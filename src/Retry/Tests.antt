-- ===== src/Retry/Tests.antt =====
-- Runs of the retry middleware.
use scrapy.Prelude.{◌+◌, ◌≤◌, ◌≡◌, refl, true, some, [], ◌∷◌}
use scrapy.Prelude.Int.{negsuc, ◌+ℤ◌}
use scrapy.Request.{Request, new_request}
use scrapy.Response.{Response}
use scrapy.Retry.{retry, get_retry_request, RetryMiddleware, retried}
use scrapy.Retry.Laws.{retries_bounded, times, limit}

abbrev defaults : RetryMiddleware
defaults = record {
  max_retry_times = 2;
  retry_http_codes = 500 ∷ 503 ∷ [];
  priority_adjust = negsuc 0;
  level_ok = true;
  settings = record { retry_times = 2; priority_adjust = negsuc 0 };
}

abbrev a : Request
a = new_request "http://a"

abbrev a1 : Request
a1 = record a {
  meta = record (a.meta) { retry_times = some 1 };
  dont_filter = true;
  priority = negsuc 0;
}

retry-a : (retried defaults "timeout" a []).0 ≡ retry a1
unfolding retried get_retry_request ◌+ℤ◌
retry-a = refl

retries_bounded_example : 1 + times a ≤ limit defaults a
retries_bounded_example = retries_bounded defaults 0 a a1 (a1, "timeout", [], retry-a, refl)

abbrev broken : Response
broken = record { url = "http://a"; status = 503; headers = []; body_size = 0 }
