-- ===== src/HttpError.antt =====
-- spidermiddlewares/httperror.py: HttpErrorMiddleware. The meta of a response is that of its request.
pub mod Laws
mod Tests
use Prim.Native.String.{◌++◌ as append}
use scrapy.Prelude.{
  ℕ, suc, Bool, true, false, ◌&&◌, ◌||◌, Option, none, some, List, contains, get_or, leb, ltb,
  nat_eq, if◌then◌else◌,
}
use scrapy.Request.{Meta}
use scrapy.Response.{Response}
use scrapy.Stats.{Stats, inc}
use scrapy.Depth.{digits}

-- `spider_list`: the attribute `handle_httpstatus_list` of the spider, if it has one.
pub record HttpErrorMiddleware : Type 0 where
  pub handle_httpstatus_all : Bool
  pub handle_httpstatus_list : List ℕ
  pub spider_list : Option (List ℕ)

-- process_spider_input; false when it raises HttpError
unfoldable pub process_spider_input : HttpErrorMiddleware → Meta → Response → Bool
process_spider_input m meta p =
    if leb 200 p.status && ltb p.status 300
    then true
    else if meta.handle_httpstatus_all
    then true
    else elim meta.handle_httpstatus_list [
      | some l ↦ contains p.status l
      | none ↦
          if m.handle_httpstatus_all
          then true
          else contains p.status (get_or m.spider_list m.handle_httpstatus_list)
    ]

-- process_spider_exception: whether the exception is handled, and the stats
unfoldable pub process_spider_exception : Bool → Response → Stats → Bool × Stats
process_spider_exception is_http_error p stats =
    if is_http_error
    then (
      true,
      inc (append "httperror/response_ignored_status_count/" (digits (suc p.status) p.status))
          (inc "httperror/response_ignored_count" stats),
    )
    else (false, stats)
