-- ===== src/Middleware/Tests.antt =====
-- Runs of the middleware manager.
use scrapy.Prelude.{ℕ, ◌+◌, none, some, []}
use scrapy.Response.{Response, response}
use scrapy.Middleware.{raised, nothing, outcome, Middleware, Methods, RequestMethod, Download}

-- The state counts the calls.
abbrev pass_on : RequestMethod ℕ ℕ
pass_on r n = (nothing, n + 1)

abbrev page : Response
page = record { url = "http://a"; status = 200; headers = []; body_size = 0 }

abbrev cached : RequestMethod ℕ ℕ
cached r n = (outcome (response page), n + 1)

abbrev fail : Download ℕ ℕ
fail r n = (raised 7, n)

abbrev counting : Middleware ℕ ℕ
counting = record {
  process_request = some pass_on;
  process_response = none;
  process_exception = none;
}

abbrev empty : Methods ℕ ℕ
empty = record { process_request = []; process_response = []; process_exception = [] }
