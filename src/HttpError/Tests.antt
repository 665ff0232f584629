-- ===== src/HttpError/Tests.antt =====
-- Runs of the middleware for bad statuses.
use scrapy.Prelude.{false, none, [], ◌∷◌}
use scrapy.Response.{Response}
use scrapy.HttpError.{HttpErrorMiddleware}

abbrev missing_ok : HttpErrorMiddleware
missing_ok = record {
  handle_httpstatus_all = false;
  handle_httpstatus_list = 404 ∷ [];
  spider_list = none;
}

abbrev missing : Response
missing = record { url = "http://a"; status = 404; headers = []; body_size = 0 }
