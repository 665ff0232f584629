-- ===== src/Request.antt =====
-- http/request/__init__.py: a request, with the `meta` keys that the modelled components read.
-- A key that they only read with a default is a plain field that holds the default when absent.
-- `headers` and `body` are text, and the header names are in the form that `Headers` normalizes to.
use scrapy.Prelude.{ℕ, String, Bool, false, Option, none, List, []}
use scrapy.Prelude.Int.{ℤ, pos}
use scrapy.Dict.{Dict}

pub record Meta : Type 0 where
  pub is_start_request : Bool
  pub download_slot : Option String
  pub retry_times : Option ℕ
  -- absent, `None`, or a number
  pub max_retry_times : Option (Option ℕ)
  pub priority_adjust : Option (Option ℤ)
  -- whether the level in `give_up_log_level` is a valid one
  pub give_up_level_ok : Option Bool
  pub dont_retry : Bool
  pub dont_redirect : Bool
  pub redirect_times : Option ℕ
  pub redirect_ttl : Option ℕ
  pub redirect_urls : List String
  pub redirect_reasons : List String
  pub handle_httpstatus_all : Bool
  pub handle_httpstatus_list : Option (List ℕ)
  pub depth : Option ℕ
  pub depth_reset : Bool
  pub allow_offsite : Bool
  pub scheme_proxy : Bool
  pub proxy : Option String
  pub auth_proxy : Option String

pub record Request : Type 0 where
  pub url : String
  pub method : String
  pub headers : Dict String String
  pub body : String
  pub priority : ℤ
  pub dont_filter : Bool
  pub meta : Meta

abbrev pub empty_meta : Meta
empty_meta = record {
  is_start_request = false;
  download_slot = none;
  retry_times = none;
  max_retry_times = none;
  priority_adjust = none;
  give_up_level_ok = none;
  dont_retry = false;
  dont_redirect = false;
  redirect_times = none;
  redirect_ttl = none;
  redirect_urls = [];
  redirect_reasons = [];
  handle_httpstatus_all = false;
  handle_httpstatus_list = none;
  depth = none;
  depth_reset = false;
  allow_offsite = false;
  scheme_proxy = false;
  proxy = none;
  auth_proxy = none;
}

-- `Request(url)`: the defaults of the constructor
abbrev pub new_request : String → Request
new_request url = record {
  url = url;
  method = "GET";
  headers = [];
  body = "";
  priority = pos 0;
  dont_filter = false;
  meta = empty_meta;
}
