-- ===== src/Referer/Tests.antt =====
-- Referrers of a page with a password.
use scrapy.Prelude.{string_eq, ◌≡◌, refl, true, Option, none, some, List, [], ◌∷◌, String}
use scrapy.Referer.{
  Url, ReferrerPolicy, strict_origin_when_cross_origin, unsafe_url, noreferrer_schemes, referrer,
  RefererMiddleware, scrapy_default, standard_policies,
}
use scrapy.Referer.Laws.{referrer-amount, sent, amount, same_origins, downgrade}

-- The host and the path of a URL.
abbrev shown : Url → String
shown u = u.host

abbrev page : Url
page = record {
  scheme = "https";
  userinfo = "joe:secret@";
  has_credentials = true;
  host = "a.org";
  port = some 443;
  path = "/x";
  params = "";
  query = "";
  fragment = "top";
}

abbrev other : Url
other = record page { host = "b.org" }

abbrev local : Url
local = record page { scheme = "blob" }

referrer-amount_example :
    referrer shown strict_origin_when_cross_origin page other
    ≡ sent shown
        (amount strict_origin_when_cross_origin
          (same_origins shown page other)
          (downgrade page other))
        page
unfolding noreferrer_schemes
referrer-amount_example = referrer-amount shown strict_origin_when_cross_origin page other refl

abbrev middleware : RefererMiddleware
middleware = record { default_policy = scrapy_default; policies = standard_policies }

abbrev one_name : String → List String
one_name s = s ∷ []

abbrev load_any : String → Option ReferrerPolicy
load_any s = some unsafe_url

abbrev load_none : String → Option ReferrerPolicy
load_none s = none
