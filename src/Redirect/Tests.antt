-- ===== src/Redirect/Tests.antt =====
-- Runs of the redirect middleware.
use scrapy.Prelude.{
  ◌+◌, ◌≤◌, ◌≡◌, refl, none, some, [], ◌∷◌, length, ◌==◌, string_eq, if◌then◌else◌,
}
use scrapy.Prelude.Int.{pos, ◌+ℤ◌}
use scrapy.Dict
use scrapy.Request.{Request, new_request}
use scrapy.Response.{Response}
use scrapy.Redirect.{UrlTools, RedirectMiddleware, redirect, build_redirect_request}
use scrapy.Redirect.Laws.{redirects_bounded, times, ttl}
use scrapy.Redirect.Headers.{credentials_lem, header, MayCarryCookie, MayCarryAuthorization}

abbrev defaults : RedirectMiddleware
defaults = record { max_redirect_times = 20; priority_adjust = pos 2; referer = none }

abbrev a : Request
a = record (new_request "http://a") { headers = ("Cookie", "c") ∷ ("Authorization", "t") ∷ [] }

abbrev b : Request
b = record a { url = "https://a" }

abbrev b1 : Request
b1 = record b {
  meta = record (b.meta) {
    redirect_times = some 1;
    redirect_ttl = some 19;
    redirect_urls = "http://a" ∷ [];
    redirect_reasons = "moved" ∷ [];
  };
  priority = pos 2;
}

redirect-a : redirect defaults b a "moved" ≡ some b1
unfolding redirect ◌+ℤ◌
redirect-a = refl

redirects_bounded_example :
    (1 + times a ≤ 20) × (1 ≤ ttl defaults a) × (length b1.meta.redirect_urls ≡ 1)
redirects_bounded_example = redirects_bounded defaults 0 a b1 (b, b1, "moved", redirect-a, refl)

-- Two schemes and one host.
abbrev tools : UrlTools
tools = record {
  scheme = λ url. if url == "https://a" then "https" else "http";
  hostname = λ url. some "a";
  port = λ url. none;
  fragment = λ url. "";
  join = λ base url. url;
  safe = λ url. url;
}

abbrev moved : Response
moved = record { url = "http://a"; status = 301; headers = []; body_size = 0 }

credentials_lem_example :
    (MayCarryCookie tools "http://a" "https://a"
      → header "Cookie" (build_redirect_request tools defaults a a moved "https://a") ≡ some "c")
    × (¬ MayCarryCookie tools "http://a" "https://a"
        → header "Cookie" (build_redirect_request tools defaults a a moved "https://a") ≡ none)
    × (MayCarryAuthorization tools "http://a" "https://a"
        → header "Authorization" (build_redirect_request tools defaults a a moved "https://a")
          ≡ some "t")
    × (¬ MayCarryAuthorization tools "http://a" "https://a"
        → header "Authorization" (build_redirect_request tools defaults a a moved "https://a")
          ≡ none)
unfolding Dict.get
credentials_lem_example = credentials_lem tools defaults a a moved "https://a" tt tt refl
