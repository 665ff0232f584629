-- ===== src/Redirect.antt =====
-- downloadermiddlewares/redirect.py. The functions on URLs are those of urllib and w3lib, and
-- parameters. Counts and settings are natural numbers. Log messages are left out.
pub mod Laws
pub mod Headers
mod Tests
use Prim.Native.Char.{code}
use Prim.Native.String
use Prim.Native.String.{◌++◌ as append}
use text.Mathlib.Text.{starts_with}
use scrapy.Prelude.{
  ℕ, ◌+◌, ◌-◌, Bool, true, false, not, ◌&&◌, ◌||◌, Option, none, some, List, [], ◌∷◌, ◌++◌, String,
  get_or, leb, ltb, contains, if◌then◌else◌, nat_eq, string_eq, ◌==◌, is_some, nat_beq,
}
use scrapy.Prelude.Int.{ℤ, ◌+ℤ◌}
use scrapy.Dict
use scrapy.Request.{Request, Meta}
use scrapy.Response.{Response, Outcome, response, request}

-- A parsed URL, and the functions that the middlewares call.
pub record UrlTools : Type 0 where
  pub scheme : String → String
  pub hostname : String → Option String
  pub port : String → Option ℕ
  pub fragment : String → String
  pub join : String → String → String
  pub safe : String → String

-- `location.lstrip("/")`: 47 is the code of the slash.
unfoldable pub strip_slashes : String → String
strip_slashes String.[] = String.[]
strip_slashes (String.◌∷◌ c s) = if nat_beq (code c) 47 then strip_slashes s else String.◌∷◌ c s

pub record RedirectMiddleware : Type 0 where
  pub max_redirect_times : ℕ
  pub priority_adjust : ℤ
  -- the `get_processed_request` of the RefererMiddleware instance, if there is one
  pub referer : Option (Request → Response → Request)

-- handle_referer
unfoldable pub handle_referer : RedirectMiddleware → Request → Response → Request
handle_referer m r p =
    let r' = record r { headers = Dict.discard "Referer" r.headers } in
    elim m.referer [ none ↦ r' | some f ↦ f r' p ]

-- _redirect: `none` when it raises IgnoreRequest. The `setdefault` on the meta of the source
-- request, which no one reads afterwards, is not kept.
unfoldable pub redirect : RedirectMiddleware → Request → Request → String → Option Request
redirect m redirected r reason =
    let ttl = get_or r.meta.redirect_ttl m.max_redirect_times in
    let redirects = get_or r.meta.redirect_times 0 + 1 in
    if not (nat_beq ttl 0) && leb redirects m.max_redirect_times
    then some (record redirected {
      meta = record (redirected.meta) {
        redirect_times = some redirects;
        redirect_ttl = some (ttl - 1);
        redirect_urls = r.meta.redirect_urls ++ r.url ∷ [];
        redirect_reasons = r.meta.redirect_reasons ++ reason ∷ [];
      };
      dont_filter = r.dont_filter;
      priority = r.priority +ℤ m.priority_adjust;
    })
    else none

-- `default_ports.get(scheme)`
abbrev pub default_port : String → Option ℕ
default_port s = if s == "http" then some 80 else if s == "https" then some 443 else none

abbrev pub opt_nat_eq : Option ℕ → Option ℕ → Bool
opt_nat_eq none none = true
opt_nat_eq (some a) (some b) = nat_beq a b
opt_nat_eq _ _ = false

abbrev pub opt_string_eq : Option String → Option String → Bool
opt_string_eq none none = true
opt_string_eq (some a) (some b) = a == b
opt_string_eq _ _ = false

module _ (u : UrlTools) where
  -- `parsed.port or default_ports.get(parsed.scheme)`
  unfoldable pub port_of : String → Option ℕ
  port_of url = elim (u.port url) [
    | none ↦ default_port (u.scheme url)
    | some n ↦ if nat_beq n 0 then default_port (u.scheme url) else some n
  ]

  -- The proxy that was chosen for the scheme of the source is forgotten when the scheme changes.
  unfoldable pub drop_proxy : Request → Request → Request
  drop_proxy r redirected =
      if redirected.meta.scheme_proxy && not (u.scheme r.url == u.scheme redirected.url)
      then record redirected {
        meta = record (redirected.meta) { scheme_proxy = false; proxy = none; auth_proxy = none };
        headers = Dict.discard "Proxy-Authorization" redirected.headers;
      }
      else redirected

  -- Whether the cookie header of the source may go along.
  unfoldable pub keeps_cookie : String → String → Bool
  keeps_cookie source target =
      (u.scheme target == u.scheme source || u.scheme target == "https")
      && opt_string_eq (u.hostname source) (u.hostname target)

  unfoldable pub keeps_authorization : String → String → Bool
  unfolding port_of
  keeps_authorization source target =
      u.scheme source == u.scheme target
      && (opt_string_eq (u.hostname source) (u.hostname target)
          && opt_nat_eq (port_of source) (port_of target))

  unfoldable pub drop_credentials : Request → Request → Request
  drop_credentials r redirected =
      let hs =
        if keeps_cookie r.url redirected.url
        then redirected.headers
        else Dict.discard "Cookie" redirected.headers in
      record redirected {
        headers =
            if keeps_authorization r.url redirected.url
            then hs
            else Dict.discard "Authorization" hs;
      }

  -- _build_redirect_request; `changed` is the source with the keyword arguments put in (`replace`)
  unfoldable pub build_redirect_request :
      RedirectMiddleware → Request → Request → Response → String → Request
  unfolding drop_proxy drop_credentials handle_referer
  build_redirect_request m r changed p url =
      let redirected = record changed { url = url } in
      handle_referer m (drop_credentials r (drop_proxy r redirected)) p

  -- _redirect_request_using_get
  unfoldable pub redirect_request_using_get :
      RedirectMiddleware → Request → Response → String → Request
  redirect_request_using_get m r p url =
      let g = build_redirect_request m r (record r { method = "GET"; body = "" }) p url in
      record g {
        headers = Dict.discard "Content-Location" (
            Dict.discard "Content-Language" (
              Dict.discard "Content-Encoding"
                (Dict.discard "Content-Length" (Dict.discard "Content-Type" g.headers))));
      }

  -- The URL to redirect to.
  unfoldable pub redirected_url : Request → String → String
  redirected_url r header =
      let location =
        if starts_with header "//"
        then append (u.scheme r.url) (append "://" (strip_slashes (u.safe header)))
        else u.safe header in
      let url = u.join r.url location in
      if u.fragment url == "" && not (u.fragment r.url == "")
      then u.join url (append "#" (u.fragment r.url))
      else url

  abbrev pub is_web : String → Bool
  is_web s = s == "http" || s == "https"

  -- Whether the new request is a GET without the old body.
  unfoldable pub uses_get : ℕ → String → Bool
  uses_get status method =
      ((nat_beq status 301 || nat_beq status 302) && method == "POST")
      || (nat_beq status 303 && not (method == "GET" || method == "HEAD"))

  -- Whether the response is handed on before its status is looked at.
  unfoldable pub is_handled : List ℕ → Request → Response → Bool
  is_handled spider_list r p =
      r.meta.dont_redirect
      || (contains p.status spider_list
          || (contains p.status (get_or r.meta.handle_httpstatus_list [])
              || r.meta.handle_httpstatus_all))

  -- RedirectMiddleware.process_response; `none` when it raises IgnoreRequest, `reason` is the text
  -- of the status.
  unfoldable pub process_response :
      RedirectMiddleware → List ℕ → (ℕ → String) → Request → Response → Option (Outcome Request)
  unfolding is_handled uses_get
  process_response m spider_list reason r p =
      if is_handled spider_list r p
      then some (response p)
      else elim (Dict.get "Location" p.headers) [
        | none ↦ some (response p)
        | some header ↦
            if not (contains p.status (301 ∷ 302 ∷ 303 ∷ 307 ∷ 308 ∷ []))
            then some (response p)
            else (let url = redirected_url r header in
                let plain = build_redirect_request m r r p url in
                if not (is_web (u.scheme plain.url))
                then some (response p)
                else (let redirected =
                      if uses_get p.status r.method
                      then redirect_request_using_get m r p url
                      else plain in
                    elim (redirect m redirected r (reason p.status)) [
                      | none ↦ none
                      | some x ↦ some (request x)
                    ]))
      ]

  -- MetaRefreshMiddleware.process_response: `is_html`, and what `get_meta_refresh` finds, a URL
  -- and whether its interval is below the maximal delay.
  unfoldable pub process_meta_refresh :
      RedirectMiddleware
      → Bool
      → Option (Bool × String)
      → Request
      → Response
      → Option (Outcome Request)
  process_meta_refresh m is_html refresh r p =
      if r.meta.dont_redirect
        || (r.method == "HEAD" || (not is_html || not (is_web (u.scheme r.url))))
      then some (response p)
      else elim refresh [
        | none ↦ some (response p)
        | some (soon, url) ↦
            let redirected = redirect_request_using_get m r p url in
            if not (is_web (u.scheme redirected.url))
            then some (response p)
            else if soon
            then elim (redirect m redirected r "meta refresh") [
              | none ↦ none
              | some x ↦ some (request x)
            ]
            else some (response p)
      ]
