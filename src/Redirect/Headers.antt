-- ===== src/Redirect/Headers.antt =====
-- Credentials and bodies on a redirect.
use mathlib.Core.Path.{subst}
use scrapy.Prelude.{
  ◌≡◌, refl, ◌∙◌, false, Option, none, some, String, arith, if◌then◌else◌, Option-cases, inl, inr,
  string_eq, ◌==◌, ap, nat_beq, nat_eq, ℕ, zero, suc, sym, ◌↔◌, ◌⊎◌, true, Bool-cases,
}
use scrapy.Dict
use scrapy.Dict.Laws.{get-discard}
use scrapy.Request.{Request}
use scrapy.Response.{Response}
use scrapy.Redirect.{
  UrlTools, RedirectMiddleware, handle_referer, drop_proxy, drop_credentials, keeps_cookie,
  keeps_authorization, build_redirect_request, port_of, opt_string_eq, opt_nat_eq,
}

-- The value of a header.
abbrev pub header : String → Request → Option String
header k r = Dict.get k r.headers

-- A referer middleware that leaves a header as it is.
abbrev pub LeavesHeader : String → Option (Request → Response → Request) → Type 0
LeavesHeader k none = Unit
LeavesHeader k (some f) = (r : Request) (p : Response) → header k (f r p) ≡ header k r

header-handle_referer :
    (k : String) (m : RedirectMiddleware) (r : Request) (p : Response)
    → ("Referer" == k) ≡ false
    → LeavesHeader k m.referer
    → header k (handle_referer m r p) ≡ header k r
unfolding handle_referer
header-handle_referer k m r p d l =
    let r' = record r { headers = Dict.discard "Referer" r.headers } in
    elim (Option-cases m.referer) [
      | inl e ↦ ground (arith, get-discard "Referer" k r.headers)
      | inr (f, e) ↦
          ground (arith, subst (LeavesHeader k) e l r' p, get-discard "Referer" k r.headers)
    ]

opt_string_eq_iff : (a b : Option String) → (opt_string_eq a b ≡ true) ↔ (a ≡ b)
opt_string_eq_iff none none = (λ h. refl, λ e. refl)
opt_string_eq_iff none (some b) = (λ h. absurd (ground arith), λ e. absurd (ground arith))
opt_string_eq_iff (some a) none = (λ h. absurd (ground arith), λ e. absurd (ground arith))
opt_string_eq_iff (some a) (some b) =
    (λ h. ap some ((string_eq.same_iff a b).0 h), λ e. (string_eq.same_iff a b).1 (ground arith))

opt_nat_eq_iff : (a b : Option ℕ) → (opt_nat_eq a b ≡ true) ↔ (a ≡ b)
opt_nat_eq_iff none none = (λ h. refl, λ e. refl)
opt_nat_eq_iff none (some b) = (λ h. absurd (ground arith), λ e. absurd (ground arith))
opt_nat_eq_iff (some a) none = (λ h. absurd (ground arith), λ e. absurd (ground arith))
opt_nat_eq_iff (some a) (some b) = (λ h. ground arith, λ e. ground arith)

module _ (u : UrlTools) where
  drop_proxy_lem :
      (k : String) (r x : Request)
      → ("Proxy-Authorization" == k) ≡ false
      → (header k (drop_proxy u r x) ≡ header k x) × ((drop_proxy u r x).url ≡ x.url)
  unfolding drop_proxy
  drop_proxy_lem k r x d =
      (ground (arith, get-discard "Proxy-Authorization" k x.headers), ground arith)

  drop_credentials_lem :
      (r x : Request)
      → (header "Cookie" (drop_credentials u r x)
          ≡ (if keeps_cookie u r.url x.url then header "Cookie" x else none))
        × (header "Authorization" (drop_credentials u r x)
            ≡ (if keeps_authorization u r.url x.url then header "Authorization" x else none))
  unfolding drop_credentials
  drop_credentials_lem r x =
      let c = Dict.discard "Cookie" x.headers in
      (
        ground (
          arith,
          get-discard "Cookie" "Cookie" x.headers,
          get-discard "Authorization" "Cookie" x.headers,
          get-discard "Authorization" "Cookie" c,
        ),
        ground (
          arith,
          get-discard "Cookie" "Authorization" x.headers,
          get-discard "Authorization" "Authorization" x.headers,
          get-discard "Authorization" "Authorization" c,
        ),
      )

  built_lem :
      (m : RedirectMiddleware) (r changed : Request) (p : Response) (url : String)
      → LeavesHeader "Cookie" m.referer
      → LeavesHeader "Authorization" m.referer
      → changed.headers ≡ r.headers
      → (header "Cookie" (build_redirect_request u m r changed p url)
          ≡ (if keeps_cookie u r.url url then header "Cookie" r else none))
        × (header "Authorization" (build_redirect_request u m r changed p url)
            ≡ (if keeps_authorization u r.url url then header "Authorization" r else none))
  unfolding build_redirect_request
  built_lem m r changed p url lc la e =
      let x = record changed { url = url } in
      let y = drop_proxy u r x in
      let z = drop_credentials u r y in
      let (dc, da) = drop_credentials_lem r y in
      (
        header-handle_referer "Cookie" m z p refl lc
            ∙ dc
            ∙ (ap (λ v. if keeps_cookie u r.url v then header "Cookie" y else none)
                  (drop_proxy_lem "Cookie" r x refl).1
                ∙ ap (λ h. if keeps_cookie u r.url url then h else none)
                    ((drop_proxy_lem "Cookie" r x refl).0 ∙ ap (Dict.get "Cookie") e)),
        header-handle_referer "Authorization" m z p refl la
            ∙ da
            ∙ (ap (λ v. if keeps_authorization u r.url v then header "Authorization" y else none)
                  (drop_proxy_lem "Authorization" r x refl).1
                ∙ ap (λ h. if keeps_authorization u r.url url then h else none)
                    ((drop_proxy_lem "Authorization" r x refl).0
                      ∙ ap (Dict.get "Authorization") e)),
      )

  -- The port that a URL names, where 0 is none, or else the one of its scheme.
  abbrev pub effective_port : String → Option ℕ → Option ℕ
  effective_port scheme (some (suc n)) = some (suc n)
  effective_port scheme _ =
      if scheme == "http" then some 80 else if scheme == "https" then some 443 else none

  -- The same host, under the same scheme or https.
  abbrev pub MayCarryCookie : String → String → Type 0
  MayCarryCookie source target =
      (u.hostname source ≡ u.hostname target)
      × ((u.scheme source ≡ u.scheme target) ⊎ (u.scheme target ≡ "https"))

  -- The same scheme, host and port.
  abbrev pub MayCarryAuthorization : String → String → Type 0
  MayCarryAuthorization source target =
      (u.scheme source ≡ u.scheme target)
      × (u.hostname source ≡ u.hostname target)
      × (effective_port (u.scheme source) (u.port source)
          ≡ effective_port (u.scheme target) (u.port target))

  keeps_cookie_iff :
      (source target : String)
      → (keeps_cookie u source target ≡ true) ↔ MayCarryCookie source target
  unfolding keeps_cookie
  keeps_cookie_iff source target =
      let (there, back) = opt_string_eq_iff (u.hostname source) (u.hostname target) in
      let (at, eq) = string_eq.same_iff (u.scheme target) (u.scheme source) in
      let (secure, https) = string_eq.same_iff (u.scheme target) "https" in
      (
        λ h. (
          there (ground (arith, h)),
          elim (Bool-cases (u.scheme target == u.scheme source)) [
            | inl y ↦ inl (sym (at y))
            | inr n ↦ inr (secure (ground (arith, h, n)))
          ],
        ),
        λ w. elim w.1 [
          | inl e ↦ ground (arith, back w.0, eq (sym e))
          | inr e ↦ ground (arith, back w.0, https e)
        ],
      )

  port_of-effective : (url : String) → port_of u url ≡ effective_port (u.scheme url) (u.port url)
  unfolding port_of
  port_of-effective url = elim (Option-cases (u.port url)) [
    | inl e ↦ rw (port_of, e) refl
    | inr (zero, e) ↦ rw (port_of, e) refl
    | inr (suc n, e) ↦
        let positive : nat_beq (suc n) 0 ≡ false = ground arith in rw (port_of, e, positive) refl
  ]

  keeps_authorization_iff :
      (source target : String)
      → (keeps_authorization u source target ≡ true) ↔ MayCarryAuthorization source target
  unfolding keeps_authorization
  keeps_authorization_iff source target =
      let (there, back) = opt_string_eq_iff (u.hostname source) (u.hostname target) in
      let (at, eq) = string_eq.same_iff (u.scheme source) (u.scheme target) in
      let (same, port) = opt_nat_eq_iff (port_of u source) (port_of u target) in
      (
        λ h. (
          at (ground (arith, h)),
          there (ground (arith, h)),
          sym (port_of-effective source) ∙ same (ground (arith, h)) ∙ port_of-effective target,
        ),
        λ w.
            let ports = port (port_of-effective source ∙ w.2 ∙ sym (port_of-effective target)) in
            ground (arith, eq w.0, back w.1, ports),
      )

  -- The redirect of a request carries its `Cookie` header if the two URLs have the same host, and
  -- the target has the scheme of the source or https; otherwise it has none. It carries its
  -- `Authorization` header if scheme, host and port, where a default port may be left out, are those
  -- of the source; otherwise it has none. The new request starts with the headers of the source, and
  -- a referer middleware leaves the two headers as they are.
  pub credentials_lem :
      (m : RedirectMiddleware) (r changed : Request) (p : Response) (url : String)
      → LeavesHeader "Cookie" m.referer
      → LeavesHeader "Authorization" m.referer
      → changed.headers ≡ r.headers
      → (MayCarryCookie r.url url
          → header "Cookie" (build_redirect_request u m r changed p url) ≡ header "Cookie" r)
        × (¬ MayCarryCookie r.url url
            → header "Cookie" (build_redirect_request u m r changed p url) ≡ none)
        × (MayCarryAuthorization r.url url
            → header "Authorization" (build_redirect_request u m r changed p url)
              ≡ header "Authorization" r)
        × (¬ MayCarryAuthorization r.url url
            → header "Authorization" (build_redirect_request u m r changed p url) ≡ none)
  credentials_lem m r changed p url lc la e =
      let (cookie, authorization) = built_lem m r changed p url lc la e in
      let (c, c') = keeps_cookie_iff r.url url in
      let (a, a') = keeps_authorization_iff r.url url in
      (
        λ w. ground (arith, cookie, c' w),
        λ w. elim (Bool-cases (keeps_cookie u r.url url)) [
          | inl y ↦ absurd (w (c y))
          | inr n ↦ ground (arith, cookie, n)
        ],
        λ w. ground (arith, authorization, a' w),
        λ w. elim (Bool-cases (keeps_authorization u r.url url)) [
          | inl y ↦ absurd (w (a y))
          | inr n ↦ ground (arith, authorization, n)
        ],
      )
