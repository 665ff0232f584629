-- ===== src/Redirect/Laws.antt =====
-- How often a request is redirected, and what a redirect keeps.
use scrapy.Prelude.{
  ℕ, zero, suc, ◌+◌, ◌≤◌, ◌≡◌, ap, sym, some, [], ◌∷◌, ◌++◌, String, get_or, arith, length,
  length-append, nat_eq,
}
use scrapy.Request.{Request}
use scrapy.Redirect.{RedirectMiddleware, redirect}

-- How often a request has been redirected, and how often it still may be.
abbrev pub times : Request → ℕ
times r = get_or r.meta.redirect_times 0

abbrev pub ttl : RedirectMiddleware → Request → ℕ
ttl m r = get_or r.meta.redirect_ttl m.max_redirect_times

-- A redirect counts, uses one of the redirects that are left, notes the URL of the request that it
-- comes from and the reason, and takes over the filter flag and the URL of the new request.
pub redirect_lem :
    (m : RedirectMiddleware) (x r r' : Request) (reason : String)
    → redirect m x r reason ≡ some r'
    → (times r + 1 ≤ m.max_redirect_times)
      × (times r' ≡ times r + 1)
      × (ttl m r ≡ ttl m r' + 1)
      × (r'.meta.redirect_urls ≡ r.meta.redirect_urls ++ r.url ∷ [])
      × (r'.meta.redirect_reasons ≡ r.meta.redirect_reasons ++ reason ∷ [])
      × (r'.dont_filter ≡ r.dont_filter)
      × (r'.url ≡ x.url)
unfolding redirect
redirect_lem m x r r' reason h = (
  ground arith,
  ground arith,
  ground arith,
  ground arith,
  ground arith,
  ground arith,
  ground arith,
)

-- `k` successive redirects, to any requests and for any reasons, lead from one request to another.
abbrev pub RedirectsTo : RedirectMiddleware → ℕ → Request → Request → Type 0
RedirectsTo m zero r r' = r ≡ r'
RedirectsTo m (suc k) r r' =
    (x : Request) × (y : Request) × (reason : String) × (redirect m x r reason ≡ some y)
    × RedirectsTo m k y r'

-- Successive redirects end: there are no more of them than the setting and the redirects left to
-- the first request allow, and each one adds one URL to the list of the URLs that led here.
pub redirects_bounded :
    (m : RedirectMiddleware) (k : ℕ) (r r' : Request)
    → RedirectsTo m (suc k) r r'
    → (suc k + times r ≤ m.max_redirect_times)
      × (suc k ≤ ttl m r)
      × (length r'.meta.redirect_urls ≡ suc k + length r.meta.redirect_urls)
redirects_bounded m zero r r' (x, y, reason, h, e) =
    let l = redirect_lem m x r y reason h in
    let u : length r'.meta.redirect_urls ≡ length y.meta.redirect_urls =
      ap (λ (z : Request). length z.meta.redirect_urls) (sym e) in
    (
      omega (arith, l),
      omega (arith, l),
      omega (arith, u, ap length l.3, length-append r.meta.redirect_urls (r.url ∷ [])),
    )
redirects_bounded m (suc k) r r' (x, y, reason, h, rest) =
    let l = redirect_lem m x r y reason h in
    let (a, b, c) = redirects_bounded m k y r' rest in
    (
      omega (arith, l),
      omega (arith, l),
      omega (arith, ap length l.3, length-append r.meta.redirect_urls (r.url ∷ [])),
    )
