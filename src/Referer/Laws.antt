-- ===== src/Referer/Laws.antt =====
-- What the referrer policies send.
use mathlib.Core.Path.{subst}
use scrapy.Prelude.{
  ℕ, nat_eq, nat_beq, ap, sym, ◌∙◌, ◌≡◌, ◌⊎◌, refl, Bool, true, false, not, ◌&&◌, ◌||◌, Option,
  none, some, List, [], ◌∷◌, String, if◌then◌else◌, ◌==◌, string_eq, contains, arith, inl, inr,
  Bool-cases, Option-cases,
}
use scrapy.Dict
use scrapy.Dict.{Dict}
use scrapy.Referer.{
  Url, strip_url, ReferrerPolicy, no_referrer, no_referrer_when_downgrade, same_origin,
  origin_policy, strict_origin, origin_when_cross_origin, strict_origin_when_cross_origin,
  unsafe_url, scrapy_default, noreferrer_schemes, tls_protected, potentially_trustworthy,
  stripped_referrer, origin, origin_referrer, is_default_port, stripped_port, referrer,
  RefererMiddleware, policy, load_policy_class, last_known,
}

-- What may be sent: nothing, the origin, or the URL without credentials and fragment.
pub data Amount : Type 0 where
  nothing : Amount
  only_origin : Amount
  full : Amount

-- The table of the W3C draft, by whether the origins are the same and whether the request is a
-- downgrade, from a protected URL to an unprotected one.
abbrev pub amount : ReferrerPolicy → Bool → Bool → Amount
amount no_referrer same downgrade = nothing
amount no_referrer_when_downgrade same downgrade = if downgrade then nothing else full
amount same_origin same downgrade = if same then full else nothing
amount origin_policy same downgrade = only_origin
amount strict_origin same downgrade = if downgrade then nothing else only_origin
amount origin_when_cross_origin same downgrade = if same then full else only_origin
amount strict_origin_when_cross_origin same downgrade =
    if same then full else if downgrade then nothing else only_origin
amount unsafe_url same downgrade = full
amount scrapy_default same downgrade = if downgrade then nothing else full

abbrev pub is_secure : Url → Bool
is_secure u = u.scheme == "https" || u.scheme == "ftps"

abbrev pub downgrade : Url → Url → Bool
downgrade response request = is_secure response && not (is_secure request)

-- A port that is not the usual one of the scheme.
abbrev pub unusual_port : String → Option ℕ → Option ℕ
unusual_port scheme none = none
unusual_port scheme (some port) =
    if nat_beq port 80 && scheme == "http"
    then none
    else if nat_beq port 443 && scheme == "https"
    then none
    else if nat_beq port 21 && scheme == "ftp"
    then none
    else some port

-- The URL without user name and password, usual port and fragment.
abbrev pub bare_url : Url → Url
bare_url u = record {
  scheme = u.scheme;
  userinfo = if u.has_credentials then "" else u.userinfo;
  has_credentials = false;
  host = u.host;
  port = unusual_port u.scheme u.port;
  path = u.path;
  params = u.params;
  query = u.query;
  fragment = "";
}

-- Scheme, host and port alone.
abbrev pub origin_url : Url → Url
origin_url u = record (bare_url u) { path = "/"; params = ""; query = "" }

port_lem :
    (scheme : String) (port : Option ℕ) → stripped_port scheme port ≡ unusual_port scheme port
unfolding is_default_port
port_lem scheme none = refl
port_lem scheme (some port) = ground arith

strip_url_lem : (u : Url) → strip_url false u ≡ bare_url u
unfolding strip_url
strip_url_lem u = ap (λ port. record (bare_url u) { port = port }) (port_lem u.scheme u.port)

origin_only_lem : (u : Url) → strip_url true u ≡ origin_url u
unfolding strip_url
origin_only_lem u = ap (λ port. record (origin_url u) { port = port }) (port_lem u.scheme u.port)

tls_protected_lem : (u : Url) → tls_protected u ≡ is_secure u
unfolding tls_protected
tls_protected_lem u = refl

data-unprotected : (s : String) → (s == "data") ≡ true → (s == "https" || s == "ftps") ≡ false
data-unprotected s h =
    subst (λ t. (t == "https" || t == "ftps") ≡ false) (sym ((string_eq.same_iff s "data").0 h))
      refl

trustworthy_lem : (u : Url) → potentially_trustworthy u ≡ is_secure u
unfolding potentially_trustworthy tls_protected
trustworthy_lem u = elim (Bool-cases (u.scheme == "data")) [
  | inl y ↦ ground (arith, data-unprotected u.scheme y)
  | inr n ↦ ground arith
]

abbrev pub leaks : ReferrerPolicy → Bool → Bool
leaks origin_when_cross_origin same = not same
leaks _ same = false

module _ (unparse : Url → String) where
  unfoldable pub sent : Amount → Url → Option String
  sent nothing u = none
  sent only_origin u = some (unparse (origin_url u))
  sent full u = some (unparse (bare_url u))

  abbrev pub same_origins : Url → Url → Bool
  same_origins response request = unparse (origin_url response) == unparse (origin_url request)

  origin_lem : (u : Url) → origin unparse u ≡ unparse (origin_url u)
  unfolding origin
  origin_lem u = ap unparse (origin_only_lem u)

  same_origins_lem :
      (response request : Url)
      → (origin unparse response == origin unparse request) ≡ same_origins response request
  same_origins_lem response request =
      ap (λ a. a == origin unparse request) (origin_lem response)
      ∙ ap (λ b. unparse (origin_url response) == b) (origin_lem request)

  stripped_lem :
      (p : ReferrerPolicy) (u : Url)
      → contains u.scheme (noreferrer_schemes p) ≡ false
      → stripped_referrer unparse p u ≡ sent full u
  unfolding stripped_referrer sent
  stripped_lem p u h = ground (arith, ap unparse (strip_url_lem u))

  origin_sent_lem :
      (p : ReferrerPolicy) (u : Url)
      → contains u.scheme (noreferrer_schemes p) ≡ false
      → origin_referrer unparse p u ≡ sent only_origin u
  unfolding origin_referrer sent
  origin_sent_lem p u h = ground (arith, origin_lem u)

  -- Of a URL whose scheme is not one that the policy keeps back, a policy sends what the table of the
  -- referrer policies says: nothing, or the URL without user name, password, usual port, path,
  -- parameters, query and fragment (the origin), or the URL without user name, password, usual port
  -- and fragment. A downgrade is from https or ftps to another scheme.
  pub referrer-amount :
      (p : ReferrerPolicy) (response request : Url)
      → contains response.scheme (noreferrer_schemes p) ≡ false
      → referrer unparse p response request
        ≡ sent (amount p (same_origins response request) (downgrade response request)) response
  unfolding referrer sent
  referrer-amount no_referrer response request h = refl
  referrer-amount no_referrer_when_downgrade response request h = ground (
    arith,
    stripped_lem no_referrer_when_downgrade response h,
    tls_protected_lem response,
    tls_protected_lem request,
  )
  referrer-amount same_origin response request h =
      ground (arith, same_origins_lem response request, stripped_lem same_origin response h)
  referrer-amount origin_policy response request h =
      ground (arith, origin_sent_lem origin_policy response h)
  referrer-amount strict_origin response request h = ground (
    arith,
    origin_sent_lem strict_origin response h,
    tls_protected_lem response,
    trustworthy_lem request,
  )
  referrer-amount origin_when_cross_origin response request h = ground (
    arith,
    same_origins_lem response request,
    stripped_lem origin_when_cross_origin response h,
    origin_lem response,
  )
  referrer-amount strict_origin_when_cross_origin response request h = ground (
    arith,
    same_origins_lem response request,
    stripped_lem strict_origin_when_cross_origin response h,
    origin_sent_lem strict_origin_when_cross_origin response h,
    tls_protected_lem response,
    trustworthy_lem request,
  )
  referrer-amount unsafe_url response request h = ground (arith, stripped_lem unsafe_url response h)
  referrer-amount scrapy_default response request h = ground (
    arith,
    stripped_lem scrapy_default response h,
    tls_protected_lem response,
    tls_protected_lem request,
  )

  -- Of a URL whose scheme the policy keeps back nothing is sent, but by origin-when-cross-origin:
  -- where the origins differ it sends the origin.
  pub referrer_local_lem :
      (p : ReferrerPolicy) (response request : Url)
      → contains response.scheme (noreferrer_schemes p) ≡ true
      → referrer unparse p response request ≡ (
          if leaks p (same_origins response request)
          then some (unparse (origin_url response))
          else none)
  unfolding referrer stripped_referrer origin_referrer
  referrer_local_lem no_referrer response request h = refl
  referrer_local_lem no_referrer_when_downgrade response request h = ground arith
  referrer_local_lem same_origin response request h =
      ground (arith, same_origins_lem response request)
  referrer_local_lem origin_policy response request h = ground arith
  referrer_local_lem strict_origin response request h = ground arith
  referrer_local_lem origin_when_cross_origin response request h =
      ground (arith, same_origins_lem response request, origin_lem response)
  referrer_local_lem strict_origin_when_cross_origin response request h =
      ground (arith, same_origins_lem response request, origin_lem response)
  referrer_local_lem unsafe_url response request h = ground arith
  referrer_local_lem scrapy_default response request h = ground arith

last_known-registered :
    (policies : Dict String ReferrerPolicy) (names : List String) (p : ReferrerPolicy)
    → last_known policies names ≡ some p
    → (name : String) × (Dict.get name policies ≡ some p)
unfolding last_known
last_known-registered policies [] p h = absurd (ground arith)
last_known-registered policies (name ∷ names) p h =
    elim (Option-cases (last_known policies names)) [
      | inl e ↦ (name, ground arith)
      | inr (q, e) ↦ last_known-registered policies names p (ground arith)
    ]

-- Without a policy in the meta of the request, a response cannot choose a policy that is not
-- registered under a name, and no import path is loaded for it: the policy is the default one or a
-- registered one, and it is the same for any way to load import paths.
pub policy-header :
    (load load' : String → Option ReferrerPolicy) (split_names : String → List String)
    (header : Option String) (m : RefererMiddleware)
    → (policy load split_names none header m ≡ policy load' split_names none header m)
      × ((policy load split_names none header m ≡ m.default_policy)
          ⊎ ((name : String) × (Dict.get name m.policies
                ≡ some (policy load split_names none header m))))
unfolding policy load_policy_class
policy-header load load' split_names none m = (refl, inl refl)
policy-header load load' split_names (some h) m = (
  refl,
  elim (Option-cases (last_known m.policies (split_names h))) [
    | inl e ↦ inl (ground arith)
    | inr (p, e) ↦
        let (name, g) = last_known-registered m.policies (split_names h) p e in
        inr (name, ground arith)
  ],
)
