-- ===== src/Referer.antt =====
-- spidermiddlewares/referer.py: the referrer policies and RefererMiddleware, and strip_url of
-- utils/url.py. A URL, which is not empty, is given by the parts that `urlparse` returns, with its
-- port in plain digits; `unparse` is `urlunparse`. Policies that are not Scrapy's are left out.
pub mod Laws
mod Tests
use scrapy.Prelude.{
  ℕ, Bool, true, false, not, ◌&&◌, ◌||◌, Option, none, some, List, [], ◌∷◌, String, if◌then◌else◌,
  ◌==◌, string_eq, nat_eq, nat_beq, contains, get_or, is_some,
}
use scrapy.Dict
use scrapy.Dict.{Dict}
use scrapy.Request.{Request}

pub record Url : Type 0 where
  pub scheme : String
  -- the text up to the last "@", and whether it has a user name or a password
  pub userinfo : String
  pub has_credentials : Bool
  pub host : String
  pub port : Option ℕ
  pub path : String
  pub params : String
  pub query : String
  pub fragment : String

-- The pairs of `strip_url`.
unfoldable pub is_default_port : String → ℕ → Bool
is_default_port scheme port =
    (scheme == "http" && nat_beq port 80)
    || ((scheme == "https" && nat_beq port 443) || (scheme == "ftp" && nat_beq port 21))

abbrev pub stripped_port : String → Option ℕ → Option ℕ
stripped_port scheme none = none
stripped_port scheme (some port) = if is_default_port scheme port then none else some port

-- utils.url.strip_url, with the arguments of ReferrerPolicy.strip_url
unfoldable pub strip_url : Bool → Url → Url
strip_url origin_only u = record {
  scheme = u.scheme;
  userinfo = if u.has_credentials then "" else u.userinfo;
  has_credentials = false;
  host = u.host;
  port = stripped_port u.scheme u.port;
  path = if origin_only then "/" else u.path;
  params = if origin_only then "" else u.params;
  query = if origin_only then "" else u.query;
  fragment = "";
}

abbrev pub local_schemes : List String
local_schemes = "about" ∷ "blob" ∷ "data" ∷ "filesystem" ∷ []

pub data ReferrerPolicy : Type 0 where
  no_referrer : ReferrerPolicy
  no_referrer_when_downgrade : ReferrerPolicy
  same_origin : ReferrerPolicy
  origin_policy : ReferrerPolicy
  strict_origin : ReferrerPolicy
  origin_when_cross_origin : ReferrerPolicy
  strict_origin_when_cross_origin : ReferrerPolicy
  unsafe_url : ReferrerPolicy
  scrapy_default : ReferrerPolicy

unfoldable pub noreferrer_schemes : ReferrerPolicy → List String
noreferrer_schemes scrapy_default = "about" ∷ "blob" ∷ "data" ∷ "filesystem" ∷ "file" ∷ "s3" ∷ []
noreferrer_schemes _ = local_schemes

unfoldable pub tls_protected : Url → Bool
tls_protected u = u.scheme == "https" || u.scheme == "ftps"

unfoldable pub potentially_trustworthy : Url → Bool
unfolding tls_protected
potentially_trustworthy u = if u.scheme == "data" then false else tls_protected u

module _ (unparse : Url → String) where
  unfoldable pub stripped_referrer : ReferrerPolicy → Url → Option String
  stripped_referrer policy u =
      if contains u.scheme (noreferrer_schemes policy)
      then none
      else some (unparse (strip_url false u))

  unfoldable pub origin : Url → String
  origin u = unparse (strip_url true u)

  unfoldable pub origin_referrer : ReferrerPolicy → Url → Option String
  origin_referrer policy u =
      if contains u.scheme (noreferrer_schemes policy) then none else some (origin u)

  abbrev pub may_send_origin : Url → Url → Bool
  may_send_origin response request =
      (tls_protected response && potentially_trustworthy request) || not (tls_protected response)

  -- referrer, of each of the policies
  unfoldable pub referrer : ReferrerPolicy → Url → Url → Option String
  referrer no_referrer response request = none
  referrer no_referrer_when_downgrade response request =
      if not (tls_protected response) || tls_protected request
      then stripped_referrer no_referrer_when_downgrade response
      else none
  referrer same_origin response request =
      if origin response == origin request then stripped_referrer same_origin response else none
  referrer origin_policy response request = origin_referrer origin_policy response
  referrer strict_origin response request =
      if may_send_origin response request then origin_referrer strict_origin response else none
  referrer origin_when_cross_origin response request =
      if origin response == origin request
      then stripped_referrer origin_when_cross_origin response
      else some (origin response)
  referrer strict_origin_when_cross_origin response request =
      if origin response == origin request
      then stripped_referrer strict_origin_when_cross_origin response
      else if may_send_origin response request
      then origin_referrer strict_origin_when_cross_origin response
      else none
  referrer unsafe_url response request = stripped_referrer unsafe_url response
  referrer scrapy_default response request =
      if not (tls_protected response) || tls_protected request
      then stripped_referrer scrapy_default response
      else none

pub record RefererMiddleware : Type 0 where
  pub default_policy : ReferrerPolicy
  pub policies : Dict String ReferrerPolicy

-- The policies by their names, as __init__ registers them.
abbrev pub standard_policies : Dict String ReferrerPolicy
standard_policies =
    ("no-referrer", no_referrer)
    ∷ ("no-referrer-when-downgrade", no_referrer_when_downgrade)
    ∷ ("same-origin", same_origin)
    ∷ ("origin", origin_policy)
    ∷ ("strict-origin", strict_origin)
    ∷ ("origin-when-cross-origin", origin_when_cross_origin)
    ∷ ("strict-origin-when-cross-origin", strict_origin_when_cross_origin)
    ∷ ("unsafe-url", unsafe_url)
    ∷ ("scrapy-default", scrapy_default)
    ∷ ("", no_referrer_when_downgrade)
    ∷ []

-- The last of the names that is registered.
unfoldable pub last_known : Dict String ReferrerPolicy → List String → Option ReferrerPolicy
last_known policies [] = none
last_known policies (name ∷ names) = elim (last_known policies names) [
  | none ↦ Dict.get name policies
  | some p ↦ some p
]

-- `load` is `load_object` of an import path, and `split_names` the parts of a lower-case text between
-- commas, without blanks around them.
module _ (load : String → Option ReferrerPolicy) (split_names : String → List String) where
  -- _load_policy_class; `none` is a warning, or RuntimeError
  unfoldable pub load_policy_class : Bool → String → RefererMiddleware → Option ReferrerPolicy
  load_policy_class allow_import_path policy m =
      let known = last_known m.policies (split_names policy) in
      if allow_import_path then elim (load policy) [ some p ↦ some p | none ↦ known ] else known

  -- policy: of the meta key `referrer_policy` of a request, and the header Referrer-Policy of the
  -- response
  unfoldable pub policy : Option String → Option String → RefererMiddleware → ReferrerPolicy
  unfolding load_policy_class
  policy (some name) header m = get_or (load_policy_class true name m) m.default_policy
  policy none (some name) m = get_or (load_policy_class false name m) m.default_policy
  policy none none m = m.default_policy

  -- The loop of __init__ over REFERRER_POLICIES; `none` in a value is None. It raises KeyError or
  -- what `load_object` raises.
  unfoldable pub register :
      Dict String (Option String) → Dict String ReferrerPolicy → Option (Dict String ReferrerPolicy)
  register [] policies = some policies
  register ((name, none) ∷ rest) policies =
      if is_some (Dict.get name policies) then register rest (Dict.remove name policies) else none
  register ((name, some path) ∷ rest) policies = elim (load path) [
    | none ↦ none
    | some p ↦ register rest (Dict.put name p policies)
  ]

  -- __init__, of the settings REFERRER_POLICIES and REFERRER_POLICY
  unfoldable pub init : Dict String (Option String) → String → Option RefererMiddleware
  unfolding load_policy_class register
  init setting_policies setting_policy = elim (register setting_policies standard_policies) [
    | none ↦ none
    | some policies ↦
        let m : RefererMiddleware = record {
          default_policy = scrapy_default;
          policies = policies;
        } in
        elim (load_policy_class true setting_policy m) [
          | none ↦ none
          | some p ↦ some (record m { default_policy = p })
        ]
  ]

  -- get_processed_request; `parse` is `urlparse`. A start request has no response.
  unfoldable pub get_processed_request :
      (Url → String)
      → (String → Url)
      → Option String
      → Option (String × Option String)
      → RefererMiddleware
      → Request
      → Request
  unfolding policy
  get_processed_request unparse parse meta none m r = r
  get_processed_request unparse parse meta (some (url, header)) m r =
      elim (referrer unparse (policy meta header m) (parse url) (parse r.url)) [
        | none ↦ r
        | some t ↦
            if is_some (Dict.get "Referer" r.headers)
            then r
            else record r { headers = Dict.put "Referer" t r.headers }
      ]
