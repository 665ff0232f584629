-- ===== src/Http2/RequestHeaders.antt =====
-- core/_http2/stream.py: the header list of a request, Stream._get_request_headers. The parsed URL is
-- a record of its parts; `str` of a number is a parameter; names and values are text already.

use Prim.Native.String.{◌++◌ as append}
use scrapy.Prelude.{
  ℕ, ◌≡◌, refl, Bool, false, ◌||◌, List, [], ◌∷◌, ◌++◌, String, if◌then◌else◌, ◌==◌, string_eq,
  arith, length,
}
use scrapy.Dict.{Dict}

pub record UrlParts : Type 0 where
  pub scheme : String
  pub netloc : String
  pub path : String
  pub query : String

pub record RequestParts : Type 0 where
  pub method : String
  pub url : UrlParts
  pub headers : Dict String (List String)
  pub body : List ℕ

-- The path with the query, or what stands for an empty one.
unfoldable pub path_of : RequestParts → String
path_of r =
    let path =
      if r.url.query == "" then r.url.path else append r.url.path (append "?" r.url.query) in
    if path == "" then (if r.method == "OPTIONS" then "*" else "/") else path

-- The loop over the values of a header.
unfoldable pub add_values : String → List String → List (String × String)
add_values name [] = []
add_values name (v ∷ vs) =
    let rest = add_values name vs in if name == "Content-Length" then rest else (name, v) ∷ rest

-- The loop over the headers.
unfoldable pub add_items : Dict String (List String) → List (String × String)
add_items [] = []
add_items ((name, values) ∷ items) = add_values name values ++ add_items items

unfoldable pub pseudo_headers : RequestParts → List (String × String)
pseudo_headers r =
    (":method", r.method)
    ∷ (":authority", r.url.netloc)
    ∷ (if r.method == "CONNECT" then [] else (":scheme", r.url.scheme) ∷ (":path", path_of r) ∷ [])

unfoldable pub get_request_headers : (ℕ → String) → RequestParts → List (String × String)
get_request_headers str r =
    pseudo_headers r ++ ("Content-Length", str (length r.body)) ∷ add_items r.headers

-- The values of a name in a list of headers.
abbrev pub values_of : String → List (String × String) → List String
values_of k [] = []
values_of k ((j, v) ∷ hs) = let rest = values_of k hs in if j == k then v ∷ rest else rest

abbrev pub values_in : String → Dict String (List String) → List String
values_in k [] = []
values_in k ((j, vs) ∷ items) = let rest = values_in k items in if j == k then vs ++ rest else rest

abbrev pub is_pseudo : String → Bool
is_pseudo k = ":method" == k || ":authority" == k || ":scheme" == k || ":path" == k

values_of-append :
    (k : String) (front back : List (String × String))
    → values_of k (front ++ back) ≡ values_of k front ++ values_of k back
values_of-append k [] back = refl
values_of-append k ((j, v) ∷ front) back = ground (arith, values_of-append k front back)

values_of-add_values :
    (k name : String) (vs : List String)
    → values_of k (add_values name vs)
      ≡ (if name == k then (if name == "Content-Length" then [] else vs) else [])
unfolding add_values
values_of-add_values k name [] = ground arith
values_of-add_values k name (v ∷ vs) = ground (arith, values_of-add_values k name vs)

values_of-add_items :
    (k : String) (items : Dict String (List String))
    → values_of k (add_items items) ≡ (if "Content-Length" == k then [] else values_in k items)
unfolding add_items
values_of-add_items k [] = ground arith
values_of-add_items k ((name, vs) ∷ items) =
    let rest = values_of-add_items k items in
    let this = values_of-add_values k name vs in
    let both = values_of-append k (add_values name vs) (add_items items) in
    ground (
      arith,
      rest,
      this,
      both,
      string_eq.same_iff name k,
      string_eq.same_iff "Content-Length" k,
      string_eq.same_iff name "Content-Length",
    )

values_of-pseudo :
    (k : String) (r : RequestParts) → is_pseudo k ≡ false → values_of k (pseudo_headers r) ≡ []
unfolding pseudo_headers
values_of-pseudo k r h = ground arith

-- The header list of a request has one Content-Length, the length of the body, whatever the request's
-- headers say, and of every other name but the pseudo-headers' the values of the request, in order.
pub get_request_headers_lem :
    (str : ℕ → String) (k : String) (r : RequestParts)
    → is_pseudo k ≡ false
    → values_of k (get_request_headers str r)
      ≡ (if "Content-Length" == k then str (length r.body) ∷ [] else values_in k r.headers)
unfolding get_request_headers
get_request_headers_lem str k r h =
    let rest = ("Content-Length", str (length r.body)) ∷ add_items r.headers in
    ground (
      arith,
      values_of-append k (pseudo_headers r) rest,
      values_of-pseudo k r h,
      values_of-add_items k r.headers,
    )
