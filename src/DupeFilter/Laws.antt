-- ===== src/DupeFilter/Laws.antt =====
-- What the filter has seen, and what a filter that is opened on its file sees again.
use scrapy.Prelude.{
  ◌≡◌, refl, Bool, false, ◌||◌, Option, none, some, List, [], ◌∷◌, ◌++◌, String, contains,
  string_eq, arith, ◌==◌, Bool-cases, inl, inr,
}
use mathlib.Core.Path.{subst}
use text.Mathlib.TextEquality.{eq_iff}
use scrapy.Request.{Request}
use scrapy.DupeFilter.{DupeFilter, add_all, open_filter, append_line, request_seen}

contains-append :
    (x : String) (xs ys : List String) → contains x (xs ++ ys) ≡ (contains x xs || contains x ys)
contains-append x [] ys = refl
contains-append x (y ∷ xs) ys = ground (arith, contains-append x xs ys)

contains-add_all :
    (x : String) (xs fs : List String)
    → contains x (add_all xs fs) ≡ (contains x xs || contains x fs)
contains-add_all x [] fs = refl
contains-add_all x (y ∷ xs) fs =
    ground (arith, contains-add_all x xs fs, contains-add_all x xs (y ∷ fs), eq_iff x y)

module _ (fingerprint : Request → String) where
  abbrev pub seen : Request → DupeFilter → Bool
  seen r f = contains (fingerprint r) f.fingerprints

  -- A request is reported as seen exactly if its fingerprint was seen before; afterwards its
  -- fingerprint counts as seen, and every other one as before.
  pub request_seen_lem :
      (r x : Request) (f : DupeFilter)
      → ((request_seen fingerprint r f).0 ≡ seen r f)
        × (seen x (request_seen fingerprint r f).1 ≡ (fingerprint x == fingerprint r || seen x f))
  unfolding request_seen
  request_seen_lem r x f = (ground arith, ground (arith, eq_iff (fingerprint x) (fingerprint r)))

  -- The file, if there is one, holds what the filter has seen.
  abbrev pub Holds : Option (List String) → DupeFilter → Type 0
  Holds none f = Unit
  Holds (some lines) f = (x : Request) → contains (fingerprint x) lines ≡ seen x f

  abbrev pub IsSaved : DupeFilter → Type 0
  IsSaved f = Holds f.file f

  Holds-request_seen :
      (r : Request) (o : Option (List String)) (f : DupeFilter)
      → Holds o f
      → seen r f ≡ false
      → Holds (append_line (fingerprint r) o) (record f {
        fingerprints = fingerprint r ∷ f.fingerprints;
        file = append_line (fingerprint r) f.file;
      })
  Holds-request_seen r none f h n = tt
  Holds-request_seen r (some lines) f h n = λ x. ground (
    arith,
    h x,
    contains-append (fingerprint x) lines (fingerprint r ∷ []),
    eq_iff (fingerprint x) (fingerprint r),
  )

  -- Asking about a request keeps the file equal to what has been seen.
  pub request_seen-IsSaved :
      (r : Request) (f : DupeFilter) → IsSaved f → IsSaved (request_seen fingerprint r f).1
  unfolding request_seen
  request_seen-IsSaved r f h = elim (Bool-cases (seen r f)) [
    | inl y ↦ rw y h
    | inr n ↦ rw n (Holds-request_seen r f.file f h n)
  ]

  -- A filter that is opened on the file of one whose file holds what it has seen has seen the same
  -- requests.
  pub reopen_lem :
      (f : DupeFilter) (lines : List String) (debug : Bool) (x : Request)
      → IsSaved f
      → f.file ≡ some lines
      → seen x (open_filter (some lines) debug) ≡ seen x f
  unfolding open_filter
  reopen_lem f lines debug x h e =
      let g : Holds (some lines) f = subst (λ o. Holds o f) e h in
      ground (arith, g x, contains-add_all (fingerprint x) lines [])
