-- ===== src/DupeFilter.antt =====
-- dupefilters.py: RFPDupeFilter. The fingerprint of a request is a hash that third-party code
-- computes, and a parameter here. Log messages are not modelled, but the stat and the flag are.
pub mod Laws
use scrapy.Prelude.{
  Bool, true, false, Option, none, some, List, [], ◌∷◌, ◌++◌, String, contains, if◌then◌else◌,
  string_eq,
}
use scrapy.Request.{Request}
use scrapy.Stats.{Stats, inc}

pub record DupeFilter : Type 0 where
  -- the lines of the file `requests.seen`, if there is one
  pub file : Option (List String)
  pub fingerprints : List String
  pub logdupes : Bool
  pub debug : Bool

-- `self.fingerprints.update(…)`
abbrev pub add_all : List String → List String → List String
add_all [] fs = fs
add_all (x ∷ xs) fs = add_all xs (if contains x fs then fs else x ∷ fs)

unfoldable pub open_filter : Option (List String) → Bool → DupeFilter
open_filter none debug = record { file = none; fingerprints = []; logdupes = true; debug = debug }
open_filter (some lines) debug = record {
  file = some lines;
  fingerprints = add_all lines [];
  logdupes = true;
  debug = debug;
}

abbrev pub append_line : String → Option (List String) → Option (List String)
append_line fp none = none
append_line fp (some lines) = some (lines ++ fp ∷ [])

module _ (fingerprint : Request → String) where
  unfoldable pub request_seen : Request → DupeFilter → Bool × DupeFilter
  request_seen r f =
      let fp = fingerprint r in
      if contains fp f.fingerprints
      then (true, f)
      else (false, record f { fingerprints = fp ∷ f.fingerprints; file = append_line fp f.file })

-- log()
unfoldable pub log : DupeFilter → Stats → DupeFilter × Stats
log f stats = (
  if f.debug then f else if f.logdupes then record f { logdupes = false } else f,
  inc "dupefilter/filtered" stats,
)
