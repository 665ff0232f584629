-- ===== src/Robots.antt =====
-- downloadermiddlewares/robotstxt.py: RobotsTxtMiddleware. A request is known by a number, a site by
-- its netloc. The calls that wait for the robots.txt of a site are a list, in which the one that began
-- the download is the first; in the code it goes on after the others. The parser of a robots.txt is
-- third-party code: a type and its test `allowed`. Signals and messages are left out.
pub mod Laws
mod Tests
use Prim.Native.Char.{code}
use Prim.Native.String
use scrapy.Prelude.{
  ℕ, Bool, true, false, not, ◌&&◌, ◌||◌, Option, none, some, List, [], ◌∷◌, ◌++◌, map, String,
  if◌then◌else◌, ◌==◌, string_eq, nat_eq, nat_beq, get_or, updated,
}
use scrapy.Dict
use scrapy.Dict.{Dict}
use scrapy.Stats.{Stats, inc}

-- What process_request reads of a request.
pub record Request : Type 0 where
  pub url : String
  pub netloc : String
  pub dont_obey_robotstxt : Bool
  -- the User-Agent header
  pub user_agent : Option String

-- url.startswith(prefix)
unfoldable pub starts_with : String → String → Bool
starts_with String.[] s = true
starts_with (String.◌∷◌ c p) String.[] = false
starts_with (String.◌∷◌ c p) (String.◌∷◌ d s) =
    let rest = starts_with p s in nat_beq (code c) (code d) && rest

-- The requests that are let through without a robots.txt.
unfoldable pub exempt : Request → Bool
exempt r = r.dont_obey_robotstxt || starts_with "data:" r.url || starts_with "file:" r.url

module _ (RP : Type 0) where
  -- A value of _parsers: a Deferred, or what it was fired with.
  pub data Entry : Type 0 where
    deferred : Entry
    parser : Option RP → Entry

  pub record RobotsTxt : Type 0 where
    pub parsers : Dict String Entry
    -- the calls that wait for each site
    pub waiting : String → List ℕ
    -- what robot_parser has returned, and the downloads that were begun
    pub answers : List (ℕ × String × Option RP)
    pub started : List String
    pub stats : Stats

  -- How a download of a robots.txt ends: a response with its status and parser, or an exception, by
  -- whether it is IgnoreRequest.
  pub data Download : Type 0 where
    response : ℕ → RP → Download
    failure : Bool → Download

  pub data Event : Type 0 where
    request : ℕ → Request → Event
    download : String → Download → Event

module _ {RP : Type 0} (allowed : RP → String → String → Bool) where
  -- process_request_2: whether the request goes on, or IgnoreRequest is raised
  unfoldable pub process_request_2 :
      String → Option String → Option RP → Request → Stats → Bool × Stats
  process_request_2 default_useragent robotstxt_useragent none r stats = (true, stats)
  process_request_2 default_useragent robotstxt_useragent (some rp) r stats =
      let own = get_or robotstxt_useragent "" in
      let useragent = if own == "" then get_or r.user_agent default_useragent else own in
      if allowed rp r.url useragent then (true, stats) else (false, inc "robotstxt/forbidden" stats)

module _ {RP : Type 0} where
  unfoldable pub init : Stats → RobotsTxt RP
  init stats = record {
    parsers = [];
    waiting = λ netloc. [];
    answers = [];
    started = [];
    stats = stats;
  }

  -- robot_parser, up to where it waits
  unfoldable pub robot_parser : ℕ → String → RobotsTxt RP → RobotsTxt RP
  robot_parser call netloc s =
      let s' = record s { waiting = updated netloc (s.waiting netloc ++ call ∷ []) s.waiting } in
      elim (Dict.get netloc s.parsers) [
        | none ↦ record s' {
          parsers = Dict.put netloc deferred s.parsers;
          started = netloc ∷ s.started;
        }
        | some deferred ↦ s'
        | some (parser rp) ↦ record s { answers = (call, netloc, rp) ∷ s.answers }
      ]

  -- The end of _parse_robots and of _robots_error: the Deferred is replaced by its value and fired.
  unfoldable pub settle : Option RP → String → RobotsTxt RP → RobotsTxt RP
  settle rp netloc s = record s {
    parsers = Dict.put netloc (parser rp) s.parsers;
    waiting = updated netloc [] s.waiting;
    answers = map (λ call. (call, netloc, rp)) (s.waiting netloc) ++ s.answers;
  }

  -- The stats that _parse_robots counts before; `status_key` is the key of a status.
  unfoldable pub parse_robots : (ℕ → String) → ℕ → RP → String → RobotsTxt RP → RobotsTxt RP
  parse_robots status_key status rp netloc s =
      settle (some rp) netloc
        (record s { stats = inc (status_key status) (inc "robotstxt/response_count" s.stats) })

  -- `exception_key` is the key of the exception's type.
  unfoldable pub robots_error : String → Bool → String → RobotsTxt RP → RobotsTxt RP
  robots_error exception_key ignore netloc s =
      settle none netloc
        (record s { stats = if ignore then s.stats else inc exception_key s.stats })

  -- What follows the download in robot_parser; its Deferred must be there.
  unfoldable pub downloaded :
      (ℕ → String) → String → Download RP → String → RobotsTxt RP → Option (RobotsTxt RP)
  downloaded status_key exception_key d netloc s =
      let s' : RobotsTxt RP = elim d [
        | response status rp ↦ parse_robots status_key status rp netloc s
        | failure ignore ↦ robots_error exception_key ignore netloc s
      ] in
      elim (Dict.get netloc s.parsers) [
        | some deferred ↦ some (record s' { stats = inc "robotstxt/request_count" s'.stats })
        | _ ↦ none
      ]

  -- process_request, up to where it waits; and the end of a download
  unfoldable pub step : (ℕ → String) → String → Event RP → RobotsTxt RP → Option (RobotsTxt RP)
  step status_key exception_key (request call r) s =
      some (if exempt r then s else robot_parser call r.netloc s)
  step status_key exception_key (download netloc d) s =
      downloaded status_key exception_key d netloc s

  unfoldable pub run :
      (ℕ → String) → String → List (Event RP) → RobotsTxt RP → Option (RobotsTxt RP)
  run status_key exception_key [] s = some s
  run status_key exception_key (x ∷ xs) s = elim (step status_key exception_key x s) [
    | none ↦ none
    | some s' ↦ run status_key exception_key xs s'
  ]
