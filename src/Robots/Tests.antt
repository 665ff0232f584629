-- ===== src/Robots/Tests.antt =====
-- Two requests of a site, of which a robots.txt is downloaded once, and a third one later.
use scrapy.Prelude.{
  ℕ, ◌≡◌, refl, Bool, true, false, Option, none, some, List, [], ◌∷◌, String, string_eq, ◌==◌,
  if◌then◌else◌,
}
use scrapy.Dict.{get, put}
use scrapy.Stats.{inc_value}
use scrapy.Media
use scrapy.Media.{open_spider}
use scrapy.Robots.{
  Request, exempt, starts_with, RobotsTxt, Event, request, download, response, init, robot_parser,
  settle, parse_robots, downloaded, step, run, process_request_2,
}
use scrapy.Robots.Laws.{view, view_events, run-view}

abbrev page : String → Request
page url = record {
  url = url;
  netloc = "example.com";
  dont_obey_robotstxt = false;
  user_agent = some "scrapy";
}

-- A parser is the one URL that it forbids.
abbrev allowed : String → String → String → Bool
allowed rp url useragent = if rp == url then false else true

abbrev status_key : ℕ → String
status_key status = "robotstxt/response_status_count"

abbrev events : List (Event String)
events =
    request 1 (page "https://example.com/a")
    ∷ request 2 (page "https://example.com/b")
    ∷ request 3 (page "data:,text")
    ∷ download "example.com" (response 200 "https://example.com/b")
    ∷ request 4 (page "https://example.com/b")
    ∷ []

abbrev ended : Option (RobotsTxt String) → RobotsTxt String
unfolding init
ended none = init []
ended (some s) = s

abbrev after : RobotsTxt String
unfolding ended run step init exempt starts_with robot_parser downloaded parse_robots settle get put
    inc_value
after = ended (run status_key "exception" events (init []))

after_lem : run status_key "exception" events (init []) ≡ some after
unfolding after ended run step init exempt starts_with robot_parser downloaded parse_robots settle
    get put inc_value
after_lem = refl

forbidden :
    (process_request_2 allowed "bot" none
      (some "https://example.com/b")
      (page "https://example.com/b")
      []).0
    ≡ false
unfolding process_request_2
forbidden = refl

run-view_example : Media.run (view_events events) (view (init [])) ≡ some (view after)
run-view_example = run-view status_key "exception" events (init []) after after_lem
