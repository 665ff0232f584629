-- ===== src/Media/Tests.antt =====
-- A run of a media pipeline: two calls for a file, one of them while it is downloaded, and a third.
use scrapy.Prelude.{ℕ, ◌+◌, ◌≡◌, refl, Option, none, some, List, [], ◌∷◌, nat_eq, String, string_eq}
use scrapy.Media.{
  SpiderInfo, Event, process, done, open_spider, process_request, cache_result, step, run,
}
use scrapy.Media.Laws.{Once, calls}
use scrapy.Media.Calls.{asked, answers_of, waits_of, run-Served}

abbrev events : List (Event String ℕ)
events = process 1 "a" ∷ process 2 "a" ∷ process 3 "b" ∷ done "a" 7 ∷ process 4 "a" ∷ []

abbrev ended : Option (SpiderInfo String ℕ) → SpiderInfo String ℕ
ended none = open_spider
ended (some s) = s

abbrev after : SpiderInfo String ℕ
after = ended (run events open_spider)

after_lem : run events open_spider ≡ some after
unfolding run step open_spider process_request cache_result
after_lem = refl

after_answers : after.answers ≡ (4, "a", 7) ∷ (1, "a", 7) ∷ (2, "a", 7) ∷ []
unfolding run step open_spider process_request cache_result
after_answers = refl

run-Served_example :
    Once "a" (calls "a" events) after
    × ((call : ℕ) → asked call "a" events ≡ answers_of call "a" after + waits_of call "a" after)
run-Served_example = run-Served "a" events after after_lem
