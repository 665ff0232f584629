-- ===== src/Downloader/Tests.antt =====
-- Runs of a slot of the downloader.
use scrapy.Prelude.{◌≡◌, refl, true, false, none, some, List, [], ◌∷◌, arith, inl, string_eq}
use scrapy.Downloader.{
  Slot, Readings, Event, enqueue, finish, leave, new_slot, step, run, process_queue, process, drain,
  add, remove, schedule, begin, waiting, download_delay, has_free_slot, Downloader,
}
use scrapy.Downloader.Limit.{run-Limited, Limited}
use scrapy.Downloader.Busy.{run-Busy, Busy}

abbrev at_noon : Readings
at_noon = record { monotonic = λ i. 12; uniform = λ i a b. a }

-- Two transfers at a time, three requests, and the first of them ends.
abbrev events : List (Readings × Event)
events =
    (at_noon, enqueue 1)
    ∷ (at_noon, enqueue 2)
    ∷ (at_noon, enqueue 3)
    ∷ (at_noon, finish 1)
    ∷ (at_noon, leave 1)
    ∷ []

abbrev after : Slot
after = record {
  concurrency = 2;
  delay = 0;
  randomize_delay = false;
  active = 3 ∷ 2 ∷ [];
  queue = [];
  transferring = 3 ∷ 2 ∷ [];
  lastseen = 12;
  latercall = none;
  scheduled = [];
}

run-events : run false events (new_slot 2 0 false) ≡ some after
unfolding new_slot step process_queue process drain add remove schedule begin waiting download_delay
    has_free_slot
run-events = refl

run-Limited_example : Limited after
unfolding new_slot
run-Limited_example = run-Limited events (new_slot 2 0 false) after (omega arith, refl) run-events

run-Busy_example : Busy after
unfolding new_slot
run-Busy_example = run-Busy false events (new_slot 2 0 false) after (inl refl) run-events

abbrev downloader : Downloader
downloader = record {
  slots = ("a", after) ∷ [];
  active = 3 ∷ 2 ∷ [];
  total_concurrency = 16;
  domain_concurrency = 8;
  ip_concurrency = 0;
  delay = 0;
  randomize_delay = true;
  per_slot_settings = [];
}
