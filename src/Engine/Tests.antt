-- ===== src/Engine/Tests.antt =====
-- Runs of the engine with a queue of numbers as its scheduler.
use scrapy.Prelude.{
  ℕ, ◌+◌, ◌≡◌, ◌⊎◌, refl, arith, Bool, true, false, Option, none, some, List, [], ◌∷◌, ltb, length,
  total, inl, inr,
}
use scrapy.SchedulerClass.{SchedulerClass, weight}
use scrapy.Downloader
use scrapy.Downloader.{Downloader, begin_fetch, end_fetch}
use scrapy.Scraper
use scrapy.Scraper.{is_empty}
use scrapy.Engine.{
  Engine, IdleAnswer, not_asked, closing_slot, needs_backout, start_loop, start_scheduled_request,
  start_scheduled_requests, crawl, leave, end_download, handle_request, after_loop, begin_direct,
}
use scrapy.Engine.Slot.{EngineSlot, new_slot, add_request, remove_request}
use scrapy.Engine.Slot
use scrapy.Engine.Control.{open_spider, start_async, close_spider, close_parts}
use scrapy.Engine.Events.{
  Event, start_next, exhausted, next_call, got_request, download, close_begins, slot_closed, step,
  run, run_call, start_round, process_start_next,
}
use scrapy.Engine.Loop.{start_loop_lem, Started}
use scrapy.Engine.Limit.{run-Within, Within}
use scrapy.Engine.Shutdown.{close_never_stuck, Steady}

abbrev dequeue : List ℕ → Option ℕ × List ℕ
dequeue [] = (none, [])
dequeue (x ∷ xs) = (some x, xs)

dequeue-total :
    (w : ℕ → ℕ) (xs : List ℕ) → total w (dequeue xs).1 + weight w (dequeue xs).0 ≡ total w xs
dequeue-total w [] = refl
dequeue-total w (x ∷ xs) = omega arith

abbrev stack : SchedulerClass ℕ
stack = record {
  Q = List ℕ;
  has_pending_requests = λ xs. ltb 0 (length xs);
  enqueue_request = λ x xs. (some true, x ∷ xs);
  next_request = dequeue;
  pending = λ xs. xs;
  has_pending_law = λ xs. refl;
  enqueue_law = λ w x xs. refl;
  next_law = dequeue-total;
}

-- An engine whose downloader takes two requests at a time.
abbrev idle : Engine stack
idle = record {
  slot = none;
  spider = false;
  running = false;
  starting = false;
  stopping = false;
  paused = false;
  start = false;
  start_error = false;
  downloader = record {
    slots = [];
    active = [];
    total_concurrency = 2;
    domain_concurrency = 8;
    ip_concurrency = 0;
    delay = 0;
    randomize_delay = false;
    per_slot_settings = [];
  };
  scraper = Scraper.new_slot 100;
  closes = [];
  stage = not_asked;
}

abbrev started : Engine stack
started = (start_async true (open_spider true (5 ∷ 7 ∷ 9 ∷ []) 100 idle).1).1

abbrev identity : ℕ → ℕ
identity x = x

abbrev ignored : ℕ → Bool
ignored x = false

-- No handler refuses.
abbrev consent : Engine stack → IdleAnswer × Engine stack
consent e = (record { dont_close = false; reason = none }, e)

abbrev ended : Option (Engine stack) → Engine stack
ended none = idle
ended (some e) = e

abbrev taken : Option (List ℕ × Engine stack) → List ℕ
taken none = []
taken (some (rs, e)) = rs

two_taken : taken (start_loop identity 4 started) ≡ 5 ∷ 7 ∷ []
unfolding start_loop needs_backout start_scheduled_request start_async open_spider new_slot
    begin_fetch Scraper.new_slot Scraper.needs_backout Downloader.needs_backout Downloader.add
    add_request
two_taken = refl

start_loop_lem_example :
    (rs : List ℕ) × (e' : Engine stack) × (start_loop identity 4 started ≡ some (rs, e'))
    × Started identity rs started e'
unfolding start_async open_spider new_slot Slot.schedule
start_loop_lem_example = start_loop_lem identity 4 started (omega arith)

-- The loop takes two requests; the downloader returns the first, with a request to follow it.
abbrev events : List (Event ℕ)
events = next_call ∷ got_request 3 7 ∷ start_next exhausted ∷ []

abbrev after_events : Engine stack
after_events = ended (run identity ignored consent events started)

after_events_lem : run identity ignored consent events started ≡ some after_events
unfolding step run_call start_round process_start_next start_scheduled_requests start_loop
    needs_backout start_scheduled_request start_async open_spider new_slot Slot.schedule begin_fetch
    end_fetch add_request Scraper.new_slot Scraper.needs_backout Downloader.needs_backout
    handle_request end_download crawl leave remove_request Downloader.add after_loop Scraper.is_idle
after_events_lem = refl

-- A component downloads a request past the scheduler, which is the third in the downloader.
abbrev direct_events : List (Event ℕ)
direct_events = next_call ∷ download 11 ∷ got_request 3 7 ∷ start_next exhausted ∷ []

abbrev after_direct : Engine stack
after_direct = ended (run identity ignored consent direct_events started)

after_direct_lem : run identity ignored consent direct_events started ≡ some after_direct
unfolding step run_call start_round process_start_next start_scheduled_requests start_loop
    needs_backout start_scheduled_request start_async open_spider new_slot Slot.schedule begin_fetch
    end_fetch add_request Scraper.new_slot Scraper.needs_backout Downloader.needs_backout
    handle_request end_download crawl leave remove_request Downloader.add after_loop Scraper.is_idle
    begin_direct
after_direct_lem = refl

run-Within_example : Within 1 after_direct
unfolding start_async open_spider
run-Within_example =
    run-Within consent identity ignored (λ k e w. w) direct_events 0 started after_direct
      after_direct_lem (inr (omega arith))

-- The spider is closed while the two requests are in progress, by the one call of `crawl` that fails.
abbrev asked : Engine stack
asked = record started { closes = "cancelled" ∷ [] }

abbrev closing_events : List (Event ℕ)
closing_events = next_call ∷ close_begins ∷ got_request 3 7 ∷ []

abbrev after_closing : Engine stack
after_closing = ended (run identity ignored consent closing_events asked)

after_closing_lem : run identity ignored consent closing_events asked ≡ some after_closing
unfolding step run_call start_round process_start_next start_scheduled_requests start_loop
    needs_backout start_scheduled_request start_async open_spider new_slot Slot.schedule begin_fetch
    end_fetch add_request Scraper.new_slot Scraper.needs_backout Downloader.needs_backout
    handle_request end_download crawl leave remove_request close_spider Slot.close
    Slot.maybe_fire_closing Downloader.add after_loop Scraper.is_idle
after_closing_lem = refl

asked-Steady : Steady asked
unfolding start_async open_spider new_slot Slot.schedule
asked-Steady = (_, inl refl)

after_closing-stage : after_closing.stage ≡ closing_slot
unfolding step run_call start_round process_start_next start_scheduled_requests start_loop
    needs_backout start_scheduled_request start_async open_spider new_slot Slot.schedule begin_fetch
    end_fetch add_request Scraper.new_slot Scraper.needs_backout Downloader.needs_backout
    handle_request end_download crawl leave remove_request close_spider Slot.close
    Slot.maybe_fire_closing Downloader.add after_loop Scraper.is_idle
after_closing-stage = refl

close_never_stuck_example :
    (s : EngineSlot stack) × (after_closing.slot ≡ some s)
    × ((is_empty s.inprogress ≡ false)
        ⊎ (step identity ignored consent slot_closed after_closing
            ≡ some (close_parts after_closing)))
close_never_stuck_example =
    close_never_stuck consent identity ignored (λ e w. w) closing_events asked after_closing
      after_closing_lem asked-Steady after_closing-stage
