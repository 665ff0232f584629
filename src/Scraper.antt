-- ===== src/Scraper.antt =====
-- core/scraper.py: the Slot of the Scraper and the coroutines that move responses and items through
-- it. A request is known by its identity, a number. What callbacks and item pipelines do is left
-- out: they are the events that end.
pub mod Laws
mod Tests
use Prim.Native.Nat.{max}
use scrapy.Prelude.{
  ℕ, zero, suc, ◌+◌, ◌-◌, Bool, true, false, not, ◌&&◌, ◌||◌, Option, none, some, List, [], ◌∷◌,
  ◌++◌, ltb, contains, if◌then◌else◌, length, nat_beq, nat_eq,
}
use scrapy.Downloader.{add, remove}

-- `Response | Failure`, a response by the length of its body
pub data Result : Type 0 where
  response : ℕ → Result
  failure : Result

pub record Job : Type 0 where
  pub result : Result
  pub request : ℕ

-- The Deferred `closing`.
pub data Closing : Type 0 where
  not_closing : Closing
  waiting : Closing
  fired : Closing

pub record Slot : Type 0 where
  pub max_active_size : ℕ
  pub queue : List Job
  pub active : List ℕ
  pub active_size : ℕ
  pub itemproc_size : ℕ
  pub closing : Closing
  -- the calls of `enqueue_scrape` that wait for their job, in their order
  pub running : List Job
  -- the items in `start_itemproc_async`, and the coroutines that are to put one there
  pub items : ℕ
  pub nowait : ℕ

unfoldable pub new_slot : ℕ → Slot
new_slot max_active_size = record {
  max_active_size = max_active_size;
  queue = [];
  active = [];
  active_size = 0;
  itemproc_size = 0;
  closing = not_closing;
  running = [];
  items = 0;
  nowait = 0;
}

-- MIN_RESPONSE_SIZE
abbrev pub min_response_size : ℕ
min_response_size = 1024

abbrev pub size : Result → ℕ
size (response n) = max n min_response_size
size failure = min_response_size

unfoldable pub add_response_request : Job → Slot → Slot
add_response_request j s = record s {
  queue = s.queue ++ j ∷ [];
  active_size = s.active_size + size j.result;
}

-- The loop of `_scrape_next`, over the queue: each job becomes active, and its coroutine starts.
unfoldable pub activate : List Job → List ℕ → List ℕ
activate [] active = active
activate (j ∷ js) active = activate js (add j.request active)

unfoldable pub scrape_next : Slot → Slot
unfolding activate
scrape_next s = record s {
  queue = [];
  active = activate s.queue s.active;
  running = s.running ++ s.queue;
}

unfoldable pub finish_response : Job → Slot → Slot
finish_response j s = record s {
  active = remove j.request s.active;
  active_size = s.active_size - size j.result;
}

abbrev pub is_empty {ℓ} : {A : Type ℓ} → List A → Bool
is_empty [] = true
is_empty (x ∷ xs) = false

unfoldable pub is_idle : Slot → Bool
is_idle s = is_empty s.queue && (is_empty s.active && nat_beq s.itemproc_size 0)

unfoldable pub needs_backout : Slot → Bool
needs_backout s = ltb s.max_active_size s.active_size

-- `_check_if_closing`; `none` when `callback` raises, because the Deferred has been fired
unfoldable pub check_if_closing : Slot → Option Slot
unfolding is_idle
check_if_closing s = elim s.closing [
  | not_closing ↦ some s
  | waiting ↦ some (if is_idle s then record s { closing = fired } else s)
  | fired ↦ if is_idle s then none else some s
]

-- The job at a position, and the other ones.
abbrev pub pick : ℕ → List Job → Option (Job × List Job)
pick n [] = none
pick zero (j ∷ js) = some (j, js)
pick (suc n) (j ∷ js) = elim (pick n js) [ none ↦ none | some (k, ks) ↦ some (k, j ∷ ks) ]

pub data Event : Type 0 where
  -- enqueue_scrape, up to where it waits
  enqueue : Job → Event
  -- the n-th waiting call goes on: its job was scraped
  scraped : ℕ → Event
  -- start_itemproc_async begins with an item of a callback
  start_item : Event
  -- _start_itemproc_nowait
  start_nowait : Event
  -- the coroutine of _start_itemproc_nowait begins
  begin_nowait : Event
  -- start_itemproc_async is done with an item, whatever became of it
  end_item : Event
  -- close_spider_async, up to where it waits
  close : Event

-- enqueue_scrape, up to where it waits
abbrev pub enqueue_scrape : Job → Slot → Slot
enqueue_scrape j s = scrape_next (add_response_request j s)

-- What follows in enqueue_scrape; `none` when `set.remove` or `callback` raises
abbrev pub end_scrape : Job → Slot → Option Slot
end_scrape j s =
    if contains j.request s.active
    then elim (check_if_closing (finish_response j s)) [
      | none ↦ none
      | some t ↦ some (scrape_next t)
    ]
    else none

-- start_itemproc_async, up to where it waits
abbrev pub start_itemproc : Slot → Slot
start_itemproc s = record s { itemproc_size = s.itemproc_size + 1; items = s.items + 1 }

-- _start_itemproc_nowait
abbrev pub start_itemproc_nowait : Slot → Slot
start_itemproc_nowait s = record s { itemproc_size = s.itemproc_size + 1; nowait = s.nowait + 1 }

-- _start_itemproc_nowait_async, one of the coroutines that are to begin
abbrev pub begin_itemproc : Slot → Slot
begin_itemproc s =
    start_itemproc (record s { itemproc_size = s.itemproc_size - 1; nowait = s.nowait - 1 })

-- What follows in start_itemproc_async, whatever became of the item
abbrev pub end_itemproc : Slot → Slot
end_itemproc s = record s { itemproc_size = s.itemproc_size - 1; items = s.items - 1 }

-- close_spider_async, up to where it waits
abbrev pub close_spider : Slot → Option Slot
close_spider s = check_if_closing (record s { closing = waiting })

-- `none` where the event cannot happen, or an exception leaves it.
unfoldable pub step : Event → Slot → Option Slot
step (enqueue j) s = some (enqueue_scrape j s)
step (scraped n) s = elim (pick n s.running) [
  | none ↦ none
  | some (j, js) ↦ end_scrape j (record s { running = js })
]
step start_item s = some (start_itemproc s)
step start_nowait s = some (start_itemproc_nowait s)
step begin_nowait s = if ltb 0 s.nowait then some (begin_itemproc s) else none
step end_item s = if ltb 0 s.items then some (end_itemproc s) else none
step close s = close_spider s

abbrev pub run : List Event → Slot → Option Slot
run [] s = some s
run (x ∷ xs) s = elim (step x s) [ none ↦ none | some t ↦ run xs t ]
