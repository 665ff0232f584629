-- ===== src/Downloader.antt =====
-- core/downloader/__init__.py: Slot and Downloader. A request is known by its identity, a number, as
-- in the sets of the source. Times are whole numbers of a unit in which half a delay is whole too.
-- Signals are left out. The download handlers are the events that end a transfer; a handler is taken
-- to wait at least once. The looping call that triggers `_slot_gc` is left out.
pub mod Limit
mod Tests
pub mod Gc
pub mod Tasks
pub mod Order
pub mod Busy
use scrapy.Prelude.{
  ℕ, suc, ◌+◌, ◌-◌, ◌*◌, ◌/◌, Bool, true, false, not, ◌&&◌, ◌||◌, Option, none, some, List, [], ◌∷◌,
  ◌++◌, String, get_or, leb, ltb, contains, if◌then◌else◌, length, is_some, nat_beq, nat_eq,
  string_eq, ◌==◌,
}
use scrapy.Dict
use scrapy.Dict.{Dict}

pub record Slot : Type 0 where
  pub concurrency : ℕ
  pub delay : ℕ
  pub randomize_delay : Bool
  pub active : List ℕ
  pub queue : List ℕ
  pub transferring : List ℕ
  pub lastseen : ℕ
  -- the delay that `call_later` was given
  pub latercall : Option ℕ
  -- the `_wait_for_download` coroutines that are scheduled as tasks and have not begun
  pub scheduled : List ℕ

-- What the clock and the generator of random numbers answer, at each nested call.
pub record Readings : Type 0 where
  pub monotonic : ℕ → ℕ
  pub uniform : ℕ → ℕ → ℕ → ℕ

-- `s.add(a)`
unfoldable pub add : ℕ → List ℕ → List ℕ
add a s = if contains a s then s else a ∷ s

-- `s.remove(a)` of a set that holds `a`
unfoldable pub remove : ℕ → List ℕ → List ℕ
remove a [] = []
remove a (b ∷ s) = if a == b then s else b ∷ remove a s

unfoldable pub new_slot : ℕ → ℕ → Bool → Slot
new_slot concurrency delay randomize_delay = record {
  concurrency = concurrency;
  delay = delay;
  randomize_delay = randomize_delay;
  active = [];
  queue = [];
  transferring = [];
  lastseen = 0;
  latercall = none;
  scheduled = [];
}

-- `free_transfer_slots() > 0`
unfoldable pub has_free_slot : Slot → Bool
has_free_slot s = ltb (length s.transferring) s.concurrency

unfoldable pub download_delay : Readings → ℕ → Slot → ℕ
download_delay e i s =
    if s.randomize_delay then e.uniform i (s.delay / 2) (s.delay + s.delay / 2) else s.delay

-- Slot.close
unfoldable pub close_slot : Slot → Slot
close_slot s = record s { latercall = none }

-- The first step of `_download`.
unfoldable pub begin : ℕ → Slot → Slot
begin r s = record s { transferring = add r s.transferring }

-- `_schedule_coro(self._wait_for_download(...))`: with asyncio a task that begins later, else a
-- coroutine that runs at once, up to where it waits for the handler.
unfoldable pub schedule : Bool → ℕ → Slot → Slot
unfolding begin
schedule asyncio r s = if asyncio then record s { scheduled = s.scheduled ++ r ∷ [] } else begin r s

-- The loop of `_process_queue` without a delay, on the requests of the queue.
unfoldable pub drain : Bool → ℕ → List ℕ → Slot → Slot
drain asyncio now [] s = record s { queue = [] }
drain asyncio now (r ∷ q) s =
    let rest = drain asyncio now q (schedule asyncio r (record s { lastseen = now })) in
    if has_free_slot s then rest else record s { queue = r ∷ q }

-- What `_process_queue` leaves behind where it returns early: another call waits for its time,
-- or the delay since the last start is not over.
unfoldable pub waiting : ℕ → ℕ → List ℕ → Slot → Option Slot
waiting now delay q s =
    if is_some s.latercall
    then some (record s { queue = q })
    else if ltb 0 delay && ltb now (delay + s.lastseen)
    then some (record s { queue = q; latercall = some (delay + s.lastseen - now) })
    else none

-- `_process_queue` on the requests of the queue; `i` counts the nested calls. With a delay the loop
-- starts one request and makes a nested call.
unfoldable pub process : Bool → Readings → ℕ → List ℕ → Slot → Slot
unfolding waiting
process asyncio e i [] s =
    get_or (waiting (e.monotonic i) (download_delay e i s) [] s) (record s { queue = [] })
process asyncio e i (r ∷ q) s =
    let now = e.monotonic i in
    let delay = download_delay e i s in
    let rest = process asyncio e (suc i) q (schedule asyncio r (record s { lastseen = now })) in
    elim (waiting now delay (r ∷ q) s) [
      | some s' ↦ s'
      | none ↦
          if nat_beq delay 0
          then drain asyncio now (r ∷ q) s
          else if has_free_slot s
          then rest
          else record s { queue = r ∷ q }
    ]

unfoldable pub process_queue : Bool → Readings → Slot → Slot
unfolding process
process_queue asyncio e s = process asyncio e 0 s.queue s

-- What happens to a slot.
pub data Event : Type 0 where
  -- _enqueue_request, up to where it waits for the response
  enqueue : ℕ → Event
  -- the next scheduled task begins
  begin_task : Event
  -- the handler is done with a request, by a response or a failure
  finish : ℕ → Event
  -- _enqueue_request goes on, and leaves the downloader
  leave : ℕ → Event
  -- the time of `call_later` is up: _latercall
  call : Event

-- `none` where the event cannot happen.
unfoldable pub step : Bool → Readings → Event → Slot → Option Slot
unfolding process_queue
step asyncio e (enqueue r) s =
    some (process_queue asyncio e (record s { active = add r s.active; queue = s.queue ++ r ∷ [] }))
step asyncio e begin_task s = elim s.scheduled [
  | [] ↦ none
  | r ∷ rs ↦ some (begin r (record s { scheduled = rs }))
]
step asyncio e (finish r) s =
    if contains r s.transferring
    then some (process_queue asyncio e (record s { transferring = remove r s.transferring }))
    else none
step asyncio e (leave r) s =
    if contains r s.active then some (record s { active = remove r s.active }) else none
step asyncio e call s = elim s.latercall [
  | none ↦ none
  | some delay ↦ some (process_queue asyncio e (record s { latercall = none }))
]

-- A run of events, each with what the clock shows during it.
abbrev pub run : Bool → List (Readings × Event) → Slot → Option Slot
run asyncio [] s = some s
run asyncio ((e, x) ∷ xs) s = elim (step asyncio e x s) [
  | none ↦ none
  | some s' ↦ run asyncio xs s'
]

-- `DOWNLOAD_SLOTS` of one key
pub record SlotSettings : Type 0 where
  pub concurrency : Option ℕ
  pub delay : Option ℕ
  pub randomize_delay : Option Bool

pub record Downloader : Type 0 where
  pub slots : Dict String Slot
  pub active : List ℕ
  pub total_concurrency : ℕ
  pub domain_concurrency : ℕ
  pub ip_concurrency : ℕ
  pub delay : ℕ
  pub randomize_delay : Bool
  pub per_slot_settings : Dict String SlotSettings

-- A total concurrency of 0 means no limit.
unfoldable pub needs_backout : Downloader → Bool
needs_backout d = ltb 0 d.total_concurrency && leb d.total_concurrency (length d.active)

abbrev pub no_settings : SlotSettings
no_settings = record { concurrency = none; delay = none; randomize_delay = none }

-- get_slot_key: the meta key, the host name, and what the DNS cache holds, if anything
unfoldable pub get_slot_key :
    (String → Option String) → Downloader → Option String → Option String → String
get_slot_key dns_cache d meta_slot hostname = elim meta_slot [
  | some key ↦ key
  | none ↦
      let key = get_or hostname "" in
      if nat_beq d.ip_concurrency 0 then key else get_or (dns_cache key) key
]

-- _get_slot, at the key of the request
unfoldable pub get_slot : String → Downloader → Slot × Downloader
unfolding new_slot
get_slot key d = elim (Dict.get key d.slots) [
  | some s ↦ (s, d)
  | none ↦
      let c = get_or (Dict.get key d.per_slot_settings) no_settings in
      let conc = if nat_beq d.ip_concurrency 0 then d.domain_concurrency else d.ip_concurrency in
      let s =
        new_slot (get_or c.concurrency conc) (get_or c.delay d.delay)
          (get_or c.randomize_delay d.randomize_delay) in
      (s, record d { slots = Dict.put key s d.slots })
]

-- The slots that `_slot_gc` keeps.
unfoldable pub kept : ℕ → Dict String Slot → Dict String Slot
kept mintime [] = []
kept mintime ((key, s) ∷ d) =
    let rest = kept mintime d in
    if nat_beq (length s.active) 0 && ltb (s.lastseen + s.delay) mintime
    then rest
    else (key, s) ∷ rest

-- _slot_gc
unfoldable pub slot_gc : ℕ → ℕ → Downloader → Downloader
slot_gc now age d = record d { slots = kept (now - age) d.slots }

-- fetch, up to where it waits, and what follows
unfoldable pub begin_fetch : ℕ → Downloader → Downloader
begin_fetch r d = record d { active = add r d.active }

unfoldable pub end_fetch : ℕ → Downloader → Downloader
end_fetch r d = record d { active = remove r d.active }

-- close: each slot is closed.
unfoldable pub close_slots : Dict String Slot → Dict String Slot
unfolding close_slot
close_slots [] = []
close_slots ((key, s) ∷ d) = (key, close_slot s) ∷ close_slots d

unfoldable pub close : Downloader → Downloader
unfolding close_slots
close d = record d { slots = close_slots d.slots }
