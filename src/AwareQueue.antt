-- ===== src/AwareQueue.antt =====
-- pqueues.py: DownloaderInterface and DownloaderAwarePriorityQueue, a ScrapyPriorityQueue for each
-- download slot. Directories are left out. The number of active downloads of each slot is what the
-- downloader shows at the time of a call; between the calls it may change.
pub mod Selection
pub mod Conserve
mod Tests
use Prim.Native.Nat.{Ordering}
use Prim.Native.String.{compare}
use scrapy.Prelude.{
  ℕ, ◌+◌, Bool, true, false, Option, none, some, List, [], ◌∷◌, ◌++◌, String, get_or, map, ltb,
  nat_beq, if◌then◌else◌, total, length, string_eq,
}
use scrapy.Prelude.Int.{ℤ}
use scrapy.Dict
use scrapy.Dict.{Dict}
use scrapy.Request.{Request}
use scrapy.QueueClass.{QueueClass}
use scrapy.PriorityQueue
use scrapy.PriorityQueue.{PriorityQueue}
use scrapy.PriorityQueue.Scheduling.{popped}
use scrapy.Downloader.{Downloader}

-- `s < t` for texts
abbrev pub text_lt : String → String → Bool
text_lt s t = elim (compare s t) [ Ordering.lt ↦ true | _ ↦ false ]

-- DownloaderInterface._active_downloads
unfoldable pub active_downloads : Downloader → String → ℕ
active_downloads d slot = elim (Dict.get slot d.slots) [ none ↦ 0 | some s ↦ length s.active ]

-- The variables of the loop of `_next_slot`.
pub record Choice : Type 0 where
  pub min_active : Option ℕ
  pub best_slot : Option String
  pub best_slot_after_last : Option String

abbrev pub is_after : Option String → String → Bool
is_after none slot = false
is_after (some last) slot = text_lt last slot

abbrev pub only_if : Bool → String → Option String
only_if b slot = if b then some slot else none

-- `best is None or slot < best`
abbrev pub is_better : Option String → String → Bool
is_better none slot = true
is_better (some best) slot = text_lt slot best

-- The body of the loop.
unfoldable pub choose : Option String → ℕ → String → Choice → Choice
choose last active slot c =
    let first : Choice = record {
      min_active = some active;
      best_slot = some slot;
      best_slot_after_last = only_if (is_after last slot) slot;
    } in
    elim c.min_active [
      | none ↦ first
      | some m ↦
          if ltb active m
          then first
          else if nat_beq active m
          then record c {
            best_slot = if is_better c.best_slot slot then some slot else c.best_slot;
            best_slot_after_last =
                if is_after last slot
                then if is_better c.best_slot_after_last slot
                  then some slot
                  else c.best_slot_after_last
                else c.best_slot_after_last;
          }
          else c
    ]

unfoldable pub choices : Option String → List (ℕ × String) → Choice → Choice
choices last [] c = c
choices last ((active, slot) ∷ stats) c = choices last stats (choose last active slot c)

abbrev pub no_choice : Choice
no_choice = record { min_active = none; best_slot = none; best_slot_after_last = none }

-- `best_slot_after_last if best_slot_after_last is not None else best_slot`
abbrev pub picked : Choice → Option String
picked c = elim c.best_slot_after_last [ some slot ↦ some slot | none ↦ c.best_slot ]

-- _next_slot; `none` when the assertion fails
unfoldable pub next_slot : Option String → List (ℕ × String) → Option String
unfolding choices choose
next_slot last stats = picked (choices last stats no_choice)

module _ (D S : QueueClass) where
  pub record AwareQueue : Type 0 where
    pub pqueues : Dict String (PriorityQueue D S)
    pub last_selected_slot : Option String
    -- what the downloader shows: its active requests by slot, and the slot key of a request
    pub active : String → ℕ
    pub slot_key : Request → String
    -- whether `_start_queue_cls` is set
    pub has_start : Bool

module _ {D S : QueueClass} where
  -- DownloaderInterface.stats of the slots of the queue
  abbrev pub slot_stats : (String → ℕ) → Dict String (PriorityQueue D S) → List (ℕ × String)
  slot_stats active [] = []
  slot_stats active ((slot, q) ∷ d) = (active slot, slot) ∷ slot_stats active d

  -- pqfactory, of a slot without start priorities
  unfoldable pub pqfactory : Bool → PriorityQueue D S
  pqfactory has_start = record {
    queues = [];
    start_queues = [];
    curprio = none;
    has_start = has_start;
  }

  -- The flag is false when the downstream queue raises.
  unfoldable pub push : Request → AwareQueue D S → Bool × AwareQueue D S
  push r a =
      let slot = a.slot_key r in
      let queue = get_or (Dict.get slot a.pqueues) (pqfactory a.has_start) in
      let (stored, queue') = PriorityQueue.push r queue in
      (stored, record a { pqueues = Dict.put slot queue' a.pqueues })

  -- What `pop` does with the queue of the slot.
  unfoldable pub pop_slot :
      String → PriorityQueue D S → AwareQueue D S → Option Request × AwareQueue D S
  pop_slot slot queue a =
      let (request, queue') = popped queue in
      (
        request,
        record a {
          last_selected_slot = some slot;
          pqueues =
              if nat_beq (PriorityQueue.len queue') 0
              then Dict.remove slot a.pqueues
              else Dict.put slot queue' a.pqueues;
        },
      )

  -- A slot that is not there (KeyError) cannot be chosen; then nothing is changed here.
  unfoldable pub pop : AwareQueue D S → Option Request × AwareQueue D S
  pop a = elim (next_slot a.last_selected_slot (slot_stats a.active a.pqueues)) [
    | none ↦ (none, a)
    | some slot ↦ elim (Dict.get slot a.pqueues) [
      | none ↦ (none, a)
      | some queue ↦ pop_slot slot queue a
    ]
  ]

  -- `none` when a lookup raises KeyError
  unfoldable pub peek : AwareQueue D S → Option (Option Request)
  peek a = elim (next_slot a.last_selected_slot (slot_stats a.active a.pqueues)) [
    | none ↦ some none
    | some slot ↦ elim (Dict.get slot a.pqueues) [
      | none ↦ none
      | some queue ↦ PriorityQueue.peek queue
    ]
  ]

  -- close: the start priorities by slot, and no queue left
  abbrev pub close_all : Dict String (PriorityQueue D S) → Dict String (List ℤ)
  close_all [] = []
  close_all ((slot, q) ∷ d) = (slot, PriorityQueue.close q) ∷ close_all d

  unfoldable pub close : AwareQueue D S → Dict String (List ℤ) × AwareQueue D S
  close a = (close_all a.pqueues, record a { pqueues = [] })

  -- __len__
  unfoldable pub len : AwareQueue D S → ℕ
  len a = total (λ e. PriorityQueue.len e.1) a.pqueues

  -- Every request that the queue holds.
  abbrev pub held_all : Dict String (PriorityQueue D S) → List Request
  held_all [] = []
  held_all ((slot, q) ∷ d) = PriorityQueue.contents q ++ held_all d

  abbrev pub contents : AwareQueue D S → List Request
  contents a = held_all a.pqueues
