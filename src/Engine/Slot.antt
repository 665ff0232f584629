-- ===== src/Engine/Slot.antt =====
-- core/engine.py: _Slot, and utils/reactor.py: CallLaterOnce, which it calls `nextcall`. A request
-- is known by its identity in the set of requests in progress.
use scrapy.Prelude.{ℕ, Bool, true, false, List, [], if◌then◌else◌, contains, nat_eq}
use scrapy.SchedulerClass.{SchedulerClass}
use scrapy.Downloader.{add, remove}
use scrapy.Scraper.{Closing, not_closing, waiting, fired, is_empty}

-- CallLaterOnce: no call, a call that is to come, or one that was cancelled, which blocks others.
pub data NextCall : Type 0 where
  no_call : NextCall
  due : NextCall
  cancelled : NextCall

unfoldable pub schedule : NextCall → NextCall
schedule no_call = due
schedule due = due
schedule cancelled = cancelled

unfoldable pub cancel : NextCall → NextCall
cancel no_call = no_call
cancel due = cancelled
cancel cancelled = cancelled

module _ {R : Type 0} (S : SchedulerClass R) where
  pub record EngineSlot : Type 0 where
    pub closing : Closing
    pub inprogress : List ℕ
    pub close_if_idle : Bool
    pub nextcall : NextCall
    pub scheduler : S.Q
    -- `heartbeat.running`
    pub heartbeat : Bool

module _ {R : Type 0} {S : SchedulerClass R} where
  unfoldable pub new_slot : Bool → S.Q → EngineSlot S
  new_slot close_if_idle q = record {
    closing = not_closing;
    inprogress = [];
    close_if_idle = close_if_idle;
    nextcall = no_call;
    scheduler = q;
    heartbeat = false;
  }

  -- `nextcall.cancel()`, and the heartbeat stops
  abbrev pub quiet : EngineSlot S → EngineSlot S
  quiet s = record s { nextcall = cancel s.nextcall; heartbeat = false }

  -- _maybe_fire_closing; the flag is false when `callback` raises, because it was called before.
  unfoldable pub maybe_fire_closing : EngineSlot S → Bool × EngineSlot S
  maybe_fire_closing s = elim s.closing [
    | not_closing ↦ (true, s)
    | waiting ↦
        if is_empty s.inprogress then (true, record (quiet s) { closing = fired }) else (true, s)
    | fired ↦ if is_empty s.inprogress then (false, quiet s) else (true, s)
  ]

  unfoldable pub add_request : ℕ → EngineSlot S → EngineSlot S
  add_request r s = record s { inprogress = add r s.inprogress }

  -- A request that is not in the set raises KeyError.
  unfoldable pub remove_request : ℕ → EngineSlot S → Bool × EngineSlot S
  unfolding maybe_fire_closing
  remove_request r s =
      if contains r s.inprogress
      then maybe_fire_closing (record s { inprogress = remove r s.inprogress })
      else (false, s)

  -- close, up to where it waits
  unfoldable pub close : EngineSlot S → Bool × EngineSlot S
  unfolding maybe_fire_closing
  close s = maybe_fire_closing (record s { closing = waiting })
