-- ===== src/Engine/Shutdown.antt =====
-- The closing of the engine's slot, over whole runs of the engine.
use mathlib.Core.Path.{subst}
use scrapy.Prelude.{
  ℕ, ◌≡◌, ◌⊎◌, refl, Bool, true, false, Option, none, some, List, [], ◌∷◌, arith, inl, inr,
  Bool-cases, Option-cases, nat_eq,
}
use scrapy.SchedulerClass.{SchedulerClass}
use scrapy.Scraper.{not_closing, waiting, fired, is_empty}
use scrapy.Engine.{
  Engine, IdleAnswer, Stage, closing_slot, with_call, is_closing, needs_backout, crawl, leave,
  end_download, start_scheduled_request, begin_direct, end_direct,
}
use scrapy.Downloader.{add}
use scrapy.Engine.Control.{close_spider, close_parts, end_close, stop_async}
use scrapy.Engine.Invariant.{Rules, DirectRules, run-kept}
use scrapy.Engine.Slot
use scrapy.Engine.Slot.{
  EngineSlot, NextCall, no_call, due, cancelled, add_request, remove_request, maybe_fire_closing,
}
use scrapy.Engine.Events.{
  Event, StartItem, start_request, start_item, exhausted, close_spider_raised, error_raised,
  slot_closed, process_start_next, closing_round, step, run,
}

filled : (r : ℕ) (t : List ℕ) → is_empty (add r t) ≡ false
unfolding add
filled r [] = refl
filled r (x ∷ t) = ground arith

abbrev pub waits_for_slot : Stage → Bool
waits_for_slot closing_slot = true
waits_for_slot _ = false

module _ {R : Type 0} {S : SchedulerClass R} where
  -- A slot waits to close only while a request is in progress.
  abbrev pub Settled : EngineSlot S → Type 0
  Settled s = elim s.closing [
    | not_closing ↦ Unit {0}
    | waiting ↦ is_empty s.inprogress ≡ false
    | fired ↦ Unit {0}
  ]

  abbrev pub SlotSteady : Stage → Option (EngineSlot S) → Type 0
  SlotSteady stage none = waits_for_slot stage ≡ false
  SlotSteady stage (some s) =
      Settled s × ((waits_for_slot stage ≡ false) ⊎ (is_closing s.closing ≡ true))

  -- The slot is settled, and it closes where `close_spider_async` waits for it.
  abbrev pub Steady : Engine S → Type 0
  Steady e = SlotSteady e.stage e.slot

  Steady-moved : (e e' : Engine S) → e ≡ e' → Steady e → Steady e'
  Steady-moved e e' h = subst Steady h

  remove_request-Settled :
      (r : ℕ) (s : EngineSlot S)
      → Settled s
      → Settled (remove_request r s).1
        × (is_closing (remove_request r s).1.closing ≡ is_closing s.closing)
  unfolding remove_request
  remove_request-Settled r s h = (ground arith, ground arith)

  close-Settled :
      (s : EngineSlot S) → Settled (Slot.close s).1 × (is_closing (Slot.close s).1.closing ≡ true)
  unfolding Slot.close
  close-Settled s = (ground arith, ground arith)

  crawl-Steady :
      (ignored : R → Bool) (r : R) (e : Engine S) → Steady e → Steady (crawl ignored r e).1
  unfolding crawl
  crawl-Steady ignored r e h = ground arith

  leave-Steady : (r : ℕ) (e : Engine S) → Steady e → Steady (leave r e)
  unfolding leave
  leave-Steady r e h = elim (Option-cases e.slot) [
    | inl k ↦ ground arith
    | inr (s, k) ↦ ground (arith, remove_request-Settled r s)
  ]

  close_spider-Steady : (e : Engine S) → Steady e → Steady (close_spider e).1
  unfolding close_spider
  close_spider-Steady e h = elim (Option-cases e.slot) [
    | inl k ↦ ground arith
    | inr (s, k) ↦ ground (arith, close-Settled s)
  ]

  stop_async-Steady : (e : Engine S) → Steady e → Steady (stop_async e).1
  unfolding stop_async
  stop_async-Steady e h =
      let e1 = record e { running = false; starting = false; stopping = true } in
      ground (arith, close_spider-Steady e1 h)

  process_start_next-Steady :
      (ignored : R → Bool) (x : StartItem R) (e : Engine S)
      → Steady e
      → Steady (process_start_next ignored x e).1
  unfolding process_start_next
  process_start_next-Steady ignored (start_request r) e h =
      ground (arith, crawl-Steady ignored r e h)
  process_start_next-Steady ignored start_item e h = ground arith
  process_start_next-Steady ignored exhausted e h = h
  process_start_next-Steady ignored (close_spider_raised reason) e h = h
  process_start_next-Steady ignored error_raised e h = h

  with_call-Steady :
      (e : Engine S)
      → Steady e
      → Steady (record e { slot = elim e.slot [ none ↦ none | some s ↦ some (with_call s) ] })
  with_call-Steady e h = ground arith

  end_download-Steady : (r : ℕ) (e : Engine S) → Steady e → Steady (end_download r e)
  unfolding end_download
  end_download-Steady r e h = ground arith

  closing_round-Steady :
      (x : Event R) (stage : Stage) (e e' : Engine S)
      → closing_round x stage e ≡ some e'
      → Steady e
      → Steady e'
  unfolding closing_round close_parts end_close
  closing_round-Steady x stage e e' h w = ground arith

  started-Steady :
      (identity : R → ℕ) (s : EngineSlot S) (e : Engine S)
      → e.slot ≡ some s
      → needs_backout e ≡ false
      → Steady e
      → Steady (start_scheduled_request identity s e).1
  unfolding needs_backout start_scheduled_request add_request
  started-Steady identity s e k h w = ground arith

  called-Steady :
      (s : EngineSlot S) (e : Engine S)
      → e.slot ≡ some s
      → Steady e
      → Steady (record e { slot = some (record s { nextcall = no_call }) })
  called-Steady s e k h = ground arith

  begin_direct-Steady :
      (identity : R → ℕ) (r : R) (e e' : Engine S)
      → begin_direct identity r e ≡ some e'
      → Steady e
      → Steady e'
  unfolding begin_direct add_request
  begin_direct-Steady identity r e e' h w = elim (Option-cases e.slot) [
    | inl k ↦ absurd (ground arith)
    | inr (s, k) ↦ ground (arith, filled (identity r) s.inprogress)
  ]

  end_direct-Steady :
      (identity : R → ℕ) (r : R) (e : Engine S) → Steady e → Steady (end_direct identity r e).1
  unfolding end_direct end_download
  end_direct-Steady identity r e w = elim (Option-cases e.slot) [
    | inl k ↦ ground arith
    | inr (s, k) ↦ ground (arith, remove_request-Settled (identity r) (with_call s))
  ]

  Steady-direct : DirectRules {S = S} Steady
  Steady-direct = record { begins = begin_direct-Steady; ends = end_direct-Steady }

  Steady-rules : Rules {S = S} Steady
  Steady-rules = record {
    crawls = crawl-Steady;
    leaves = leave-Steady;
    closes = close_spider-Steady;
    stops = stop_async-Steady;
    starts = process_start_next-Steady;
    calls = with_call-Steady;
    called = called-Steady;
    scrapes = λ sc e w. w;
    ends_download = end_download-Steady;
    rounds = closing_round-Steady;
    forgets = λ reasons e w. w;
    takes = started-Steady;
  }

  -- The event that ends the wait for the slot can happen.
  slot_closed_lem :
      (s : EngineSlot S) (e : Engine S)
      → e.slot ≡ some s
      → s.closing ≡ fired
      → closing_round slot_closed closing_slot e ≡ some (close_parts e)
  unfolding closing_round
  slot_closed_lem s e k f = ground arith

  -- After any run of events from a state in which this is so, a `close_spider_async` that waits for
  -- the slot to close waits for a request that is in progress, or the event that ends this wait can
  -- happen. The handlers of `spider_idle` are taken to keep `Steady`. The other waits of
  -- `close_spider_async`, as that for the scraper, are not covered.
  pub close_never_stuck :
      (handlers : Engine S → IdleAnswer × Engine S) (identity : R → ℕ) (ignored : R → Bool)
      → ((e : Engine S) → Steady e → Steady (handlers e).1)
      → (xs : List (Event R)) (e e' : Engine S) → run identity ignored handlers xs e ≡ some e'
      → Steady e
      → e'.stage ≡ closing_slot
      → (s : EngineSlot S) × (e'.slot ≡ some s)
        × ((is_empty s.inprogress ≡ false)
            ⊎ (step identity ignored handlers slot_closed e' ≡ some (close_parts e')))
  unfolding step closing_round close_parts
  close_never_stuck handlers identity ignored keep xs e e' h w c =
      let w' =
        run-kept Steady Steady-rules handlers keep identity ignored Steady-direct xs e e' h w in
      elim (Option-cases e'.slot) [
        | inl k ↦ absurd (ground arith)
        | inr (s, k) ↦ (
          s,
          k,
          elim (Bool-cases (is_empty s.inprogress)) [
            | inr n ↦ inl n
            | inl y ↦ inr (rw c (slot_closed_lem s e' k (ground arith)))
          ],
        )
      ]
