-- ===== src/Engine/Events.antt =====
-- core/engine.py: what happens to an engine with an open spider, one event after the other.
use scrapy.Prelude.{
  ℕ, Bool, true, false, not, ◌&&◌, Option, none, some, List, [], ◌∷◌, ◌++◌, String, if◌then◌else◌,
  contains, nat_eq,
}
use scrapy.SchedulerClass.{SchedulerClass}
use scrapy.Scraper
use scrapy.Scraper.{Closing, not_closing, waiting, fired, pick}
use scrapy.Engine.{
  Engine, IdleAnswer, Stage, closing_slot, closing_scraper, with_call, needs_backout, crawl, leave,
  handle_request, handle_result, start_scheduled_requests, begin_direct, end_direct,
}
use scrapy.Engine.Control.{close_spider, close_parts, end_close, stop_async}
use scrapy.Engine.Slot.{EngineSlot, no_call, due}

-- What `anext(self._start)` brings.
pub data StartItem (R : Type 0) : Type 0 where
  start_request : R → StartItem R
  start_item : StartItem R
  exhausted : StartItem R
  close_spider_raised : String → StartItem R
  error_raised : StartItem R

pub data Event (R : Type 0) : Type 0 where
  -- the call of `nextcall`, and one of the heartbeat
  next_call : Event R
  heartbeat : Event R
  -- one round of _start_request_processing
  start_next : StartItem R → Event R
  -- the downloader ends a request, with a request or with a response or failure
  got_request : R → R → Event R
  got_result : Scraper.Result → R → Event R
  -- a component begins to download a request by download_async; the download ends, with a request
  -- that is downloaded in its turn or with a response or failure
  download : R → Event R
  downloaded : Option R → R → Event R
  -- the scraper ends the n-th of its jobs
  scraped : ℕ → Event R
  -- an item of a callback begins; an item is taken up; an item ends
  item_begins : Event R
  item_taken_up : Event R
  item_ends : Event R
  -- a close_spider_async that was scheduled begins, and goes on
  close_begins : Event R
  slot_closed : Event R
  scraper_closed : Event R

module _ {R : Type 0} {S : SchedulerClass R} where
  abbrev pub on_slot : (EngineSlot S → EngineSlot S) → Engine S → Engine S
  on_slot f e = record e { slot = elim e.slot [ none ↦ none | some s ↦ some (f s) ] }

  -- An event of the scraper alone.
  unfoldable pub on_scraper : Scraper.Event → Engine S → Option (Engine S)
  on_scraper x e = elim (Scraper.step x e.scraper) [
    | none ↦ none
    | some sc ↦ some (record e { scraper = sc })
  ]

  -- _process_start_next; the flag is false when an exception leaves it.
  unfoldable pub process_start_next : (R → Bool) → StartItem R → Engine S → Bool × Engine S
  process_start_next ignored (start_request r) e = if e.spider then crawl ignored r e else (true, e)
  process_start_next ignored start_item e =
      if e.spider
      then (
        true,
        on_slot with_call (record e { scraper = Scraper.start_itemproc_nowait e.scraper }),
      )
      else (true, e)
  process_start_next ignored exhausted e = (true, record e { start = false })
  process_start_next ignored (close_spider_raised reason) e =
      (true, record e { start = false; closes = e.closes ++ reason ∷ [] })
  process_start_next ignored error_raised e = (true, record e { start = false; start_error = true })

  -- One round of the loop of _start_request_processing, whose handler stops the engine.
  unfoldable pub start_round : (R → Bool) → StartItem R → Engine S → Engine S
  unfolding process_start_next
  start_round ignored x e =
      let (ok, e') = process_start_next ignored x e in
      if not ok then (stop_async e').1 else if needs_backout e' then e' else on_slot with_call e'

  -- `closing_round`: a wait of close_spider_async ends, where it may.
  unfoldable pub closing_round : Event R → Stage → Engine S → Option (Engine S)
  closing_round slot_closed closing_slot e = elim e.slot [
    | none ↦ none
    | some s ↦ elim s.closing [ fired ↦ some (close_parts e) | _ ↦ none ]
  ]
  closing_round scraper_closed closing_scraper e = elim e.scraper.closing [
    | fired ↦ some (end_close e)
    | _ ↦ none
  ]
  closing_round _ _ e = none

  module _ (identity : R → ℕ) (ignored : R → Bool)
      (handlers : Engine S → IdleAnswer × Engine S) where
    -- The call of `nextcall`: the call is no longer to come, then the function runs.
    unfoldable pub run_call : EngineSlot S → Engine S → Option (Engine S)
    run_call s e = elim s.nextcall [
      | due ↦
          elim (start_scheduled_requests identity handlers
            (record e { slot = some (record s { nextcall = no_call }) })) [
              | none ↦ none
              | some (rs, e') ↦ some e'
            ]
      | _ ↦ none
    ]

    -- A round of the loop of download_async.
    unfoldable pub direct_round : Option R → R → Engine S → Option (Engine S)
    direct_round none r e = some (end_direct identity r e).1
    direct_round (some x) r e =
        let (ok, e') = end_direct identity r e in if ok then begin_direct identity x e' else some e'

    -- `none` where the event cannot happen, or an exception leaves a part of it.
    unfoldable pub step : Event R → Engine S → Option (Engine S)
    step next_call e = elim e.slot [ none ↦ none | some s ↦ run_call s e ]
    step heartbeat e = elim e.slot [
      | none ↦ none
      | some s ↦ if s.heartbeat then some (on_slot with_call e) else none
    ]
    step (start_next x) e =
        if e.start && (e.spider && e.running) then some (start_round ignored x e) else none
    step (got_request x r) e =
        if contains (identity r) e.downloader.active
        then some (handle_request identity ignored r x e)
        else none
    step (got_result result r) e =
        if contains (identity r) e.downloader.active
        then some (handle_result identity result r e)
        else none
    step (download r) e = if e.spider then begin_direct identity r e else none
    step (downloaded next r) e =
        if contains (identity r) e.downloader.active then direct_round next r e else none
    step (scraped n) e = elim (pick n e.scraper.running) [
      | none ↦ none
      | some (j, js) ↦ elim (on_scraper (Scraper.scraped n) e) [
        | none ↦ none
        | some e' ↦ some (leave j.request e')
      ]
    ]
    step item_begins e = on_scraper Scraper.start_item e
    step item_taken_up e = on_scraper Scraper.begin_nowait e
    step item_ends e = on_scraper Scraper.end_item e
    step close_begins e = elim e.closes [
      | [] ↦ none
      | reason ∷ rest ↦ some (close_spider (record e { closes = rest })).1
    ]
    step slot_closed e = closing_round slot_closed e.stage e
    step scraper_closed e = closing_round scraper_closed e.stage e

    abbrev pub run : List (Event R) → Engine S → Option (Engine S)
    run [] e = some e
    run (x ∷ xs) e = elim (step x e) [ none ↦ none | some e' ↦ run xs e' ]
