-- ===== src/Engine/Control.antt =====
-- core/engine.py: how the engine is opened, started, stopped and closed. Signals and stats are left
-- out, and so is what follows the closing in `stop_async`.
use scrapy.Prelude.{ℕ, Bool, true, false, not, ◌&&◌, ◌||◌, none, some, if◌then◌else◌, is_some}
use scrapy.SchedulerClass.{SchedulerClass}
use scrapy.Downloader
use scrapy.Scraper
use scrapy.Scraper.{fired}
use scrapy.Engine.{Engine, not_asked, closing_slot, closing_scraper, closed, with_call, is_closing}
use scrapy.Engine.Slot
use scrapy.Engine.Slot.{EngineSlot}

module _ {R : Type 0} {S : SchedulerClass R} where
  -- open_spider_async, of a scheduler that has been opened and a scraper of some size. In all of
  -- this file the flag is false when RuntimeError is raised.
  unfoldable pub open_spider : Bool → S.Q → ℕ → Engine S → Bool × Engine S
  open_spider close_if_idle q max_active_size e = if is_some e.slot then (false, e) else (
    true,
    record e {
      spider = true;
      slot = some (Slot.new_slot close_if_idle q);
      start = true;
      scraper = Scraper.new_slot max_active_size;
      stage = not_asked;
    },
  )

  -- The beginning of _start_request_processing
  abbrev pub begin_processing : EngineSlot S → EngineSlot S
  begin_processing s = record (with_call s) { heartbeat = true }

  -- start_async, up to where it waits for the engine to stop
  unfoldable pub start_async : Bool → Engine S → Bool × Engine S
  start_async with_start e =
      if e.starting
      then (false, e)
      else if e.stopping || (with_start && not e.spider)
      then (true, record e { starting = true })
      else (
        true,
        record e {
          starting = true;
          running = true;
          slot =
              if with_start
              then elim e.slot [ none ↦ none | some s ↦ some (begin_processing s) ]
              else e.slot;
        },
      )

  -- close_spider_async, up to where it waits for the slot
  unfoldable pub close_spider : Engine S → Bool × Engine S
  close_spider e = if not e.spider then (false, e) else elim e.slot [
    | none ↦ (false, e)
    | some s ↦
        if is_closing s.closing
        then (true, e)
        else (true, record e { slot = some (Slot.close s).1; stage = closing_slot })
  ]

  -- ... from the slot to where it waits for the scraper; an exception of a part is logged.
  unfoldable pub close_parts : Engine S → Engine S
  close_parts e = record e {
    downloader = Downloader.close e.downloader;
    scraper = elim (Scraper.close_spider e.scraper) [ none ↦ e.scraper | some s ↦ s ];
    stage = closing_scraper;
  }

  -- ... from the scraper to the end
  unfoldable pub end_close : Engine S → Engine S
  end_close e = record e { slot = none; spider = false; stage = closed }

  -- stop_async, up to where it waits for the spider to close
  unfoldable pub stop_async : Engine S → Bool × Engine S
  unfolding close_spider
  stop_async e =
      if not e.starting
      then (false, e)
      else (let e' = record e { running = false; starting = false; stopping = true } in
          if e.spider then close_spider e' else (true, e'))

  -- close_async
  unfoldable pub close_async : Engine S → Bool × Engine S
  unfolding stop_async close_spider
  close_async e =
      if e.running
      then stop_async e
      else if e.spider
      then close_spider e
      else (true, record e { downloader = Downloader.close e.downloader })

  unfoldable pub pause : Engine S → Engine S
  pause e = record e { paused = true }

  unfoldable pub unpause : Engine S → Engine S
  unpause e = record e { paused = false }
