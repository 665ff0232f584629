-- ===== src/Engine.antt =====
-- core/engine.py: ExecutionEngine, over the interface of its scheduler, with the downloader and the
-- slot of the scraper. `R` is the type of request objects and `identity` Python's `id`. A coroutine
-- is cut where it waits; a download is taken to wait at least once. Log messages are left out.
pub mod Slot
pub mod Loop
pub mod Invariant
pub mod Limit
pub mod Idle
pub mod Shutdown
pub mod Events
pub mod Control
mod Tests
use Slot.{
  EngineSlot, NextCall, no_call, due, cancelled, schedule, new_slot, add_request, remove_request,
  close,
}
use scrapy.Prelude.{
  ℕ, zero, suc, Bool, true, false, not, ◌&&◌, ◌||◌, Option, none, some, List, [], ◌∷◌, ◌++◌, String,
  if◌then◌else◌, length, nat_beq, nat_eq, contains, get_or, is_some,
}
use scrapy.SchedulerClass.{SchedulerClass}
use scrapy.Downloader
use scrapy.Downloader.{Downloader, begin_fetch, end_fetch}
use scrapy.Scraper
use scrapy.Scraper.{Closing, not_closing, waiting, fired, is_empty}

-- How far `close_spider_async` has come.
pub data Stage : Type 0 where
  not_asked : Stage
  closing_slot : Stage
  closing_scraper : Stage
  closed : Stage

-- What the handlers of `spider_idle` raise.
pub record IdleAnswer : Type 0 where
  pub dont_close : Bool
  pub reason : Option String

module _ {R : Type 0} (S : SchedulerClass R) where
  pub record Engine : Type 0 where
    pub slot : Option (EngineSlot S)
    -- whether a spider is open
    pub spider : Bool
    pub running : Bool
    pub starting : Bool
    pub stopping : Bool
    pub paused : Bool
    -- whether the iterator of `Spider.start()` is not exhausted, and whether it raised
    pub start : Bool
    pub start_error : Bool
    pub downloader : Downloader
    pub scraper : Scraper.Slot
    -- the reasons of the `close_spider_async` coroutines that are scheduled
    pub closes : List String
    pub stage : Stage

abbrev pub is_closing : Closing → Bool
is_closing not_closing = false
is_closing _ = true

module _ {R : Type 0} {S : SchedulerClass R} where
  unfoldable pub needs_backout : Engine S → Bool
  needs_backout e = elim e.slot [
    | none ↦ true
    | some s ↦
        not e.running
        || (is_closing s.closing
            || (Downloader.needs_backout e.downloader || Scraper.needs_backout e.scraper))
  ]

  -- `slot.nextcall.schedule()`
  abbrev pub with_call : EngineSlot S → EngineSlot S
  with_call s = record s { nextcall = schedule s.nextcall }

  -- spider_is_idle, of an engine with this slot
  unfoldable pub slot_is_idle : EngineSlot S → Engine S → Bool
  slot_is_idle s e =
      Scraper.is_idle e.scraper
      && (is_empty e.downloader.active && (not e.start && not (S.has_pending_requests s.scheduler)))

  -- `none` when it raises RuntimeError
  unfoldable pub spider_is_idle : Engine S → Option Bool
  unfolding slot_is_idle
  spider_is_idle e = elim e.slot [ none ↦ none | some s ↦ some (slot_is_idle s e) ]

  -- _spider_idle; `handlers` are those of the signal, with what they do to the engine.
  unfoldable pub spider_idle : (Engine S → IdleAnswer × Engine S) → Engine S → Engine S
  unfolding spider_is_idle
  spider_idle handlers e =
      let (answer, e') = handlers e in
      if answer.dont_close then e' else elim (spider_is_idle e') [
        | none ↦ e'
        | some idle ↦
            if idle
            then record e' {
              closes =
                  e'.closes
                  ++ get_or answer.reason (if e'.start_error then "start_error" else "finished")
                    ∷ [];
            }
            else e'
      ]

  -- What follows the loop in `_start_scheduled_requests`.
  unfoldable pub after_loop : (Engine S → IdleAnswer × Engine S) → Engine S → Engine S
  unfolding spider_idle
  after_loop handlers e = elim e.slot [
    | none ↦ e
    | some s ↦ if slot_is_idle s e && s.close_if_idle then spider_idle handlers e else e
  ]

  -- crawl, with _schedule_request; `ignored` tells whether a handler of `request_scheduled` raises
  -- IgnoreRequest. The flag is false when it raises.
  unfoldable pub crawl : (R → Bool) → R → Engine S → Bool × Engine S
  crawl ignored r e =
      if e.spider
      then elim e.slot [
        | none ↦ (false, e)
        | some s ↦
            if ignored r
            then (true, record e { slot = some (with_call s) })
            else (let (o, q) = S.enqueue_request r s.scheduler in
                elim o [
                  | none ↦ (false, record e { slot = some (record s { scheduler = q }) })
                  | some b ↦
                      (true, record e { slot = some (with_call (record s { scheduler = q })) })
                ])
      ]
      else (false, e)

  -- The callbacks that follow the output of the downloader: _remove_request, and a next call. An
  -- exception of the first is logged.
  unfoldable pub leave : ℕ → Engine S → Engine S
  leave r e = elim e.slot [
    | none ↦ e
    | some s ↦ record e { slot = some (with_call (remove_request r s).1) }
  ]

  -- The end of `_download`: the downloader is done with the request.
  unfoldable pub end_download : ℕ → Engine S → Engine S
  end_download r e = record e {
    downloader = end_fetch r e.downloader;
    slot = elim e.slot [ none ↦ none | some s ↦ some (with_call s) ];
  }

  -- `identity` is the identity of an object.
  module _ (identity : R → ℕ) where
    -- The request that `_start_scheduled_request` takes, if there is one, and the engine after it.
    unfoldable pub start_scheduled_request : EngineSlot S → Engine S → Option R × Engine S
    start_scheduled_request s e =
        let (m, q) = S.next_request s.scheduler in
        let s' = record s { scheduler = q } in
        elim m [
          | none ↦ (none, record e { slot = some s' })
          | some r ↦ (
            some r,
            record e {
              slot = some (add_request (identity r) s');
              downloader = begin_fetch (identity r) e.downloader;
            },
          )
        ]

    -- The loop of `_start_scheduled_requests`, with fuel: what it starts, and the engine after it.
    unfoldable pub start_loop : ℕ → Engine S → Option (List R × Engine S)
    start_loop zero e = none
    start_loop (suc fuel) e = if needs_backout e then some ([], e) else elim e.slot [
      | none ↦ some ([], e)
      | some s ↦
          let (m, e') = start_scheduled_request s e in
          let rest = start_loop fuel e' in
          elim m [
            | none ↦ some ([], e')
            | some r ↦ elim rest [ none ↦ none | some (rs, e'') ↦ some (r ∷ rs, e'') ]
          ]
    ]

    -- _start_scheduled_requests; the fuel is one more than the number of the pending requests.
    unfoldable pub start_scheduled_requests :
        (Engine S → IdleAnswer × Engine S) → Engine S → Option (List R × Engine S)
    start_scheduled_requests handlers e = elim e.slot [
      | none ↦ some ([], e)
      | some s ↦
          if is_closing s.closing || e.paused
          then some ([], e)
          else elim (start_loop (suc (length (S.pending s.scheduler))) e) [
            | none ↦ none
            | some (rs, e') ↦ some (rs, after_loop handlers e')
          ]
    ]

    -- _download, up to where it waits, as download_async calls it, past the scheduler; `none` when it
    -- raises AssertionError
    unfoldable pub begin_direct : R → Engine S → Option (Engine S)
    begin_direct r e = elim e.slot [
      | none ↦ none
      | some s ↦ some (record e {
        slot = some (add_request (identity r) s);
        downloader = begin_fetch (identity r) e.downloader;
      })
    ]

    -- The end of `_download` in download_async; the flag is false when it raises.
    unfoldable pub end_direct : R → Engine S → Bool × Engine S
    unfolding end_download
    end_direct r e =
        let e' = end_download (identity r) e in
        elim e'.slot [
          | none ↦ (false, e')
          | some s ↦
              let (ok, s') = remove_request (identity r) s in (ok, record e' { slot = some s' })
        ]

    -- _handle_downloader_output of a request
    unfoldable pub handle_request : (R → Bool) → R → R → Engine S → Engine S
    handle_request ignored r x e =
        leave (identity r) (crawl ignored x (end_download (identity r) e)).1

    -- _handle_downloader_output of a response or failure, up to where it waits for the scraper
    unfoldable pub handle_result : Scraper.Result → R → Engine S → Engine S
    handle_result result r e =
        let e' = end_download (identity r) e in
        let j : Scraper.Job = record { result = result; request = identity r } in
        record e' { scraper = Scraper.enqueue_scrape j e'.scraper }
