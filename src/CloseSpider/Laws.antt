-- ===== src/CloseSpider/Laws.antt =====
-- How often the extension asks to close the spider.
use scrapy.Prelude.{ℕ, ◌≡◌, ◌&&◌, List, [], ◌∷◌, leb, if◌then◌else◌, arith, total}
use scrapy.CloseSpider.{
  Reason, closespider_itemcount, closespider_pagecount, closespider_errorcount, CloseSpider, is_set,
  error_count, page_count, item_scraped, item_scraped_no_item, count_items_produced, spider_opened,
  spider_closed, Event, opened, error, response, item, time_up, period, spider_ended, handle, run,
}

-- Whether a reason is the one that a counter gives.
abbrev pub by_errors : Reason → ℕ
by_errors closespider_errorcount = 1
by_errors _ = 0

abbrev pub by_items : Reason → ℕ
by_items closespider_itemcount = 1
by_items _ = 0

abbrev pub by_pages : Reason → ℕ
by_pages closespider_pagecount = 1
by_pages _ = 0

-- How often a counter should have asked to close, by its limit.
abbrev pub due : ℕ → ℕ → ℕ
due limit count = if is_set limit && leb limit count then 1 else 0

abbrev pub InStep : CloseSpider → Type 0
InStep s =
    (total by_errors s.closed ≡ due s.close_on.errorcount s.errorcount)
    × (total by_items s.closed ≡ due s.close_on.itemcount s.itemcount)
    × (total by_pages s.closed ≡ due s.close_on.pagecount s.pagecount)

handle-InStep : (x : Event) (s : CloseSpider) → InStep s → InStep (handle x s)
unfolding handle error_count page_count item_scraped item_scraped_no_item count_items_produced
    spider_opened spider_closed
handle-InStep opened s h = h
handle-InStep error s h = (ground arith, ground arith, ground arith)
handle-InStep response s h = (ground arith, ground arith, ground arith)
handle-InStep item s h = (ground arith, ground arith, ground arith)
handle-InStep time_up s h = (ground arith, ground arith, ground arith)
handle-InStep period s h = (ground arith, ground arith, ground arith)
handle-InStep spider_ended s h = h

-- Any run of signals and timers keeps this: the error count, the item count and the page count each
-- have asked to close the spider once if their limit is set and reached, and never else.
pub run-InStep : (xs : List Event) (s : CloseSpider) → InStep s → InStep (run xs s)
run-InStep [] s h = h
run-InStep (x ∷ xs) s h = run-InStep xs (handle x s) (handle-InStep x s h)
