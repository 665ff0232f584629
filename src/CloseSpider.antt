-- ===== src/CloseSpider.antt =====
-- extensions/closespider.py: the CloseSpider extension. A limit of 0 is no limit. Requests to close
-- the spider are kept in a list, the latest first; the engine that gets them is left out.
pub mod Laws
mod Tests
use scrapy.Prelude.{
  ℕ, ◌+◌, Bool, true, false, not, ◌&&◌, ◌||◌, Option, none, some, List, [], ◌∷◌, leb, nat_beq,
  if◌then◌else◌,
}

pub record Limits : Type 0 where
  pub timeout : ℕ
  pub itemcount : ℕ
  pub pagecount : ℕ
  pub errorcount : ℕ
  pub timeout_no_item : ℕ
  pub pagecount_no_item : ℕ

pub data Reason : Type 0 where
  closespider_timeout : Reason
  closespider_itemcount : Reason
  closespider_pagecount : Reason
  closespider_errorcount : Reason
  closespider_timeout_no_item : Reason
  closespider_pagecount_no_item : Reason

pub record CloseSpider : Type 0 where
  pub close_on : Limits
  pub itemcount : ℕ
  pub pagecount : ℕ
  pub errorcount : ℕ
  pub pagecount_since_last_item : ℕ
  pub items_in_period : ℕ
  -- whether `task` is set, and `task_no_item`
  pub task : Bool
  pub task_no_item : Bool
  pub closed : List Reason

abbrev pub is_set : ℕ → Bool
is_set n = not (nat_beq n 0)

-- __init__; `none` when it raises NotConfigured
unfoldable pub init : Limits → Option CloseSpider
init l =
    if is_set l.timeout
      || (is_set l.itemcount
          || (is_set l.pagecount
              || (is_set l.errorcount || (is_set l.timeout_no_item || is_set l.pagecount_no_item))))
    then some (record {
      close_on = l;
      itemcount = 0;
      pagecount = 0;
      errorcount = 0;
      pagecount_since_last_item = 0;
      items_in_period = 0;
      task = false;
      task_no_item = false;
      closed = [];
    })
    else none

-- _close_spider
abbrev pub close_spider : Reason → CloseSpider → CloseSpider
close_spider x s = record s { closed = x ∷ s.closed }

unfoldable pub error_count : CloseSpider → CloseSpider
error_count s =
    let s' = record s { errorcount = s.errorcount + 1 } in
    if nat_beq s'.errorcount s.close_on.errorcount
    then close_spider closespider_errorcount s'
    else s'

unfoldable pub page_count : CloseSpider → CloseSpider
page_count s =
    let s' = record s {
      pagecount = s.pagecount + 1;
      pagecount_since_last_item = s.pagecount_since_last_item + 1;
    } in
    if nat_beq s'.pagecount s.close_on.pagecount
    then close_spider closespider_pagecount s'
    else if is_set s.close_on.pagecount_no_item
        && leb s.close_on.pagecount_no_item s'.pagecount_since_last_item
    then close_spider closespider_pagecount_no_item s'
    else s'

unfoldable pub item_scraped : CloseSpider → CloseSpider
item_scraped s =
    let s' = record s { itemcount = s.itemcount + 1; pagecount_since_last_item = 0 } in
    if nat_beq s'.itemcount s.close_on.itemcount then close_spider closespider_itemcount s' else s'

unfoldable pub item_scraped_no_item : CloseSpider → CloseSpider
item_scraped_no_item s = record s { items_in_period = s.items_in_period + 1 }

-- _count_items_produced
unfoldable pub count_items_produced : CloseSpider → CloseSpider
count_items_produced s =
    if leb 1 s.items_in_period
    then record s { items_in_period = 0 }
    else close_spider closespider_timeout_no_item s

-- spider_opened and spider_opened_no_item, where they are connected
unfoldable pub spider_opened : CloseSpider → CloseSpider
spider_opened s = record s {
  task = is_set s.close_on.timeout;
  task_no_item = is_set s.close_on.timeout_no_item;
}

unfoldable pub spider_closed : CloseSpider → CloseSpider
spider_closed s = record s { task = false; task_no_item = false }

-- The signals and timers that the extension gets.
pub data Event : Type 0 where
  opened : Event
  error : Event
  response : Event
  item : Event
  -- the time of `task` is up, and one period of `task_no_item`
  time_up : Event
  period : Event
  spider_ended : Event

-- What is connected in `__init__` gets the signal.
unfoldable pub handle : Event → CloseSpider → CloseSpider
unfolding error_count page_count item_scraped item_scraped_no_item count_items_produced
    spider_opened spider_closed
handle opened s = spider_opened s
handle error s = if is_set s.close_on.errorcount then error_count s else s
handle response s =
    if is_set s.close_on.pagecount || is_set s.close_on.pagecount_no_item then page_count s else s
handle item s =
    let s' =
      if is_set s.close_on.itemcount || is_set s.close_on.pagecount_no_item
      then item_scraped s
      else s in
    if is_set s.close_on.timeout_no_item then item_scraped_no_item s' else s'
handle time_up s = if s.task then close_spider closespider_timeout s else s
handle period s = if s.task_no_item then count_items_produced s else s
handle spider_ended s = spider_closed s

abbrev pub run : List Event → CloseSpider → CloseSpider
run [] s = s
run (x ∷ xs) s = run xs (handle x s)
