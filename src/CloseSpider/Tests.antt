-- ===== src/CloseSpider/Tests.antt =====
-- Runs of the CloseSpider extension.
use scrapy.Prelude.{[], ◌∷◌, refl, false, List}
use scrapy.CloseSpider.{CloseSpider, Event, error, item, response, opened, run}
use scrapy.CloseSpider.Laws.{InStep, run-InStep}

abbrev two_errors : CloseSpider
two_errors = record {
  close_on = record {
    timeout = 0;
    itemcount = 0;
    pagecount = 5;
    errorcount = 2;
    timeout_no_item = 0;
    pagecount_no_item = 0;
  };
  itemcount = 0;
  pagecount = 0;
  errorcount = 0;
  pagecount_since_last_item = 0;
  items_in_period = 0;
  task = false;
  task_no_item = false;
  closed = [];
}

abbrev signals : List Event
signals = opened ∷ response ∷ error ∷ item ∷ error ∷ error ∷ []

run-InStep_example : InStep (run signals two_errors)
run-InStep_example = run-InStep signals two_errors (refl, refl, refl)
