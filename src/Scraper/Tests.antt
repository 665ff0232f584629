-- ===== src/Scraper/Tests.antt =====
-- Runs of the scraper slot.
use scrapy.Prelude.{◌≡◌, refl, some, [], ◌∷◌}
use scrapy.Downloader.{add, remove}
use scrapy.Scraper.{
  Slot, Job, response, failure, waiting, fired, not_closing, new_slot, enqueue, scraped,
  start_nowait, begin_nowait, step, run, add_response_request, activate, scrape_next,
  finish_response, is_idle, check_if_closing,
}
use scrapy.Scraper.Laws.{Accounts, run-Accounts}

abbrev page : Job
page = record { result = response 5000; request = 1 }

abbrev timeout : Job
timeout = record { result = failure; request = 2 }

abbrev busy : Slot
busy = record {
  max_active_size = 5000000;
  queue = [];
  active = 2 ∷ [];
  active_size = 1024;
  itemproc_size = 1;
  closing = not_closing;
  running = timeout ∷ [];
  items = 1;
  nowait = 0;
}

run-busy :
    run
      (enqueue page ∷ start_nowait ∷ enqueue timeout ∷ begin_nowait ∷ scraped 0 ∷ [])
      (new_slot 5000000)
    ≡ some busy
unfolding step new_slot add_response_request activate scrape_next finish_response check_if_closing
    add remove
run-busy = refl

run-Accounts_example : Accounts busy
unfolding new_slot
run-Accounts_example =
    run-Accounts (enqueue page ∷ start_nowait ∷ enqueue timeout ∷ begin_nowait ∷ scraped 0 ∷ [])
      (new_slot 5000000) busy run-busy (refl, refl)

abbrev last : Slot
last = record busy { itemproc_size = 0; items = 0; closing = waiting }

abbrev done : Slot
done = record last { active = []; active_size = 0; closing = fired; running = [] }

step-last : step (scraped 0) last ≡ some done
unfolding step activate scrape_next finish_response check_if_closing is_idle remove
step-last = refl

abbrev with_item : Slot
with_item = record busy { active = []; active_size = 0; running = [] }
