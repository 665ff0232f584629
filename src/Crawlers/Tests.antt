-- ===== src/Crawlers/Tests.antt =====
-- A crawler that runs, one that fails at once, and the first one begun a second time.
use scrapy.Prelude.{nat_eq, ◌≡◌, refl, false, List, [], ◌∷◌, contains, arith}
use scrapy.Crawlers.{
  waits, spider_fails, CrawlerRunner, new_crawler, new_runner, start_crawl, set_up, crawl, add,
  Event, begin, ended, run,
}
use scrapy.Crawlers.Laws.{Tracked, crawls_of, run-Tracked, crawl_again_lem}

abbrev events : List Event
events = begin waits 1 ∷ begin spider_fails 2 ∷ ended false 0 ∷ []

run-Tracked_example : Tracked 1 (run events new_runner)
run-Tracked_example = run-Tracked 1 events (omega arith)

abbrev running : CrawlerRunner
unfolding crawl start_crawl set_up new_runner new_crawler add
running = crawl waits 1 new_runner

crawl_again_lem_example :
    (contains 1 (crawl waits 1 running).crawlers ≡ false)
    × (crawls_of 1 (crawl waits 1 running).active ≡ crawls_of 1 running.active)
unfolding running crawl start_crawl set_up new_runner new_crawler add
crawl_again_lem_example = crawl_again_lem 1 waits running refl

still_active : crawls_of 1 running.active ≡ 1
unfolding running crawl start_crawl set_up new_runner new_crawler add
still_active = refl
