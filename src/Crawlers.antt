-- ===== src/Crawlers.antt =====
-- crawler.py: Crawler.crawl, and CrawlerRunner, which keeps the crawlers that run. A crawl is cut where
-- it first waits, for the engine to open the spider: it may fail before, where `Stage` says, and it
-- ends later, with an exception or without. A crawler and a crawl are numbers; the set of crawlers and
-- that of the active crawls are lists. What the classes of settings, logging and reactors do is left
-- out, but for whether it raises.
pub mod Laws
mod Tests
use scrapy.Prelude.{
  ℕ, suc, Bool, true, false, not, ◌||◌, Option, none, some, List, [], ◌∷◌, ◌++◌, if◌then◌else◌,
  ◌==◌, nat_eq, contains, updated,
}

-- How far a crawl comes before it waits.
pub data Stage : Type 0 where
  spider_fails : Stage
  settings_fail : Stage
  engine_fails : Stage
  waits : Stage

pub record Crawler : Type 0 where
  pub crawling : Bool
  pub started : Bool
  -- whether the attributes are set
  pub spider : Bool
  pub engine : Bool
  -- calls of engine.close
  pub closes : ℕ

unfoldable pub new_crawler : Crawler
new_crawler = record {
  crawling = false;
  started = false;
  spider = false;
  engine = false;
  closes = 0;
}

-- The handler of exceptions in `crawl`.
unfoldable pub crawl_failed : Crawler → Crawler
crawl_failed c = record c { crawling = false; closes = if c.engine then suc c.closes else c.closes }

-- The body of `crawl`, up to where it waits: true when it raises.
unfoldable pub set_up : Stage → Crawler → Bool × Crawler
set_up spider_fails c = (true, crawl_failed c)
set_up settings_fail c = (true, crawl_failed (record c { spider = true }))
set_up engine_fails c = (true, crawl_failed (record c { spider = true }))
set_up waits c = (false, record c { spider = true; engine = true })

unfoldable pub start_crawl : Stage → Crawler → Bool × Crawler
start_crawl stage c =
    if c.crawling || c.started
    then (true, c)
    else set_up stage (record c { crawling = true; started = true })

-- The end of a crawl that waited.
unfoldable pub end_crawl : Bool → Crawler → Crawler
end_crawl failed c = if failed then crawl_failed c else c

pub record CrawlerRunner : Type 0 where
  pub crawlers : List ℕ
  -- _active: crawls, each with its crawler
  pub active : List (ℕ × ℕ)
  pub bootstrap_failed : Bool
  pub objects : ℕ → Crawler
  -- the crawls that were begun
  pub begun : ℕ

unfoldable pub new_runner : CrawlerRunner
new_runner = record {
  crawlers = [];
  active = [];
  bootstrap_failed = false;
  objects = λ k. new_crawler;
  begun = 0;
}

-- set.add and set.discard
unfoldable pub add : ℕ → List ℕ → List ℕ
add k ks = if contains k ks then ks else k ∷ ks

unfoldable pub discard : ℕ → List ℕ → List ℕ
discard k [] = []
discard k (j ∷ ks) = let rest = discard k ks in if k == j then rest else j ∷ rest

unfoldable pub discard_crawl : ℕ → List (ℕ × ℕ) → List (ℕ × ℕ)
discard_crawl d [] = []
discard_crawl d ((e, k) ∷ ds) =
    let rest = discard_crawl d ds in if d == e then ds else (e, k) ∷ rest

-- The `finally` of _crawl.
unfoldable pub finish : Bool → ℕ → ℕ → CrawlerRunner → CrawlerRunner
finish failed d k r = record r {
  crawlers = discard k r.crawlers;
  active = discard_crawl d r.active;
  bootstrap_failed = r.bootstrap_failed || not (r.objects k).spider || failed;
}

-- _crawl, up to where it waits
unfoldable pub crawl : Stage → ℕ → CrawlerRunner → CrawlerRunner
crawl stage k r =
    let (failed, c) = start_crawl stage (r.objects k) in
    let r' = record r {
      crawlers = add k r.crawlers;
      active = (r.begun, k) ∷ r.active;
      objects = updated k c r.objects;
      begun = suc r.begun;
    } in
    if failed then finish true r.begun k r' else r'

unfoldable pub crawler_of : ℕ → List (ℕ × ℕ) → Option ℕ
crawler_of d [] = none
crawler_of d ((e, k) ∷ ds) = if d == e then some k else crawler_of d ds

-- The end of a crawl that waited, and the rest of _crawl.
unfoldable pub crawl_ended : Bool → ℕ → CrawlerRunner → CrawlerRunner
crawl_ended failed d r = elim (crawler_of d r.active) [
  | none ↦ r
  | some k ↦
      finish failed d k
        (record r { objects = updated k (end_crawl failed (r.objects k)) r.objects })
]

pub data Event : Type 0 where
  begin : Stage → ℕ → Event
  ended : Bool → ℕ → Event

unfoldable pub step : Event → CrawlerRunner → CrawlerRunner
step (begin stage k) r = crawl stage k r
step (ended failed d) r = crawl_ended failed d r

unfoldable pub run : List Event → CrawlerRunner → CrawlerRunner
run [] r = r
run (x ∷ xs) r = run xs (step x r)
