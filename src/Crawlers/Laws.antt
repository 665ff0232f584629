-- ===== src/Crawlers/Laws.antt =====
-- The crawlers that a runner knows to run are those of its active crawls.
use scrapy.Prelude.{
  ℕ, suc, ◌+◌, ◌≤◌, ◌≡◌, ◌⊎◌, refl, ap, ◌∙◌, Bool, true, false, not, ◌&&◌, ◌||◌, some, List, [],
  ◌∷◌, if◌then◌else◌, ◌==◌, nat_eq, contains, updated, total, arith, Bool-cases, Option-cases, inl,
  inr,
}
use scrapy.Crawlers.{
  Crawler, CrawlerRunner, Stage, start_crawl, end_crawl, new_runner, add, discard, discard_crawl,
  finish, crawl, crawler_of, crawl_ended, Event, begin, ended, step, run,
}

-- The number of active crawls of a crawler.
abbrev pub crawls_of : ℕ → List (ℕ × ℕ) → ℕ
crawls_of k = total (λ d. if d.1 == k then 1 else 0)

-- The number of times that a crawler is begun.
abbrev pub begins : ℕ → List Event → ℕ
begins k [] = 0
begins k (begin stage j ∷ xs) = (if j == k then 1 else 0) + begins k xs
begins k (ended failed d ∷ xs) = begins k xs

contains-add : (k j : ℕ) (ks : List ℕ) → contains k (add j ks) ≡ (k == j || contains k ks)
unfolding add
contains-add k j ks = elim (Bool-cases (contains j ks)) [
  | inr n ↦ rw n refl
  | inl y ↦ rw y (elim (Bool-cases (k == j)) [
    | inr m ↦ rw m refl
    | inl e ↦ rw e (ap (λ i. contains i ks) ((nat_eq.same_iff k j).0 e) ∙ y)
  ])
]

contains-discard :
    (k j : ℕ) (ks : List ℕ) → contains k (discard j ks) ≡ (not (j == k) && contains k ks)
unfolding discard
contains-discard k j [] = ground arith
contains-discard k j (i ∷ ks) = ground (arith, contains-discard k j ks)

crawls_of-discard :
    (k d j : ℕ) (ds : List (ℕ × ℕ))
    → crawler_of d ds ≡ some j
    → crawls_of k (discard_crawl d ds) + (if j == k then 1 else 0) ≡ crawls_of k ds
unfolding crawler_of discard_crawl
crawls_of-discard k d j [] h = absurd (ground arith)
crawls_of-discard k d j ((e, i) ∷ ds) h = ground (arith, h, crawls_of-discard k d j ds)

-- A crawler is known and has one active crawl, or is not known and has none.
abbrev pub Tracked : ℕ → CrawlerRunner → Type 0
Tracked k r =
    ((contains k r.crawlers ≡ true) × (crawls_of k r.active ≡ 1))
    ⊎ ((contains k r.crawlers ≡ false) × (crawls_of k r.active ≡ 0))

-- With `n` beginnings to come.
abbrev Awaits : ℕ → ℕ → CrawlerRunner → Type 0
Awaits k n r =
    ((contains k r.crawlers ≡ true) × (crawls_of k r.active ≡ 1) × (n ≡ 0))
    ⊎ ((contains k r.crawlers ≡ false) × (crawls_of k r.active ≡ 0))

finish-Awaits :
    (k n d j : ℕ) (failed : Bool) (r : CrawlerRunner)
    → crawler_of d r.active ≡ some j
    → Awaits k n r
    → Awaits k n (finish failed d j r)
unfolding finish
finish-Awaits k n d j failed r h w =
    ground (arith, w, contains-discard k j r.crawlers, crawls_of-discard k d j r.active h)

newest : (d j : ℕ) (ds : List (ℕ × ℕ)) → crawler_of d ((d, j) ∷ ds) ≡ some j
unfolding crawler_of
newest d j ds = ground arith

crawl-Awaits :
    (k n j : ℕ) (stage : Stage) (r : CrawlerRunner)
    → (if j == k then 1 else 0) + n ≤ 1
    → Awaits k ((if j == k then 1 else 0) + n) r
    → Awaits k n (crawl stage j r)
unfolding crawl
crawl-Awaits k n j stage r le w =
    let r' : CrawlerRunner = record r {
      crawlers = add j r.crawlers;
      active = (r.begun, j) ∷ r.active;
      objects = updated j (start_crawl stage (r.objects j)).1 r.objects;
      begun = suc r.begun;
    } in
    let w' : Awaits k n r' = ground (arith, le, w, contains-add k j r.crawlers) in
    elim (Bool-cases (start_crawl stage (r.objects j)).0) [
      | inr m ↦ rw m w'
      | inl y ↦ rw y (finish-Awaits k n r.begun j true r' (newest r.begun j r.active) w')
    ]

crawl_ended-Awaits :
    (k n d : ℕ) (failed : Bool) (r : CrawlerRunner)
    → Awaits k n r
    → Awaits k n (crawl_ended failed d r)
unfolding crawl_ended
crawl_ended-Awaits k n d failed r w = elim (Option-cases (crawler_of d r.active)) [
  | inl e ↦ rw (e, crawl_ended) w
  | inr (j, e) ↦
      rw (e, crawl_ended)
        (finish-Awaits k n d j failed
          (record r { objects = updated j (end_crawl failed (r.objects j)) r.objects }) e w)
]

run-Awaits :
    (k : ℕ) (xs : List Event) (r : CrawlerRunner)
    → begins k xs ≤ 1
    → Awaits k (begins k xs) r
    → Awaits k 0 (run xs r)
unfolding run step
run-Awaits k [] r le w = w
run-Awaits k (begin stage j ∷ xs) r le w =
    run-Awaits k xs (crawl stage j r) (ground (arith, le))
      (crawl-Awaits k (begins k xs) j stage r le w)
run-Awaits k (ended failed d ∷ xs) r le w =
    run-Awaits k xs (crawl_ended failed d r) le (crawl_ended-Awaits k (begins k xs) d failed r w)

-- Over any crawls that are begun and end, whatever fails: a crawler that is begun at most once is
-- known to the runner exactly while its crawl is active, so that `stop` reaches it; and then it has
-- one active crawl.
pub run-Tracked : (k : ℕ) (xs : List Event) → begins k xs ≤ 1 → Tracked k (run xs new_runner)
unfolding new_runner
run-Tracked k xs le = ground (arith, run-Awaits k xs new_runner le (inr (refl, refl)))

start_again : (stage : Stage) (c : Crawler) → c.started ≡ true → (start_crawl stage c).0 ≡ true
unfolding start_crawl
start_again stage c h = ground (arith, h)

-- A crawler that is begun again while its crawl is active, at any time: the runner does not know it
-- any more, though its crawl goes on.
pub crawl_again_lem :
    (k : ℕ) (stage : Stage) (r : CrawlerRunner)
    → (r.objects k).started ≡ true
    → (contains k (crawl stage k r).crawlers ≡ false)
      × (crawls_of k (crawl stage k r).active ≡ crawls_of k r.active)
unfolding crawl finish
crawl_again_lem k stage r h =
    let kept =
      crawls_of-discard k r.begun k ((r.begun, k) ∷ r.active) (newest r.begun k r.active) in
    let gone = contains-discard k k (add k r.crawlers) in
    rw (start_again stage (r.objects k) h) (ground (arith, gone), ground (arith, kept))
