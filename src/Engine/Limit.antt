-- ===== src/Engine/Limit.antt =====
-- The number of requests in the downloader, over whole runs of the engine.
use mathlib.Core.Path.{subst}
use scrapy.Prelude.{
  ℕ, suc, ◌+◌, ◌-◌, ◌≤◌, ◌≡◌, ◌⊎◌, refl, sym, Bool, true, false, Option, none, some, List, [], ◌∷◌,
  contains, nat_beq, Bool-cases, arith, length, inl, inr, Option-cases, nat_eq,
}
use scrapy.SchedulerClass.{SchedulerClass}
use scrapy.Downloader
use scrapy.Downloader.{Downloader, add, remove, begin_fetch, end_fetch}
use scrapy.Downloader.Limit.{length-add, length-remove}
use scrapy.Engine.{
  Engine, IdleAnswer, Stage, needs_backout, crawl, leave, end_download, start_scheduled_request,
  begin_direct, end_direct,
}
use scrapy.Engine.Control.{close_spider, close_parts, end_close, stop_async}
use scrapy.Engine.Invariant.{Rules, is_direct, step-kept}
use scrapy.Engine.Slot.{EngineSlot}
use scrapy.Engine.Events.{
  Event, StartItem, start_request, start_item, exhausted, close_spider_raised, error_raised,
  process_start_next, closing_round, step, run, direct_round, download, downloaded, next_call,
  heartbeat, start_next, got_request, got_result, scraped, item_begins, item_taken_up, item_ends,
  close_begins, slot_closed, scraper_closed,
}

-- The downloader has at most `n` active requests more than its limit, if there is one.
abbrev pub WithinLimit : ℕ → Downloader → Type 0
WithinLimit n d = (d.total_concurrency ≡ 0) ⊎ (length d.active ≤ d.total_concurrency + n)

-- How many downloads past the scheduler are going on after an event, and after a run of them.
abbrev pub direct_after : {R : Type 0} → Event R → ℕ → ℕ
direct_after (download r) n = n + 1
direct_after (downloaded none r) n = n - 1
direct_after _ n = n

abbrev pub direct_downloads : {R : Type 0} → List (Event R) → ℕ → ℕ
direct_downloads [] n = n
direct_downloads (x ∷ xs) n = direct_downloads xs (direct_after x n)

begin_fetch-WithinLimit :
    (n r : ℕ) (d : Downloader)
    → Downloader.needs_backout d ≡ false
    → WithinLimit n (begin_fetch r d)
unfolding begin_fetch Downloader.needs_backout
begin_fetch-WithinLimit n r d h = ground (arith, length-add r d.active)

end_fetch-WithinLimit : (n r : ℕ) (d : Downloader) → WithinLimit n d → WithinLimit n (end_fetch r d)
unfolding end_fetch
end_fetch-WithinLimit n r d h = ground (arith, length-remove r d.active)

length-remove_in : (r : ℕ) (t : List ℕ) → contains r t ≡ true → suc (length (remove r t)) ≤ length t
unfolding remove
length-remove_in r [] h = absurd (ground arith)
length-remove_in r (a ∷ t) h = elim (Bool-cases (nat_beq r a)) [
  | inl y ↦ ground (arith, y, length-remove r t)
  | inr n ↦ ground (arith, n, h, length-remove_in r t)
]

-- A download more, and one less.
more-WithinLimit :
    (n r : ℕ) (d : Downloader) → WithinLimit n d → WithinLimit (n + 1) (begin_fetch r d)
unfolding begin_fetch
more-WithinLimit n r d h = ground (arith, length-add r d.active)

less-WithinLimit :
    (n r : ℕ) (d : Downloader)
    → contains r d.active ≡ true
    → WithinLimit n d
    → WithinLimit (n - 1) (end_fetch r d)
unfolding end_fetch
less-WithinLimit n r d c h = ground (arith, length-remove_in r d.active c)

-- One of them that goes on with another request.
swap-WithinLimit :
    (n r x : ℕ) (d : Downloader)
    → contains r d.active ≡ true
    → WithinLimit n d
    → WithinLimit n (begin_fetch x (end_fetch r d))
unfolding begin_fetch end_fetch
swap-WithinLimit n r x d c h =
    ground (arith, length-remove_in r d.active c, length-add x (remove r d.active))

module _ {R : Type 0} {S : SchedulerClass R} where
  abbrev pub Within : ℕ → Engine S → Type 0
  Within n e = WithinLimit n e.downloader

  crawl-downloader :
      (ignored : R → Bool) (r : R) (e : Engine S) → (crawl ignored r e).1.downloader ≡ e.downloader
  unfolding crawl
  crawl-downloader ignored r e = ground arith

  leave-downloader : (r : ℕ) (e : Engine S) → (leave r e).downloader ≡ e.downloader
  unfolding leave
  leave-downloader r e = ground arith

  close_spider-downloader : (e : Engine S) → (close_spider e).1.downloader ≡ e.downloader
  unfolding close_spider
  close_spider-downloader e = ground arith

  stop_async-downloader : (e : Engine S) → (stop_async e).1.downloader ≡ e.downloader
  unfolding stop_async
  stop_async-downloader e = ground (
    arith,
    close_spider-downloader (record e { running = false; starting = false; stopping = true }),
  )

  process_start_next-downloader :
      (ignored : R → Bool) (x : StartItem R) (e : Engine S)
      → (process_start_next ignored x e).1.downloader ≡ e.downloader
  unfolding process_start_next
  process_start_next-downloader ignored (start_request r) e =
      ground (arith, crawl-downloader ignored r e)
  process_start_next-downloader ignored start_item e = ground arith
  process_start_next-downloader ignored exhausted e = refl
  process_start_next-downloader ignored (close_spider_raised reason) e = refl
  process_start_next-downloader ignored error_raised e = refl

  end_download-Within : (n r : ℕ) (e : Engine S) → Within n e → Within n (end_download r e)
  unfolding end_download
  end_download-Within n r e w = end_fetch-WithinLimit n r e.downloader w

  closing_round-Within :
      (n : ℕ) (x : Event R) (stage : Stage) (e e' : Engine S)
      → closing_round x stage e ≡ some e'
      → Within n e
      → Within n e'
  unfolding closing_round close_parts end_close Downloader.close
  closing_round-Within n x stage e e' h w = ground arith

  module _ (identity : R → ℕ) where
    started-WithinLimit :
        (n : ℕ) (s : EngineSlot S) (e : Engine S)
        → e.slot ≡ some s
        → needs_backout e ≡ false
        → Within n e
        → Within n (start_scheduled_request identity s e).1
    unfolding needs_backout start_scheduled_request
    started-WithinLimit n s e k h w = elim (Option-cases (S.next_request s.scheduler).0) [
      | inl m ↦ ground arith
      | inr (r, m) ↦ ground (arith, begin_fetch-WithinLimit n (identity r) e.downloader)
    ]

  Within-rules : (n : ℕ) → Rules {S = S} (Within n)
  Within-rules n = record {
    crawls = λ ignored r e w. subst (WithinLimit n) (sym (crawl-downloader ignored r e)) w;
    leaves = λ r e w. subst (WithinLimit n) (sym (leave-downloader r e)) w;
    closes = λ e w. subst (WithinLimit n) (sym (close_spider-downloader e)) w;
    stops = λ e w. subst (WithinLimit n) (sym (stop_async-downloader e)) w;
    starts =
        λ ignored x e w. subst (WithinLimit n) (sym (process_start_next-downloader ignored x e)) w;
    calls = λ e w. w;
    called = λ s e k w. w;
    scrapes = λ sc e w. w;
    ends_download = end_download-Within n;
    rounds = closing_round-Within n;
    forgets = λ reasons e w. w;
    takes = λ identity. started-WithinLimit identity n;
  }

  end_direct-downloader :
      (identity : R → ℕ) (r : R) (e : Engine S)
      → (end_direct identity r e).1.downloader ≡ end_fetch (identity r) e.downloader
  unfolding end_direct end_download
  end_direct-downloader identity r e = ground arith

  begin_direct-downloader :
      (identity : R → ℕ) (r : R) (e e' : Engine S)
      → begin_direct identity r e ≡ some e'
      → e'.downloader ≡ begin_fetch (identity r) e.downloader
  unfolding begin_direct
  begin_direct-downloader identity r e e' h = elim (Option-cases e.slot) [
    | inl k ↦ absurd (ground arith)
    | inr (s, k) ↦ ground arith
  ]

  module _ (handlers : Engine S → IdleAnswer × Engine S) (identity : R → ℕ) (ignored : R → Bool)
      (keep : (n : ℕ) (e : Engine S) → Within n e → Within n (handlers e).1) where
    direct_round-Within :
        (n : ℕ) (next : Option R) (r : R) (e e' : Engine S)
        → contains (identity r) e.downloader.active ≡ true
        → direct_round identity ignored handlers next r e ≡ some e'
        → Within n e
        → Within (direct_after (downloaded next r) n) e'
    unfolding direct_round
    direct_round-Within n none r e e' c h w =
        let less = less-WithinLimit n (identity r) e.downloader c w in
        let e1 = (end_direct identity r e).1 in
        let same : e1 ≡ e' = ground arith in
        subst (Within (n - 1)) same
          (subst (WithinLimit (n - 1)) (sym (end_direct-downloader identity r e)) less)
    direct_round-Within n (some x) r e e' c h w =
        let e1 = (end_direct identity r e).1 in
        let at = end_direct-downloader identity r e in
        elim (Bool-cases (end_direct identity r e).0) [
          | inl y ↦
              let begun : begin_direct identity x e1 ≡ some e' = ground (arith, h, y) in
              subst (WithinLimit n) (sym (begin_direct-downloader identity x e1 e' begun)) (
                subst (λ d. WithinLimit n (begin_fetch (identity x) d)) (sym at)
                  (swap-WithinLimit n (identity r) (identity x) e.downloader c w))
          | inr m ↦
              let same : e1 ≡ e' = ground (arith, h, m) in
              subst (Within n) same (
                subst (WithinLimit n) (sym at)
                  (end_fetch-WithinLimit n (identity r) e.downloader w))
        ]

    ordinary-Within :
        (n : ℕ) (x : Event R) (e e' : Engine S)
        → is_direct x ≡ false
        → step identity ignored handlers x e ≡ some e'
        → Within n e
        → Within n e'
    ordinary-Within n = step-kept (Within n) (Within-rules n) handlers (keep n) identity ignored

    step-Within :
        (n : ℕ) (x : Event R) (e e' : Engine S)
        → step identity ignored handlers x e ≡ some e'
        → Within n e
        → Within (direct_after x n) e'
    unfolding step
    step-Within n (download r) e e' h w =
        let begun : begin_direct identity r e ≡ some e' = ground (arith, h) in
        subst (WithinLimit (n + 1)) (sym (begin_direct-downloader identity r e e' begun))
          (more-WithinLimit n (identity r) e.downloader w)
    step-Within n (downloaded next r) e e' h w =
        direct_round-Within n next r e e' (ground (arith, h)) (ground (arith, h)) w
    step-Within n next_call e e' h w = ordinary-Within n next_call e e' refl h w
    step-Within n heartbeat e e' h w = ordinary-Within n heartbeat e e' refl h w
    step-Within n (start_next x) e e' h w = ordinary-Within n (start_next x) e e' refl h w
    step-Within n (got_request x r) e e' h w = ordinary-Within n (got_request x r) e e' refl h w
    step-Within n (got_result x r) e e' h w = ordinary-Within n (got_result x r) e e' refl h w
    step-Within n (scraped k) e e' h w = ordinary-Within n (scraped k) e e' refl h w
    step-Within n item_begins e e' h w = ordinary-Within n item_begins e e' refl h w
    step-Within n item_taken_up e e' h w = ordinary-Within n item_taken_up e e' refl h w
    step-Within n item_ends e e' h w = ordinary-Within n item_ends e e' refl h w
    step-Within n close_begins e e' h w = ordinary-Within n close_begins e e' refl h w
    step-Within n slot_closed e e' h w = ordinary-Within n slot_closed e e' refl h w
    step-Within n scraper_closed e e' h w = ordinary-Within n scraper_closed e e' refl h w

  -- After any run of events, the downloader has no more requests than the total concurrency, if there
  -- is one, and the downloads together that components have begun past the scheduler and that go on,
  -- where this was so before, with `n` of them, and the handlers of `spider_idle` keep it.
  pub run-Within :
      (handlers : Engine S → IdleAnswer × Engine S) (identity : R → ℕ) (ignored : R → Bool)
      → ((k : ℕ) (e : Engine S) → Within k e → Within k (handlers e).1)
      → (xs : List (Event R)) (n : ℕ) (e e' : Engine S)
      → run identity ignored handlers xs e ≡ some e'
      → Within n e
      → Within (direct_downloads xs n) e'
  run-Within handlers identity ignored keep [] n e e' h w =
      let same : e ≡ e' = ground arith in subst (Within n) same w
  run-Within handlers identity ignored keep (x ∷ xs) n e e' h w =
      elim (Option-cases (step identity ignored handlers x e)) [
        | inl k ↦ absurd (ground arith)
        | inr (e1, q) ↦
            run-Within handlers identity ignored keep xs (direct_after x n) e1 e'
              (ground (arith, h, q)) (step-Within handlers identity ignored keep n x e e1 q w)
      ]
