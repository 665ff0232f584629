-- ===== src/Engine/Invariant.antt =====
-- A rule for invariants of the engine: what its parts keep, every run of events keeps.
use mathlib.Core.Path.{subst}
use scrapy.Prelude.{
  ℕ, zero, suc, ◌≡◌, refl, sym, Bool, true, false, ◌&&◌, ◌||◌, Option, none, some, List, [], ◌∷◌,
  ◌++◌, String, arith, length, if◌then◌else◌, inl, inr, Bool-cases, Option-cases, nat_eq, get_or,
  ◌⊎◌,
}
use scrapy.SchedulerClass.{SchedulerClass}
use scrapy.Scraper
use scrapy.Scraper.{Closing, not_closing, waiting, fired, pick, is_empty}
use scrapy.Engine.{
  Engine, IdleAnswer, Stage, with_call, is_closing, needs_backout, slot_is_idle, spider_idle,
  after_loop, crawl, leave, end_download, handle_request, handle_result, start_scheduled_request,
  start_loop, start_scheduled_requests, begin_direct, end_direct,
}
use scrapy.Engine.Control.{close_spider, stop_async}
use scrapy.Engine.Slot.{EngineSlot, no_call}
use scrapy.Engine.Events.{
  Event, StartItem, next_call, heartbeat, start_next, got_request, got_result, scraped, item_begins,
  item_taken_up, item_ends, close_begins, slot_closed, scraper_closed, on_scraper, download,
  downloaded, direct_round, process_start_next, start_round, closing_round, run_call, step, run,
}

abbrev pub call_soon :
    {R : Type 0} {S : SchedulerClass R} → Option (EngineSlot S) → Option (EngineSlot S)
call_soon none = none
call_soon (some s) = some (with_call s)

-- What the parts of the engine keep.
pub record Rules {R : Type 0} {S : SchedulerClass R} (P : Engine S → Type 0) : Type 0 where
  pub crawls : (ignored : R → Bool) (r : R) (e : Engine S) → P e → P (crawl ignored r e).1
  pub leaves : (r : ℕ) (e : Engine S) → P e → P (leave r e)
  pub closes : (e : Engine S) → P e → P (close_spider e).1
  pub stops : (e : Engine S) → P e → P (stop_async e).1
  pub starts :
      (ignored : R → Bool) (x : StartItem R) (e : Engine S)
      → P e
      → P (process_start_next ignored x e).1
  pub calls : (e : Engine S) → P e → P (record e { slot = call_soon e.slot })
  pub called :
      (s : EngineSlot S) (e : Engine S)
      → e.slot ≡ some s
      → P e
      → P (record e { slot = some (record s { nextcall = no_call }) })
  pub scrapes : (sc : Scraper.Slot) (e : Engine S) → P e → P (record e { scraper = sc })
  pub ends_download : (r : ℕ) (e : Engine S) → P e → P (end_download r e)
  pub rounds :
      (x : Event R) (stage : Stage) (e e' : Engine S)
      → closing_round x stage e ≡ some e'
      → P e
      → P e'
  pub forgets : (reasons : List String) (e : Engine S) → P e → P (record e { closes = reasons })
  pub takes :
      (identity : R → ℕ) (s : EngineSlot S) (e : Engine S)
      → e.slot ≡ some s
      → needs_backout e ≡ false
      → P e
      → P (start_scheduled_request identity s e).1

-- ... and what the downloads past the scheduler keep.
pub record DirectRules {R : Type 0} {S : SchedulerClass R} (P : Engine S → Type 0) : Type 0 where
  pub begins :
      (identity : R → ℕ) (r : R) (e e' : Engine S)
      → begin_direct identity r e ≡ some e'
      → P e
      → P e'
  pub ends : (identity : R → ℕ) (r : R) (e : Engine S) → P e → P (end_direct identity r e).1

-- An event of such a download.
abbrev pub is_direct : {R : Type 0} → Event R → Bool
is_direct (download r) = true
is_direct (downloaded next r) = true
is_direct _ = false

module _ {R : Type 0} {S : SchedulerClass R} (P : Engine S → Type 0) (rules : Rules P) where
  moved : (e e' : Engine S) → e ≡ e' → P e → P e'
  moved e e' h = subst P h

  start_round-kept :
      (ignored : R → Bool) (x : StartItem R) (e : Engine S) → P e → P (start_round ignored x e)
  unfolding start_round
  start_round-kept ignored x e h =
      let e1 = (process_start_next ignored x e).1 in
      let h1 = rules.starts ignored x e h in
      elim (Bool-cases (process_start_next ignored x e).0) [
        | inr n ↦
            moved (stop_async e1).1 (start_round ignored x e) (ground arith) (rules.stops e1 h1)
        | inl y ↦ elim (Bool-cases (needs_backout e1)) [
          | inl z ↦ moved e1 (start_round ignored x e) (ground arith) h1
          | inr z ↦
              moved (record e1 { slot = call_soon e1.slot }) (start_round ignored x e)
                (ground arith) (rules.calls e1 h1)
        ]
      ]

  on_scraper-kept : (x : Scraper.Event) (e e' : Engine S) → on_scraper x e ≡ some e' → P e → P e'
  unfolding on_scraper
  on_scraper-kept x e e' h w = elim (Option-cases (Scraper.step x e.scraper)) [
    | inl n ↦ absurd (ground arith)
    | inr (sc, y) ↦ moved (record e { scraper = sc }) e' (ground arith) (rules.scrapes sc e w)
  ]

  handle_request-kept :
      (identity : R → ℕ) (ignored : R → Bool) (x r : R) (e : Engine S)
      → P e
      → P (handle_request identity ignored r x e)
  unfolding handle_request
  handle_request-kept identity ignored x r e w =
      let e1 = end_download (identity r) e in
      rules.leaves (identity r) (crawl ignored x e1).1
        (rules.crawls ignored x e1 (rules.ends_download (identity r) e w))

  handle_result-kept :
      (identity : R → ℕ) (result : Scraper.Result) (r : R) (e : Engine S)
      → P e
      → P (handle_result identity result r e)
  unfolding handle_result
  handle_result-kept identity result r e w =
      let e1 = end_download (identity r) e in
      let j : Scraper.Job = record { result = result; request = identity r } in
      rules.scrapes (Scraper.enqueue_scrape j e1.scraper) e1 (rules.ends_download (identity r) e w)

  close_begins-kept :
      (e e' : Engine S) (closes : List String)
      → elim closes as (λ _. Option (Engine S)) [
        | [] ↦ none
        | reason ∷ rest ↦ some (close_spider (record e { closes = rest })).1
      ]
        ≡ some e'
      → P e
      → P e'
  close_begins-kept e e' [] h w = absurd (ground arith)
  close_begins-kept e e' (reason ∷ rest) h w =
      let e0 = record e { closes = rest } in
      moved (close_spider e0).1 e' (ground arith) (rules.closes e0 (rules.forgets rest e w))

  module _ (identity : R → ℕ) where
    start_loop-kept :
        (fuel : ℕ) (e : Engine S) (rs : List R) (e' : Engine S)
        → start_loop identity fuel e ≡ some (rs, e')
        → P e
        → P e'
    unfolding start_loop
    start_loop-kept zero e rs e' h w = absurd (ground arith)
    start_loop-kept (suc fuel) e rs e' h w = elim (Bool-cases (needs_backout e)) [
      | inl y ↦ moved e e' (ground arith) w
      | inr n ↦ elim (Option-cases e.slot) [
        | inl k ↦ moved e e' (ground arith) w
        | inr (s, k) ↦
            let e1 = (start_scheduled_request identity s e).1 in
            let w1 = rules.takes identity s e k n w in
            elim (Option-cases (start_scheduled_request identity s e).0) [
              | inl m ↦ moved e1 e' (ground arith) w1
              | inr (r, m) ↦ elim (Option-cases (start_loop identity fuel e1)) [
                | inl l ↦ absurd (ground arith)
                | inr ((rs', e2), l) ↦
                    moved e2 e' (ground arith) (start_loop-kept fuel e1 rs' e2 l w1)
              ]
            ]
      ]
    ]

  module _ (handlers : Engine S → IdleAnswer × Engine S)
      (keep : (e : Engine S) → P e → P (handlers e).1) where
    -- The reasons to close after `_spider_idle`, if it asks for it.
    asked : Engine S → List String
    asked e =
        let (answer, e') = handlers e in
        e'.closes
        ++ get_or answer.reason (if e'.start_error then "start_error" else "finished") ∷ []

    spider_idle_cases :
        (e : Engine S)
        → (spider_idle handlers e ≡ (handlers e).1)
          ⊎ (spider_idle handlers e ≡ record ((handlers e).1) { closes = asked e })
    unfolding spider_idle asked
    spider_idle_cases e = ground arith

    spider_idle-kept : (e : Engine S) → P e → P (spider_idle handlers e)
    spider_idle-kept e w = elim (spider_idle_cases e) [
      | inl h ↦ moved (handlers e).1 (spider_idle handlers e) (sym h) (keep e w)
      | inr h ↦
          moved (record ((handlers e).1) { closes = asked e }) (spider_idle handlers e) (sym h)
            (rules.forgets (asked e) (handlers e).1 (keep e w))
    ]

    after_loop-kept : (e : Engine S) → P e → P (after_loop handlers e)
    unfolding after_loop
    after_loop-kept e w = elim (Option-cases e.slot) [
      | inl k ↦ moved e (after_loop handlers e) (ground arith) w
      | inr (s, k) ↦ elim (Bool-cases (slot_is_idle s e && s.close_if_idle)) [
        | inl y ↦
            moved (spider_idle handlers e) (after_loop handlers e) (ground arith)
              (spider_idle-kept e w)
        | inr n ↦ moved e (after_loop handlers e) (ground arith) w
      ]
    ]

    module _ (identity : R → ℕ) (ignored : R → Bool) where
      scheduled-kept :
          (e : Engine S) (rs : List R) (e' : Engine S)
          → start_scheduled_requests identity handlers e ≡ some (rs, e')
          → P e
          → P e'
      unfolding start_scheduled_requests
      scheduled-kept e rs e' h w = elim (Option-cases e.slot) [
        | inl k ↦ moved e e' (ground arith) w
        | inr (s, k) ↦ elim (Bool-cases (is_closing s.closing || e.paused)) [
          | inl y ↦ moved e e' (ground arith) w
          | inr n ↦
              let fuel = suc (length (S.pending s.scheduler)) in
              elim (Option-cases (start_loop identity fuel e)) [
                | inl l ↦ absurd (ground arith)
                | inr ((rs', e1), l) ↦
                    moved (after_loop handlers e1) e' (ground arith)
                      (after_loop-kept e1 (start_loop-kept identity fuel e rs' e1 l w))
              ]
        ]
      ]

      run_call-kept :
          (s : EngineSlot S) (e e' : Engine S)
          → e.slot ≡ some s
          → run_call identity ignored handlers s e ≡ some e'
          → P e
          → P e'
      unfolding run_call
      run_call-kept s e e' k h w =
          let e0 = record e { slot = some (record s { nextcall = no_call }) } in
          elim (Option-cases (start_scheduled_requests identity handlers e0)) [
            | inl n ↦ absurd (ground arith)
            | inr ((rs, e1), q) ↦
                moved e1 e' (ground arith) (scheduled-kept e0 rs e1 q (rules.called s e k w))
          ]

      pub step-kept :
          (x : Event R) (e e' : Engine S)
          → is_direct x ≡ false
          → step identity ignored handlers x e ≡ some e'
          → P e
          → P e'
      unfolding step
      step-kept (download r) e e' d h w = absurd (ground arith)
      step-kept (downloaded next r) e e' d h w = absurd (ground arith)
      step-kept next_call e e' d h w = elim (Option-cases e.slot) [
        | inl k ↦ absurd (ground arith)
        | inr (s, k) ↦ run_call-kept s e e' k (ground arith) w
      ]
      step-kept heartbeat e e' d h w = elim (Option-cases e.slot) [
        | inl k ↦ absurd (ground arith)
        | inr (s, k) ↦
            moved (record e { slot = call_soon e.slot }) e' (ground arith) (rules.calls e w)
      ]
      step-kept (start_next x) e e' d h w =
          moved (start_round ignored x e) e' (ground arith) (start_round-kept ignored x e w)
      step-kept (got_request x r) e e' d h w =
          moved (handle_request identity ignored r x e) e' (ground arith)
            (handle_request-kept identity ignored x r e w)
      step-kept (got_result result r) e e' d h w =
          moved (handle_result identity result r e) e' (ground arith)
            (handle_result-kept identity result r e w)
      step-kept (scraped n) e e' d h w = elim (Option-cases (pick n e.scraper.running)) [
        | inl k ↦ absurd (ground arith)
        | inr ((j, js), k) ↦ elim (Option-cases (on_scraper (Scraper.scraped n) e)) [
          | inl l ↦ absurd (ground arith)
          | inr (e1, l) ↦
              moved (leave j.request e1) e' (ground arith)
                (rules.leaves j.request e1 (on_scraper-kept (Scraper.scraped n) e e1 l w))
        ]
      ]
      step-kept item_begins e e' d h w = on_scraper-kept Scraper.start_item e e' h w
      step-kept item_taken_up e e' d h w = on_scraper-kept Scraper.begin_nowait e e' h w
      step-kept item_ends e e' d h w = on_scraper-kept Scraper.end_item e e' h w
      step-kept close_begins e e' d h w = close_begins-kept e e' e.closes h w
      step-kept slot_closed e e' d h w = rules.rounds slot_closed e.stage e e' h w
      step-kept scraper_closed e e' d h w = rules.rounds scraper_closed e.stage e e' h w

      direct-kept :
          (direct : DirectRules P) (next : Option R) (r : R) (e e' : Engine S)
          → direct_round identity ignored handlers next r e ≡ some e'
          → P e
          → P e'
      unfolding direct_round
      direct-kept direct none r e e' h w =
          moved (end_direct identity r e).1 e' (ground arith) (direct.ends identity r e w)
      direct-kept direct (some x) r e e' h w =
          let e1 = (end_direct identity r e).1 in
          let w1 = direct.ends identity r e w in
          elim (Bool-cases (end_direct identity r e).0) [
            | inl y ↦ direct.begins identity x e1 e' (ground arith) w1
            | inr n ↦ moved e1 e' (ground arith) w1
          ]

      any_step-kept :
          (direct : DirectRules P) (x : Event R) (e e' : Engine S)
          → step identity ignored handlers x e ≡ some e'
          → P e
          → P e'
      unfolding step
      any_step-kept direct (download r) e e' h w =
          direct.begins identity r e e' (ground (arith, h)) w
      any_step-kept direct (downloaded next r) e e' h w =
          direct-kept direct next r e e' (ground (arith, h)) w
      any_step-kept direct next_call e e' h w = step-kept next_call e e' refl h w
      any_step-kept direct heartbeat e e' h w = step-kept heartbeat e e' refl h w
      any_step-kept direct (start_next x) e e' h w = step-kept (start_next x) e e' refl h w
      any_step-kept direct (got_request x r) e e' h w = step-kept (got_request x r) e e' refl h w
      any_step-kept direct (got_result y r) e e' h w = step-kept (got_result y r) e e' refl h w
      any_step-kept direct (scraped n) e e' h w = step-kept (scraped n) e e' refl h w
      any_step-kept direct item_begins e e' h w = step-kept item_begins e e' refl h w
      any_step-kept direct item_taken_up e e' h w = step-kept item_taken_up e e' refl h w
      any_step-kept direct item_ends e e' h w = step-kept item_ends e e' refl h w
      any_step-kept direct close_begins e e' h w = step-kept close_begins e e' refl h w
      any_step-kept direct slot_closed e e' h w = step-kept slot_closed e e' refl h w
      any_step-kept direct scraper_closed e e' h w = step-kept scraper_closed e e' refl h w

      pub run-kept :
          DirectRules P
          → (xs : List (Event R)) (e e' : Engine S) → run identity ignored handlers xs e ≡ some e'
          → P e
          → P e'
      run-kept direct [] e e' h w = moved e e' (ground arith) w
      run-kept direct (x ∷ xs) e e' h w = elim (Option-cases (step identity ignored handlers x e)) [
        | inl n ↦ absurd (ground arith)
        | inr (e1, q) ↦ run-kept direct xs e1 e' (ground arith) (any_step-kept direct x e e1 q w)
      ]
