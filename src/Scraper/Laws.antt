-- ===== src/Scraper/Laws.antt =====
-- What the scraper slot counts, and when it tells that it is closed.
use mathlib.Core.Path.{subst}
use scrapy.Prelude.{
  ℕ, zero, suc, ◌+◌, ◌-◌, ◌≡◌, refl, true, false, none, some, List, [], ◌∷◌, arith, total,
  total-append, inl, inr, Bool-cases, Option-cases, nat_eq, ap, sym, ◌∙◌,
}
use scrapy.Downloader.{add}
use scrapy.Scraper.{
  Slot, Job, waiting, fired, size, add_response_request, activate, scrape_next, finish_response,
  is_idle, is_empty, check_if_closing, pick, Event, enqueue, scraped, start_item, start_nowait,
  begin_nowait, end_item, close, step, run,
}

abbrev pub weight : Job → ℕ
weight j = size j.result

-- The counters of a slot are those of the jobs and items that it holds.
abbrev pub Accounts : Slot → Type 0
Accounts s =
    (s.active_size ≡ total weight s.queue + total weight s.running)
    × (s.itemproc_size ≡ s.items + s.nowait)

total-pick :
    (n : ℕ) (j : Job) (js ks : List Job)
    → pick n js ≡ some (j, ks)
    → total weight js ≡ weight j + total weight ks
total-pick n j [] ks h = absurd (ground arith)
total-pick zero j (i ∷ js) ks h = ground arith
total-pick (suc n) j (i ∷ js) ks h = elim (Option-cases (pick n js)) [
  | inl e ↦ absurd (ground arith)
  | inr ((k, l), e) ↦ ground (arith, total-pick n k js l e)
]

scrape_next-Accounts : (s : Slot) → Accounts s → Accounts (scrape_next s)
unfolding scrape_next
scrape_next-Accounts s h = (omega (arith, h, total-append weight s.running s.queue), h.1)

check_if_closing-Accounts : (s t : Slot) → check_if_closing s ≡ some t → Accounts s → Accounts t
unfolding check_if_closing
check_if_closing-Accounts s t e h = (ground arith, ground arith)

scraped_lem :
    (n : ℕ) (s t : Slot)
    → step (scraped n) s ≡ some t
    → (j : Job) × (js : List Job) × (u : Slot) × (pick n s.running ≡ some (j, js))
      × (check_if_closing (finish_response j (record s { running = js })) ≡ some u)
      × (scrape_next u ≡ t)
unfolding step
scraped_lem n s t e = elim (Option-cases (pick n s.running)) [
  | inl p ↦ absurd (ground arith)
  | inr ((j, js), p) ↦
      let f = finish_response j (record s { running = js }) in
      elim (Option-cases (check_if_closing f)) [
        | inl q ↦ absurd (ground arith)
        | inr (u, q) ↦ (j, js, u, p, q, ground arith)
      ]
]

step-Accounts : (x : Event) (s t : Slot) → step x s ≡ some t → Accounts s → Accounts t
unfolding step add_response_request finish_response
step-Accounts (enqueue j) s t e h =
    let s1 = add_response_request j s in
    let a = scrape_next-Accounts s1 (omega (arith, h, total-append weight s.queue (j ∷ [])), h.1) in
    ground (arith, a)
step-Accounts (scraped n) s t e h =
    let (j, js, u, p, q, r) = scraped_lem n s t e in
    let f = finish_response j (record s { running = js }) in
    let a : Accounts f = (omega (arith, h, total-pick n j s.running js p), h.1) in
    subst Accounts r (scrape_next-Accounts u (check_if_closing-Accounts f u q a))
step-Accounts start_item s t e h = ground arith
step-Accounts start_nowait s t e h = ground arith
step-Accounts begin_nowait s t e h = ground arith
step-Accounts end_item s t e h = ground arith
step-Accounts close s t e h = check_if_closing-Accounts (record s { closing = waiting }) t e h

-- Any run of events keeps this: the active size is the sum of the sizes of the responses that are
-- queued or in process, and the item count is the number of the items in process or to be.
pub run-Accounts : (xs : List Event) (s t : Slot) → run xs s ≡ some t → Accounts s → Accounts t
run-Accounts [] s t e h = ground arith
run-Accounts (x ∷ xs) s t e h = elim (Option-cases (step x s)) [
  | inl n ↦ absurd (ground arith)
  | inr (u, y) ↦ run-Accounts xs u t (ground arith) (step-Accounts x s u y h)
]

is_empty-add : (r : ℕ) (a : List ℕ) → is_empty (add r a) ≡ false
unfolding add
is_empty-add r [] = refl
is_empty-add r (x ∷ a) = ground arith

is_empty-activate :
    (js : List Job) (a : List ℕ)
    → is_empty (activate js a) ≡ true
    → (is_empty js ≡ true) × (is_empty a ≡ true)
unfolding activate
is_empty-activate [] a h = (refl, h)
is_empty-activate (j ∷ js) a h =
    absurd (ground (arith, is_empty-activate js (add j.request a) h, is_empty-add j.request a))

is_idle-scrape_next : (u : Slot) → is_idle (scrape_next u) ≡ true → is_idle u ≡ true
unfolding is_idle scrape_next
is_idle-scrape_next u h = ground (arith, is_empty-activate u.queue u.active (ground arith))

check_if_closing-fires :
    (f u : Slot)
    → f.closing ≡ waiting
    → check_if_closing f ≡ some u
    → is_idle (scrape_next u) ≡ true
    → (scrape_next u).closing ≡ fired
unfolding check_if_closing scrape_next
check_if_closing-fires f u c q i = elim (Bool-cases (is_idle f)) [
  | inl y ↦ ground arith
  | inr n ↦
      let e : f ≡ u = ground arith in
      let i' : is_idle f ≡ true = ap is_idle e ∙ is_idle-scrape_next u i in absurd (ground arith)
]

-- Where a slot that is asked to close becomes idle by the end of a response, it is closed then.
pub scraped-closes :
    (n : ℕ) (s t : Slot)
    → step (scraped n) s ≡ some t
    → s.closing ≡ waiting
    → is_idle t ≡ true
    → t.closing ≡ fired
unfolding finish_response
scraped-closes n s t e c i =
    let (j, js, u, p, q, r) = scraped_lem n s t e in
    let f = finish_response j (record s { running = js }) in
    ap (λ z. z.closing) (sym r) ∙ check_if_closing-fires f u c q (ap is_idle r ∙ i)

-- The end of `n` items.
abbrev pub end_items : ℕ → List Event
end_items zero = []
end_items (suc n) = end_item ∷ end_items n

end_item_lem :
    (n : ℕ) (s : Slot)
    → s.items ≡ suc n
    → step end_item s ≡ some (record s { itemproc_size = s.itemproc_size - 1; items = s.items - 1 })
unfolding step
end_item_lem n s i = ground arith

end_items_lem :
    (n : ℕ) (s : Slot)
    → s.items ≡ n
    → s.itemproc_size ≡ n
    → (t : Slot) × (run (end_items n) s ≡ some t)
      × (t.itemproc_size ≡ 0)
      × (t.queue ≡ s.queue)
      × (t.active ≡ s.active)
      × (t.closing ≡ s.closing)
end_items_lem zero s i z = (s, refl, z, refl, refl, refl)
end_items_lem (suc n) s i z =
    let (t, p, a, b, c, d) =
      end_items_lem n (record s { itemproc_size = s.itemproc_size - 1; items = s.items - 1 })
        (omega (arith, i)) (omega (arith, z)) in
    (
      t,
      ap (λ o. elim o [ none ↦ none | some z ↦ run (end_items n) z ]) (end_item_lem n s i) ∙ p,
      a,
      b,
      c,
      d,
    )

-- Where a slot is asked to close while no response is left and items are in process, it is idle when
-- all of them are done, and it is still not closed.
pub close_hangs :
    (n : ℕ) (s : Slot)
    → s.queue ≡ []
    → s.active ≡ []
    → s.items ≡ suc n
    → s.itemproc_size ≡ suc n
    → (t : Slot) × (run (close ∷ end_items (suc n)) s ≡ some t)
      × (is_idle t ≡ true)
      × (t.closing ≡ waiting)
unfolding step check_if_closing is_idle
close_hangs n s q a i z =
    let s1 = record s { closing = waiting } in
    let (t, p, b, c, d, e) = end_items_lem (suc n) s1 i z in
    let first : step close s ≡ some s1 = ground arith in
    (
      t,
      ap (λ o. elim o [ none ↦ none | some z ↦ run (end_items (suc n)) z ]) first ∙ p,
      ground (arith, ap is_empty (c ∙ q), ap is_empty (d ∙ a)),
      e,
    )
