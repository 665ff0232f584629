-- ===== src/Downloader/Busy.antt =====
-- A slot never leaves a request waiting without a reason.
use scrapy.Prelude.{
  ℕ, suc, ◌≡◌, ◌⊎◌, refl, Bool, true, false, none, some, List, [], ◌∷◌, ◌++◌, arith, is_some,
  nat_eq, inl, inr, Bool-cases, Option-cases,
}
use scrapy.Downloader.{
  Slot, Readings, add, remove, has_free_slot, download_delay, begin, schedule, drain, waiting,
  process, process_queue, Event, enqueue, begin_task, finish, leave, call, step, run,
}

-- No request waits, or a call is due, or all transfers are taken.
abbrev pub Busy : Slot → Type 0
Busy s = (s.queue ≡ []) ⊎ (is_some s.latercall ≡ true) ⊎ (has_free_slot s ≡ false)

drain-Busy : (a : Bool) (now : ℕ) (q : List ℕ) (s : Slot) → Busy (drain a now q s)
unfolding drain has_free_slot
drain-Busy a now [] s = inl refl
drain-Busy a now (r ∷ q) s =
    let ih = drain-Busy a now q (schedule a r (record s { lastseen = now })) in
    elim (Bool-cases (has_free_slot s)) [
      | inl y ↦ ground (arith, ih)
      | inr n ↦ inr (inr (ground arith))
    ]

waiting-Busy :
    (now delay : ℕ) (q : List ℕ) (s s' : Slot) → waiting now delay q s ≡ some s' → Busy s'
unfolding waiting
waiting-Busy now delay q s s' h = inr (inl (ground arith))

process-Busy : (a : Bool) (e : Readings) (i : ℕ) (q : List ℕ) (s : Slot) → Busy (process a e i q s)
unfolding process has_free_slot
process-Busy a e i [] s =
    elim (Option-cases (waiting (e.monotonic i) (download_delay e i s) [] s)) [
      | inl n ↦ inl (ground arith)
      | inr (s', y) ↦ rw y (waiting-Busy (e.monotonic i) (download_delay e i s) [] s s' y)
    ]
process-Busy a e i (r ∷ q) s =
    let now = e.monotonic i in
    let delay = download_delay e i s in
    let t = schedule a r (record s { lastseen = now }) in
    elim (Option-cases (waiting now delay (r ∷ q) s)) [
      | inr (s', y) ↦ rw (y, process) (waiting-Busy now delay (r ∷ q) s s' y)
      | inl n ↦ ground (arith, n, drain-Busy a now (r ∷ q) s, process-Busy a e (suc i) q t)
    ]

step-Busy :
    (a : Bool) (e : Readings) (x : Event) (s s' : Slot) → step a e x s ≡ some s' → Busy s → Busy s'
unfolding step process_queue has_free_slot begin add
step-Busy a e (enqueue r) s s' h b = ground (
  arith,
  process-Busy a e 0 (s.queue ++ r ∷ [])
      (record s { active = add r s.active; queue = s.queue ++ r ∷ [] }),
)
step-Busy a e begin_task s s' h b = ground arith
step-Busy a e (finish r) s s' h b =
    ground (arith, process-Busy a e 0 s.queue (record s { transferring = remove r s.transferring }))
step-Busy a e (leave r) s s' h b = ground arith
step-Busy a e call s s' h b =
    ground (arith, process-Busy a e 0 s.queue (record s { latercall = none }))

-- However coroutines are scheduled, any run of events keeps this: a request waits in the queue of a
-- slot only while a call is due or all the transfers that the concurrency allows are taken.
pub run-Busy :
    (a : Bool) (xs : List (Readings × Event)) (s s' : Slot)
    → Busy s
    → run a xs s ≡ some s'
    → Busy s'
run-Busy a [] s s' b h = ground arith
run-Busy a ((e, x) ∷ xs) s s' b h = elim (Option-cases (step a e x s)) [
  | inl n ↦ absurd (ground arith)
  | inr (t, y) ↦ run-Busy a xs t s' (step-Busy a e x s t y b) (ground arith)
]
