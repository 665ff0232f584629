-- ===== src/Downloader/Limit.antt =====
-- The number of transfers of a slot, and what waits when.
use scrapy.Prelude.{
  ℕ, suc, ◌≤◌, ◌≡◌, true, false, none, some, List, [], ◌∷◌, ◌++◌, arith, length, nat_eq, inl, inr,
  Bool-cases, Option-cases,
}
use scrapy.Downloader.{
  Slot, Readings, add, remove, has_free_slot, download_delay, begin, schedule, drain, waiting,
  process, process_queue, Event, enqueue, begin_task, finish, leave, call, step, run,
}

-- The transfers of a slot are within its limit, and no task waits to begin.
abbrev pub Limited : Slot → Type 0
Limited s = (length s.transferring ≤ s.concurrency) × (s.scheduled ≡ [])

pub length-add : (r : ℕ) (t : List ℕ) → length (add r t) ≤ suc (length t)
unfolding add
length-add r t = ground arith

pub length-remove : (r : ℕ) (t : List ℕ) → length (remove r t) ≤ length t
unfolding remove
length-remove r [] = omega arith
length-remove r (a ∷ t) = ground (arith, length-remove r t)

begin-Limited :
    (r now : ℕ) (s : Slot)
    → has_free_slot s ≡ true
    → Limited s
    → Limited (schedule false r (record s { lastseen = now }))
unfolding schedule begin has_free_slot
begin-Limited r now s h l = (ground (arith, length-add r s.transferring), ground (arith, l.1))

drain-Limited : (now : ℕ) (q : List ℕ) (s : Slot) → Limited s → Limited (drain false now q s)
unfolding drain
drain-Limited now [] s h = h
drain-Limited now (r ∷ q) s h =
    let s' = schedule false r (record s { lastseen = now }) in
    elim (Bool-cases (has_free_slot s)) [
      | inl y ↦ rw y (drain-Limited now q s' (begin-Limited r now s y h))
      | inr n ↦ rw n h
    ]

waiting-Limited :
    (now delay : ℕ) (q : List ℕ) (s s' : Slot)
    → waiting now delay q s ≡ some s'
    → Limited s
    → Limited s'
unfolding waiting
waiting-Limited now delay q s s' h l = (ground arith, ground arith)

process-Limited :
    (e : Readings) (i : ℕ) (q : List ℕ) (s : Slot) → Limited s → Limited (process false e i q s)
unfolding process
process-Limited e i [] s h =
    elim (Option-cases (waiting (e.monotonic i) (download_delay e i s) [] s)) [
      | inl n ↦ rw n h
      | inr (s', y) ↦ rw y (waiting-Limited (e.monotonic i) (download_delay e i s) [] s s' y h)
    ]
process-Limited e i (r ∷ q) s h =
    let now = e.monotonic i in
    let delay = download_delay e i s in
    let s' = schedule false r (record s { lastseen = now }) in
    elim (Option-cases (waiting now delay (r ∷ q) s)) [
      | inr (s', y) ↦ rw (y, process) (waiting-Limited now delay (r ∷ q) s s' y h)
      | inl n ↦ elim (Bool-cases (has_free_slot s)) [
        | inl y ↦ ground (
          arith,
          n,
          y,
          drain-Limited now (r ∷ q) s h,
          process-Limited e (suc i) q s' (begin-Limited r now s y h),
        )
        | inr z ↦ ground (arith, n, z, drain-Limited now (r ∷ q) s h)
      ]
    ]

step-Limited :
    (e : Readings) (x : Event) (s s' : Slot) → step false e x s ≡ some s' → Limited s → Limited s'
unfolding step process_queue
step-Limited e (enqueue r) s s' h l = ground (
  arith,
  process-Limited e 0 (s.queue ++ r ∷ [])
      (record s { active = add r s.active; queue = s.queue ++ r ∷ [] }) l,
)
step-Limited e begin_task s s' h l = absurd (ground arith)
step-Limited e (finish r) s s' h l =
    let t = record s { transferring = remove r s.transferring } in
    let l' : Limited t = (omega (arith, length-remove r s.transferring), l.1) in
    ground (arith, process-Limited e 0 s.queue t l')
step-Limited e (leave r) s s' h l = ground arith
step-Limited e call s s' h l =
    ground (arith, process-Limited e 0 s.queue (record s { latercall = none }) l)

-- Where coroutines run at once, a slot that transfers no more requests than its concurrency allows,
-- and for which no task waits to begin, stays so over any run of events.
pub run-Limited :
    (xs : List (Readings × Event)) (s s' : Slot) → Limited s → run false xs s ≡ some s' → Limited s'
run-Limited [] s s' l h = ground arith
run-Limited ((e, x) ∷ xs) s s' l h = elim (Option-cases (step false e x s)) [
  | inl n ↦ absurd (ground arith)
  | inr (t, y) ↦ run-Limited xs t s' (step-Limited e x s t y l) (ground arith)
]
