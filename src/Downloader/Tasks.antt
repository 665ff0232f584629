-- ===== src/Downloader/Tasks.antt =====
-- What becomes of the limit of a slot where coroutines are scheduled as tasks (asyncio).
use mathlib.Core.Path.{subst}
use scrapy.Prelude.{
  ℕ, suc, ◌+◌, ◌≡◌, refl, true, false, none, some, List, [], ◌∷◌, ◌++◌, arith, length, nat_eq,
  contains, append_assoc, ap, ◌∙◌, sym, append-nil, All,
}
use scrapy.Downloader.{
  Slot, Readings, add, has_free_slot, download_delay, begin, schedule, drain, waiting, new_slot,
  process, process_queue, Event, enqueue, begin_task, step, run,
}
use scrapy.Downloader.Order.{process_queue-Started, add_all}

-- A slot without a delay that may start a request at once.
abbrev pub Ready : Slot → Type 0
Ready s =
    (s.latercall ≡ none) × (s.delay ≡ 0) × (s.randomize_delay ≡ false) × (has_free_slot s ≡ true)

drain-tasks :
    (now : ℕ) (q : List ℕ) (s : Slot)
    → Ready s
    → Ready (drain true now q s)
      × ((drain true now q s).queue ≡ [])
      × ((drain true now q s).concurrency ≡ s.concurrency)
unfolding drain schedule has_free_slot
drain-tasks now [] s h = (h, refl, refl)
drain-tasks now (r ∷ q) s h =
    let t = schedule true r (record s { lastseen = now }) in
    let (a, b, c) = drain-tasks now q t h in rw (h.3, drain) (a, b, c)

no_delay : (e : Readings) (i : ℕ) (s : Slot) → Ready s → download_delay e i s ≡ 0
unfolding download_delay
no_delay e i s h = ground arith

waiting-none :
    (now delay : ℕ) (q : List ℕ) (s : Slot) → Ready s → delay ≡ 0 → waiting now delay q s ≡ none
unfolding waiting
waiting-none now delay q s h z = ground arith

process_lem :
    (e : Readings) (q : List ℕ) (s : Slot)
    → Ready s
    → process true e 0 q s ≡ drain true (e.monotonic 0) q s
unfolding process drain
process_lem e [] s h =
    let z = no_delay e 0 s h in
    rw (waiting-none (e.monotonic 0) (download_delay e 0 s) [] s h z, process) refl
process_lem e (r ∷ q) s h =
    let z = no_delay e 0 s h in
    rw (waiting-none (e.monotonic 0) (download_delay e 0 s) (r ∷ q) s h z, z, process) refl

-- No request stands twice in the list.
abbrev pub Distinct : List ℕ → Type 0
Distinct [] = Unit
Distinct (r ∷ rs) = (contains r rs ≡ false) × Distinct rs

absent_cons :
    (r : ℕ) (t rs : List ℕ)
    → contains r rs ≡ false
    → All (λ x. contains x t ≡ false) rs
    → All (λ x. contains x (r ∷ t) ≡ false) rs
absent_cons r t [] n h = tt
absent_cons r t (x ∷ rs) n h = (ground arith, absent_cons r t rs (ground arith) h.1)

absent_nil : (rs : List ℕ) → All (λ r. contains r [] ≡ false) rs
absent_nil [] = tt
absent_nil (r ∷ rs) = (refl, absent_nil rs)

length-add_all :
    (rs t : List ℕ)
    → All (λ r. contains r t ≡ false) rs
    → Distinct rs
    → length (add_all rs t) ≡ length rs + length t
unfolding add
length-add_all [] t h d = omega arith
length-add_all (r ∷ rs) t h d =
    rw h.0 (omega (arith, length-add_all rs (r ∷ t) (absent_cons r t rs d.0 h.1) d.1))

-- A ready slot whose queue is empty and whose limit is `c`.
abbrev pub Open : ℕ → Slot → Type 0
Open c s = Ready s × (s.queue ≡ []) × (s.concurrency ≡ c)

enqueue_task :
    (c : ℕ) (e : Readings) (r : ℕ) (s : Slot)
    → Open c s
    → (t : Slot) × (step true e (enqueue r) s ≡ some t)
      × Open c t
      × (t.scheduled ≡ s.scheduled ++ r ∷ [])
      × (t.transferring ≡ s.transferring)
unfolding step process_queue has_free_slot
enqueue_task c e r s (h, q, k) =
    let s1 = record s { active = add r s.active; queue = s.queue ++ r ∷ [] } in
    let t = process_queue true e s1 in
    let p : t ≡ drain true (e.monotonic 0) s1.queue s1 = process_lem e s1.queue s1 h in
    let (a, b, d) = drain-tasks (e.monotonic 0) s1.queue s1 h in
    let open_t : Open c (drain true (e.monotonic 0) s1.queue s1) = (a, b, d ∙ k) in
    let tq : t.queue ≡ [] = ap (λ z. z.queue) p ∙ b in
    let (rs, u, v, w, _) = process_queue-Started true e s1 in
    (
      t,
      refl,
      subst (Open c) (sym p) open_t,
      w
          ∙ ap (λ l. s.scheduled ++ l)
              (sym (append-nil rs) ∙ ap (λ l. rs ++ l) (sym tq) ∙ sym u ∙ ap (λ l. l ++ r ∷ []) q),
      v,
    )

-- Each request is enqueued; then each task begins.
abbrev pub enqueues : Readings → List ℕ → List (Readings × Event)
enqueues e [] = []
enqueues e (r ∷ rs) = (e, enqueue r) ∷ enqueues e rs

abbrev pub begins : Readings → List ℕ → List (Readings × Event)
begins e [] = []
begins e (r ∷ rs) = (e, begin_task) ∷ begins e rs

enqueue_tasks :
    (c : ℕ) (e : Readings) (rs : List ℕ) (xs : List (Readings × Event)) (s : Slot)
    → Open c s
    → (t : Slot) × (run true (enqueues e rs ++ xs) s ≡ run true xs t)
      × Open c t
      × (t.scheduled ≡ s.scheduled ++ rs)
      × (t.transferring ≡ s.transferring)
enqueue_tasks c e [] xs s h = (s, refl, h, sym (append-nil s.scheduled), refl)
enqueue_tasks c e (r ∷ rs) xs s h =
    let (t, p, o, a, b) = enqueue_task c e r s h in
    let (u, q, o', a', b') = enqueue_tasks c e rs xs t o in
    (
      u,
      ap (λ o. elim o [ none ↦ none | some z ↦ run true (enqueues e rs ++ xs) z ]) p ∙ q,
      o',
      a' ∙ ap (λ l. l ++ rs) a ∙ append_assoc s.scheduled (r ∷ []) rs,
      b' ∙ b,
    )

begin_tasks :
    (e : Readings) (rs : List ℕ) (s : Slot)
    → s.scheduled ≡ rs
    → (t : Slot) × (run true (begins e rs) s ≡ some t)
      × (t.transferring ≡ add_all rs s.transferring)
      × (t.concurrency ≡ s.concurrency)
unfolding step begin
begin_tasks e [] s h = (s, refl, refl, refl)
begin_tasks e (r ∷ rs) s h =
    let (t, p, a, b) = begin_tasks e rs (begin r (record s { scheduled = rs })) refl in
    (t, rw h p, a, b)

-- Where coroutines are scheduled as tasks, any requests that reach a new slot without a delay before
-- the first task begins are all transferred at the same time, however many they are, and whatever
-- the concurrency is that the slot allows, if it allows any.
pub tasks_exceed :
    (c : ℕ) (e : Readings) (rs : List ℕ)
    → Distinct rs
    → (t : Slot) × (run true (enqueues e rs ++ begins e rs) (new_slot (suc c) 0 false) ≡ some t)
      × (t.concurrency ≡ suc c)
      × (length t.transferring ≡ length rs)
unfolding new_slot has_free_slot
tasks_exceed c e rs d =
    let s = new_slot (suc c) 0 false in
    let o : Open (suc c) s = ((refl, refl, refl, ground arith), refl, refl) in
    let (t, p, o', a, b) = enqueue_tasks (suc c) e rs (begins e rs) s o in
    let (u, q, a', b') = begin_tasks e rs t a in
    (
      u,
      p ∙ q,
      b' ∙ o'.2,
      ap length (a' ∙ ap (add_all rs) b) ∙ length-add_all rs [] (absent_nil rs) d ∙ omega arith,
    )
