-- ===== src/Downloader/Order.antt =====
-- A slot starts its requests in the order of its queue.
use scrapy.Prelude.{
  ℕ, suc, ◌≡◌, refl, Bool, true, false, some, List, [], ◌∷◌, ◌++◌, arith, if◌then◌else◌, nat_beq,
  nat_eq, inl, inr, Bool-cases, Option-cases, append_assoc, ap, ◌∙◌, sym, append-nil,
}
use scrapy.Downloader.{
  Slot, Readings, add, has_free_slot, download_delay, begin, schedule, drain, waiting, process,
  process_queue,
}

-- `add` of each request, in their order.
abbrev pub add_all : List ℕ → List ℕ → List ℕ
add_all [] t = t
add_all (r ∷ rs) t = add_all rs (add r t)

-- Some requests in front of the queue were started, in order, and the others are still queued.
abbrev pub Started : Bool → List ℕ → Slot → Slot → Type 0
Started a q s s' =
    (rs : List ℕ) × (q ≡ rs ++ s'.queue)
    × (s'.transferring ≡ (if a then s.transferring else add_all rs s.transferring))
    × (s'.scheduled ≡ (if a then s.scheduled ++ rs else s.scheduled))
    × (s'.active ≡ s.active)

Started-next :
    (a : Bool) (now r : ℕ) (q : List ℕ) (s s' : Slot)
    → Started a q (schedule a r (record s { lastseen = now })) s'
    → Started a (r ∷ q) s s'
unfolding schedule begin
Started-next true now r q s s' (rs, e, t, p, c) =
    (r ∷ rs, ap (λ l. r ∷ l) e, t, p ∙ append_assoc s.scheduled (r ∷ []) rs, c)
Started-next false now r q s s' (rs, e, t, p, c) = (r ∷ rs, ap (λ l. r ∷ l) e, t, p, c)

Started-none : (a : Bool) (q : List ℕ) (s : Slot) → Started a q s (record s { queue = q })
Started-none true q s = ([], refl, refl, sym (append-nil s.scheduled), refl)
Started-none false q s = ([], refl, refl, refl, refl)

drain-Started : (a : Bool) (now : ℕ) (q : List ℕ) (s : Slot) → Started a q s (drain a now q s)
unfolding drain
drain-Started a now [] s = Started-none a [] s
drain-Started a now (r ∷ q) s =
    let t = schedule a r (record s { lastseen = now }) in
    elim (Bool-cases (has_free_slot s)) [
      | inl y ↦ rw y (Started-next a now r q s (drain a now q t) (drain-Started a now q t))
      | inr n ↦ rw n (Started-none a (r ∷ q) s)
    ]

waiting-Started :
    (a : Bool) (now delay : ℕ) (q : List ℕ) (s s' : Slot)
    → waiting now delay q s ≡ some s'
    → Started a q s s'
unfolding waiting
waiting-Started true now delay q s s' h =
    ([], ground arith, ground arith, ground (arith, append-nil s.scheduled), ground arith)
waiting-Started false now delay q s s' h =
    ([], ground arith, ground arith, ground arith, ground arith)

process-Started :
    (a : Bool) (e : Readings) (i : ℕ) (q : List ℕ) (s : Slot) → Started a q s (process a e i q s)
unfolding process
process-Started a e i [] s =
    elim (Option-cases (waiting (e.monotonic i) (download_delay e i s) [] s)) [
      | inl n ↦ rw n (Started-none a [] s)
      | inr (s', y) ↦ rw y (waiting-Started a (e.monotonic i) (download_delay e i s) [] s s' y)
    ]
process-Started a e i (r ∷ q) s =
    let now = e.monotonic i in
    let delay = download_delay e i s in
    let t = schedule a r (record s { lastseen = now }) in
    elim (Option-cases (waiting now delay (r ∷ q) s)) [
      | inr (s', y) ↦ rw (y, process) (waiting-Started a now delay (r ∷ q) s s' y)
      | inl n ↦ elim (Bool-cases (nat_beq delay 0)) [
        | inl z ↦ rw (n, z, process) (drain-Started a now (r ∷ q) s)
        | inr z ↦ elim (Bool-cases (has_free_slot s)) [
          | inl y ↦
              rw (n, z, y, process)
                (Started-next a now r q s (process a e (suc i) q t)
                  (process-Started a e (suc i) q t))
          | inr m ↦ rw (n, z, m, process) (Started-none a (r ∷ q) s)
        ]
      ]
    ]

-- `_process_queue` takes some requests from the front of the queue, in their order, and starts each
-- of them, as a transfer or as a task; the others stay queued as they are, and no request stops
-- being active.
pub process_queue-Started :
    (a : Bool) (e : Readings) (s : Slot) → Started a s.queue s (process_queue a e s)
unfolding process_queue
process_queue-Started a e s = process-Started a e 0 s.queue s
