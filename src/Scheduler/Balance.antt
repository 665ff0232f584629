-- ===== src/Scheduler/Balance.antt =====
-- The stats of the scheduler against the requests that it holds, over whole runs.
use scrapy.Prelude.{
  ℕ, ◌+◌, ◌≡◌, none, some, List, [], ◌∷◌, String, arith, total, length-eq-total, if◌then◌else◌,
  Bool-cases, Option-cases, inl, inr, ◌==◌, string_eq,
}
use scrapy.Request.{Request}
use scrapy.Stats.{Stats, inc, counter}
use scrapy.Stats.Laws.{counter-inc}
use scrapy.DupeFilter
use scrapy.PqueueClass.{PqueueClass}
use scrapy.SchedulerClass.{weight}
use scrapy.Scheduler.{
  Scheduler, dqpush, push_request, enqueue_request, dqpop, next_request, len, pending,
}
use scrapy.SchedulerClass.{stored}
use scrapy.Scheduler.Laws.{enqueue_request-total, next_request-total, len-eq-length}

-- The increment of two stats, as the scheduler makes it.
two_incs :
    (j k l : String) (d : Stats)
    → counter j (inc k (inc l d))
      ≡ counter j d + (if k == j then 1 else 0) + (if l == j then 1 else 0)
two_incs j k l d = ground (arith, counter-inc k j (inc l d), counter-inc l j d)

one_inc : (j k : String) (d : Stats) → counter j (inc k d) ≡ counter j d + (if k == j then 1 else 0)
one_inc j k d = ground (arith, counter-inc k j d)

-- What the increments of `enqueue_request` and of `next_request` do to the two counters.
enqueue_incs :
    (d : Stats)
    → (counter "scheduler/enqueued" (inc "scheduler/enqueued" (inc "scheduler/enqueued/disk" d))
        ≡ counter "scheduler/enqueued" d + 1)
      × (counter "scheduler/enqueued" (inc "scheduler/enqueued" (inc "scheduler/enqueued/memory" d))
          ≡ counter "scheduler/enqueued" d + 1)
      × (counter "scheduler/dequeued" (inc "scheduler/enqueued" (inc "scheduler/enqueued/disk" d))
          ≡ counter "scheduler/dequeued" d)
      × (counter "scheduler/dequeued" (inc "scheduler/enqueued" (inc "scheduler/enqueued/memory" d))
          ≡ counter "scheduler/dequeued" d)
enqueue_incs d = (
  omega (arith, two_incs "scheduler/enqueued" "scheduler/enqueued" "scheduler/enqueued/disk" d),
  omega (arith, two_incs "scheduler/enqueued" "scheduler/enqueued" "scheduler/enqueued/memory" d),
  omega (arith, two_incs "scheduler/dequeued" "scheduler/enqueued" "scheduler/enqueued/disk" d),
  omega (arith, two_incs "scheduler/dequeued" "scheduler/enqueued" "scheduler/enqueued/memory" d),
)

refuse_incs :
    (d : Stats)
    → (counter "scheduler/enqueued" (inc "scheduler/unserializable" d)
        ≡ counter "scheduler/enqueued" d)
      × (counter "scheduler/dequeued" (inc "scheduler/unserializable" d)
          ≡ counter "scheduler/dequeued" d)
      × (counter "scheduler/enqueued" (inc "dupefilter/filtered" d)
          ≡ counter "scheduler/enqueued" d)
      × (counter "scheduler/dequeued" (inc "dupefilter/filtered" d)
          ≡ counter "scheduler/dequeued" d)
refuse_incs d = (
  omega (arith, one_inc "scheduler/enqueued" "scheduler/unserializable" d),
  omega (arith, one_inc "scheduler/dequeued" "scheduler/unserializable" d),
  omega (arith, one_inc "scheduler/enqueued" "dupefilter/filtered" d),
  omega (arith, one_inc "scheduler/dequeued" "dupefilter/filtered" d),
)

dequeue_incs :
    (d : Stats)
    → (counter "scheduler/enqueued" (inc "scheduler/dequeued" (inc "scheduler/dequeued/disk" d))
        ≡ counter "scheduler/enqueued" d)
      × (counter "scheduler/enqueued" (inc "scheduler/dequeued" (inc "scheduler/dequeued/memory" d))
          ≡ counter "scheduler/enqueued" d)
      × (counter "scheduler/dequeued" (inc "scheduler/dequeued" (inc "scheduler/dequeued/disk" d))
          ≡ counter "scheduler/dequeued" d + 1)
      × (counter "scheduler/dequeued" (inc "scheduler/dequeued" (inc "scheduler/dequeued/memory" d))
          ≡ counter "scheduler/dequeued" d + 1)
dequeue_incs d = (
  omega (arith, two_incs "scheduler/enqueued" "scheduler/dequeued" "scheduler/dequeued/disk" d),
  omega (arith, two_incs "scheduler/enqueued" "scheduler/dequeued" "scheduler/dequeued/memory" d),
  omega (arith, two_incs "scheduler/dequeued" "scheduler/dequeued" "scheduler/dequeued/disk" d),
  omega (arith, two_incs "scheduler/dequeued" "scheduler/dequeued" "scheduler/dequeued/memory" d),
)

abbrev pub one : Request → ℕ
one r = 1

-- A call of the engine.
pub data Call : Type 0 where
  enqueue : Request → Call
  next : Call

module _ {M D : PqueueClass} where
  abbrev pub enqueued : Scheduler M D → ℕ
  enqueued s = counter "scheduler/enqueued" s.stats

  abbrev pub dequeued : Scheduler M D → ℕ
  dequeued s = counter "scheduler/dequeued" s.stats

  push_request-stats :
      (r : Request) (s : Scheduler M D)
      → (enqueued (push_request r s).1 ≡ enqueued s + stored one r (push_request r s).0)
        × (dequeued (push_request r s).1 ≡ dequeued s)
  unfolding push_request dqpush
  push_request-stats r s = elim (Option-cases s.dqs) [
    | inl e ↦ (ground (arith, enqueue_incs s.stats), ground (arith, enqueue_incs s.stats))
    | inr (p, e) ↦ (
      ground (
        arith,
        enqueue_incs s.stats,
        refuse_incs s.stats,
        enqueue_incs (inc "scheduler/unserializable" s.stats),
      ),
      ground (
        arith,
        enqueue_incs s.stats,
        refuse_incs s.stats,
        enqueue_incs (inc "scheduler/unserializable" s.stats),
      ),
    )
  ]

  enqueue_request-stats :
      (fingerprint : Request → String) (r : Request) (s : Scheduler M D)
      → (enqueued (enqueue_request fingerprint r s).1
          ≡ enqueued s + stored one r (enqueue_request fingerprint r s).0)
        × (dequeued (enqueue_request fingerprint r s).1 ≡ dequeued s)
  unfolding enqueue_request DupeFilter.log
  enqueue_request-stats fingerprint r s =
      let seen = (DupeFilter.request_seen fingerprint r s.df).0 in
      let df' = (DupeFilter.request_seen fingerprint r s.df).1 in
      elim (Bool-cases r.dont_filter) [
        | inl y ↦ (ground (arith, push_request-stats r s), ground (arith, push_request-stats r s))
        | inr n ↦ elim (Bool-cases seen) [
          | inl y ↦ (ground (arith, refuse_incs s.stats), ground (arith, refuse_incs s.stats))
          | inr n' ↦ (
            ground (arith, push_request-stats r (record s { df = df' })),
            ground (arith, push_request-stats r (record s { df = df' })),
          )
        ]
      ]

  next_request-stats :
      (s : Scheduler M D)
      → (enqueued (next_request s).1 ≡ enqueued s)
        × (dequeued (next_request s).1 ≡ dequeued s + weight one (next_request s).0)
  unfolding next_request dqpop
  next_request-stats s = elim (Option-cases s.dqs) [
    | inl e ↦ (ground (arith, dequeue_incs s.stats), ground (arith, dequeue_incs s.stats))
    | inr (p, e) ↦ (ground (arith, dequeue_incs s.stats), ground (arith, dequeue_incs s.stats))
  ]

  -- The stats account for the requests that the scheduler holds: those enqueued, with those that
  -- it was opened with, are those dequeued and those that it still holds.
  abbrev pub Balanced : ℕ → Scheduler M D → Type 0
  Balanced resumed s = enqueued s + resumed ≡ dequeued s + len s

  len-eq-total : (s : Scheduler M D) → len s ≡ total one (pending s)
  len-eq-total s = omega (arith, len-eq-length s, length-eq-total (pending s))

  module _ (fingerprint : Request → String) where
    -- A run of calls: the weight of the requests that were accepted, the requests that were
    -- returned, and the scheduler at the end.
    abbrev pub run : (Request → ℕ) → List Call → Scheduler M D → ℕ × List Request × Scheduler M D
    run w [] s = (0, [], s)
    run w (enqueue r ∷ calls) s =
        let (o, s') = enqueue_request fingerprint r s in
        let (a, out, end) = run w calls s' in (stored w r o + a, out, end)
    run w (next ∷ calls) s =
        let (m, s') = next_request s in
        let (a, out, end) = run w calls s' in (a, elim m [ none ↦ out | some r ↦ r ∷ out ], end)

    -- Over any run of calls nothing is lost and nothing is returned twice: what was accepted, with
    -- what was pending at first, is what was returned with what is still pending. (Every weight
    -- has this sum.)
    pub run-total :
        (w : Request → ℕ) (calls : List Call) (s : Scheduler M D)
        → (run w calls s).0 + total w (pending s)
          ≡ total w (run w calls s).1 + total w (pending (run w calls s).2)
    run-total w [] s = omega arith
    run-total w (enqueue r ∷ calls) s =
        let s' = (enqueue_request fingerprint r s).1 in
        omega (arith, run-total w calls s', enqueue_request-total w fingerprint r s)
    run-total w (next ∷ calls) s =
        let s' = (next_request s).1 in ground (arith, run-total w calls s', next_request-total w s)

    -- Every run of calls keeps the stats in balance with the length of the scheduler.
    pub run-Balanced :
        (resumed : ℕ) (calls : List Call) (s : Scheduler M D)
        → Balanced resumed s
        → Balanced resumed (run one calls s).2
    run-Balanced resumed [] s h = h
    run-Balanced resumed (enqueue r ∷ calls) s h =
        let s' = (enqueue_request fingerprint r s).1 in
        run-Balanced resumed calls s' (
          omega (
            arith,
            len-eq-total s,
            len-eq-total s',
            enqueue_request-total one fingerprint r s,
            enqueue_request-stats fingerprint r s,
          ))
    run-Balanced resumed (next ∷ calls) s h =
        let s' = (next_request s).1 in
        run-Balanced resumed calls s' (
          omega (
            arith,
            len-eq-total s,
            len-eq-total s',
            next_request-total one s,
            next_request-stats s,
          ))
