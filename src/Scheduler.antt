-- ===== src/Scheduler.antt =====
-- core/scheduler.py: Scheduler, over the interface of its priority queue class. The disk queue is
-- there when a job directory is set. Log messages are left out; their flags are kept.
pub mod Laws
pub mod Balance
pub mod Class
mod Tests
use scrapy.Prelude.{
  ℕ, ◌+◌, Bool, true, false, not, ◌&&◌, Option, none, some, List, [], ◌++◌, String, if◌then◌else◌,
  ltb, is_some,
}
use scrapy.Request.{Request}
use scrapy.Stats.{Stats, inc}
use scrapy.DupeFilter
use scrapy.DupeFilter.{DupeFilter}
use scrapy.PqueueClass.{PqueueClass}

abbrev pub disk_contents : (D : PqueueClass) → Option D.P → List Request
disk_contents D none = []
disk_contents D (some p) = D.contents p

module _ (M D : PqueueClass) where
  pub record Scheduler : Type 0 where
    pub df : DupeFilter
    pub mqs : M.P
    pub dqs : Option D.P
    pub stats : Stats
    pub logunser : Bool

module _ {M D : PqueueClass} where
  -- open(): the priority queues that `_mq` and `_dq` build, the second only with a job directory
  unfoldable pub open_scheduler : DupeFilter → M.P → Option D.P → Stats → Bool → Scheduler M D
  open_scheduler df mqs dqs stats logunser = record {
    df = df;
    mqs = mqs;
    dqs = dqs;
    stats = stats;
    logunser = logunser;
  }

  -- _dqpush
  unfoldable pub dqpush : Request → Scheduler M D → Bool × Scheduler M D
  dqpush r s = elim s.dqs [
    | none ↦ (false, s)
    | some p ↦
        let (stored, p') = D.push r p in
        if stored then (true, record s { dqs = some p' }) else (
          false,
          record s {
            dqs = some p';
            logunser = false;
            stats = inc "scheduler/unserializable" s.stats;
          },
        )
  ]

  -- `none` when the memory queue raises; `some b` when the method returns `b`.
  unfoldable pub push_request : Request → Scheduler M D → Option Bool × Scheduler M D
  push_request r s =
      let (dqok, s') = dqpush r s in
      if dqok
      then (
        some true,
        record s' { stats = inc "scheduler/enqueued" (inc "scheduler/enqueued/disk" s'.stats) },
      )
      else (let (stored, p) = M.push r s'.mqs in
          if stored
          then (
            some true,
            record s' {
              mqs = p;
              stats = inc "scheduler/enqueued" (inc "scheduler/enqueued/memory" s'.stats);
            },
          )
          else (none, record s' { mqs = p }))

  unfoldable pub enqueue_request :
      (Request → String) → Request → Scheduler M D → Option Bool × Scheduler M D
  enqueue_request fingerprint r s =
      if r.dont_filter
      then push_request r s
      else (let (seen, df') = DupeFilter.request_seen fingerprint r s.df in
          if seen
          then (let (df'', stats') = DupeFilter.log df' s.stats in
              (some false, record s { df = df''; stats = stats' }))
          else push_request r (record s { df = df' }))

  -- _dqpop
  unfoldable pub dqpop : Scheduler M D → Option Request × Scheduler M D
  dqpop s = elim s.dqs [
    | none ↦ (none, s)
    | some p ↦ let (m, p') = D.pop p in (m, record s { dqs = some p' })
  ]

  unfoldable pub next_request : Scheduler M D → Option Request × Scheduler M D
  unfolding dqpop
  next_request s =
      let (m, mqs') = M.pop s.mqs in
      let s' = record s { mqs = mqs' } in
      elim m [
        | some r ↦ (
          some r,
          record s' { stats = inc "scheduler/dequeued" (inc "scheduler/dequeued/memory" s'.stats) },
        )
        | none ↦
            let (d, s'') = dqpop s' in
            elim d [
              | some r ↦ (
                some r,
                record s'' {
                  stats = inc "scheduler/dequeued" (inc "scheduler/dequeued/disk" s''.stats);
                },
              )
              | none ↦ (none, s'')
            ]
      ]

  -- __len__
  unfoldable pub len : Scheduler M D → ℕ
  len s = elim s.dqs [ some p ↦ D.len p + M.len s.mqs | none ↦ M.len s.mqs ]

  unfoldable pub has_pending_requests : Scheduler M D → Bool
  unfolding len
  has_pending_requests s = ltb 0 (len s)

  -- Every request that the scheduler holds.
  abbrev pub pending : Scheduler M D → List Request
  pending s = disk_contents D s.dqs ++ M.contents s.mqs
