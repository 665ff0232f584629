-- ===== src/Scheduler/Laws.antt =====
-- What the scheduler does with the requests that it is given.
use scrapy.Prelude.{
  ℕ, ◌+◌, ◌≡◌, true, false, some, String, arith, total, total-append, length, length-append,
  Bool-cases, Option-cases, inl, inr, string_eq,
}
use scrapy.Request.{Request}
use scrapy.DupeFilter
use scrapy.DupeFilter.Laws.{seen}
use scrapy.PqueueClass.{PqueueClass}
use scrapy.SchedulerClass.{weight, stored}
use scrapy.Scheduler.{
  Scheduler, dqpush, push_request, enqueue_request, dqpop, next_request, len, pending,
  disk_contents,
}

module _ {M D : PqueueClass} where
  total-pending :
      (w : Request → ℕ) (s : Scheduler M D)
      → total w (pending s) ≡ total w (disk_contents D s.dqs) + total w (M.contents s.mqs)
  total-pending w s = total-append w (disk_contents D s.dqs) (M.contents s.mqs)

  push_request-total :
      (w : Request → ℕ) (r : Request) (s : Scheduler M D)
      → total w (pending (push_request r s).1)
        ≡ stored w r (push_request r s).0 + total w (pending s)
  unfolding push_request dqpush
  push_request-total w r s = elim (Option-cases s.dqs) [
    | inl e ↦
        ground
          (arith, total-pending w s, total-pending w (push_request r s).1, M.push_law w r s.mqs)
    | inr (p, e) ↦ ground (
      arith,
      total-pending w s,
      total-pending w (push_request r s).1,
      M.push_law w r s.mqs,
      D.push_law w r p,
    )
  ]

  -- `enqueue_request` adds the request to the pending ones when it returns `True`; when it returns
  -- `False` or raises, the pending requests stay as they are. (Every weight has this sum.)
  pub enqueue_request-total :
      (w : Request → ℕ) (fingerprint : Request → String) (r : Request) (s : Scheduler M D)
      → total w (pending (enqueue_request fingerprint r s).1)
        ≡ stored w r (enqueue_request fingerprint r s).0 + total w (pending s)
  unfolding enqueue_request
  enqueue_request-total w fingerprint r s =
      let seen = (DupeFilter.request_seen fingerprint r s.df).0 in
      let df' = (DupeFilter.request_seen fingerprint r s.df).1 in
      elim (Bool-cases r.dont_filter) [
        | inl y ↦ ground (arith, push_request-total w r s)
        | inr n ↦ elim (Bool-cases seen) [
          | inl y ↦ ground (arith)
          | inr n' ↦ ground (arith, push_request-total w r (record s { df = df' }))
        ]
      ]

  -- Without `dont_filter`, a request whose fingerprint was seen is refused, and every pending
  -- request stays.
  pub enqueue_request-seen :
      (fingerprint : Request → String) (r : Request) (s : Scheduler M D)
      → r.dont_filter ≡ false
      → seen fingerprint r s.df ≡ true
      → ((enqueue_request fingerprint r s).0 ≡ some false)
        × (pending (enqueue_request fingerprint r s).1 ≡ pending s)
  unfolding enqueue_request DupeFilter.request_seen
  enqueue_request-seen fingerprint r s n y = (ground arith, ground arith)

  pub next_request-total :
      (w : Request → ℕ) (s : Scheduler M D)
      → total w (pending (next_request s).1) + weight w (next_request s).0 ≡ total w (pending s)
  unfolding next_request dqpop
  next_request-total w s = elim (Option-cases s.dqs) [
    | inl e ↦
        ground (arith, total-pending w s, total-pending w (next_request s).1, M.pop_law w s.mqs)
    | inr (p, e) ↦ ground (
      arith,
      total-pending w s,
      total-pending w (next_request s).1,
      M.pop_law w s.mqs,
      D.pop_law w p,
    )
  ]

  -- `len` counts the pending requests.
  pub len-eq-length : (s : Scheduler M D) → len s ≡ length (pending s)
  unfolding len
  len-eq-length s = elim (Option-cases s.dqs) [
    | inl e ↦ ground (arith, M.len_law s.mqs)
    | inr (p, e) ↦
        ground
          (arith, M.len_law s.mqs, D.len_law p, length-append (D.contents p) (M.contents s.mqs))
  ]
