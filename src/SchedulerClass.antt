-- ===== src/SchedulerClass.antt =====
-- core/scheduler.py: BaseScheduler, the interface that the engine asks of its scheduler, over the
-- type of request objects, with what the engine relies on.
use scrapy.Prelude.{ℕ, ◌+◌, ◌≡◌, Bool, true, Option, none, some, List, length, total, ltb}

-- The weight of a request that was returned, if one was.
abbrev pub weight {ℓ} : {A : Type ℓ} → (A → ℕ) → Option A → ℕ
weight w none = 0
weight w (some r) = w r

-- The weight of a request that `enqueue_request` has stored, by its result.
abbrev pub stored {ℓ} : {A : Type ℓ} → (A → ℕ) → A → Option Bool → ℕ
stored w r (some true) = w r
stored w r _ = 0

pub record SchedulerClass (R : Type 0) : Type 1 where
  pub Q : Type 0
  pub has_pending_requests : Q → Bool
  -- `none` when it raises
  pub enqueue_request : R → Q → Option Bool × Q
  pub next_request : Q → Option R × Q
  pub pending : Q → List R
  pub has_pending_law : (q : Q) → has_pending_requests q ≡ ltb 0 (length (pending q))
  pub enqueue_law :
      (w : R → ℕ) (r : R) (q : Q)
      → total w (pending (enqueue_request r q).1)
        ≡ stored w r (enqueue_request r q).0 + total w (pending q)
  pub next_law :
      (w : R → ℕ) (q : Q)
      → total w (pending (next_request q).1) + weight w (next_request q).0 ≡ total w (pending q)
