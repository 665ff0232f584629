-- ===== src/PqueueClass.antt =====
-- The interface between the scheduler and its priority queue class (`SCHEDULER_PRIORITY_QUEUE`):
-- what scheduler.py calls, and what it relies on.
use scrapy.Prelude.{ℕ, ◌+◌, ◌≡◌, Bool, Option, List, length, total, if◌then◌else◌}
use scrapy.Request.{Request}
use scrapy.SchedulerClass.{weight}

pub record PqueueClass : Type 1 where
  pub P : Type 0
  -- The flag is false when the request cannot be stored (ValueError).
  pub push : Request → P → Bool × P
  pub pop : P → Option Request × P
  pub len : P → ℕ
  pub contents : P → List Request
  pub len_law : (p : P) → len p ≡ length (contents p)
  pub push_law :
      (w : Request → ℕ) (r : Request) (p : P)
      → total w (contents (push r p).1) ≡ (if (push r p).0 then w r else 0) + total w (contents p)
  pub pop_law :
      (w : Request → ℕ) (p : P)
      → total w (contents (pop p).1) + weight w (pop p).0 ≡ total w (contents p)
