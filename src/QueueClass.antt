-- ===== src/QueueClass.antt =====
-- The interface of a downstream queue (pqueues.py, `QueueProtocol`), with the documented behaviour
-- of queuelib's queues. The queues themselves are not code of this repository.
pub mod Stack
use scrapy.Prelude.{ℕ, ◌+◌, ◌≡◌, Option, none, some, List, [], ◌∷◌, length, total}
use scrapy.Request.{Request}

pub record QueueClass : Type 1 where
  pub Q : Type 0
  -- a queue whose directory holds nothing
  pub fresh : Q
  -- `none` when the request cannot be serialized
  pub push : Request → Q → Option Q
  pub pop : Q → Option Request × Q
  pub peek : Q → Option Request
  pub size : Q → ℕ
  -- the requests that the queue holds, the next one to be popped first
  pub items : Q → List Request
  pub size_law : (q : Q) → size q ≡ length (items q)
  pub fresh_law : items fresh ≡ []
  pub push_law :
      (r : Request) (q q' : Q)
      → push r q ≡ some q'
      → (w : Request → ℕ) → total w (items q') ≡ w r + total w (items q)
  pub pop_empty : (q : Q) → items q ≡ [] → pop q ≡ (none, q)
  pub pop_law :
      (q : Q) (r : Request) (rs : List Request)
      → items q ≡ r ∷ rs
      → ((pop q).0 ≡ some r) × (items (pop q).1 ≡ rs)
  pub peek_law : (q : Q) (r : Request) (rs : List Request) → items q ≡ r ∷ rs → peek q ≡ some r
  pub peek_empty : (q : Q) → items q ≡ [] → peek q ≡ none
