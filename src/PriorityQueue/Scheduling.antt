-- ===== src/PriorityQueue/Scheduling.antt =====
-- `ScrapyPriorityQueue` as the priority queue class of the scheduler.
use scrapy.Prelude.{ℕ, ◌+◌, ◌≡◌, Option, none, some, get_or, total}
use scrapy.Request.{Request}
use scrapy.QueueClass.{QueueClass}
use scrapy.PqueueClass.{PqueueClass}
use scrapy.SchedulerClass.{weight}
use scrapy.PriorityQueue.{PriorityQueue, push, pop, len, contents}
use scrapy.PriorityQueue.Loop.{pop_total}
use scrapy.PriorityQueue.Conserve.{push-total, pop-total, len-eq-length}

module _ {D S : QueueClass} where
  -- The result of `pop`, which always ends.
  unfoldable pub popped : PriorityQueue D S → Option Request × PriorityQueue D S
  popped pq = get_or (pop pq) (none, pq)

  pop-popped : (pq : PriorityQueue D S) → pop pq ≡ some ((popped pq).0, (popped pq).1)
  unfolding popped
  pop-popped pq = let (m, pq', e) = pop_total pq in rw e

  pub popped-total :
      (w : Request → ℕ) (pq : PriorityQueue D S)
      → total w (contents (popped pq).1) + weight w (popped pq).0 ≡ total w (contents pq)
  popped-total w pq = pop-total w pq (popped pq).0 (popped pq).1 (pop-popped pq)

abbrev pub scrapy_priority_queue : QueueClass → QueueClass → PqueueClass
scrapy_priority_queue D S = record {
  P = PriorityQueue D S;
  push = push;
  pop = popped;
  len = len;
  contents = contents;
  len_law = len-eq-length;
  push_law = push-total;
  pop_law = popped-total;
}
