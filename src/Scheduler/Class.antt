-- ===== src/Scheduler/Class.antt =====
-- `Scheduler` as the scheduler of the engine.
use scrapy.Prelude.{◌≡◌, ltb, length, ap, String}
use scrapy.Request.{Request}
use scrapy.PqueueClass.{PqueueClass}
use scrapy.SchedulerClass.{SchedulerClass}
use scrapy.Scheduler.{Scheduler, enqueue_request, next_request, pending, has_pending_requests}
use scrapy.Scheduler.Laws.{enqueue_request-total, next_request-total, len-eq-length}

module _ (M D : PqueueClass) where
  pub has_pending-length : (s : Scheduler M D) → has_pending_requests s ≡ ltb 0 (length (pending s))
  unfolding has_pending_requests
  has_pending-length s = ap (ltb 0) (len-eq-length s)

  abbrev pub scheduler_class : (Request → String) → SchedulerClass Request
  scheduler_class fingerprint = record {
    Q = Scheduler M D;
    has_pending_requests = has_pending_requests;
    enqueue_request = enqueue_request fingerprint;
    next_request = next_request;
    pending = pending;
    has_pending_law = has_pending-length;
    enqueue_law = λ w r s. enqueue_request-total w fingerprint r s;
    next_law = next_request-total;
  }
