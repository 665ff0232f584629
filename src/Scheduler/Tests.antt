-- ===== src/Scheduler/Tests.antt =====
-- Runs of the scheduler with two priority queues of stacks.
use scrapy.Prelude.{
  ◌+◌, ◌≡◌, refl, true, false, none, some, List, [], ◌∷◌, String, total, string_eq,
}
use scrapy.Prelude.Int.{neg}
use scrapy.Dict
use scrapy.Request.{Request, new_request}
use scrapy.QueueClass.Stack.{stack, push_stack}
use scrapy.PqueueClass.{PqueueClass}
use scrapy.SchedulerClass.{weight}
use scrapy.PriorityQueue
use scrapy.PriorityQueue.Scheduling.{scrapy_priority_queue}
use scrapy.DupeFilter.{DupeFilter, open_filter, request_seen}
use scrapy.DupeFilter.Laws.{seen, request_seen_lem, IsSaved}
use scrapy.Stats.Laws.{get-max_value}
use scrapy.Stats.{get_value, inc_value, max_value}
use scrapy.Scheduler.{
  Scheduler, open_scheduler, enqueue_request, push_request, dqpush, next_request, pending, len,
}
use scrapy.Scheduler.Laws.{next_request-total}
use scrapy.Scheduler.Balance.{Call, enqueue, next, run, run-total, run-Balanced, Balanced, one}

abbrev spq : PqueueClass
spq = scrapy_priority_queue stack stack

abbrev empty_queue : spq.P
empty_queue = PriorityQueue.init {D = stack} {S = stack} (λ p. []) (λ p. []) true []

abbrev fresh : Scheduler spq spq
fresh = open_scheduler (open_filter (some []) false) empty_queue (some empty_queue) [] true

abbrev url_of : Request → String
url_of r = r.url

abbrev a : Request
a = new_request "http://a"

abbrev b : Request
b = new_request "http://b"

abbrev after_a : Scheduler spq spq
after_a = (enqueue_request url_of a fresh).1

next_request-total_example :
    total one (pending (next_request after_a).1) + weight one (next_request after_a).0
    ≡ total one (pending after_a)
next_request-total_example = next_request-total one after_a

seen-a : seen url_of a after_a.df ≡ true
unfolding enqueue_request push_request dqpush open_scheduler open_filter request_seen
    PriorityQueue.init PriorityQueue.push PriorityQueue.lowered PriorityQueue.priority neg Dict.get
    Dict.put push_stack inc_value
seen-a = refl

abbrev calls : List Call
calls = enqueue a ∷ enqueue a ∷ enqueue b ∷ next ∷ []

run-total_example :
    (run url_of one calls fresh).0 + total one (pending fresh)
    ≡ total one (run url_of one calls fresh).1 + total one (pending (run url_of one calls fresh).2)
run-total_example = run-total url_of one calls fresh

run-Balanced_example : Balanced 0 (run url_of one calls fresh).2
unfolding open_scheduler PriorityQueue.init len PriorityQueue.len get_value Dict.get
run-Balanced_example = run-Balanced url_of 0 calls fresh refl

request_seen_lem_example :
    ((request_seen url_of a after_a.df).0 ≡ seen url_of a after_a.df)
    × (seen url_of b (request_seen url_of a after_a.df).1 ≡ seen url_of b after_a.df)
request_seen_lem_example = request_seen_lem url_of a b after_a.df

abbrev saved : DupeFilter
saved = open_filter (some []) false

IsSaved-saved : IsSaved url_of saved
unfolding open_filter
IsSaved-saved = λ x. refl

get-max_value_example : get_value "n" none (max_value "n" 3 (("n", 4) ∷ [])) ≡ some 4
unfolding get_value Dict.get
get-max_value_example = get-max_value "n" "n" 3 (("n", 4) ∷ [])
