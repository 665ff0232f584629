-- ===== src/PriorityQueue/Tests.antt =====
-- Runs of `ScrapyPriorityQueue` over a stack that cannot store a request with an empty url.
use scrapy.Prelude.{◌≡◌, refl, true, Option, none, some, [], ◌∷◌, List, arith, inr, All}
use scrapy.Prelude.Int.{ℤ, neg, pos, negsuc, ◌≤ℤ◌}
use scrapy.Dict
use scrapy.Request.{Request, new_request}
use scrapy.QueueClass.Stack.{stack, push_stack, pop_stack}
use scrapy.PriorityQueue.Entries.{min_prio, live_keys}
use scrapy.PriorityQueue.Loop.{pop_total}
use scrapy.PriorityQueue.Valid.{pop-IsValid}
use scrapy.PriorityQueue.Conserve.{len-eq-length}
use scrapy.PriorityQueue.Order.{pop_highest, pop_start_last, GoesBefore}
use scrapy.PriorityQueue.{
  PriorityQueue, update_curprio, pop_regular, pop_start, pop_round, pop_loop, pop, push, lowered,
  priority, len, init, contents,
}
use scrapy.PriorityQueue.Valid.{IsValid, filed}

abbrev with_priority : ℤ → Request → Request
with_priority p r = record r { priority = p }

abbrev starting : Request → Request
starting r = record r { meta = record (r.meta) { is_start_request = true } }

abbrev a : Request
a = new_request "http://a"

abbrev b : Request
b = with_priority (pos 5) (new_request "http://b")

abbrev s : Request
s = starting (new_request "http://s")

abbrev bad : Request
bad = new_request ""

abbrev queue0 : PriorityQueue stack stack
queue0 = init {D = stack} {S = stack} (λ p. []) (λ p. []) true []

abbrev queue3 : PriorityQueue stack stack
queue3 = (push s (push b (push a queue0).1).1).1

curprio3 : queue3.curprio ≡ some (negsuc 4)
unfolding push init lowered priority push_stack Dict.get Dict.put neg
curprio3 = refl

abbrev queue2 : PriorityQueue stack stack
queue2 = record {
  queues = (pos 0, a ∷ []) ∷ [];
  start_queues = (pos 0, s ∷ []) ∷ [];
  curprio = some (pos 0);
  has_start = true;
}

-- The queue with what `pop` leaves of it.
abbrev left2 : PriorityQueue stack stack
left2 = record {
  queues = [];
  start_queues = (pos 0, s ∷ []) ∷ [];
  curprio = some (pos 0);
  has_start = true;
}

pop2 : pop queue2 ≡ some (some a, left2)
unfolding pop pop_loop pop_round pop_regular Dict.get Dict.remove pop_stack
pop2 = refl

IsValid-queue2 : IsValid queue2
unfolding filed priority neg
IsValid-queue2 = record {
  regular = ((((refl, tt), inr (omega arith)), tt));
  start = (((refl, tt), inr (omega arith)), tt);
}

pop_total_example :
    (m : Option Request) × (pq' : PriorityQueue stack stack) × (pop queue3 ≡ some (m, pq'))
pop_total_example = pop_total queue3

pop_highest_example : All (λ x. x.priority ≤ℤ a.priority) (contents queue2)
pop_highest_example = pop_highest queue2 a left2 pop2 IsValid-queue2

-- The start request goes last.
gone : PriorityQueue stack stack
gone = record { queues = []; start_queues = []; curprio = none; has_start = true }

pop_left2 : pop left2 ≡ some (some s, gone)
unfolding pop pop_loop pop_round pop_start update_curprio min_prio live_keys Dict.get Dict.remove
    pop_stack gone
pop_left2 = refl

pop_start_last_example : All (GoesBefore left2 s) (contents left2)
pop_start_last_example =
    pop_start_last left2 s gone pop_left2 (pop-IsValid queue2 (some a) left2 pop2 IsValid-queue2)
      refl

len-eq-length_example : len queue2 ≡ 2
len-eq-length_example = len-eq-length queue2

abbrev plain : PriorityQueue stack stack
plain = record queue2 { start_queues = [] }

-- An ordinary request of priority 5, and a start request of priority 0.
abbrev stale : PriorityQueue stack stack
stale = record {
  queues = (negsuc 4, b ∷ []) ∷ [];
  start_queues = (pos 0, s ∷ []) ∷ [];
  curprio = some (negsuc 4);
  has_start = true;
}

abbrev stored : ℤ → List Request
stored p = []
