-- ===== src/AwareQueue/Tests.antt =====
-- Runs of the DownloaderAwarePriorityQueue with stacks: a slot for each url, of which one is busy.
use scrapy.Prelude.{
  ◌≡◌, ◌≤◌, refl, false, some, none, [], All, String, if◌then◌else◌, ◌==◌, string_eq, ℕ,
}
use scrapy.Prelude.Int.{neg}
use scrapy.Dict
use scrapy.Request.{Request, new_request}
use scrapy.QueueClass.Stack.{stack, push_stack, pop_stack}
use scrapy.PriorityQueue
use scrapy.PriorityQueue.{PriorityQueue}
use scrapy.PriorityQueue.Scheduling.{popped}
use scrapy.PriorityQueue.Entries.{min_prio, live_keys}
use scrapy.AwareQueue.{
  AwareQueue, push, pop, pop_slot, next_slot, choices, choose, pqfactory, slot_stats,
}
use scrapy.AwareQueue.Conserve.{pop_least_active}

abbrev a : Request
a = new_request "http://a"

abbrev b : Request
b = new_request "http://b"

abbrev busy_a : String → ℕ
busy_a slot = if slot == "http://a" then 3 else 1

abbrev empty : AwareQueue stack stack
empty = record {
  pqueues = [];
  last_selected_slot = none;
  active = busy_a;
  slot_key = λ r. r.url;
  has_start = false;
}

abbrev both : AwareQueue stack stack
both = (push b (push a empty).1).1

pop-both : pop both ≡ (some b, (pop both).1)
unfolding pop push pop_slot next_slot choices choose pqfactory popped PriorityQueue.push
    PriorityQueue.pop PriorityQueue.pop_loop PriorityQueue.pop_round PriorityQueue.pop_regular
    PriorityQueue.update_curprio PriorityQueue.priority PriorityQueue.lowered PriorityQueue.len
    min_prio live_keys push_stack pop_stack neg Dict.get Dict.put Dict.remove
pop-both = refl

pop_least_active_example :
    (slot : String) × (q : PriorityQueue stack stack) × (Dict.get slot both.pqueues ≡ some q)
    × ((popped q).0 ≡ some b)
    × All (λ e. busy_a slot ≤ e.0) (slot_stats {D = stack} {S = stack} busy_a both.pqueues)
unfolding push
pop_least_active_example = pop_least_active both (pop both).1 b pop-both
