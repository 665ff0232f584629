-- ===== src/AwareQueue/Conserve.antt =====
-- The requests that the queue holds, and the queue as a priority queue class of the scheduler.
use scrapy.Prelude.{
  ℕ, ◌+◌, ◌≤◌, ◌≡◌, refl, Bool, true, some, List, [], ◌∷◌, String, arith, total, total-append,
  length, length-append, if◌then◌else◌, inl, inr, Bool-cases, Option-cases, nat_beq, string_eq, All,
  is_some,
}
use scrapy.Dict
use scrapy.Dict.{Dict}
use scrapy.Dict.Laws.{total-put-some, total-put-none, total-remove}
use scrapy.Request.{Request}
use scrapy.QueueClass.{QueueClass}
use scrapy.PqueueClass.{PqueueClass}
use scrapy.SchedulerClass.{weight}
use scrapy.PriorityQueue
use scrapy.PriorityQueue.{PriorityQueue}
use scrapy.PriorityQueue.Conserve.{push-total, len-eq-length}
use scrapy.PriorityQueue.Scheduling.{popped, popped-total}
use scrapy.AwareQueue.{
  AwareQueue, next_slot, slot_stats, pqfactory, push, pop_slot, pop, len, held_all, contents,
}
use scrapy.AwareQueue.Selection.{next_slot_least}

pqfactory-contents :
    (D S : QueueClass) (w : Request → ℕ) (b : Bool)
    → total w (PriorityQueue.contents (pqfactory {D = D} {S = S} b)) ≡ 0
unfolding pqfactory
pqfactory-contents D S w b = refl

module _ {D S : QueueClass} where
  -- The weight of what the queue of one slot holds.
  abbrev held_weight : (Request → ℕ) → PriorityQueue D S → ℕ
  held_weight w q = total w (PriorityQueue.contents q)

  total-held_all :
      (w : Request → ℕ) (d : Dict String (PriorityQueue D S))
      → total w (held_all {D = D} {S = S} d) ≡ total (λ e. held_weight w e.1) d
  total-held_all w [] = refl
  total-held_all w ((slot, q) ∷ d) =
      omega (arith, total-append w (PriorityQueue.contents q) (held_all d), total-held_all w d)

  pub push-conserves :
      (w : Request → ℕ) (r : Request) (a : AwareQueue D S)
      → total w (contents (push r a).1) ≡ (if (push r a).0 then w r else 0) + total w (contents a)
  unfolding push
  push-conserves w r a =
      let slot = a.slot_key r in
      let fresh : PriorityQueue D S = pqfactory a.has_start in
      elim (Option-cases (Dict.get slot a.pqueues)) [
        | inl e ↦
            let q' = (PriorityQueue.push r fresh).1 in
            ground (
              arith,
              total-held_all w a.pqueues,
              total-held_all w (Dict.put slot q' a.pqueues),
              total-put-none (held_weight w) slot q' a.pqueues e,
              push-total w r fresh,
              pqfactory-contents D S w a.has_start,
            )
        | inr (q, e) ↦
            let q' = (PriorityQueue.push r q).1 in
            ground (
              arith,
              total-held_all w a.pqueues,
              total-held_all w (Dict.put slot q' a.pqueues),
              total-put-some (held_weight w) slot q q' a.pqueues e,
              push-total w r q,
            )
      ]

  -- A queue without a request has no weight.
  empty_weight :
      (w : Request → ℕ) (q : PriorityQueue D S)
      → nat_beq (PriorityQueue.len q) 0 ≡ true
      → held_weight w q ≡ 0
  empty_weight w q h = nothing (PriorityQueue.contents q) (ground (arith, len-eq-length q))
    where
      nothing : (xs : List Request) → length xs ≡ 0 → total w xs ≡ 0
      nothing [] h = refl
      nothing (x ∷ xs) h = absurd (omega arith)

  pop_slot-conserves :
      (w : Request → ℕ) (slot : String) (q : PriorityQueue D S) (a : AwareQueue D S)
      → Dict.get slot a.pqueues ≡ some q
      → total w (contents (pop_slot slot q a).1) + weight w (pop_slot slot q a).0
        ≡ total w (contents a)
  unfolding pop_slot
  pop_slot-conserves w slot q a e =
      let q' = (popped q).1 in
      elim (Bool-cases (nat_beq (PriorityQueue.len q') 0)) [
        | inl y ↦ ground (
          arith,
          total-held_all w a.pqueues,
          total-held_all w (Dict.remove slot a.pqueues),
          total-remove (held_weight w) slot q a.pqueues e,
          popped-total w q,
          empty_weight w q' y,
        )
        | inr n ↦ ground (
          arith,
          total-held_all w a.pqueues,
          total-held_all w (Dict.put slot q' a.pqueues),
          total-put-some (held_weight w) slot q q' a.pqueues e,
          popped-total w q,
        )
      ]

  pub pop-conserves :
      (w : Request → ℕ) (a : AwareQueue D S)
      → total w (contents (pop a).1) + weight w (pop a).0 ≡ total w (contents a)
  unfolding pop
  pop-conserves w a =
      elim (Option-cases (next_slot a.last_selected_slot (slot_stats a.active a.pqueues))) [
        | inl n ↦ ground arith
        | inr (slot, e) ↦ elim (Option-cases (Dict.get slot a.pqueues)) [
          | inl n ↦ ground arith
          | inr (q, g) ↦ ground (arith, pop_slot-conserves w slot q a g)
        ]
      ]

  length-held_all :
      (d : Dict String (PriorityQueue D S))
      → total (λ e. PriorityQueue.len e.1) d ≡ length (held_all {D = D} {S = S} d)
  length-held_all [] = refl
  length-held_all ((slot, q) ∷ d) = omega (
    arith,
    length-append (PriorityQueue.contents q) (held_all d),
    length-held_all d,
    len-eq-length q,
  )

  pub len-contents : (a : AwareQueue D S) → len a ≡ length (contents a)
  unfolding len
  len-contents a = length-held_all a.pqueues

  -- Every slot of the stats is one of the dict, with its number of active requests.
  stats_known :
      (active : String → ℕ) (all d : Dict String (PriorityQueue D S))
      → All (λ e. is_some (Dict.get e.0 all) ≡ true) d
      → All
          (λ e. (e.0 ≡ active e.1) × (is_some (Dict.get e.1 all) ≡ true))
          (slot_stats {D = D} {S = S} active d)
  stats_known active all [] h = tt
  stats_known active all ((slot, q) ∷ d) h = ((refl, h.0), stats_known active all d h.1)

  -- A key that is found is found behind another entry too.
  get-cons :
      (k j : String) (q : PriorityQueue D S) (d : Dict String (PriorityQueue D S))
      → is_some (Dict.get k d) ≡ true
      → is_some (Dict.get k ((j, q) ∷ d)) ≡ true
  unfolding Dict.get
  get-cons k j q d h = ground arith

  keys_found :
      (all d : Dict String (PriorityQueue D S))
      → ((k : String) → is_some (Dict.get k d) ≡ true → is_some (Dict.get k all) ≡ true)
      → All (λ e. is_some (Dict.get e.0 all) ≡ true) d
  unfolding Dict.get
  keys_found all [] f = tt
  keys_found all ((j, q) ∷ d) f = (
    f j (ground (arith, string_eq.same_iff j j)),
    keys_found all d (λ k h. f k (get-cons k j q d h)),
  )

  -- `pop` takes a request of a slot with the fewest active downloads among the slots that have a
  -- queue.
  pub pop_least_active :
      (a a' : AwareQueue D S) (r : Request)
      → pop a ≡ (some r, a')
      → (slot : String) × (q : PriorityQueue D S) × (Dict.get slot a.pqueues ≡ some q)
        × ((popped q).0 ≡ some r)
        × All (λ e. a.active slot ≤ e.0) (slot_stats {D = D} {S = S} a.active a.pqueues)
  unfolding pop pop_slot
  pop_least_active a a' r h =
      let stats = slot_stats a.active a.pqueues in
      let known : String → Bool = λ k. is_some (Dict.get k a.pqueues) in
      elim (Option-cases (next_slot a.last_selected_slot stats)) [
        | inl n ↦ absurd (ground arith)
        | inr (slot, e) ↦ elim (Option-cases (Dict.get slot a.pqueues)) [
          | inl n ↦ absurd (ground arith)
          | inr (q, g) ↦ (
            slot,
            q,
            g,
            ground arith,
            (next_slot_least a.active known a.last_selected_slot stats slot
                (stats_known a.active a.pqueues a.pqueues
                  (keys_found a.pqueues a.pqueues (λ k y. y)))
                e).1,
          )
        ]
      ]

-- A DownloaderAwarePriorityQueue offers what the scheduler asks of its priority queue class.
abbrev pub downloader_aware_priority_queue : QueueClass → QueueClass → PqueueClass
downloader_aware_priority_queue D S = record {
  P = AwareQueue D S;
  push = push;
  pop = pop;
  len = len;
  contents = contents;
  len_law = len-contents;
  push_law = push-conserves;
  pop_law = pop-conserves;
}
