-- ===== src/PriorityQueue.antt =====
-- pqueues.py: ScrapyPriorityQueue, one downstream queue for each priority.

pub mod Entries
pub mod Loop
pub mod Scheduling
mod Tests
pub mod Peek
pub mod Init
pub mod Order
pub mod Valid
pub mod Conserve
use Entries.{live_keys, min_prio, held}
use scrapy.Prelude.{
  ℕ, zero, suc, ◌+◌, ◌≡◌, Bool, true, false, ◌&&◌, Option, none, some, List, [], ◌∷◌, ◌++◌,
  if◌then◌else◌, length, get_or, total, nat_beq, not, contains, map,
}
use scrapy.Prelude.Int.{ℤ, neg, ltb_ℤ, int_eq}
use scrapy.Dict
use scrapy.Dict.{Dict}
use scrapy.Request.{Request}
use scrapy.QueueClass.{QueueClass}

module _ (D S : QueueClass) where
  pub record PriorityQueue : Type 0 where
    pub queues : Dict ℤ D.Q
    pub start_queues : Dict ℤ S.Q
    pub curprio : Option ℤ
    -- whether `_start_queue_cls` is set
    pub has_start : Bool

  -- What one round of the loop in `pop` does.
  pub data Round : Type 0 where
    return : Option Request → PriorityQueue → Round
    again : PriorityQueue → Round

-- priority(): lower numbers are higher priorities
unfoldable pub priority : Request → ℤ
priority r = neg r.priority

-- `if self.curprio is None or priority < self.curprio: self.curprio = priority`
unfoldable pub lowered : ℤ → Option ℤ → Option ℤ
lowered p none = some p
lowered p (some c) = if ltb_ℤ p c then some p else some c

abbrev pub is_empty {ℓ} : {A : Type ℓ} → List A → Bool
is_empty [] = true
is_empty (x ∷ xs) = false

-- `active.add(p)` for each key
abbrev pub add_keys : List ℤ → List ℤ → List ℤ
add_keys [] active = active
add_keys (p ∷ ps) active = add_keys ps (if contains p active then active else active ++ p ∷ [])

module _ {D S : QueueClass} where
  unfoldable pub update_curprio : PriorityQueue D S → PriorityQueue D S
  update_curprio pq = record pq {
    curprio = min_prio (live_keys D pq.queues ++ live_keys S pq.start_queues);
  }

  -- The flag is false when the downstream queue raises; the new queue stays in the dict.
  unfoldable pub push_start : ℤ → Request → PriorityQueue D S → Bool × PriorityQueue D S
  push_start p r pq =
      let q = get_or (Dict.get p pq.start_queues) S.fresh in
      elim (S.push r q) [
        | none ↦ (false, record pq { start_queues = Dict.put p q pq.start_queues })
        | some q' ↦ (
          true,
          record pq {
            start_queues = Dict.put p q' pq.start_queues;
            curprio = lowered p pq.curprio;
          },
        )
      ]

  unfoldable pub push_regular : ℤ → Request → PriorityQueue D S → Bool × PriorityQueue D S
  push_regular p r pq =
      let q = get_or (Dict.get p pq.queues) D.fresh in
      elim (D.push r q) [
        | none ↦ (false, record pq { queues = Dict.put p q pq.queues })
        | some q' ↦
            (true, record pq { queues = Dict.put p q' pq.queues; curprio = lowered p pq.curprio })
      ]

  unfoldable pub push : Request → PriorityQueue D S → Bool × PriorityQueue D S
  unfolding push_start push_regular
  push r pq =
      if r.meta.is_start_request && pq.has_start
      then push_start (priority r) r pq
      else push_regular (priority r) r pq

  -- `m = q.pop()` for a queue `q` of `self.queues`, and what follows it
  unfoldable pub pop_regular : ℤ → D.Q → PriorityQueue D S → Round D S
  unfolding update_curprio
  pop_regular p q pq =
      let (m, q') = D.pop q in
      if nat_beq (D.size q') 0
      then return m (
          let pq' = record pq { queues = Dict.remove p pq.queues } in
          if is_empty pq.start_queues then update_curprio pq' else pq')
      else return m (record pq { queues = Dict.put p q' pq.queues })

  unfoldable pub pop_start : ℤ → S.Q → PriorityQueue D S → Round D S
  unfolding update_curprio
  pop_start p q pq =
      let (m, q') = S.pop q in
      if nat_beq (S.size q') 0
      then return m (update_curprio (record pq { start_queues = Dict.remove p pq.start_queues }))
      else return m (record pq { start_queues = Dict.put p q' pq.start_queues })

  -- The body of the loop, at `self.curprio == p`.
  unfoldable pub pop_round : ℤ → PriorityQueue D S → Round D S
  pop_round p pq = elim (Dict.get p pq.queues) [
    | some q ↦ pop_regular p q pq
    | none ↦
        if is_empty pq.start_queues
        then again (update_curprio pq)
        else elim (Dict.get p pq.start_queues) [
          | some q ↦ pop_start p q pq
          | none ↦ again (update_curprio pq)
        ]
  ]

  -- The loop with fuel; `none` when the fuel runs out.
  unfoldable pub pop_loop : ℕ → PriorityQueue D S → Option (Option Request × PriorityQueue D S)
  pop_loop zero pq = none
  pop_loop (suc fuel) pq = elim pq.curprio [
    | none ↦ some (none, pq)
    | some p ↦ elim (pop_round p pq) [
      | return m pq' ↦ some (m, pq')
      | again pq' ↦ pop_loop fuel pq'
    ]
  ]

  unfoldable pub pop : PriorityQueue D S → Option (Option Request × PriorityQueue D S)
  pop = pop_loop 2

  -- One priority of the loop of `init_prios`. `stored` and `start_stored` are the queues that the
  -- factories open: what an earlier run has left in the directory of the priority.
  unfoldable pub open_prio : (ℤ → D.Q) → (ℤ → S.Q) → ℤ → PriorityQueue D S → PriorityQueue D S
  open_prio stored start_stored p pq =
      let queues =
        if nat_beq (D.size (stored p)) 0 then pq.queues else Dict.put p (stored p) pq.queues in
      let start_queues =
        if pq.has_start && not (nat_beq (S.size (start_stored p)) 0)
        then Dict.put p (start_stored p) pq.start_queues
        else pq.start_queues in
      record pq { queues = queues; start_queues = start_queues }

  unfoldable pub open_prios : (ℤ → D.Q) → (ℤ → S.Q) → List ℤ → PriorityQueue D S → PriorityQueue D S
  open_prios stored start_stored [] pq = pq
  open_prios stored start_stored (p ∷ ps) pq =
      open_prios stored start_stored ps (open_prio stored start_stored p pq)

  unfoldable pub init_prios : (ℤ → D.Q) → (ℤ → S.Q) → List ℤ → PriorityQueue D S → PriorityQueue D S
  init_prios stored start_stored [] pq = pq
  init_prios stored start_stored (p ∷ ps) pq = record (open_prios stored start_stored (p ∷ ps) pq) {
    curprio = min_prio (p ∷ ps);
  }

  -- __init__
  unfoldable pub init : (ℤ → D.Q) → (ℤ → S.Q) → Bool → List ℤ → PriorityQueue D S
  unfolding init_prios
  init stored start_stored has_start startprios =
      init_prios stored start_stored startprios
        (record { queues = []; start_queues = []; curprio = none; has_start = has_start })

  -- close(): the priorities that have a queue, each once; the downstream queues are closed.
  unfoldable pub close : PriorityQueue D S → List ℤ
  close pq = add_keys (map (λ e. e.0) pq.start_queues) (add_keys (map (λ e. e.0) pq.queues) [])

  -- `none` when a lookup raises KeyError
  unfoldable pub peek : PriorityQueue D S → Option (Option Request)
  peek pq = elim pq.curprio [
    | none ↦ some none
    | some p ↦ elim (Dict.get p pq.start_queues) [
      | some q ↦ some (S.peek q)
      | none ↦ elim (Dict.get p pq.queues) [ some q ↦ some (D.peek q) | none ↦ none ]
    ]
  ]

  -- __len__
  unfoldable pub len : PriorityQueue D S → ℕ
  len pq = total (λ e. D.size e.1) pq.queues + total (λ e. S.size e.1) pq.start_queues

  -- Every request that the queue holds.
  abbrev pub contents : PriorityQueue D S → List Request
  contents pq = held D pq.queues ++ held S pq.start_queues
