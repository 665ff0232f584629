-- ===== src/PriorityQueue/Peek.antt =====
-- `peek` against `pop`, and what a push that raises leaves behind.
use scrapy.Prelude.{◌≡◌, ◌≢◌, Option, none, some, [], ◌∷◌, List, arith, nat_beq, if◌then◌else◌}
use scrapy.Prelude.Int.{ℤ, int_eq}
use scrapy.Dict
use scrapy.Request.{Request}
use scrapy.QueueClass.{QueueClass}
use scrapy.PriorityQueue.{
  PriorityQueue, return, update_curprio, pop_regular, pop_round, pop, is_empty, peek,
}
use scrapy.PriorityQueue.Loop.{loop_return}

module _ {D S : QueueClass} where
  pop_of_round :
      (p : ℤ) (pq : PriorityQueue D S) (m : Option Request) (pq' : PriorityQueue D S)
      → pq.curprio ≡ some p
      → pop_round p pq ≡ return m pq'
      → pop pq ≡ some (m, pq')
  unfolding pop
  pop_of_round p pq m pq' = loop_return 1 p pq m pq'

  -- The queue after `pop` has taken a request from an ordinary queue.
  after_regular : ℤ → D.Q → PriorityQueue D S → PriorityQueue D S
  after_regular p q pq =
      if nat_beq (D.size (D.pop q).1) 0
      then (let pq' = record pq { queues = Dict.remove p pq.queues } in
          if is_empty pq.start_queues then update_curprio pq' else pq')
      else record pq { queues = Dict.put p (D.pop q).1 pq.queues }

  round_regular :
      (p : ℤ) (q : D.Q) (pq : PriorityQueue D S) (r : Request)
      → Dict.get p pq.queues ≡ some q
      → (D.pop q).0 ≡ some r
      → pop_round p pq ≡ return (some r) (after_regular p q pq)
  unfolding pop_round pop_regular after_regular
  round_regular p q pq r e f = ground arith

  -- Without start requests, `peek` shows the request that `pop` returns, where `curprio` has a
  -- queue that is not empty.
  pub peek-pop :
      (pq : PriorityQueue D S) (p : ℤ) (q : D.Q) (r : Request) (rs : List Request)
      → pq.start_queues ≡ []
      → pq.curprio ≡ some p
      → Dict.get p pq.queues ≡ some q
      → D.items q ≡ r ∷ rs
      → (pq' : PriorityQueue D S) × (pop pq ≡ some (some r, pq')) × (peek pq ≡ some (some r))
  unfolding peek Dict.get
  peek-pop pq p q r rs n c g e =
      let (a, b) = D.pop_law q r rs e in
      (
        after_regular p q pq,
        pop_of_round p pq (some r) _ c (round_regular p q pq r g a),
        ground (arith, D.peek_law q r rs e),
      )

  -- Where an ordinary request and a start request wait at the current priority, `pop` returns the
  -- ordinary one and `peek` shows the start request.
  pub peek-pop_mismatch :
      (pq : PriorityQueue D S) (p : ℤ) (q : D.Q) (s : S.Q) (r x : Request) (rs xs : List Request)
      → pq.curprio ≡ some p
      → Dict.get p pq.queues ≡ some q
      → Dict.get p pq.start_queues ≡ some s
      → D.items q ≡ r ∷ rs
      → S.items s ≡ x ∷ xs
      → (pq' : PriorityQueue D S) × (pop pq ≡ some (some r, pq')) × (peek pq ≡ some (some x))
  unfolding peek
  peek-pop_mismatch pq p q s r x rs xs c g g' e e' =
      let (a, b) = D.pop_law q r rs e in
      (
        after_regular p q pq,
        pop_of_round p pq (some r) _ c (round_regular p q pq r g a),
        ground (arith, S.peek_law s x xs e'),
      )

  -- Where `pop` returns the last ordinary request of the current priority and start requests wait
  -- at other priorities only, `peek` raises KeyError afterwards, though requests are pending.
  pub peek_raises :
      (pq : PriorityQueue D S) (p : ℤ) (q : D.Q) (r : Request)
      → pq.curprio ≡ some p
      → Dict.get p pq.queues ≡ some q
      → Dict.get p (Dict.remove p pq.queues) ≡ none
      → D.items q ≡ r ∷ []
      → pq.start_queues ≢ []
      → Dict.get p pq.start_queues ≡ none
      → (pq' : PriorityQueue D S) × (pop pq ≡ some (some r, pq')) × (peek pq' ≡ none)
  unfolding peek pop_round pop_regular
  peek_raises pq p q r c g g' e n g'' =
      let (a, b) = D.pop_law q r [] e in
      (
        record pq { queues = Dict.remove p pq.queues },
        pop_of_round p pq (some r) _ c (ground (arith, D.size_law (D.pop q).1, a, b)),
        ground arith,
      )
