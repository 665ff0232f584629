-- ===== src/PriorityQueue/Loop.antt =====
-- The loop of `ScrapyPriorityQueue.pop`: it ends within two rounds, and an induction rule for it.
use mathlib.Core.Path.{subst₂}
use scrapy.Prelude.{
  ℕ, zero, suc, ◌≡◌, refl, Bool, true, false, Option, none, some, ◌++◌, arith, sym, ◌∙◌, inl, inr,
  ◌⊎◌, Option-cases, contains,
}
use scrapy.Prelude.Int.{ℤ, int_eq}
use scrapy.Dict
use scrapy.Request.{Request}
use scrapy.QueueClass.{QueueClass}
use scrapy.PriorityQueue.{
  PriorityQueue, Round, return, again, update_curprio, pop_regular, pop_start, pop_round, pop_loop,
  pop,
}
use scrapy.PriorityQueue.Entries.{live_keys, min_prio-mem, contains-append, get-live_keys}

module _ {D S : QueueClass} where
  abbrev returns : Round D S → Bool
  returns (return m pq) = true
  returns (again pq) = false

  Round-cases :
      (r : Round D S)
      → ((m : Option Request) × (pq : PriorityQueue D S) × (r ≡ return m pq))
        ⊎ ((pq : PriorityQueue D S) × (r ≡ again pq))
  Round-cases (return m pq) = inl (m, pq, refl)
  Round-cases (again pq) = inr (pq, refl)

  -- A round that goes on has only updated `curprio`.
  again-eq :
      (p : ℤ) (pq pq' : PriorityQueue D S) → pop_round p pq ≡ again pq' → pq' ≡ update_curprio pq
  unfolding pop_round pop_regular pop_start
  again-eq p pq pq' h = ground arith

  round_returns :
      (p : ℤ) (pq : PriorityQueue D S)
      → contains p (live_keys D pq.queues ++ live_keys S pq.start_queues) ≡ true
      → returns (pop_round p pq) ≡ true
  unfolding pop_round pop_regular pop_start Dict.get
  round_returns p pq h = ground (
    arith,
    contains-append p (live_keys D pq.queues) (live_keys S pq.start_queues),
    get-live_keys D p pq.queues,
    get-live_keys S p pq.start_queues,
  )

  loop_idle :
      (f : ℕ) (pq : PriorityQueue D S) → pq.curprio ≡ none → pop_loop (suc f) pq ≡ some (none, pq)
  unfolding pop_loop
  loop_idle f pq e = ground arith

  pub loop_return :
      (f : ℕ) (p : ℤ) (pq : PriorityQueue D S) (m : Option Request) (pq' : PriorityQueue D S)
      → pq.curprio ≡ some p
      → pop_round p pq ≡ return m pq'
      → pop_loop (suc f) pq ≡ some (m, pq')
  unfolding pop_loop
  loop_return f p pq m pq' e r = ground arith

  loop_again :
      (f : ℕ) (p : ℤ) (pq pq' : PriorityQueue D S)
      → pq.curprio ≡ some p
      → pop_round p pq ≡ again pq'
      → pop_loop (suc f) pq ≡ pop_loop f (update_curprio pq)
  unfolding pop_loop
  loop_again f p pq pq' e r = ground (arith, again-eq p pq pq')

  -- After an update one round is enough.
  settled :
      (pq : PriorityQueue D S)
      → (m : Option Request) × (pq' : PriorityQueue D S) × (pop_loop 1 (update_curprio pq)
          ≡ some (m, pq'))
  settled pq = elim (Option-cases (update_curprio pq).curprio) [
    | inl e ↦ (none, update_curprio pq, loop_idle 0 (update_curprio pq) e)
    | inr (p, e) ↦ elim (Round-cases (pop_round p (update_curprio pq))) [
      | inl (m, pq', r) ↦ (m, pq', loop_return 0 p (update_curprio pq) m pq' e r)
      | inr (pq', r) ↦ absurd (ground (arith, round_returns p (update_curprio pq) (found p e)))
    ]
  ]
    where
      found :
          (p : ℤ)
          → (update_curprio pq).curprio ≡ some p
          → contains p (
              live_keys D (update_curprio pq).queues
              ++ live_keys S (update_curprio pq).start_queues)
            ≡ true
      found p e =
          unfold update_curprio in
          min_prio-mem (live_keys D pq.queues ++ live_keys S pq.start_queues) p e

  -- `pop` always ends, in two rounds at most, whatever the state of the queue: after
  -- `_update_curprio` the next round finds a queue at `curprio`.
  pub pop_total :
      (pq : PriorityQueue D S)
      → (m : Option Request) × (pq' : PriorityQueue D S) × (pop pq ≡ some (m, pq'))
  unfolding pop
  pop_total pq = elim (Option-cases pq.curprio) [
    | inl e ↦ (none, pq, loop_idle 1 pq e)
    | inr (p, e) ↦ elim (Round-cases (pop_round p pq)) [
      | inl (m, pq', r) ↦ (m, pq', loop_return 1 p pq m pq' e r)
      | inr (pq', r) ↦ let (m, pq'', q) = settled pq in (m, pq'', loop_again 1 p pq pq' e r ∙ q)
    ]
  ]

  -- An induction rule for the loop.
  module _ {κ} (R : PriorityQueue D S → Option Request → PriorityQueue D S → Type κ)
      (idle : (pq : PriorityQueue D S) → pq.curprio ≡ none → R pq none pq)
      (round : (p : ℤ) (pq : PriorityQueue D S) (m : Option Request) (pq' : PriorityQueue D S)
        → pq.curprio ≡ some p
        → pop_round p pq ≡ return m pq'
        → R pq m pq')
      (update : (pq : PriorityQueue D S) (m : Option Request) (pq' : PriorityQueue D S)
        → R (update_curprio pq) m pq'
        → R pq m pq') where
    loop_induction :
        (fuel : ℕ) (pq : PriorityQueue D S) (m : Option Request) (pq' : PriorityQueue D S)
        → pop_loop fuel pq ≡ some (m, pq')
        → R pq m pq'
    unfolding pop_loop
    loop_induction zero pq m pq' h = absurd (ground arith)
    loop_induction (suc f) pq m pq' h = elim (Option-cases pq.curprio) [
      | inl e ↦
          let (a, b) = out (sym (loop_idle f pq e) ∙ h) in subst₂ (λ n q. R pq n q) a b (idle pq e)
      | inr (p, e) ↦ elim (Round-cases (pop_round p pq)) [
        | inl (m', pq'', r) ↦
            let (a, b) = out (sym (loop_return f p pq m' pq'' e r) ∙ h) in
            subst₂ (λ n q. R pq n q) a b (round p pq m' pq'' e r)
        | inr (pq'', r) ↦
            update pq m pq'
              (loop_induction f (update_curprio pq) m pq' (sym (loop_again f p pq pq'' e r) ∙ h))
      ]
    ]
      where
        out :
            {n n' : Option Request} {q q' : PriorityQueue D S}
            → ◌≡◌ {A = Option (Option Request × PriorityQueue D S)} (some (n, q)) (some (n', q'))
            → (n ≡ n') × (q ≡ q')
        out h = (ground arith, ground arith)

    pub pop_induction :
        (pq : PriorityQueue D S) (m : Option Request) (pq' : PriorityQueue D S)
        → pop pq ≡ some (m, pq')
        → R pq m pq'
    unfolding pop
    pop_induction = loop_induction 2
