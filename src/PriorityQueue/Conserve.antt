-- ===== src/PriorityQueue/Conserve.antt =====
-- No request is lost or duplicated: `push` and `pop` against the requests that the queue holds.
use scrapy.Prelude.{
  ℕ, ◌+◌, ◌≡◌, refl, true, Option, some, [], ◌∷◌, List, arith, inl, inr, Option-cases, Bool-cases,
  total, total-append, nat_beq, length, length-append, get_or, ◌&&◌, if◌then◌else◌,
}
use scrapy.Prelude.Int.{ℤ, int_eq}
use scrapy.Dict
use scrapy.Dict.Laws.{total-put-some, total-put-none, total-remove}
use scrapy.Request.{Request}
use scrapy.QueueClass.{QueueClass}
use scrapy.SchedulerClass.{weight}
use scrapy.PriorityQueue.{
  PriorityQueue, return, update_curprio, pop_regular, pop_start, pop_round, pop, push, push_regular,
  push_start, contents, priority, len,
}
use scrapy.PriorityQueue.Entries.{held, total-held}
use scrapy.PriorityQueue.Loop.{pop_induction}

module _ (C : QueueClass) (w : Request → ℕ) where
  -- A queue's `pop` takes out what it returns.
  pop_weight :
      (q : C.Q) → total w (C.items (C.pop q).1) + weight w (C.pop q).0 ≡ total w (C.items q)
  pop_weight q = go (C.items q) refl
    where
      go :
          (xs : List Request)
          → C.items q ≡ xs
          → total w (C.items (C.pop q).1) + weight w (C.pop q).0 ≡ total w (C.items q)
      go [] e = rw (C.pop_empty q e) (omega arith)
      go (r ∷ rs) e = let (a, b) = C.pop_law q r rs e in rw (a, b, e) (omega arith)

  empty_weight : (q : C.Q) → nat_beq (C.size q) 0 ≡ true → total w (C.items q) ≡ 0
  empty_weight q h = go (C.items q) (ground (arith, C.size_law q))
    where
      go : (xs : List Request) → length xs ≡ 0 → total w xs ≡ 0
      go [] e = refl
      go (r ∷ rs) e = absurd (omega arith)

  held-put :
      (p : ℤ) (q q' : C.Q) (d : Dict.Dict ℤ C.Q)
      → Dict.get p d ≡ some q
      → total w (held C (Dict.put p q' d)) + total w (C.items q)
        ≡ total w (held C d) + total w (C.items q')
  held-put p q q' d h = omega (
    arith,
    total-held C w d,
    total-held C w (Dict.put p q' d),
    total-put-some (λ x. total w (C.items x)) p q q' d h,
  )

  held-remove :
      (p : ℤ) (q : C.Q) (d : Dict.Dict ℤ C.Q)
      → Dict.get p d ≡ some q
      → total w (held C (Dict.remove p d)) + total w (C.items q) ≡ total w (held C d)
  held-remove p q d h = omega (
    arith,
    total-held C w d,
    total-held C w (Dict.remove p d),
    total-remove (λ x. total w (C.items x)) p q d h,
  )

  -- Setting the queue of a priority that the `get_or` of `push` has found or created.
  held-put_or :
      (p : ℤ) (q' : C.Q) (d : Dict.Dict ℤ C.Q)
      → total w (held C (Dict.put p q' d)) + total w (C.items (get_or (Dict.get p d) C.fresh))
        ≡ total w (held C d) + total w (C.items q')
  held-put_or p q' d = elim (Option-cases (Dict.get p d)) [
    | inl e ↦
        rw (e, C.fresh_law)
          (omega (
            arith,
            total-held C w d,
            total-held C w (Dict.put p q' d),
            total-put-none (λ x. total w (C.items x)) p q' d e,
          ))
    | inr (q, e) ↦ rw e (held-put p q q' d e)
  ]

sizes : (C : QueueClass) (d : Dict.Dict ℤ C.Q) → total (λ e. C.size e.1) d ≡ length (held C d)
sizes C [] = refl
sizes C ((p, q) ∷ d) = omega (arith, length-append (C.items q) (held C d), sizes C d, C.size_law q)

module _ {D S : QueueClass} where
  contents_total :
      (w : Request → ℕ) (pq : PriorityQueue D S)
      → total w (contents pq) ≡ total w (held D pq.queues) + total w (held S pq.start_queues)
  contents_total w pq = total-append w (held D pq.queues) (held S pq.start_queues)

  push_regular-total :
      (w : Request → ℕ) (p : ℤ) (r : Request) (pq : PriorityQueue D S)
      → total w (contents (push_regular p r pq).1)
        ≡ (if (push_regular p r pq).0 then w r else 0) + total w (contents pq)
  unfolding push_regular
  push_regular-total w p r pq =
      let q = get_or (Dict.get p pq.queues) D.fresh in
      elim (Option-cases (D.push r q)) [
        | inl e ↦ ground (
          arith,
          contents_total w (push_regular p r pq).1,
          contents_total w pq,
          held-put_or D w p q pq.queues,
        )
        | inr (q', e) ↦ ground (
          arith,
          contents_total w (push_regular p r pq).1,
          contents_total w pq,
          held-put_or D w p q' pq.queues,
          D.push_law r q q' e w,
        )
      ]

  push_start-total :
      (w : Request → ℕ) (p : ℤ) (r : Request) (pq : PriorityQueue D S)
      → total w (contents (push_start p r pq).1)
        ≡ (if (push_start p r pq).0 then w r else 0) + total w (contents pq)
  unfolding push_start
  push_start-total w p r pq =
      let q = get_or (Dict.get p pq.start_queues) S.fresh in
      elim (Option-cases (S.push r q)) [
        | inl e ↦ ground (
          arith,
          contents_total w (push_start p r pq).1,
          contents_total w pq,
          held-put_or S w p q pq.start_queues,
        )
        | inr (q', e) ↦ ground (
          arith,
          contents_total w (push_start p r pq).1,
          contents_total w pq,
          held-put_or S w p q' pq.start_queues,
          S.push_law r q q' e w,
        )
      ]

  -- `push` adds the request to what the queue holds, each as often as before, and a push that
  -- raises changes nothing of it. (Every weight has this sum.)
  pub push-total :
      (w : Request → ℕ) (r : Request) (pq : PriorityQueue D S)
      → total w (contents (push r pq).1)
        ≡ (if (push r pq).0 then w r else 0) + total w (contents pq)
  unfolding push
  push-total w r pq = elim (Bool-cases (r.meta.is_start_request && pq.has_start)) [
    | inl y ↦ rw y (push_start-total w (priority r) r pq)
    | inr n ↦ rw n (push_regular-total w (priority r) r pq)
  ]

  pop_regular-total :
      (w : Request → ℕ) (p : ℤ) (q : D.Q) (pq : PriorityQueue D S) (m : Option Request)
      (pq' : PriorityQueue D S)
      → Dict.get p pq.queues ≡ some q
      → pop_regular p q pq ≡ return m pq'
      → total w (contents pq') + weight w m ≡ total w (contents pq)
  unfolding pop_regular
  pop_regular-total w p q pq m pq' g h = ground (
    arith,
    contents_total w pq,
    contents_total w pq',
    pop_weight D w q,
    empty_weight D w (D.pop q).1,
    held-put D w p q (D.pop q).1 pq.queues g,
    held-remove D w p q pq.queues g,
  )

  pop_start-total :
      (w : Request → ℕ) (p : ℤ) (q : S.Q) (pq : PriorityQueue D S) (m : Option Request)
      (pq' : PriorityQueue D S)
      → Dict.get p pq.start_queues ≡ some q
      → pop_start p q pq ≡ return m pq'
      → total w (contents pq') + weight w m ≡ total w (contents pq)
  unfolding pop_start
  pop_start-total w p q pq m pq' g h = ground (
    arith,
    contents_total w pq,
    contents_total w pq',
    pop_weight S w q,
    empty_weight S w (S.pop q).1,
    held-put S w p q (S.pop q).1 pq.start_queues g,
    held-remove S w p q pq.start_queues g,
  )

  round_total :
      (w : Request → ℕ) (p : ℤ) (pq : PriorityQueue D S) (m : Option Request)
      (pq' : PriorityQueue D S)
      → pop_round p pq ≡ return m pq'
      → total w (contents pq') + weight w m ≡ total w (contents pq)
  unfolding pop_round
  round_total w p pq m pq' h = elim (Option-cases (Dict.get p pq.queues)) [
    | inl e ↦ elim (Option-cases (Dict.get p pq.start_queues)) [
      | inl e' ↦ absurd (ground arith)
      | inr (q, e') ↦ pop_start-total w p q pq m pq' e' (ground arith)
    ]
    | inr (q, e) ↦ pop_regular-total w p q pq m pq' e (ground arith)
  ]

  -- `pop` takes the request that it returns out of what the queue holds, once, and leaves all
  -- others; when it returns no request, it leaves everything. (Every weight has this sum.)
  pub pop-total :
      (w : Request → ℕ) (pq : PriorityQueue D S) (m : Option Request) (pq' : PriorityQueue D S)
      → pop pq ≡ some (m, pq')
      → total w (contents pq') + weight w m ≡ total w (contents pq)
  pop-total w =
      pop_induction (λ pq m pq'. total w (contents pq') + weight w m ≡ total w (contents pq))
        (λ pq e. omega arith) (λ p pq m pq' e h. round_total w p pq m pq' h)
        (λ pq m pq' h. unfold update_curprio in h)

  -- `len` is the number of requests that the queue holds.
  pub len-eq-length : (pq : PriorityQueue D S) → len pq ≡ length (contents pq)
  unfolding len
  len-eq-length pq = omega (
    arith,
    sizes D pq.queues,
    sizes S pq.start_queues,
    length-append (held D pq.queues) (held S pq.start_queues),
  )
