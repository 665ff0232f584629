-- ===== src/PriorityQueue/Order.antt =====
-- The order in which `ScrapyPriorityQueue` gives its requests out.
use mathlib.Core.Path.{subst}
use scrapy.Prelude.{
  ◌≡◌, refl, sym, ◌∙◌, Bool, true, false, Option, none, some, [], ◌∷◌, List, arith, inl, inr, ◌⊎◌,
  ◌&&◌, Option-cases, All, All-map, All-append, ap,
}
use scrapy.Prelude.Int.{ℤ, int_eq, ◌≤ℤ◌, ◌<ℤ◌, beq_ℤ_iff, int_laws, eq_of_parts, pos_part, neg_part}
use scrapy.Dict
use scrapy.Dict.Laws.{All-get}
use scrapy.Request.{Request}
use scrapy.QueueClass.{QueueClass}
use scrapy.PriorityQueue.{
  PriorityQueue, return, update_curprio, pop_regular, pop_start, pop_round, pop, priority, contents,
}
use scrapy.PriorityQueue.Entries.{held}
use scrapy.PriorityQueue.Loop.{pop_induction}
use scrapy.PriorityQueue.Valid.{filed, Filed, IsValid, update-IsValid}

filed-priority : (k hs : Bool) (p : ℤ) (r : Request) → filed k hs p r ≡ true → priority r ≡ p
unfolding filed
filed-priority true hs p r h = ground (arith, beq_ℤ_iff (priority r) p)
filed-priority false hs p r h = ground (arith, beq_ℤ_iff (priority r) p)

filed-kind :
    (k hs : Bool) (p : ℤ) (r : Request)
    → filed k hs p r ≡ true
    → (r.meta.is_start_request && hs) ≡ k
unfolding filed
filed-kind true hs p r h = ground arith
filed-kind false hs p r h = ground arith

-- `priority` turns the order round.
higher_of_low :
    (p : ℤ) (r x : Request) → priority r ≡ p → p ≤ℤ priority x → x.priority ≤ℤ r.priority
unfolding priority
higher_of_low p r x e l = omega (int_laws, ap pos_part e, ap neg_part e)

higher_of_lower :
    (p : ℤ) (r x : Request) → priority r ≡ p → p <ℤ priority x → x.priority <ℤ r.priority
unfolding priority
higher_of_lower p r x e l = omega (int_laws, ap pos_part e, ap neg_part e)

module _ (C : QueueClass) (k hs : Bool) where
  -- A queue's `pop` returns a request of the queue's priority and kind.
  pop-filed :
      (c : Option ℤ) (p : ℤ) (q : C.Q) (r : Request)
      → Filed C k hs c (p, q)
      → (C.pop q).0 ≡ some r
      → filed k hs p r ≡ true
  pop-filed c p q r f h = go (C.items q) refl
    where
      go : (xs : List Request) → C.items q ≡ xs → filed k hs p r ≡ true
      go [] e = absurd (ground (arith, C.pop_empty q e))
      go (x ∷ xs) e =
          let (a, b) = C.pop_law q x xs e in
          let g : All (λ y. filed k hs p y ≡ true) (x ∷ xs) = rw e at f.0 in
          subst (λ z. filed k hs p z ≡ true)
            (let o : ◌≡◌ {A = Option Request} (some x) (some r) = sym a ∙ h in ground arith) g.0

  -- Every request of a dict of queues has the priority `curprio` or a lower one.
  held_low :
      (p : ℤ) (d : Dict.Dict ℤ C.Q)
      → All (Filed C k hs (some p)) d
      → All (λ x. p ≤ℤ priority x) (held C d)
  held_low p [] f = tt
  held_low p ((i, q) ∷ d) f =
      All-append (λ x. p ≤ℤ priority x) (C.items q) (held C d) (go f.0.1) (held_low p d f.1)
    where
      go : (C.items q ≡ []) ⊎ (p ≤ℤ i) → All (λ x. p ≤ℤ priority x) (C.items q)
      go (inl e) = rw e tt
      go (inr l) =
          All-map (λ x. filed k hs i x ≡ true) (λ x. p ≤ℤ priority x)
            (λ x h. subst (λ z. p ≤ℤ z) (sym (filed-priority k hs i x h)) l) (C.items q) f.0.0

  -- And a lower one if there is no queue at `curprio`.
  held_lower :
      (p : ℤ) (d : Dict.Dict ℤ C.Q)
      → All (Filed C k hs (some p)) d
      → Dict.get p d ≡ none
      → All (λ x. p <ℤ priority x) (held C d)
  unfolding Dict.get
  held_lower p [] f g = tt
  held_lower p ((i, q) ∷ d) f g =
      All-append (λ x. p <ℤ priority x) (C.items q) (held C d) (go f.0.1)
        (held_lower p d f.1 (ground arith))
    where
      go : (C.items q ≡ []) ⊎ (p ≤ℤ i) → All (λ x. p <ℤ priority x) (C.items q)
      go (inl e) = rw e tt
      go (inr l) =
          let lt : p <ℤ i = ground (arith, eq_of_parts p i, eq_of_parts i p, beq_ℤ_iff i p) in
          All-map (λ x. filed k hs i x ≡ true) (λ x. p <ℤ priority x)
            (λ x h. subst (λ z. p <ℤ z) (sym (filed-priority k hs i x h)) lt) (C.items q) f.0.0

module _ (C : QueueClass) (k hs : Bool) where
  held_kind :
      (c : Option ℤ) (d : Dict.Dict ℤ C.Q)
      → All (Filed C k hs c) d
      → All (λ x. (x.meta.is_start_request && hs) ≡ k) (held C d)
  held_kind c [] f = tt
  held_kind c ((i, q) ∷ d) f =
      All-append (λ x. (x.meta.is_start_request && hs) ≡ k) (C.items q) (held C d)
        (All-map (λ x. filed k hs i x ≡ true) (λ x. (x.meta.is_start_request && hs) ≡ k)
          (filed-kind k hs i) (C.items q) f.0.0)
        (held_kind c d f.1)

module _ {D S : QueueClass} where
  -- Where a request comes from: an ordinary queue at `curprio`, or a start queue when there is no
  -- ordinary queue.
  round_source :
      (p : ℤ) (pq : PriorityQueue D S) (r : Request) (pq' : PriorityQueue D S)
      → pop_round p pq ≡ return (some r) pq'
      → IsValid pq
      → (filed false pq.has_start p r ≡ true)
        ⊎ ((filed true pq.has_start p r ≡ true) × (Dict.get p pq.queues ≡ none))
  unfolding pop_round pop_regular pop_start
  round_source p pq r pq' h v = elim (Option-cases (Dict.get p pq.queues)) [
    | inr (q, e) ↦ inl (
        pop-filed D false pq.has_start pq.curprio p q r
          (All-get (Filed D false pq.has_start pq.curprio) p q pq.queues e v.regular)
          (ground arith))
    | inl e ↦ elim (Option-cases (Dict.get p pq.start_queues)) [
      | inl e' ↦ absurd (ground arith)
      | inr (q, e') ↦ inr (
        pop-filed S true pq.has_start pq.curprio p q r
            (All-get (Filed S true pq.has_start pq.curprio) p q pq.start_queues e' v.start)
            (ground arith),
        e,
      )
    ]
  ]

  round_priority :
      (p : ℤ) (pq : PriorityQueue D S) (r : Request) (pq' : PriorityQueue D S)
      → pop_round p pq ≡ return (some r) pq'
      → IsValid pq
      → priority r ≡ p
  round_priority p pq r pq' h v = elim (round_source p pq r pq' h v) [
    | inl f ↦ filed-priority false pq.has_start p r f
    | inr (f, e) ↦ filed-priority true pq.has_start p r f
  ]

  round_highest :
      (p : ℤ) (pq : PriorityQueue D S) (r : Request) (pq' : PriorityQueue D S)
      → pq.curprio ≡ some p
      → pop_round p pq ≡ return (some r) pq'
      → IsValid pq
      → All (λ x. x.priority ≤ℤ r.priority) (contents pq)
  round_highest p pq r pq' c h v =
      All-map (λ x. p ≤ℤ priority x) (λ x. x.priority ≤ℤ r.priority)
        (λ x l. higher_of_low p r x (round_priority p pq r pq' h v) l) (contents pq)
        (All-append (λ x. p ≤ℤ priority x) (held D pq.queues) (held S pq.start_queues)
          (held_low D false pq.has_start p pq.queues
            (subst (λ z. All (Filed D false pq.has_start z) pq.queues) c v.regular))
          (held_low S true pq.has_start p pq.start_queues
            (subst (λ z. All (Filed S true pq.has_start z) pq.start_queues) c v.start)))

  -- Whether a request counts as a start request for this queue.
  abbrev pub is_start : PriorityQueue D S → Request → Bool
  is_start pq x = x.meta.is_start_request && pq.has_start

  abbrev pub GoesBefore : PriorityQueue D S → Request → Request → Type 0
  GoesBefore pq r x = (is_start pq x ≡ true) ⊎ (x.priority <ℤ r.priority)

  round_start :
      (p : ℤ) (pq : PriorityQueue D S) (r : Request) (pq' : PriorityQueue D S)
      → pq.curprio ≡ some p
      → pop_round p pq ≡ return (some r) pq'
      → IsValid pq
      → is_start pq r ≡ true
      → All (GoesBefore pq r) (contents pq)
  round_start p pq r pq' c h v s = elim (round_source p pq r pq' h v) [
    | inl f ↦ absurd (ground (arith, filed-kind false pq.has_start p r f))
    | inr (f, e) ↦
        All-append (GoesBefore pq r) (held D pq.queues) (held S pq.start_queues)
          (All-map (λ x. p <ℤ priority x) (GoesBefore pq r)
            (λ x l. inr (higher_of_lower p r x (filed-priority true pq.has_start p r f) l))
            (held D pq.queues)
            (held_lower D false pq.has_start p pq.queues
              (subst (λ z. All (Filed D false pq.has_start z) pq.queues) c v.regular) e))
          (All-map (λ x. is_start pq x ≡ true) (GoesBefore pq r) (λ x y. inl y)
            (held S pq.start_queues)
            (held_kind S true pq.has_start pq.curprio pq.start_queues v.start))
  ]

  -- From a valid queue, no request that the queue holds has a higher priority than the one that
  -- `pop` returns.
  pub pop_highest :
      (pq : PriorityQueue D S) (r : Request) (pq' : PriorityQueue D S)
      → pop pq ≡ some (some r, pq')
      → IsValid pq
      → All (λ x. x.priority ≤ℤ r.priority) (contents pq)
  pop_highest pq r pq' h =
      pop_induction
        (λ pq m _. m ≡ some r → IsValid pq → All (λ x. x.priority ≤ℤ r.priority) (contents pq))
        (λ pq e n v. absurd (ground arith))
        (λ p pq m pq' e f n v.
          round_highest p pq r pq' e (subst (λ z. pop_round p pq ≡ return z pq') n f) v)
        (λ pq m pq' f n v. unfold update_curprio in f n (update-IsValid pq v)) pq (some r) pq' h
        refl

  -- From a valid queue that has a class for start requests, `pop` returns a start request only if
  -- every other request that it holds is a start request or has a lower priority.
  pub pop_start_last :
      (pq : PriorityQueue D S) (r : Request) (pq' : PriorityQueue D S)
      → pop pq ≡ some (some r, pq')
      → IsValid pq
      → is_start pq r ≡ true
      → All (GoesBefore pq r) (contents pq)
  pop_start_last pq r pq' h =
      pop_induction
        (λ pq m _.
          m ≡ some r → IsValid pq → is_start pq r ≡ true → All (GoesBefore pq r) (contents pq))
        (λ pq e n v. absurd (ground arith))
        (λ p pq m pq' e f n v.
          round_start p pq r pq' e (subst (λ z. pop_round p pq ≡ return z pq') n f) v)
        (λ pq m pq' f n v. unfold update_curprio in f n (update-IsValid pq v)) pq (some r) pq' h
        refl
