-- ===== src/PriorityQueue/Valid.antt =====
-- The invariant of `ScrapyPriorityQueue`: each request is filed under its priority, start requests
-- apart, and `curprio` is at most the key of every queue that is not empty.
use mathlib.Core.Path.{subst}
use scrapy.Prelude.{
  ◌≡◌, refl, ◌∙◌, Bool, true, false, Option, none, some, [], ◌∷◌, List, ◌++◌, arith, inl, inr, ◌⊎◌,
  ◌&&◌, Option-cases, Bool-cases, All, All-map, All-split, length, nat_beq, total, get_or, ◌==◌,
  if◌then◌else◌, ap, not,
}
use scrapy.Prelude.Int.{ℤ, int_eq, beq_ℤ_iff, ◌≤ℤ◌, ltb_ℤ}
use scrapy.Dict
use scrapy.Dict.Laws.{All-get, All-put, All-remove}
use scrapy.Request.{Request}
use scrapy.QueueClass.{QueueClass}
use scrapy.PriorityQueue.{
  PriorityQueue, Round, return, again, update_curprio, lowered, pop_regular, pop_start, pop_round,
  pop, is_empty, push, push_regular, push_start, priority,
}
use scrapy.PriorityQueue.Entries.{live_keys, min_prio, min_prio-le, min_prio-eq-none}
use scrapy.PriorityQueue.Loop.{pop_induction}

abbrev pub Low : Option ℤ → ℤ → Type 0
Low none p = ⊥
Low (some c) p = c ≤ℤ p

-- Whether a request belongs in the queue of priority `p`, among the start requests if `k` holds.
unfoldable pub filed : Bool → Bool → ℤ → Request → Bool
filed true hs p r = priority r == p && (r.meta.is_start_request && hs)
filed false hs p r = priority r == p && not (r.meta.is_start_request && hs)

-- What the invariant says of one entry of a dict of queues.
abbrev pub Filed : (C : QueueClass) → Bool → Bool → Option ℤ → ℤ × C.Q → Type 0
Filed C k hs c e =
    All (λ r. filed k hs e.0 r ≡ true) (C.items e.1) × ((C.items e.1 ≡ []) ⊎ Low c e.0)

pub record IsValid {D S : QueueClass} (pq : PriorityQueue D S) : Type 0 where
  pub regular : All (Filed D false pq.has_start pq.curprio) pq.queues
  pub start : All (Filed S true pq.has_start pq.curprio) pq.start_queues

-- `push` puts a request where it belongs.
filed_self :
    (k : Bool) (r : Request) (hs : Bool)
    → (r.meta.is_start_request && hs) ≡ k
    → filed k hs (priority r) r ≡ true
unfolding filed
filed_self true r hs h = rw (h, (beq_ℤ_iff (priority r) (priority r)).1 refl)
filed_self false r hs h = rw (h, (beq_ℤ_iff (priority r) (priority r)).1 refl)

-- A test that all of a list passes, as a sum.
All-of_total :
    (b : Request → Bool) (xs : List Request)
    → total (λ r. if b r then 0 else 1) xs ≡ 0
    → All (λ r. b r ≡ true) xs
All-of_total b [] h = tt
All-of_total b (x ∷ xs) h = (ground arith, All-of_total b xs (ground arith))

total_of_All :
    (b : Request → Bool) (xs : List Request)
    → All (λ r. b r ≡ true) xs
    → total (λ r. if b r then 0 else 1) xs ≡ 0
total_of_All b [] h = refl
total_of_All b (x ∷ xs) h = ground (arith, total_of_All b xs h.1)

length-eq-zero : (xs : List Request) → length xs ≡ 0 → xs ≡ []
length-eq-zero [] h = refl
length-eq-zero (x ∷ xs) h = absurd (omega arith)

lowered-Low : (p : ℤ) (c : Option ℤ) → Low (lowered p c) p
unfolding lowered
lowered-Low p none = omega arith
lowered-Low p (some c) = elim (Bool-cases (ltb_ℤ p c)) [
  | inl y ↦ rw y (omega arith)
  | inr n ↦ rw n (ground arith)
]

Low-lowered : (p k : ℤ) (c : Option ℤ) → Low c k → Low (lowered p c) k
unfolding lowered
Low-lowered p k none h = absurd h
Low-lowered p k (some c) h = elim (Bool-cases (ltb_ℤ p c)) [
  | inl y ↦ rw y (ground arith)
  | inr n ↦ rw n h
]

module _ (C : QueueClass) (k hs : Bool) where
  Filed-lowered :
      (p : ℤ) (c : Option ℤ) (d : Dict.Dict ℤ C.Q)
      → All (Filed C k hs c) d
      → All (Filed C k hs (lowered p c)) d
  Filed-lowered p c =
      All-map (Filed C k hs c) (Filed C k hs (lowered p c))
        λ e f. (f.0, elim f.1 [ inl x ↦ inl x | inr l ↦ inr (Low-lowered p e.0 c l) ])

  -- `push` on a queue of the request's priority.
  Filed-push :
      (c c' : Option ℤ) (p : ℤ) (r : Request) (q q' : C.Q)
      → filed k hs p r ≡ true
      → C.push r q ≡ some q'
      → Filed C k hs c (p, q)
      → Low c' p
      → Filed C k hs c' (p, q')
  Filed-push c c' p r q q' b h f l = (
    All-of_total (filed k hs p) (C.items q') (
        let w = λ (x : Request). if filed k hs p x then 0 else 1 in
        C.push_law r q q' h w ∙ rw b (omega (arith, total_of_All (filed k hs p) (C.items q) f.0))),
    inr l,
  )

  Filed-pop :
      (c : Option ℤ) (p : ℤ) (q : C.Q) → Filed C k hs c (p, q) → Filed C k hs c (p, (C.pop q).1)
  Filed-pop c p q f = go (C.items q) refl
    where
      go : (xs : List Request) → C.items q ≡ xs → Filed C k hs c (p, (C.pop q).1)
      go [] e = rw (C.pop_empty q e) f
      go (r ∷ rs) e =
          let (a, b) = C.pop_law q r rs e in
          let g : All (λ r. filed k hs p r ≡ true) (r ∷ rs) = rw e at f.0 in
          (rw b g.1, elim f.1 [ inl x ↦ absurd (ground arith) | inr l ↦ inr l ])

  -- The queue that `push` finds or creates.
  Filed-get_or :
      (c : Option ℤ) (p : ℤ) (d : Dict.Dict ℤ C.Q)
      → All (Filed C k hs c) d
      → Filed C k hs c (p, get_or (Dict.get p d) C.fresh)
  Filed-get_or c p d f = elim (Option-cases (Dict.get p d)) [
    | inl e ↦ rw (e, C.fresh_law) (tt, inl refl)
    | inr (q, e) ↦ rw e (All-get (Filed C k hs c) p q d e f)
  ]

  -- Any bound that the keys of the queues that are not empty have will do for `curprio`.
  Filed-relow :
      (c c' : Option ℤ) (d : Dict.Dict ℤ C.Q)
      → All (Filed C k hs c) d
      → All (Low c') (live_keys C d)
      → All (Filed C k hs c') d
  unfolding live_keys
  Filed-relow c c' [] f l = tt
  Filed-relow c c' ((p, q) ∷ d) f l = elim (Bool-cases (nat_beq (C.size q) 0)) [
    | inl y ↦
        let l' : All (Low c') (live_keys C d) = rw y at l in
        (
          (f.0.0, inl (length-eq-zero (C.items q) (ground (arith, C.size_law q)))),
          Filed-relow c c' d f.1 l',
        )
    | inr n ↦
        let l' : All (Low c') (p ∷ live_keys C d) = rw n at l in
        ((f.0.0, inr l'.0), Filed-relow c c' d f.1 l'.1)
  ]

-- The bound that `_update_curprio` computes.
pub All-Low-min_prio : (ps : List ℤ) → All (Low (min_prio ps)) ps
All-Low-min_prio ps = elim (Option-cases (min_prio ps)) [
  | inl e ↦ rw (min_prio-eq-none ps e) tt
  | inr (m, e) ↦ rw e (min_prio-le ps m e)
]

module _ {D S : QueueClass} where
  pub update-IsValid : (pq : PriorityQueue D S) → IsValid pq → IsValid (update_curprio pq)
  unfolding update_curprio
  update-IsValid pq v =
      let ds = live_keys D pq.queues in
      let ss = live_keys S pq.start_queues in
      let c' = min_prio (ds ++ ss) in
      let (a, b) = All-split (Low c') ds ss (All-Low-min_prio (ds ++ ss)) in
      record {
        regular = Filed-relow D false pq.has_start pq.curprio c' pq.queues v.regular a;
        start = Filed-relow S true pq.has_start pq.curprio c' pq.start_queues v.start b;
      }

  push_regular-IsValid :
      (p : ℤ) (r : Request) (pq : PriorityQueue D S)
      → filed false pq.has_start p r ≡ true
      → IsValid pq
      → IsValid (push_regular p r pq).1
  unfolding push_regular
  push_regular-IsValid p r pq b v = elim (Option-cases (D.push r q)) [
    | inl e ↦
        rw (e, push_regular)
          (record {
            regular = All-put (Filed D false hs c) p q pq.queues old v.regular;
            start = v.start;
          })
    | inr (q', e) ↦
        rw (e, push_regular)
          (record {
            regular =
                All-put (Filed D false hs (lowered p c)) p q' pq.queues
                  (Filed-push D false hs c (lowered p c) p r q q' b e old (lowered-Low p c))
                  (Filed-lowered D false hs p c pq.queues v.regular);
            start = Filed-lowered S true hs p c pq.start_queues v.start;
          })
  ]
    where
      hs : Bool
      hs = pq.has_start

      c : Option ℤ
      c = pq.curprio

      q : D.Q
      q = get_or (Dict.get p pq.queues) D.fresh

      old : Filed D false hs c (p, q)
      old = Filed-get_or D false hs c p pq.queues v.regular

  push_start-IsValid :
      (p : ℤ) (r : Request) (pq : PriorityQueue D S)
      → filed true pq.has_start p r ≡ true
      → IsValid pq
      → IsValid (push_start p r pq).1
  unfolding push_start
  push_start-IsValid p r pq b v = elim (Option-cases (S.push r q)) [
    | inl e ↦
        rw (e, push_start)
          (record {
            start = All-put (Filed S true hs c) p q pq.start_queues old v.start;
            regular = v.regular;
          })
    | inr (q', e) ↦
        rw (e, push_start)
          (record {
            start =
                All-put (Filed S true hs (lowered p c)) p q' pq.start_queues
                  (Filed-push S true hs c (lowered p c) p r q q' b e old (lowered-Low p c))
                  (Filed-lowered S true hs p c pq.start_queues v.start);
            regular = Filed-lowered D false hs p c pq.queues v.regular;
          })
  ]
    where
      hs : Bool
      hs = pq.has_start

      c : Option ℤ
      c = pq.curprio

      q : S.Q
      q = get_or (Dict.get p pq.start_queues) S.fresh

      old : Filed S true hs c (p, q)
      old = Filed-get_or S true hs c p pq.start_queues v.start

  -- `push`, whether it stores the request or raises, keeps the invariant.
  pub push-IsValid : (r : Request) (pq : PriorityQueue D S) → IsValid pq → IsValid (push r pq).1
  unfolding push
  push-IsValid r pq v = elim (Bool-cases (r.meta.is_start_request && pq.has_start)) [
    | inl y ↦ rw y (push_start-IsValid (priority r) r pq (filed_self true r pq.has_start y) v)
    | inr n ↦ rw n (push_regular-IsValid (priority r) r pq (filed_self false r pq.has_start n) v)
  ]

  abbrev after : Round D S → PriorityQueue D S
  after (return m pq) = pq
  after (again pq) = pq

  pop_regular-IsValid :
      (p : ℤ) (q : D.Q) (pq : PriorityQueue D S)
      → Dict.get p pq.queues ≡ some q
      → IsValid pq
      → IsValid (after (pop_regular p q pq))
  unfolding pop_regular
  pop_regular-IsValid p q pq g v = elim (Bool-cases (nat_beq (D.size (D.pop q).1) 0)) [
    | inl y ↦ rw y (elim (Bool-cases (is_empty pq.start_queues)) [
      | inl e ↦ rw e (update-IsValid _ removed)
      | inr e ↦ rw e removed
    ])
    | inr n ↦ rw n (record {
      regular =
          All-put F p (D.pop q).1 pq.queues
            (Filed-pop D false pq.has_start pq.curprio p q (All-get F p q pq.queues g v.regular))
            v.regular;
      start = v.start;
    })
  ]
    where
      F : ℤ × D.Q → Type 0
      F = Filed D false pq.has_start pq.curprio

      removed : IsValid (record pq { queues = Dict.remove p pq.queues })
      removed = record { regular = All-remove F p pq.queues v.regular; start = v.start }

  pop_start-IsValid :
      (p : ℤ) (q : S.Q) (pq : PriorityQueue D S)
      → Dict.get p pq.start_queues ≡ some q
      → IsValid pq
      → IsValid (after (pop_start p q pq))
  unfolding pop_start
  pop_start-IsValid p q pq g v = elim (Bool-cases (nat_beq (S.size (S.pop q).1) 0)) [
    | inl y ↦ rw y (
        update-IsValid _
          (record { regular = v.regular; start = All-remove F p pq.start_queues v.start }))
    | inr n ↦ rw n (record {
      regular = v.regular;
      start =
          All-put F p (S.pop q).1 pq.start_queues
            (Filed-pop S true pq.has_start pq.curprio p q (All-get F p q pq.start_queues g v.start))
            v.start;
    })
  ]
    where
      F : ℤ × S.Q → Type 0
      F = Filed S true pq.has_start pq.curprio

  round-IsValid : (p : ℤ) (pq : PriorityQueue D S) → IsValid pq → IsValid (after (pop_round p pq))
  unfolding pop_round
  round-IsValid p pq v = elim (Option-cases (Dict.get p pq.queues)) [
    | inr (q, e) ↦ rw (e, pop_round) (pop_regular-IsValid p q pq e v)
    | inl e ↦
        rw (e, pop_round)
          (elim (Bool-cases (is_empty pq.start_queues)) [
            | inl y ↦ rw y (update-IsValid pq v)
            | inr n ↦ rw n (elim (Option-cases (Dict.get p pq.start_queues)) [
              | inl e' ↦ rw (e', pop_round) (update-IsValid pq v)
              | inr (q, e') ↦ rw (e', pop_round) (pop_start-IsValid p q pq e' v)
            ])
          ])
  ]

  -- `pop` keeps the invariant.
  pub pop-IsValid :
      (pq : PriorityQueue D S) (m : Option Request) (pq' : PriorityQueue D S)
      → pop pq ≡ some (m, pq')
      → IsValid pq
      → IsValid pq'
  pop-IsValid =
      pop_induction (λ pq m pq'. IsValid pq → IsValid pq') (λ pq e v. v)
        (λ p pq m pq' e h v. subst IsValid (ap after h) (round-IsValid p pq v))
        (λ pq m pq' f v. f (update-IsValid pq v))
