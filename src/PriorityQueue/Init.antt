-- ===== src/PriorityQueue/Init.antt =====
-- A queue that is opened on what an earlier run has stored, and the empty queue that a push which
-- raises leaves behind.
use mathlib.Core.Path.{subst}
use scrapy.Prelude.{
  ◌≡◌, refl, sym, ◌∙◌, Bool, true, false, Option, none, some, [], ◌∷◌, List, arith, inl, inr, ◌&&◌,
  Bool-cases, nat_beq, length-eq-total, ap, All, not,
}
use scrapy.Prelude.Int.{ℤ, int_eq, beq_ℤ_iff, neg}
use scrapy.Dict
use scrapy.Dict.Laws.{All-put}
use scrapy.Request.{Request}
use scrapy.QueueClass.{QueueClass}
use scrapy.PriorityQueue.{
  PriorityQueue, return, pop_regular, pop_round, pop, push, push_regular, push_start, lowered,
  priority, len, open_prio, open_prios, init,
}
use scrapy.PriorityQueue.Entries.{min_prio}
use scrapy.PriorityQueue.Valid.{Low, filed, Filed, IsValid, All-Low-min_prio}
use scrapy.PriorityQueue.Loop.{loop_return}

module _ {D S : QueueClass} (stored : ℤ → D.Q) (start_stored : ℤ → S.Q) (hs : Bool)
    (good : (p : ℤ) → All (λ r. filed false hs p r ≡ true) (D.items (stored p)))
    (start_good : (p : ℤ) → All (λ r. filed true hs p r ≡ true) (S.items (start_stored p))) where
  abbrev Kept : Option ℤ → PriorityQueue D S → Type 0
  Kept c pq =
      All (Filed D false hs c) pq.queues
      × All (Filed S true hs c) pq.start_queues
      × (pq.has_start ≡ hs)

  open_prio-Kept :
      (c : Option ℤ) (p : ℤ) (pq : PriorityQueue D S)
      → Low c p
      → Kept c pq
      → Kept c (open_prio stored start_stored p pq)
  unfolding open_prio
  open_prio-Kept c p pq l (a, b, e) = (
    elim (Bool-cases (nat_beq (D.size (stored p)) 0)) [
      | inl y ↦ rw y a
      | inr n ↦ rw n (All-put (Filed D false hs c) p (stored p) pq.queues (good p, inr l) a)
    ],
    elim (Bool-cases (pq.has_start && not (nat_beq (S.size (start_stored p)) 0))) [
      | inl y ↦
          rw y
            (All-put (Filed S true hs c) p (start_stored p) pq.start_queues (start_good p, inr l) b)
      | inr n ↦ rw n b
    ],
    e,
  )

  open_prios-Kept :
      (c : Option ℤ) (ps : List ℤ) (pq : PriorityQueue D S)
      → All (Low c) ps
      → Kept c pq
      → Kept c (open_prios stored start_stored ps pq)
  unfolding open_prios
  open_prios-Kept c [] pq l k = k
  open_prios-Kept c (p ∷ ps) pq l k =
      open_prios-Kept c ps (open_prio stored start_stored p pq) l.1 (open_prio-Kept c p pq l.0 k)

  -- When every stored queue holds requests of its own priority and kind, the queue that `__init__`
  -- builds from any start priorities is valid.
  pub init-IsValid : (ps : List ℤ) → IsValid (init {D = D} {S = S} stored start_stored hs ps)
  unfolding init
  init-IsValid [] = record { regular = tt; start = tt }
  init-IsValid (p ∷ ps) =
      let (a, b, e) =
        open_prios-Kept (min_prio (p ∷ ps)) (p ∷ ps)
          (record { queues = []; start_queues = []; curprio = none; has_start = hs })
          (All-Low-min_prio (p ∷ ps)) (tt, tt, refl) in
      record {
        regular =
            subst (λ z. All (Filed D false z (min_prio (p ∷ ps))) (opened p ps).queues) (sym e) a;
        start =
            subst (λ z. All (Filed S true z (min_prio (p ∷ ps))) (opened p ps).start_queues) (sym e)
              b;
      }
    where
      opened : ℤ → List ℤ → PriorityQueue D S
      opened p ps =
          open_prios stored start_stored (p ∷ ps)
            (record { queues = []; start_queues = []; curprio = none; has_start = hs })

module _ {D S : QueueClass} where
  abbrev pub nothing : PriorityQueue D S
  nothing = record { queues = []; start_queues = []; curprio = none; has_start = true }

  -- A push that raises leaves an empty queue under its priority.
  abbrev leftover : ℤ → PriorityQueue D S
  leftover p = record nothing { queues = (p, D.fresh) ∷ [] }

  failed_push :
      (r : Request)
      → r.meta.is_start_request ≡ false
      → D.push r D.fresh ≡ none
      → push r nothing ≡ (false, leftover (priority r))
  unfolding push push_regular Dict.get Dict.put
  failed_push r h f = ground arith

  abbrev waiting : ℤ → S.Q → PriorityQueue D S
  waiting p q = record {
    queues = (p, D.fresh) ∷ [];
    start_queues = (p, q) ∷ [];
    curprio = some p;
    has_start = true;
  }

  start_push :
      (s : Request) (q : S.Q)
      → s.meta.is_start_request ≡ true
      → S.push s S.fresh ≡ some q
      → push s (leftover (priority s)) ≡ (true, waiting (priority s) q)
  unfolding push push_start Dict.get Dict.put lowered
  start_push s q h f = ground arith

  miss :
      (p : ℤ) (q : S.Q)
      → pop_round p (waiting p q)
        ≡ return none (record nothing { start_queues = (p, q) ∷ []; curprio = some p })
  unfolding pop_round pop_regular Dict.get Dict.remove
  miss p q =
      ground
        (arith, beq_ℤ_iff p p, D.pop_empty D.fresh D.fresh_law, D.size_law D.fresh, D.fresh_law)

  -- An ordinary request whose push raises, then a start request of the same priority that is
  -- stored: the next `pop` returns no request, though one is pending.
  pub pop_misses :
      (r s : Request) (q : S.Q)
      → r.meta.is_start_request ≡ false
      → s.meta.is_start_request ≡ true
      → r.priority ≡ s.priority
      → D.push r D.fresh ≡ none
      → S.push s S.fresh ≡ some q
      → (pq' : PriorityQueue D S) × (pop (push s (push r nothing).1).1 ≡ some (none, pq'))
        × (len pq' ≡ 1)
  unfolding pop len priority
  pop_misses r s q h h' e f g =
      let p = neg s.priority in
      (
        record nothing { start_queues = (p, q) ∷ []; curprio = some p },
        ap pop (
              ap (λ z. (push s z.1).1) (failed_push r h f)
              ∙ ap (λ z. (push s (leftover z)).1) (ap neg e)
              ∙ ap (λ z. z.1) (start_push s q h' g))
            ∙ loop_return 1 p (waiting p q) none _ refl (miss p q),
        omega (
          arith,
          S.size_law q,
          length-eq-total (S.items q),
          rw S.fresh_law at (S.push_law s S.fresh q g (λ _. 1)),
        ),
      )
