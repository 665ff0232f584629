-- ===== src/Engine/Loop.antt =====
-- The loop that starts scheduled requests: it ends, and it loses nothing.
use scrapy.Prelude.{
  ℕ, zero, suc, ◌+◌, ◌<◌, ◌≡◌, map, refl, ap, ◌∙◌, none, some, List, [], ◌∷◌, arith, total, length,
  length-eq-total, inl, inr, Bool-cases, Option-cases,
}
use scrapy.SchedulerClass.{SchedulerClass}
use scrapy.Downloader.{begin_fetch}
use scrapy.Downloader.Order.{add_all}
use scrapy.Engine.{Engine, needs_backout, start_scheduled_request, start_loop}
use scrapy.Engine.Slot.{EngineSlot, add_request}

-- The next request shortens what is pending by one.
next-length :
    {R : Type 0} (S : SchedulerClass R) (q : S.Q) (r : R)
    → (S.next_request q).0 ≡ some r
    → length (S.pending (S.next_request q).1) + 1 ≡ length (S.pending q)
next-length S q r e =
    let q' = (S.next_request q).1 in
    ground
      (arith, S.next_law (λ _. 1) q, length-eq-total (S.pending q), length-eq-total (S.pending q'))

module _ {R : Type 0} {S : SchedulerClass R} where
  -- The pending requests and the requests in progress, of an engine with a slot.
  abbrev pub pending : Engine S → List R
  pending e = elim e.slot [ none ↦ [] | some s ↦ S.pending s.scheduler ]

  abbrev pub inprogress : Engine S → List ℕ
  inprogress e = elim e.slot [ none ↦ [] | some s ↦ s.inprogress ]

  module _ (identity : R → ℕ) where
    -- What a run of the loop has done: it has started the requests `rs`, in their order.
    pub record Started (rs : List R) (e e' : Engine S) : Type 0 where
      pub taken : (w : R → ℕ) → total w (pending e) ≡ total w rs + total w (pending e')
      pub active : e'.downloader.active ≡ add_all (map identity rs) e.downloader.active
      pub progress : inprogress e' ≡ add_all (map identity rs) (inprogress e)

    -- The engine after a request was taken.
    request_taken :
        (s : EngineSlot S) (e : Engine S) (r : R)
        → e.slot ≡ some s
        → (start_scheduled_request identity s e).0 ≡ some r
        → Started (r ∷ []) e (start_scheduled_request identity s e).1
    unfolding start_scheduled_request begin_fetch add_request
    request_taken s e r h k = record {
      taken = λ w. ground (arith, S.next_law w s.scheduler);
      active = ground arith;
      progress = ground arith;
    }

    nothing_taken :
        (s : EngineSlot S) (e : Engine S)
        → e.slot ≡ some s
        → (start_scheduled_request identity s e).0 ≡ none
        → Started [] e (start_scheduled_request identity s e).1
    unfolding start_scheduled_request
    nothing_taken s e h k = record {
      taken = λ w. ground (arith, S.next_law w s.scheduler);
      active = ground arith;
      progress = ground arith;
    }

    Started-cons :
        (r : R) (rs : List R) (e e' e'' : Engine S)
        → Started (r ∷ []) e e'
        → Started rs e' e''
        → Started (r ∷ rs) e e''
    Started-cons r rs e e' e'' h k = record {
      taken = λ w. omega (arith, h.taken w, k.taken w);
      active = k.active ∙ ap (add_all (map identity rs)) h.active;
      progress = k.progress ∙ ap (add_all (map identity rs)) h.progress;
    }

    taken-length :
        (s : EngineSlot S) (e : Engine S) (r : R)
        → e.slot ≡ some s
        → (start_scheduled_request identity s e).0 ≡ some r
        → length (pending (start_scheduled_request identity s e).1) + 1 ≡ length (pending e)
    unfolding start_scheduled_request add_request
    taken-length s e r h k = ground (arith, next-length S s.scheduler r)

    -- With more fuel than pending requests the loop ends. It takes some requests out of the
    -- scheduler, hands each of them to the downloader, in their order, and leaves the others.
    pub start_loop_lem :
        (fuel : ℕ) (e : Engine S)
        → length (pending e) < fuel
        → (rs : List R) × (e' : Engine S) × (start_loop identity fuel e ≡ some (rs, e'))
          × Started rs e e'
    unfolding start_loop
    start_loop_lem zero e h = absurd (omega arith)
    start_loop_lem (suc fuel) e h = elim (Bool-cases (needs_backout e)) [
      | inl y ↦
          ([], e, ground arith, record { taken = λ w. omega arith; active = refl; progress = refl })
      | inr n ↦ elim (Option-cases e.slot) [
        | inl k ↦ (
          [],
          e,
          ground arith,
          record { taken = λ w. omega arith; active = refl; progress = refl },
        )
        | inr (s, k) ↦
            let e1 = (start_scheduled_request identity s e).1 in
            elim (Option-cases (start_scheduled_request identity s e).0) [
              | inl m ↦ ([], e1, ground arith, nothing_taken s e k m)
              | inr (r, m) ↦
                  let (rs, e', run, d) =
                    start_loop_lem fuel e1 (omega (arith, h, taken-length s e r k m)) in
                  (
                    r ∷ rs,
                    e',
                    ground (arith, run),
                    Started-cons r rs e e1 e' (request_taken s e r k m) d,
                  )
            ]
      ]
    ]
