-- ===== src/Http2/Pending.antt =====
-- No request of an HTTP/2 connection stays pending while there is room for it.
use mathlib.Core.Path.{subst}
use scrapy.Prelude.{
  map-some, ℕ, zero, suc, ◌⊎◌, ◌≤◌, ◌≡◌, sym, ap, ◌∙◌, false, Option, some, [], nat_eq, arith,
  length, contains, inl, inr, Bool-cases, Option-cases, List-cases,
}
use scrapy.Prelude.Int.{◌+ℤ◌, ◌-ℤ◌, pos}
use scrapy.Http2.{StreamCloseReason, Connection, settle, check_request_url}
use scrapy.Http2.Protocol.{
  Protocol, pop_key, change, pop_with, close_with, initiate_with, has_room, send_pending,
  send_pending_requests, close, h2_connected, allowed_max_concurrent_streams,
}

module _ {H : Type 0} (C : Connection H) where
  abbrev pending : Protocol H → ℕ
  pending p = length p.pending_request_stream_pool

  abbrev Shrinks : (Protocol H → Option (Protocol H)) → Type 0
  Shrinks f = (p p' : Protocol H) → f p ≡ some p' → pending p' ≤ pending p

  close_with-Shrinks :
      (send : Protocol H → Option (Protocol H))
      → Shrinks send
      → (reason : StreamCloseReason) (j : ℕ) → Shrinks (close_with C send reason j)
  unfolding close_with pop_with change
  close_with-Shrinks send shrinks reason j p p' h =
      let (q, popped, e) = map-some (change j (settle reason)) (pop_with C send j p) p' h in
      elim (Bool-cases (contains j p.streams)) [
        | inr n ↦ absurd (ground arith)
        | inl y ↦
            let s =
              shrinks
                (record p {
                  streams = pop_key j p.streams;
                  active_streams = p.active_streams -ℤ pos 1;
                })
                q (rw y at popped) in
            let same : pending q ≡ pending p' = ap pending e in omega arith
      ]

  initiate_with-Shrinks :
      (send : Protocol H → Option (Protocol H))
      → Shrinks send
      → (j : ℕ) → Shrinks (initiate_with C send j)
  unfolding initiate_with change
  initiate_with-Shrinks send shrinks j p p' h = elim (Option-cases (p.objects j)) [
    | inl n ↦ absurd (ground arith)
    | inr (s, y) ↦ elim (Bool-cases (check_request_url p.peer s)) [
      | inl ok ↦ ground arith
      | inr bad ↦
          close_with-Shrinks send shrinks StreamCloseReason.invalid_hostname j p p' (ground arith)
    ]
  ]

  send_pending-Shrinks : (fuel : ℕ) → Shrinks (send_pending C fuel)
  unfolding send_pending
  send_pending-Shrinks zero p p' h = ground arith
  send_pending-Shrinks (suc fuel) p p' h = elim (List-cases p.pending_request_stream_pool) [
    | inl e ↦ ground arith
    | inr (j, rest, e) ↦ elim (Bool-cases (has_room C p)) [
      | inr n ↦ ground arith
      | inl y ↦
          let q : Protocol H = record p {
            active_streams = p.active_streams +ℤ pos 1;
            pending_request_stream_pool = rest;
          } in
          elim (Option-cases (initiate_with C (send_pending C fuel) j q)) [
            | inl n ↦ absurd (ground arith)
            | inr (q', i) ↦
                let a =
                  initiate_with-Shrinks (send_pending C fuel) (send_pending-Shrinks fuel) j q q'
                    i in
                let b = send_pending-Shrinks fuel q' p' (ground arith) in ground (arith, e)
          ]
    ]
  ]

  -- Nothing is pending, or there is no room.
  abbrev pub Drained : Protocol H → Type 0
  Drained p = (p.pending_request_stream_pool ≡ []) ⊎ (has_room C p ≡ false)

  send_pending-Drained :
      (fuel : ℕ) (p p' : Protocol H)
      → pending p ≤ fuel
      → send_pending C fuel p ≡ some p'
      → Drained p'
  unfolding send_pending
  send_pending-Drained zero p p' f h = inl (ground arith)
  send_pending-Drained (suc fuel) p p' f h = elim (List-cases p.pending_request_stream_pool) [
    | inl e ↦ inl (ground arith)
    | inr (j, rest, e) ↦ elim (Bool-cases (has_room C p)) [
      | inr n ↦ let same : p ≡ p' = ground arith in inr (ap (has_room C) (sym same) ∙ n)
      | inl y ↦
          let q : Protocol H = record p {
            active_streams = p.active_streams +ℤ pos 1;
            pending_request_stream_pool = rest;
          } in
          elim (Option-cases (initiate_with C (send_pending C fuel) j q)) [
            | inl n ↦ absurd (ground arith)
            | inr (q', i) ↦
                let a =
                  initiate_with-Shrinks (send_pending C fuel) (send_pending-Shrinks fuel) j q q'
                    i in
                send_pending-Drained fuel q' p' (ground arith) (ground arith)
          ]
    ]
  ]

  -- However a stream is closed, with no KeyError raised: when it is done, no request is pending or
  -- there is no room for one, though the closing of streams with a wrong hostname runs the loop that
  -- sends the pending requests inside itself.
  pub close-Drained :
      (reason : StreamCloseReason) (k : ℕ) (p p' : Protocol H)
      → close C reason k p ≡ some p'
      → Drained p'
  unfolding close close_with pop_with change send_pending_requests has_room h2_connected
      allowed_max_concurrent_streams
  close-Drained reason k p p' h =
      let (q, popped, e) =
        map-some (change k (settle reason)) (pop_with C (send_pending_requests C) k p) p' h in
      elim (Bool-cases (contains k p.streams)) [
        | inr n ↦ absurd (ground arith)
        | inl y ↦
            let start : Protocol H = record p {
              streams = pop_key k p.streams;
              active_streams = p.active_streams -ℤ pos 1;
            } in
            subst Drained e
              (send_pending-Drained (pending p) start q (ground arith) (rw y at popped))
      ]
