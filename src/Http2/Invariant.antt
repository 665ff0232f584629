-- ===== src/Http2/Invariant.antt =====
-- How a property of the protocol's state is kept by its operations: over what keeps it at the places
-- where they change the state.
use mathlib.Core.Path.{subst}
use scrapy.Prelude.{
  map-some, String, ℕ, zero, suc, ◌⊎◌, ◌+◌, ◌≡◌, refl, ap, ◌∙◌, Bool, true, Option, some, List, [],
  ◌∷◌, ◌++◌, nat_eq, nat_beq, arith, length, contains, updated, Bool-cases, Option-cases,
  List-cases, inl, inr,
}
use scrapy.Prelude.Int.{◌+ℤ◌, ◌-ℤ◌, pos}
use scrapy.Http2.{
  Stream, StreamCloseReason, Connection, settle, reset_local, new_stream, send_request,
  receive_window_update, receive_data, receive_headers, HeaderField, Verdict, reset_with,
  acknowledge, check_request_url,
}
use scrapy.Http2.Protocol.{
  Protocol, Event, received, request, cancel, settings_acknowledged, data_received,
  response_received, stream_ended, stream_reset, window_updated, connection_lost, pop_key, change,
  pop_with, close_with, initiate_with, has_room, send_pending, send_pending_requests, close,
  reset_stream, request_stream, cancel_stream, if_open, data_handler, headers_handler,
  window_handler, update_all, lose_connection, step, run,
}
use scrapy.Http2.Firing.{
  reset_local-fired, receive_data-fired, receive_headers-fired, send_request-fired, window-fired,
}

Verdict-cases :
    (v : Verdict)
    → ((reason : StreamCloseReason) × (v ≡ reset_with reason)) ⊎ ((n : ℕ) × (v ≡ acknowledge n))
Verdict-cases (reset_with reason) = inl (reason, refl)
Verdict-cases (acknowledge n) = inr (n, refl)

-- `P d` is the property while `d` is owed, by streams that are out of `streams` and not settled yet.
pub record Keeps {H : Type 0} (C : Connection H) (owed : ℕ → ℕ) (P : ℕ → Protocol H → Type 0)
    : Type 0 where
  pub on_conn : (d : ℕ) (h : H) (p : Protocol H) → P d p → P d (record p { conn = h })
  pub on_change :
      (d j : ℕ) (f : Stream → Stream) (p : Protocol H)
      → ((s : Stream) → p.objects j ≡ some s → (f s).fired ≡ s.fired)
      → P d p
      → P d (change j f p)
  pub on_settle :
      (d j : ℕ) (reason : StreamCloseReason) (p : Protocol H)
      → P (d + owed j) p
      → P d (change j (settle reason) p)
  pub on_pop :
      (d j : ℕ) (p : Protocol H)
      → contains j p.streams ≡ true
      → P d p
      → P
          (d + owed j)
          (record p { streams = pop_key j p.streams; active_streams = p.active_streams -ℤ pos 1 })
  pub on_start :
      (d j : ℕ) (rest : List ℕ) (p : Protocol H)
      → p.pending_request_stream_pool ≡ j ∷ rest
      → has_room C p ≡ true
      → P d p
      → P d (record p {
        active_streams = p.active_streams +ℤ pos 1;
        pending_request_stream_pool = rest;
      })
  pub on_request :
      (d : ℕ) (s : Stream) (p : Protocol H)
      → s.fired ≡ []
      → P d p
      → P d (record p {
        next_id = p.next_id + 2;
        streams = p.streams ++ p.next_id ∷ [];
        objects = updated p.next_id (some s) p.objects;
        pending_request_stream_pool = p.pending_request_stream_pool ++ p.next_id ∷ [];
      })
  pub on_acknowledged : (p : Protocol H) → P 0 p → P 0 (record p { settings_acknowledged = true })
  pub on_lost : (p : Protocol H) → P 0 p → P 0 (lose_connection C p)

module _ {H : Type 0} (C : Connection H) (owed : ℕ → ℕ) (P : ℕ → Protocol H → Type 0)
    (I : Keeps C owed P) where
  abbrev Kept : (Protocol H → Option (Protocol H)) → Type 0
  Kept f = (d : ℕ) (p p' : Protocol H) → f p ≡ some p' → P d p → P d p'

  pop_with-owed :
      (send : Protocol H → Option (Protocol H))
      → Kept send
      → (d j : ℕ) (p p' : Protocol H) → pop_with C send j p ≡ some p'
      → P d p
      → P (d + owed j) p'
  unfolding pop_with
  pop_with-owed send kept d j p p' h w = elim (Bool-cases (contains j p.streams)) [
    | inr n ↦ absurd (ground arith)
    | inl y ↦
        kept (d + owed j)
          (record p { streams = pop_key j p.streams; active_streams = p.active_streams -ℤ pos 1 })
          p' (rw y at h) (I.on_pop d j p y w)
  ]

  close_with-Kept :
      (send : Protocol H → Option (Protocol H))
      → Kept send
      → (reason : StreamCloseReason) (j : ℕ) → Kept (close_with C send reason j)
  unfolding close_with
  close_with-Kept send kept reason j d p p' h w =
      let (q, popped, e) = map-some (change j (settle reason)) (pop_with C send j p) p' h in
      subst (P d) e (I.on_settle d j reason q (pop_with-owed send kept d j p q popped w))

  initiate_with-Kept :
      (send : Protocol H → Option (Protocol H))
      → Kept send
      → (j : ℕ) → Kept (initiate_with C send j)
  unfolding initiate_with
  initiate_with-Kept send kept j d p p' h w = elim (Option-cases (p.objects j)) [
    | inl n ↦ absurd (ground arith)
    | inr (s, y) ↦
        let (s', h') = send_request C s p.conn in
        let q : Protocol H = record p { conn = h' } in
        elim (Bool-cases (check_request_url p.peer s)) [
          | inl ok ↦
              let there : change j (λ _. s') q ≡ p' = ground arith in
              subst (P d) there (
                I.on_change d j (λ _. s') q
                  (λ t e.
                    let same : s ≡ t = ground arith in
                    send_request-fired C s p.conn ∙ ap (λ x. x.fired) same)
                  (I.on_conn d h' p w))
          | inr bad ↦
              close_with-Kept send kept StreamCloseReason.invalid_hostname j d p p' (ground arith) w
        ]
  ]

  send_pending-Kept : (fuel : ℕ) → Kept (send_pending C fuel)
  unfolding send_pending
  send_pending-Kept zero d p p' h w = let same : p ≡ p' = ground arith in subst (P d) same w
  send_pending-Kept (suc fuel) d p p' h w = elim (List-cases p.pending_request_stream_pool) [
    | inl e ↦ let same : p ≡ p' = ground arith in subst (P d) same w
    | inr (j, rest, e) ↦ elim (Bool-cases (has_room C p)) [
      | inr n ↦ let same : p ≡ p' = ground arith in subst (P d) same w
      | inl y ↦
          let q : Protocol H = record p {
            active_streams = p.active_streams +ℤ pos 1;
            pending_request_stream_pool = rest;
          } in
          elim (Option-cases (initiate_with C (send_pending C fuel) j q)) [
            | inl n ↦ absurd (ground arith)
            | inr (q', i) ↦ send_pending-Kept fuel d q' p' (ground arith) (
                initiate_with-Kept (send_pending C fuel) (send_pending-Kept fuel) j d q q' i
                  (I.on_start d j rest p e y w))
          ]
    ]
  ]

  send_pending_requests-Kept : Kept (send_pending_requests C)
  unfolding send_pending_requests
  send_pending_requests-Kept d p p' h w =
      send_pending-Kept (length p.pending_request_stream_pool) d p p' h w

  close-Kept : (reason : StreamCloseReason) (j : ℕ) → Kept (close C reason j)
  unfolding close
  close-Kept = close_with-Kept (send_pending_requests C) send_pending_requests-Kept

  reset_stream-Kept : (reason : StreamCloseReason) (j : ℕ) → Kept (reset_stream C reason j)
  unfolding reset_stream
  reset_stream-Kept reason j d p p' h w =
      let moved = I.on_change d j (reset_local reason) p (λ s e. reset_local-fired reason s) w in
      close-Kept reason j d
        (record (change j (reset_local reason) p) { conn = C.reset_stream j p.conn }) p' h
        (I.on_conn d (C.reset_stream j p.conn) (change j (reset_local reason) p) moved)

  -- A stream object put back with what it was fired with.
  put-Kept :
      (d j : ℕ) (s s' : Stream) (p : Protocol H)
      → p.objects j ≡ some s
      → s'.fired ≡ s.fired
      → P d p
      → P d (change j (λ _. s') p)
  put-Kept d j s s' p y same w =
      I.on_change d j (λ _. s') p
        (λ t e. same ∙ (let x : s ≡ t = ground arith in ap (λ z. z.fired) x)) w

  if_open-Kept :
      (j : ℕ) (handler : Stream → Protocol H → Option (Protocol H))
      → ((s : Stream) (d : ℕ) (p p' : Protocol H)
          → p.objects j ≡ some s
          → handler s p ≡ some p'
          → P d p
          → P d p')
      → Kept (if_open C j handler)
  unfolding if_open
  if_open-Kept j handler kept d p p' h w = elim (Bool-cases (contains j p.streams)) [
    | inr n ↦ let same : p ≡ p' = ground arith in subst (P d) same w
    | inl y ↦ elim (Option-cases (p.objects j)) [
      | inl n ↦ absurd (ground arith)
      | inr (s, e) ↦ kept s d p p' e (ground arith) w
    ]
  ]

  data_handler-Kept :
      (j : ℕ) (chunk : List ℕ) (n : ℕ) (stop : Option Bool) (s : Stream) (d : ℕ) (p p' : Protocol H)
      → p.objects j ≡ some s
      → data_handler C j chunk n stop s p ≡ some p'
      → P d p
      → P d p'
  unfolding data_handler
  data_handler-Kept j chunk n stop s d p p' y h w =
      let (s', verdict) = receive_data chunk n stop s in
      let q = change j (λ _. s') p in
      let moved = put-Kept d j s s' p y (receive_data-fired chunk n stop s) w in
      elim (Verdict-cases verdict) [
        | inl (reason, e) ↦ reset_stream-Kept reason j d q p' (ground arith) moved
        | inr (size, e) ↦
            let same : record q { conn = C.acknowledge_received_data size j p.conn } ≡ p' =
              ground arith in
            subst (P d) same (I.on_conn d (C.acknowledge_received_data size j p.conn) q moved)
      ]

  headers_handler-Kept :
      (j : ℕ) (hs : List HeaderField) (stop : Option Bool) (s : Stream) (d : ℕ) (p p' : Protocol H)
      → p.objects j ≡ some s
      → headers_handler C j hs stop s p ≡ some p'
      → P d p
      → P d p'
  unfolding headers_handler
  headers_handler-Kept j hs stop s d p p' y h w =
      let (s', verdict) = receive_headers hs stop s in
      let moved = put-Kept d j s s' p y (receive_headers-fired hs stop s) w in
      elim (Option-cases verdict) [
        | inl n ↦ let same : change j (λ _. s') p ≡ p' = ground arith in subst (P d) same moved
        | inr (reason, e) ↦
            reset_stream-Kept reason j d (change j (λ _. s') p) p' (ground arith) moved
      ]

  window_handler-Kept :
      (j : ℕ) (s : Stream) (d : ℕ) (p p' : Protocol H)
      → p.objects j ≡ some s
      → window_handler C j s p ≡ some p'
      → P d p
      → P d p'
  unfolding window_handler
  window_handler-Kept j s d p p' y h w =
      let (s', h') = receive_window_update C s p.conn in
      let same : change j (λ _. s') (record p { conn = h' }) ≡ p' = ground arith in
      subst (P d) same (
        put-Kept d j s s' (record p { conn = h' }) y (window-fired C s p.conn) (I.on_conn d h' p w))

  update_all-Kept : (ks : List ℕ) → Kept (update_all C ks)
  unfolding update_all
  update_all-Kept [] d p p' h w = let same : p ≡ p' = ground arith in subst (P d) same w
  update_all-Kept (j ∷ ks) d p p' h w = elim (Option-cases (if_open C j (window_handler C j) p)) [
    | inl n ↦ absurd (ground arith)
    | inr (q, e) ↦
        update_all-Kept ks d q p' (ground arith)
          (if_open-Kept j (window_handler C j) (window_handler-Kept j) d p q e w)
  ]

  request_stream-Kept :
      (netloc : String) (content : List ℕ) → Kept (request_stream C netloc content)
  unfolding request_stream new_stream
  request_stream-Kept netloc content d p p' h w =
      let s =
        new_stream p.next_id netloc content p.default_download_maxsize
          p.default_download_warnsize in
      send_pending_requests-Kept d
        (record p {
          next_id = p.next_id + 2;
          streams = p.streams ++ p.next_id ∷ [];
          objects = updated p.next_id (some s) p.objects;
          pending_request_stream_pool = p.pending_request_stream_pool ++ p.next_id ∷ [];
        })
        p' h (I.on_request d s p refl w)

  cancel_stream-Kept : (j : ℕ) → Kept (cancel_stream C j)
  unfolding cancel_stream
  cancel_stream-Kept j d p p' h w = elim (Option-cases (p.objects j)) [
    | inl n ↦ let same : p ≡ p' = ground arith in subst (P d) same w
    | inr (s, e) ↦ elim (List-cases s.fired) [
      | inr (o, os, f) ↦ let same : p ≡ p' = ground arith in subst (P d) same w
      | inl f ↦ elim (Bool-cases s.request_sent) [
        | inl y ↦ reset_stream-Kept StreamCloseReason.cancelled j d p p' (ground arith) w
        | inr n ↦ close-Kept StreamCloseReason.cancelled j d p p' (ground arith) w
      ]
    ]
  ]

  step-Kept : (x : Event H) → (p p' : Protocol H) → step C x p ≡ some p' → P 0 p → P 0 p'
  unfolding step
  step-Kept (received h) p p' e w =
      let same : record p { conn = h } ≡ p' = ground arith in subst (P 0) same (I.on_conn 0 h p w)
  step-Kept (request netloc content) p p' e w = request_stream-Kept netloc content 0 p p' e w
  step-Kept (cancel j) p p' e w = cancel_stream-Kept j 0 p p' e w
  step-Kept settings_acknowledged p p' e w =
      send_pending_requests-Kept 0 (record p { settings_acknowledged = true }) p' e
        (I.on_acknowledged p w)
  step-Kept (data_received j chunk n stop) p p' e w =
      if_open-Kept j (data_handler C j chunk n stop) (data_handler-Kept j chunk n stop) 0 p p' e w
  step-Kept (response_received j hs stop) p p' e w =
      if_open-Kept j (headers_handler C j hs stop) (headers_handler-Kept j hs stop) 0 p p' e w
  step-Kept (stream_ended j) p p' e w =
      if_open-Kept j (λ s. close C StreamCloseReason.ended j)
        (λ s d q q' there. close-Kept StreamCloseReason.ended j d q q') 0 p p' e w
  step-Kept (stream_reset j) p p' e w =
      if_open-Kept j (λ s. close C StreamCloseReason.reset j)
        (λ s d q q' there. close-Kept StreamCloseReason.reset j d q q') 0 p p' e w
  step-Kept (window_updated j) p p' e w = elim (Bool-cases (nat_beq j 0)) [
    | inl y ↦ update_all-Kept p.streams 0 p p' (ground arith) w
    | inr n ↦ elim (Bool-cases (contains j p.streams)) [
      | inr m ↦ absurd (ground arith)
      | inl m ↦ if_open-Kept j (window_handler C j) (window_handler-Kept j) 0 p p' (ground arith) w
    ]
  ]
  step-Kept connection_lost p p' e w =
      let same : lose_connection C p ≡ p' = ground arith in subst (P 0) same (I.on_lost p w)

  pub run-Kept : (xs : List (Event H)) (p p' : Protocol H) → run C xs p ≡ some p' → P 0 p → P 0 p'
  unfolding run
  run-Kept [] p p' e w = let same : p ≡ p' = ground arith in subst (P 0) same w
  run-Kept (x ∷ xs) p p' e w = elim (Option-cases (step C x p)) [
    | inl n ↦ absurd (ground arith)
    | inr (q, y) ↦ run-Kept xs q p' (ground arith) (step-Kept x p q y w)
  ]
