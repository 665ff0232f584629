-- ===== src/Http2/Protocol.antt =====
-- core/_http2/protocol.py: H2ClientProtocol, which shares a connection among its streams. A stream
-- object may be in the dict `streams` (its keys, in order), in the pool of pending requests, in both
-- or in neither, so the objects are a store of their own, by stream id. An operation whose result is
-- none has raised KeyError. The event of a connection is what conn.receive_data left of it. The time
-- limit, the certificate and what only loses the connection are left out, but for connectionLost.
use mathlib.Core.Option.{map as option_map}
use scrapy.Prelude.{
  ℕ, zero, suc, ◌+◌, Bool, true, false, ◌&&◌, Option, none, some, List, [], ◌∷◌, ◌++◌, String,
  if◌then◌else◌, ◌==◌, nat_eq, nat_beq, length, contains, updated,
}
use scrapy.Prelude.Int.{ℤ, pos, ◌+ℤ◌, ◌-ℤ◌, ltb_ℤ}
use scrapy.Http2.{
  Stream, StreamCloseReason, HeaderField, Peer, Connection, reset_with, acknowledge, min,
  new_stream, check_request_url, send_request, receive_window_update, receive_data, receive_headers,
  settle, reset_local,
}

pub record Protocol (H : Type 0) : Type 0 where
  pub conn : H
  pub peer : Peer
  pub next_id : ℕ
  pub streams : List ℕ
  pub pending_request_stream_pool : List ℕ
  pub objects : ℕ → Option Stream
  pub active_streams : ℤ
  -- transport.connected
  pub connected : Bool
  pub settings_acknowledged : Bool
  pub default_download_maxsize : ℕ
  pub default_download_warnsize : ℕ

pub data Event (H : Type 0) : Type 0 where
  received : H → Event H
  request : String → List ℕ → Event H
  cancel : ℕ → Event H
  settings_acknowledged : Event H
  data_received : ℕ → List ℕ → ℕ → Option Bool → Event H
  response_received : ℕ → List HeaderField → Option Bool → Event H
  stream_ended : ℕ → Event H
  stream_reset : ℕ → Event H
  -- of a stream, or of the connection for id 0
  window_updated : ℕ → Event H
  connection_lost : Event H

-- self.streams.pop(k), of the keys
unfoldable pub pop_key : ℕ → List ℕ → List ℕ
pop_key k [] = []
pop_key k (j ∷ ks) = if j == k then ks else j ∷ pop_key k ks

-- A change of the attributes of a stream object.
unfoldable pub change : {H : Type 0} → ℕ → (Stream → Stream) → Protocol H → Protocol H
change k f p = record p { objects = updated k (option_map f (p.objects k)) p.objects }

module _ {H : Type 0} (C : Connection H) where
  unfoldable pub h2_connected : Protocol H → Bool
  h2_connected p = p.connected && p.settings_acknowledged

  unfoldable pub allowed_max_concurrent_streams : Protocol H → ℕ
  allowed_max_concurrent_streams p =
      min (C.local_max_concurrent_streams p.conn) (C.remote_max_concurrent_streams p.conn)

  -- pop_stream, over _send_pending_requests
  unfoldable pub pop_with :
      (Protocol H → Option (Protocol H)) → ℕ → Protocol H → Option (Protocol H)
  pop_with send k p =
      if contains k p.streams
      then send
          (record p { streams = pop_key k p.streams; active_streams = p.active_streams -ℤ pos 1 })
      else none

  -- Stream.close, for a stream that it takes out of `streams`
  unfoldable pub close_with :
      (Protocol H → Option (Protocol H)) → StreamCloseReason → ℕ → Protocol H → Option (Protocol H)
  close_with send reason k p = option_map (change k (settle reason)) (pop_with send k p)

  -- Stream.initiate_request
  unfoldable pub initiate_with :
      (Protocol H → Option (Protocol H)) → ℕ → Protocol H → Option (Protocol H)
  initiate_with send k p = elim (p.objects k) [
    | none ↦ none
    | some s ↦
        let (s', h') = send_request C s p.conn in
        if check_request_url p.peer s
        then some (change k (λ _. s') (record p { conn = h' }))
        else close_with send StreamCloseReason.invalid_hostname k p
  ]

  -- The condition of the loop of _send_pending_requests, but for the pool.
  unfoldable pub has_room : Protocol H → Bool
  has_room p = ltb_ℤ p.active_streams (pos (allowed_max_concurrent_streams p)) && h2_connected p

  -- The loop, on fuel. A stream that is closed at once runs the loop again, inside.
  unfoldable pub send_pending : ℕ → Protocol H → Option (Protocol H)
  send_pending zero p = some p
  send_pending (suc fuel) p = elim p.pending_request_stream_pool [
    | [] ↦ some p
    | k ∷ rest ↦ elim (has_room p) [
      | false ↦ some p
      | true ↦
          elim (initiate_with (send_pending fuel) k (record p {
            active_streams = p.active_streams +ℤ pos 1;
            pending_request_stream_pool = rest;
          })) [ none ↦ none | some p' ↦ send_pending fuel p' ]
    ]
  ]

  -- _send_pending_requests
  unfoldable pub send_pending_requests : Protocol H → Option (Protocol H)
  send_pending_requests p = send_pending (length p.pending_request_stream_pool) p

  unfoldable pub close : StreamCloseReason → ℕ → Protocol H → Option (Protocol H)
  close = close_with send_pending_requests

  -- Stream.reset_stream
  unfoldable pub reset_stream : StreamCloseReason → ℕ → Protocol H → Option (Protocol H)
  reset_stream reason k p =
      close reason k (record (change k (reset_local reason) p) { conn = C.reset_stream k p.conn })

  -- _new_stream and `request`
  unfoldable pub request_stream : String → List ℕ → Protocol H → Option (Protocol H)
  request_stream netloc content p =
      let k = p.next_id in
      let s = new_stream k netloc content p.default_download_maxsize p.default_download_warnsize in
      send_pending_requests (record p {
        next_id = k + 2;
        streams = p.streams ++ k ∷ [];
        objects = updated k (some s) p.objects;
        pending_request_stream_pool = p.pending_request_stream_pool ++ k ∷ [];
      })

  -- The cancellation of a stream's deferred, which does nothing when it has fired; Stream._cancel
  unfoldable pub cancel_stream : ℕ → Protocol H → Option (Protocol H)
  cancel_stream k p = elim (p.objects k) [
    | none ↦ some p
    | some s ↦ elim s.fired [
      | o ∷ os ↦ some p
      | [] ↦
          if s.request_sent
          then reset_stream StreamCloseReason.cancelled k p
          else close StreamCloseReason.cancelled k p
    ]
  ]

  -- A handler that ignores the streams that are not in `streams`.
  unfoldable pub if_open :
      ℕ → (Stream → Protocol H → Option (Protocol H)) → Protocol H → Option (Protocol H)
  if_open k handler p =
      if contains k p.streams
      then elim (p.objects k) [ none ↦ none | some s ↦ handler s p ]
      else some p

  unfoldable pub data_handler :
      ℕ → List ℕ → ℕ → Option Bool → Stream → Protocol H → Option (Protocol H)
  data_handler k chunk n stop s p =
      let (s', verdict) = receive_data chunk n stop s in
      let p' = change k (λ _. s') p in
      elim verdict [
        | reset_with reason ↦ reset_stream reason k p'
        | acknowledge size ↦ some (record p' { conn = C.acknowledge_received_data size k p.conn })
      ]

  unfoldable pub headers_handler :
      ℕ → List HeaderField → Option Bool → Stream → Protocol H → Option (Protocol H)
  headers_handler k hs stop s p =
      let (s', verdict) = receive_headers hs stop s in
      let p' = change k (λ _. s') p in
      elim verdict [ none ↦ some p' | some reason ↦ reset_stream reason k p' ]

  unfoldable pub window_handler : ℕ → Stream → Protocol H → Option (Protocol H)
  window_handler k s p =
      let (s', h') = receive_window_update C s p.conn in
      some (change k (λ _. s') (record p { conn = h' }))

  -- The loop of window_updated over all streams.
  unfoldable pub update_all : List ℕ → Protocol H → Option (Protocol H)
  update_all [] p = some p
  update_all (k ∷ ks) p = elim (if_open k (window_handler k) p) [
    | none ↦ none
    | some p' ↦ update_all ks p'
  ]

  -- The loop of connectionLost.
  unfoldable pub lose_all : List ℕ → Protocol H → Protocol H
  lose_all [] p = p
  lose_all (k ∷ ks) p = lose_all ks (
      change k
        (λ s.
          settle
            (if s.request_sent
              then StreamCloseReason.connection_lost
              else StreamCloseReason.inactive)
            s)
        p)

  unfoldable pub lose_connection : Protocol H → Protocol H
  lose_connection p = record (lose_all p.streams p) {
    active_streams = p.active_streams -ℤ pos (length p.streams);
    streams = [];
    pending_request_stream_pool = [];
    connected = false;
  }

  unfoldable pub step : Event H → Protocol H → Option (Protocol H)
  step (received h) p = some (record p { conn = h })
  step (request netloc content) p = request_stream netloc content p
  step (cancel k) p = cancel_stream k p
  step settings_acknowledged p = send_pending_requests (record p { settings_acknowledged = true })
  step (data_received k chunk n stop) p = if_open k (data_handler k chunk n stop) p
  step (response_received k hs stop) p = if_open k (headers_handler k hs stop) p
  step (stream_ended k) p = if_open k (λ s. close StreamCloseReason.ended k) p
  step (stream_reset k) p = if_open k (λ s. close StreamCloseReason.reset k) p
  step (window_updated k) p =
      if nat_beq k 0
      then update_all p.streams p
      else (if contains k p.streams then if_open k (window_handler k) p else none)
  step connection_lost p = some (lose_connection p)

  unfoldable pub run : List (Event H) → Protocol H → Option (Protocol H)
  run [] p = some p
  run (x ∷ xs) p = elim (step x p) [ none ↦ none | some p' ↦ run xs p' ]

-- H2ClientProtocol.__init__, with the transport connected
unfoldable pub new_protocol : {H : Type 0} → H → Peer → ℕ → ℕ → Protocol H
new_protocol h peer maxsize warnsize = record {
  conn = h;
  peer = peer;
  next_id = 1;
  streams = [];
  pending_request_stream_pool = [];
  objects = λ k. none;
  active_streams = pos 0;
  connected = true;
  settings_acknowledged = false;
  default_download_maxsize = maxsize;
  default_download_warnsize = warnsize;
}
