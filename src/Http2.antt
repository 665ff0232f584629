-- ===== src/Http2.antt =====
-- core/_http2/stream.py: a stream of an HTTP/2 connection, which sends one request and builds one
-- response. The connection itself, hyper-h2's H2Connection, is an interface: what the code asks it
-- and what it tells it. A negative window is 0, and calls of it that raise are left out. A header
-- field of a response is known by what the code reads in it; a number that int() refuses is left out.
-- A deferred is the list of what it was fired with; `sent` and `ended` record the calls of
-- conn.send_data and conn.end_stream. A limit of 0 is no limit.
pub mod Protocol
mod Sending
mod Firing
mod Invariant
mod Once
mod RequestHeaders
mod Tests
mod Receiving
mod Limit
mod Pending
use scrapy.Prelude.{
  ℕ, zero, suc, ◌+◌, ◌-◌, Bool, true, false, ◌||◌, ◌&&◌, not, Option, none, some, List, [], ◌∷◌,
  ◌++◌, String, if◌then◌else◌, HasEq, ◌==◌, string_eq, ltb, leb, nat_beq, get_or, length, take,
  drop,
}

-- min(m, n)
abbrev pub min : ℕ → ℕ → ℕ
min m n = if leb m n then m else n

pub data StreamCloseReason : Type 0 where
  ended : StreamCloseReason
  reset : StreamCloseReason
  connection_lost : StreamCloseReason
  maxsize_exceeded : StreamCloseReason
  cancelled : StreamCloseReason
  inactive : StreamCloseReason
  invalid_hostname : StreamCloseReason
  maxsize_exceeded_actual : StreamCloseReason
  stop_download : StreamCloseReason

pub data HeaderField : Type 0 where
  status : ℕ → HeaderField
  content_length : ℕ → HeaderField
  other : String → String → HeaderField

pub record ResponseData : Type 0 where
  pub status : Option ℕ
  pub headers : List HeaderField
  pub body : List ℕ
  pub download_stopped : Bool

pub data Failure : Type 0 where
  download_cancelled : ℕ → Failure
  response_failed : StreamCloseReason → Failure
  invalid_hostname : Failure
  stopped : ResponseData → Failure

-- What the deferred of a stream is fired with.
pub data Outcome : Type 0 where
  callback : ResponseData → Outcome
  errback : Failure → Outcome

-- What the stream reads of its protocol's metadata.
pub record Peer : Type 0 where
  pub host : String
  pub netloc : String
  pub address : String

pub record Stream : Type 0 where
  pub stream_id : ℕ
  -- the request
  pub netloc : String
  pub request_body : List ℕ
  pub download_maxsize : ℕ
  pub download_warnsize : ℕ
  -- metadata
  pub request_sent : Bool
  pub reached_warnsize : Bool
  pub remaining_content_length : ℕ
  pub stream_closed_local : Bool
  pub stream_closed_server : Bool
  -- the response
  pub body : List ℕ
  pub flow_controlled_size : ℕ
  pub headers : List HeaderField
  pub status : Option ℕ
  -- the StopDownload that a signal handler raised, by its `fail`
  pub stopped : Option Bool
  pub fired : List Outcome
  pub sent : List (List ℕ)
  pub ended : ℕ

pub record Connection (H : Type 0) : Type 0 where
  pub local_flow_control_window : ℕ → H → ℕ
  pub max_outbound_frame_size : H → ℕ
  pub local_max_concurrent_streams : H → ℕ
  pub remote_max_concurrent_streams : H → ℕ
  pub send_headers : ℕ → H → H
  pub send_data : ℕ → List ℕ → H → H
  pub end_stream : ℕ → H → H
  pub reset_stream : ℕ → H → H
  pub acknowledge_received_data : ℕ → ℕ → H → H

-- Stream.__init__
unfoldable pub new_stream : ℕ → String → List ℕ → ℕ → ℕ → Stream
new_stream i netloc content maxsize warnsize = record {
  stream_id = i;
  netloc = netloc;
  request_body = content;
  download_maxsize = maxsize;
  download_warnsize = warnsize;
  request_sent = false;
  reached_warnsize = false;
  remaining_content_length = length content;
  stream_closed_local = false;
  stream_closed_server = false;
  body = [];
  flow_controlled_size = 0;
  headers = [];
  status = none;
  stopped = none;
  fired = [];
  sent = [];
  ended = 0;
}

unfoldable pub check_request_url : Peer → Stream → Bool
check_request_url p s = s.netloc == p.host || s.netloc == p.netloc || s.netloc == p.address

module _ {H : Type 0} (C : Connection H) where
  -- A round of the loop of send_data.
  unfoldable pub send_chunk : ℕ → Stream → H → Stream × H
  send_chunk chunk_size s h =
      let start = length s.request_body - s.remaining_content_length in
      let chunk = take chunk_size (drop start s.request_body) in
      (
        record s {
          remaining_content_length = s.remaining_content_length - chunk_size;
          sent = s.sent ++ chunk ∷ [];
        },
        C.send_data s.stream_id chunk h,
      )

  -- The loop, on fuel: `n` is bytes_to_send_size.
  unfoldable pub send_chunks : ℕ → ℕ → ℕ → Stream × H → Stream × H
  send_chunks zero max_frame_size n s = s
  send_chunks (suc fuel) max_frame_size n (s, h) =
      let chunk_size = min n max_frame_size in
      let rest = send_chunks fuel max_frame_size (n - chunk_size) (send_chunk chunk_size s h) in
      if ltb 0 n then rest else (s, h)

  -- The end of send_data: the stream is ended when nothing is left to send.
  unfoldable pub end_if_sent : Stream × H → Stream × H
  end_if_sent (s, h) =
      if nat_beq s.remaining_content_length 0
      then (record s { ended = suc s.ended }, C.end_stream s.stream_id h)
      else (s, h)

  unfoldable pub send_data : Stream → H → Stream × H
  send_data s h =
      let window_size = C.local_flow_control_window s.stream_id h in
      let n = min window_size s.remaining_content_length in
      end_if_sent (send_chunks n (C.max_outbound_frame_size h) n (s, h))

  unfoldable pub receive_window_update : Stream → H → Stream × H
  receive_window_update s h =
      if ltb 0 s.remaining_content_length && not s.stream_closed_server && s.request_sent
      then send_data s h
      else (s, h)

  -- initiate_request, when the URL is that of the connection
  unfoldable pub send_request : Stream → H → Stream × H
  send_request s h = send_data (record s { request_sent = true }) (C.send_headers s.stream_id h)

-- headers.get(b"Content-Length"): the last value
unfoldable pub content_length_of : List HeaderField → Option ℕ
content_length_of [] = none
content_length_of (content_length n ∷ hs) = some (get_or (content_length_of hs) n)
content_length_of (status n ∷ hs) = content_length_of hs
content_length_of (other k v ∷ hs) = content_length_of hs

unfoldable pub log_warnsize : Stream → Bool
log_warnsize s =
    ltb 0 s.download_warnsize
    && (ltb s.download_warnsize s.flow_controlled_size
        || ltb s.download_warnsize (get_or (content_length_of s.headers) 0))
    && not s.reached_warnsize

-- The two exits of receive_data that close the stream, and the amount that is acknowledged else.
pub data Verdict : Type 0 where
  reset_with : StreamCloseReason → Verdict
  acknowledge : ℕ → Verdict

-- `stop` is the StopDownload of a handler of bytes_received.
unfoldable pub receive_data : List ℕ → ℕ → Option Bool → Stream → Stream × Verdict
receive_data chunk flow_controlled_length stop s =
    let size = s.flow_controlled_size + flow_controlled_length in
    let s' = record s { body = s.body ++ chunk; flow_controlled_size = size } in
    elim stop [
      | some fail ↦ (record s' { stopped = some fail }, reset_with stop_download)
      | none ↦
          if ltb 0 s.download_maxsize && ltb s.download_maxsize size
          then (s', reset_with maxsize_exceeded_actual)
          else (
            record s' { reached_warnsize = s.reached_warnsize || log_warnsize s' },
            acknowledge size,
          )
    ]

-- The loop of receive_headers.
unfoldable pub add_headers : List HeaderField → Stream → Stream
add_headers [] s = s
add_headers (status n ∷ hs) s = add_headers hs (record s { status = some n })
add_headers (content_length n ∷ hs) s =
    add_headers hs (record s { headers = s.headers ++ content_length n ∷ [] })
add_headers (other k v ∷ hs) s = add_headers hs (record s { headers = s.headers ++ other k v ∷ [] })

unfoldable pub receive_headers :
    List HeaderField → Option Bool → Stream → Stream × Option StreamCloseReason
receive_headers hs stop s =
    let s' = add_headers hs s in
    elim stop [
      | some fail ↦ (record s' { stopped = some fail }, some stop_download)
      | none ↦
          if ltb 0 s.download_maxsize
            && ltb s.download_maxsize (get_or (content_length_of s'.headers) 0)
          then (s', some maxsize_exceeded)
          else (record s' { reached_warnsize = s.reached_warnsize || log_warnsize s' }, none)
    ]

unfoldable pub response_data : Bool → Stream → ResponseData
response_data flagged s = record {
  status = s.status;
  headers = s.headers;
  body = s.body;
  download_stopped = flagged;
}

-- make_response: a stopped download is flagged, and raises StopDownload when its `fail` is set
unfoldable pub outcome : Option Bool → Stream → Outcome
outcome none s = callback (response_data false s)
outcome (some false) s = callback (response_data true s)
outcome (some true) s = errback (stopped (response_data true s))

-- _fire_response_deferred
unfoldable pub fire_response : Stream → Stream
fire_response s = record s { fired = outcome s.stopped s ∷ s.fired }

unfoldable pub fail : Failure → Stream → Stream
fail e s = record s { fired = errback e ∷ s.fired }

-- `close` after the stream is out of its protocol's dict
unfoldable pub settle : StreamCloseReason → Stream → Stream
settle maxsize_exceeded s =
    fail (download_cancelled (get_or (content_length_of s.headers) s.flow_controlled_size))
      (record s { stream_closed_server = true })
settle maxsize_exceeded_actual s =
    fail (download_cancelled (get_or (content_length_of s.headers) s.flow_controlled_size))
      (record s { stream_closed_server = true })
settle ended s = fire_response (record s { stream_closed_server = true })
settle stop_download s = fire_response (record s { stream_closed_server = true })
settle cancelled s =
    fire_response (record s { stream_closed_server = true; status = some (get_or s.status 499) })
settle reset s = fail (response_failed reset) (record s { stream_closed_server = true })
settle connection_lost s =
    fail (response_failed connection_lost) (record s { stream_closed_server = true })
settle inactive s = fail (response_failed inactive) (record s { stream_closed_server = true })
settle invalid_hostname s = fail invalid_hostname (record s { stream_closed_server = true })

-- reset_stream, before its call of `close`: the body that was received is kept for a stopped
-- download only
unfoldable pub reset_local : StreamCloseReason → Stream → Stream
reset_local stop_download s = record s { stream_closed_local = true }
reset_local _ s = record s { stream_closed_local = true; body = [] }
