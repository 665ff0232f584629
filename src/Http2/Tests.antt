-- ===== src/Http2/Tests.antt =====
-- An HTTP/2 connection with frames of three bytes and a window of five, of which no state is kept.
use scrapy.Prelude.{
  String, ◌==◌, nat_eq, string_eq, ℕ, suc, ◌+◌, ◌-◌, ◌≤◌, ◌<◌, ◌≡◌, refl, Option, none, some, List,
  [], ◌∷◌, ◌++◌, if◌then◌else◌, arith, nat_beq, All, length, take, drop, concat,
}
use scrapy.Prelude.Int.{negsuc, ◌+ℤ◌, ◌-ℤ◌}
use scrapy.Http2.{
  Stream, StreamCloseReason, Peer, Connection, min, new_stream, send_chunk, send_chunks,
  end_if_sent, send_data, send_request, receive_window_update, check_request_url, receive_data,
  receive_headers, settle, fire_response, reset_local, outcome, response_data, add_headers, status,
  log_warnsize, content_length_of, fail,
}
use scrapy.Http2.RequestHeaders.{
  RequestParts, get_request_headers, values_of, get_request_headers_lem,
}
use scrapy.Http2.Sending.{send_data_lem, updates, updates-in_order}
use scrapy.Http2.Receiving.{acknowledged, amount, acknowledged-exceeds}
use scrapy.Http2.Protocol.{
  Protocol, Event, request, cancel, settings_acknowledged, data_received, response_received,
  stream_ended, step, run, new_protocol, request_stream, send_pending_requests, send_pending,
  has_room, h2_connected, allowed_max_concurrent_streams, initiate_with, close_with, pop_with,
  pop_key, change, if_open, data_handler, headers_handler, close, reset_stream, cancel_stream,
}
use scrapy.Http2.Firing.{firings, created}
use scrapy.Http2.Once.{open_streams, run-Fired}
use scrapy.Http2.Limit.{run-Within_limit}
use scrapy.Http2.Pending.{Drained, close-Drained}

abbrev small : Connection ℕ
small = record {
  local_flow_control_window = λ i h. 5;
  max_outbound_frame_size = λ h. 3;
  local_max_concurrent_streams = λ h. 1;
  remote_max_concurrent_streams = λ h. 100;
  send_headers = λ i h. h;
  send_data = λ i chunk h. h;
  end_stream = λ i h. h;
  reset_stream = λ i h. h;
  acknowledge_received_data = λ n i h. h;
}

abbrev seven : List ℕ
seven = 1 ∷ 2 ∷ 3 ∷ 4 ∷ 5 ∷ 6 ∷ 7 ∷ []

abbrev fresh : Stream
unfolding new_stream
fresh = new_stream 1 "example.com" seven 0 0

sent_twice :
    (updates small (0 ∷ []) (send_request small fresh 0).0).sent
    ≡ (1 ∷ 2 ∷ 3 ∷ []) ∷ (4 ∷ 5 ∷ []) ∷ (6 ∷ 7 ∷ []) ∷ []
unfolding fresh new_stream send_request send_data send_chunks send_chunk end_if_sent
    receive_window_update
sent_twice = refl

send_data_lem_example :
    let s' = (send_data small fresh 0).0 in
    (new : List (List ℕ)) × (s'.sent ≡ fresh.sent ++ new)
    × (concat new
        ≡ take
            (min 5 fresh.remaining_content_length)
            (drop (length fresh.request_body - fresh.remaining_content_length) fresh.request_body))
    × All (λ chunk. length chunk ≤ 3) new
    × (s'.remaining_content_length ≡ fresh.remaining_content_length - 5)
    × (s'.ended ≡ (if nat_beq s'.remaining_content_length 0 then suc fresh.ended else fresh.ended))
unfolding fresh new_stream
send_data_lem_example = send_data_lem small fresh 0 (omega arith) (omega arith)

updates-in_order_example :
    let s =
      updates small (0 ∷ []) (send_request small (new_stream 1 "example.com" seven 0 0) 0).0 in
    (concat s.sent ++ drop (length seven - s.remaining_content_length) seven ≡ seven)
    × (s.ended ≡ (if nat_beq s.remaining_content_length 0 then 1 else 0))
updates-in_order_example =
    updates-in_order small 1 "example.com" seven 0 0 0 (0 ∷ []) (omega arith) (omega arith, tt)

abbrev limited : Stream
unfolding new_stream
limited = new_stream 1 "example.com" [] 4 0

abbrev frames : List (List ℕ × ℕ)
frames = (1 ∷ 2 ∷ [], 2) ∷ (3 ∷ 4 ∷ [], 3) ∷ []

acknowledged-exceeds_example : amount frames < acknowledged frames fresh
unfolding fresh new_stream
acknowledged-exceeds_example =
    acknowledged-exceeds (1 ∷ 2 ∷ [], 2) (3 ∷ 4 ∷ [], 3) [] fresh refl (omega arith)

abbrev site : Peer
site = record { host = "example.com"; netloc = "example.com"; address = "10.0.0.1:443" }

-- Two requests over a connection that allows one stream; the second is answered after the first.
abbrev events : List (Event ℕ)
events =
    request "example.com" []
    ∷ request "example.com" []
    ∷ settings_acknowledged
    ∷ response_received 1 (status 200 ∷ []) none
    ∷ data_received 1 (7 ∷ []) 1 none
    ∷ stream_ended 1
    ∷ stream_ended 3
    ∷ []

abbrev ended : Option (Protocol ℕ) → Protocol ℕ
unfolding new_protocol
ended none = new_protocol 0 site 0 0
ended (some p) = p

abbrev done : Protocol ℕ
unfolding ended new_protocol run step request_stream send_pending_requests send_pending has_room
    h2_connected allowed_max_concurrent_streams initiate_with close_with pop_with pop_key change
    if_open data_handler headers_handler close reset_stream cancel_stream new_stream send_request
    send_data send_chunks send_chunk end_if_sent check_request_url receive_data receive_headers
    settle fire_response reset_local outcome response_data add_headers log_warnsize
    content_length_of fail ◌+ℤ◌ ◌-ℤ◌
done = ended (run small events (new_protocol 0 site 0 0))

run-events : run small events (new_protocol 0 site 0 0) ≡ some done
unfolding done ended new_protocol run step request_stream send_pending_requests send_pending
    has_room h2_connected allowed_max_concurrent_streams initiate_with close_with pop_with pop_key
    change if_open data_handler headers_handler close reset_stream cancel_stream new_stream
    send_request send_data send_chunks send_chunk end_if_sent check_request_url receive_data
    receive_headers settle fire_response reset_local outcome response_data add_headers log_warnsize
    content_length_of fail ◌+ℤ◌ ◌-ℤ◌
run-events = refl

run-Fired_example :
    firings (done.objects 3) + open_streams 3 done.streams ≡ created (done.objects 3)
run-Fired_example = run-Fired small 3 0 site 0 0 events done run-events

run-Within_limit_example : length done.streams ≤ 1 + length done.pending_request_stream_pool
run-Within_limit_example =
    run-Within_limit small 1 (λ h. omega arith) 0 site 0 0 events done run-events

-- The connection while its first stream is open.
abbrev busy : Protocol ℕ
unfolding ended new_protocol run step request_stream send_pending_requests send_pending has_room
    h2_connected allowed_max_concurrent_streams initiate_with close_with pop_with pop_key change
    if_open data_handler headers_handler close reset_stream cancel_stream new_stream send_request
    send_data send_chunks send_chunk end_if_sent check_request_url receive_data receive_headers
    settle fire_response reset_local outcome response_data add_headers log_warnsize
    content_length_of fail ◌+ℤ◌ ◌-ℤ◌
busy = ended (run small (take 3 events) (new_protocol 0 site 0 0))

abbrev closed : Protocol ℕ
unfolding busy ended new_protocol run step request_stream send_pending_requests send_pending
    has_room h2_connected allowed_max_concurrent_streams initiate_with close_with pop_with pop_key
    change if_open data_handler headers_handler close reset_stream cancel_stream new_stream
    send_request send_data send_chunks send_chunk end_if_sent check_request_url receive_data
    receive_headers settle fire_response reset_local outcome response_data add_headers log_warnsize
    content_length_of fail ◌+ℤ◌ ◌-ℤ◌
closed = ended (close small StreamCloseReason.reset 1 busy)

close-busy : close small StreamCloseReason.reset 1 busy ≡ some closed
unfolding busy closed ended new_protocol run step request_stream send_pending_requests send_pending
    has_room h2_connected allowed_max_concurrent_streams initiate_with close_with pop_with pop_key
    change if_open data_handler headers_handler close reset_stream cancel_stream new_stream
    send_request send_data send_chunks send_chunk end_if_sent check_request_url receive_data
    receive_headers settle fire_response reset_local outcome response_data add_headers log_warnsize
    content_length_of fail ◌+ℤ◌ ◌-ℤ◌
close-busy = refl

close-Drained_example : Drained small closed
close-Drained_example = close-Drained small StreamCloseReason.reset 1 busy closed close-busy

-- A request that is cancelled while it is pending is sent all the same when the connection is ready,
-- and `active_streams` is back at 0 then, though its stream is open at the peer.
abbrev cancelled_first : Protocol ℕ
unfolding ended new_protocol run step request_stream send_pending_requests send_pending has_room
    h2_connected allowed_max_concurrent_streams initiate_with close_with pop_with pop_key change
    if_open data_handler headers_handler close reset_stream cancel_stream new_stream send_request
    send_data send_chunks send_chunk end_if_sent check_request_url receive_data receive_headers
    settle fire_response reset_local outcome response_data add_headers log_warnsize
    content_length_of fail ◌+ℤ◌ ◌-ℤ◌
cancelled_first =
    ended (run small (request "example.com" [] ∷ cancel 1 ∷ []) (new_protocol 0 site 0 0))

cancelled_active : cancelled_first.active_streams ≡ negsuc 0
unfolding cancelled_first ended new_protocol run step request_stream send_pending_requests
    send_pending has_room h2_connected allowed_max_concurrent_streams initiate_with close_with
    pop_with pop_key change if_open data_handler headers_handler close reset_stream cancel_stream
    new_stream send_request send_data send_chunks send_chunk end_if_sent check_request_url
    receive_data receive_headers settle fire_response reset_local outcome response_data add_headers
    log_warnsize content_length_of fail ◌+ℤ◌ ◌-ℤ◌
cancelled_active = refl

cancelled_pending : cancelled_first.pending_request_stream_pool ≡ 1 ∷ []
unfolding cancelled_first ended new_protocol run step request_stream send_pending_requests
    send_pending has_room h2_connected allowed_max_concurrent_streams initiate_with close_with
    pop_with pop_key change if_open data_handler headers_handler close reset_stream cancel_stream
    new_stream send_request send_data send_chunks send_chunk end_if_sent check_request_url
    receive_data receive_headers settle fire_response reset_local outcome response_data add_headers
    log_warnsize content_length_of fail ◌+ℤ◌ ◌-ℤ◌
cancelled_pending = refl

abbrev posted : RequestParts
posted = record {
  method = "POST";
  url = record { scheme = "https"; netloc = "example.com"; path = ""; query = "q=1" };
  headers = ("Accept", "text/html" ∷ []) ∷ ("Content-Length", "99" ∷ []) ∷ [];
  body = seven;
}

-- Not the decimal form, but a text for each number.
abbrev number : ℕ → String
number n = if n == 7 then "7" else "?"

get_request_headers_lem_example :
    values_of "Content-Length" (get_request_headers number posted) ≡ number (length seven) ∷ []
get_request_headers_lem_example = get_request_headers_lem number "Content-Length" posted refl
