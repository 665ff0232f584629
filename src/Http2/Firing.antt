-- ===== src/Http2/Firing.antt =====
-- Which operations of a stream fire its deferred.
use mathlib.Core.Option.{map as option_map}
use scrapy.Prelude.{
  ℕ, suc, ◌⊎◌, ◌+◌, ◌*◌, ◌≡◌, refl, Bool, true, Option, none, some, List, [], ◌∷◌, ◌++◌, nat_eq,
  arith, length, inl, inr,
}
use scrapy.Http2.{
  Stream, StreamCloseReason, Connection, settle, fire_response, fail, reset_local, send_request,
  receive_window_update, receive_data, receive_headers, add_headers, HeaderField, status,
  content_length, other,
}
use scrapy.Http2.Sending.{send_data-keeps}

abbrev pub firings : Option Stream → ℕ
firings none = 0
firings (some s) = length s.fired

abbrev pub created : Option Stream → ℕ
created none = 0
created (some s) = 1

-- Every way to settle a stream fires its deferred once.
pub settle-fired :
    (reason : StreamCloseReason) (s : Stream)
    → length (settle reason s).fired ≡ suc (length s.fired)
unfolding settle fire_response fail
settle-fired StreamCloseReason.ended s = refl
settle-fired StreamCloseReason.reset s = refl
settle-fired StreamCloseReason.connection_lost s = refl
settle-fired StreamCloseReason.maxsize_exceeded s = refl
settle-fired StreamCloseReason.cancelled s = refl
settle-fired StreamCloseReason.inactive s = refl
settle-fired StreamCloseReason.invalid_hostname s = refl
settle-fired StreamCloseReason.maxsize_exceeded_actual s = refl
settle-fired StreamCloseReason.stop_download s = refl

pub reset_local-fired :
    (reason : StreamCloseReason) (s : Stream) → (reset_local reason s).fired ≡ s.fired
unfolding reset_local
reset_local-fired StreamCloseReason.ended s = refl
reset_local-fired StreamCloseReason.reset s = refl
reset_local-fired StreamCloseReason.connection_lost s = refl
reset_local-fired StreamCloseReason.maxsize_exceeded s = refl
reset_local-fired StreamCloseReason.cancelled s = refl
reset_local-fired StreamCloseReason.inactive s = refl
reset_local-fired StreamCloseReason.invalid_hostname s = refl
reset_local-fired StreamCloseReason.maxsize_exceeded_actual s = refl
reset_local-fired StreamCloseReason.stop_download s = refl

add_headers-fired : (hs : List HeaderField) (s : Stream) → (add_headers hs s).fired ≡ s.fired
unfolding add_headers
add_headers-fired [] s = refl
add_headers-fired (status n ∷ hs) s = add_headers-fired hs (record s { status = some n })
add_headers-fired (content_length n ∷ hs) s =
    add_headers-fired hs (record s { headers = s.headers ++ content_length n ∷ [] })
add_headers-fired (other i v ∷ hs) s =
    add_headers-fired hs (record s { headers = s.headers ++ other i v ∷ [] })

pub receive_data-fired :
    (chunk : List ℕ) (n : ℕ) (stop : Option Bool) (s : Stream)
    → (receive_data chunk n stop s).0.fired ≡ s.fired
unfolding receive_data
receive_data-fired chunk n (some f) s = refl
receive_data-fired chunk n none s = ground arith

pub receive_headers-fired :
    (hs : List HeaderField) (stop : Option Bool) (s : Stream)
    → (receive_headers hs stop s).0.fired ≡ s.fired
unfolding receive_headers
receive_headers-fired hs (some f) s = add_headers-fired hs s
receive_headers-fired hs none s = ground (arith, add_headers-fired hs s)

pub firings-map :
    (n : ℕ) (o : Option Stream) (f : Stream → Stream)
    → ((s : Stream) → o ≡ some s → length (f s).fired ≡ n + length s.fired)
    → firings (option_map f o) ≡ n * created o + firings o
firings-map n none f same = omega arith
firings-map n (some s) f same = omega (arith, same s refl)

pub created-map : (o : Option Stream) (f : Stream → Stream) → created (option_map f o) ≡ created o
created-map none f = refl
created-map (some s) f = refl

pub created-cases : (o : Option Stream) → (created o ≡ 0) ⊎ (created o ≡ 1)
created-cases none = inl refl
created-cases (some s) = inr refl

module _ {H : Type 0} (C : Connection H) where
  pub send_request-fired : (s : Stream) (h : H) → (send_request C s h).0.fired ≡ s.fired
  unfolding send_request
  send_request-fired s h =
      send_data-keeps C (λ x. x.fired) (λ x rem ended sent. refl) (record s { request_sent = true })
        (C.send_headers s.stream_id h)

  pub window-fired : (s : Stream) (h : H) → (receive_window_update C s h).0.fired ≡ s.fired
  unfolding receive_window_update
  window-fired s h = ground (arith, send_data-keeps C (λ x. x.fired) (λ x rem ended sent. refl) s h)
