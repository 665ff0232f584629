-- ===== src/Http2/Sending.antt =====
-- What a stream sends of the body of its request.
use mathlib.Core.Path.{subst}
use scrapy.Prelude.{
  ℕ, zero, suc, ◌+◌, ◌-◌, ◌≤◌, ◌<◌, ◌≡◌, refl, sym, ap, ◌∙◌, true, not, ◌&&◌, List, [], ◌∷◌, ◌++◌,
  if◌then◌else◌, ltb, nat_beq, arith, length, All, String, take, take-drop, drop, take-add,
  drop-add, concat, concat-append, append_assoc, append-nil, Bool-cases, inl, inr,
}
use scrapy.Http2.{
  Stream, Connection, min, send_chunk, send_chunks, end_if_sent, send_data, receive_window_update,
  send_request, new_stream,
}

-- The next `n` bytes of the body were sent, in chunks of at most `size`.
pub record Sends (size n : ℕ) (s s' : Stream) : Type 0 where
  pub new : List (List ℕ)
  pub appended : s'.sent ≡ s.sent ++ new
  pub content :
      concat new ≡ take n (drop (length s.request_body - s.remaining_content_length) s.request_body)
  pub bounded : All (λ chunk. length chunk ≤ size) new
  pub remaining : s'.remaining_content_length ≡ s.remaining_content_length - n
  pub same_body : s'.request_body ≡ s.request_body
  pub same_ended : s'.ended ≡ s.ended

length-take-le : (n : ℕ) (xs : List ℕ) → length (take n xs) ≤ n
length-take-le zero xs = ground arith
length-take-le (suc n) [] = ground arith
length-take-le (suc n) (x ∷ xs) = omega (arith, length-take-le n xs)

module _ {H : Type 0} (C : Connection H) where
  Sends-none : (size : ℕ) (s : Stream) → Sends size 0 s s
  Sends-none size s = record {
    new = [];
    appended = sym (append-nil s.sent);
    content = refl;
    bounded = tt;
    remaining = omega arith;
    same_body = refl;
    same_ended = refl;
  }

  Sends-chunk :
      (size c n : ℕ) (s s' : Stream) (h : H)
      → c ≤ size
      → c ≤ n
      → n ≤ s.remaining_content_length
      → s.remaining_content_length ≤ length s.request_body
      → Sends size (n - c) (send_chunk C c s h).0 s'
      → Sends size n s s'
  unfolding send_chunk
  Sends-chunk size c n s s' h small part enough within r =
      let start = length s.request_body - s.remaining_content_length in
      let chunk = take c (drop start s.request_body) in
      let next : length s.request_body - (s.remaining_content_length - c) ≡ start + c =
        omega arith in
      let whole : c + (n - c) ≡ n = omega arith in
      record {
        new = chunk ∷ r.new;
        appended = r.appended ∙ append_assoc s.sent (chunk ∷ []) r.new;
        content =
            ap (λ l. chunk ++ l)
              (r.content
                ∙ ap (λ k. take (n - c) (drop k s.request_body)) next
                ∙ ap (take (n - c)) (sym (drop-add start c s.request_body)))
            ∙ take-add c (n - c) (drop start s.request_body)
            ∙ ap (λ k. take k (drop start s.request_body)) whole;
        bounded = (let le = length-take-le c (drop start s.request_body) in omega arith, r.bounded);
        remaining = let same = r.remaining in omega arith;
        same_body = r.same_body;
        same_ended = r.same_ended;
      }

  send_chunks-Sends :
      (fuel size n : ℕ) (s : Stream) (h : H)
      → 0 < size
      → n ≤ fuel
      → n ≤ s.remaining_content_length
      → s.remaining_content_length ≤ length s.request_body
      → Sends size n s (send_chunks C fuel size n (s, h)).0
  unfolding send_chunks send_chunk
  send_chunks-Sends zero size n s h some fuelled enough within =
      let none_left : 0 ≡ n = omega arith in
      subst (λ k. Sends size k s s) none_left (Sends-none size s)
  send_chunks-Sends (suc fuel) size n s h some fuelled enough within =
      let c = min n size in
      elim (Bool-cases (ltb 0 n)) [
        | inr z ↦
            let none_left : 0 ≡ n = ground (arith, z) in
            rw z (subst (λ k. Sends size k s s) none_left (Sends-none size s))
        | inl y ↦ rw y (
            Sends-chunk size c n s (send_chunks C fuel size (n - c) (send_chunk C c s h)).0 h
              (ground arith) (ground arith) enough within
              (let (s', h') = send_chunk C c s h in
                send_chunks-Sends fuel size (n - c) s' h' some (ground arith) (ground arith)
                  (omega arith)))
      ]

  -- With frames of at least a byte, `send_data` ends, and on every branch: it sends the next bytes of
  -- the body, as many as the window lets it or as are left, in order and in chunks of at most a frame;
  -- what remains is what did not fit the window; and the stream is ended then exactly when nothing
  -- remains.
  pub send_data_lem :
      (s : Stream) (h : H)
      → 0 < C.max_outbound_frame_size h
      → s.remaining_content_length ≤ length s.request_body
      → let s' = (send_data C s h).0 in
        let window = C.local_flow_control_window s.stream_id h in
        (new : List (List ℕ)) × (s'.sent ≡ s.sent ++ new)
        × (concat new
            ≡ take
                (min window s.remaining_content_length)
                (drop (length s.request_body - s.remaining_content_length) s.request_body))
        × All (λ chunk. length chunk ≤ C.max_outbound_frame_size h) new
        × (s'.remaining_content_length ≡ s.remaining_content_length - window)
        × (s'.ended ≡ (if nat_beq s'.remaining_content_length 0 then suc s.ended else s.ended))
  unfolding send_data end_if_sent
  send_data_lem s h some within =
      let size = C.max_outbound_frame_size h in
      let n = min (C.local_flow_control_window s.stream_id h) s.remaining_content_length in
      let t = send_chunks C n size n (s, h) in
      let r : Sends size n s t.0 =
        send_chunks-Sends n size n s h some (omega arith) (ground arith) within in
      elim (Bool-cases (nat_beq t.0.remaining_content_length 0)) [
        | inl y ↦ rw y (
          r.new,
          r.appended,
          r.content,
          r.bounded,
          ground (arith, r.remaining),
          ground (arith, r.same_ended, y),
        )
        | inr m ↦ rw m (
          r.new,
          r.appended,
          r.content,
          r.bounded,
          ground (arith, r.remaining),
          ground (arith, r.same_ended, m),
        )
      ]

  -- What was sent is the part of the body that does not remain.
  record Sent (content : List ℕ) (s : Stream) : Type 0 where
    is_sent : s.request_sent ≡ true
    of_body : s.request_body ≡ content
    within : s.remaining_content_length ≤ length content
    prefix : concat s.sent ≡ take (length content - s.remaining_content_length) content
    once : s.ended ≡ (if nat_beq s.remaining_content_length 0 then 1 else 0)

  -- `send_data` changes what counts the sent bytes and ends, and nothing else.
  abbrev Apart {ℓ} : {A : Type ℓ} → (Stream → A) → Type ℓ
  Apart g =
      (s : Stream) (rem ended : ℕ) (sent : List (List ℕ))
      → g (record s { remaining_content_length = rem; ended = ended; sent = sent }) ≡ g s

  send_chunks-keeps {ℓ} :
      {A : Type ℓ} (g : Stream → A)
      → Apart g
      → (fuel size n : ℕ) (s : Stream × H) → g (send_chunks C fuel size n s).0 ≡ g s.0
  unfolding send_chunks send_chunk
  send_chunks-keeps g k zero size n s = refl
  send_chunks-keeps g k (suc fuel) size n (s, h) = elim (Bool-cases (ltb 0 n)) [
    | inr z ↦ rw z refl
    | inl y ↦
        let c = min n size in
        let (s', h') = send_chunk C c s h in
        rw y (
          send_chunks-keeps g k fuel size (n - c) (s', h')
          ∙ k s s'.remaining_content_length s'.ended s'.sent)
  ]

  pub send_data-keeps {ℓ} :
      {A : Type ℓ} (g : Stream → A) → Apart g → (s : Stream) (h : H) → g (send_data C s h).0 ≡ g s
  unfolding send_data end_if_sent
  send_data-keeps g k s h =
      let n = min (C.local_flow_control_window s.stream_id h) s.remaining_content_length in
      let t = send_chunks C n (C.max_outbound_frame_size h) n (s, h) in
      let same = send_chunks-keeps g k n (C.max_outbound_frame_size h) n (s, h) in
      elim (Bool-cases (nat_beq t.0.remaining_content_length 0)) [
        | inl y ↦ rw y (k t.0 t.0.remaining_content_length (suc t.0.ended) t.0.sent ∙ same)
        | inr m ↦ rw m same
      ]

  send_data-Sent :
      (s : Stream) (h : H) (content : List ℕ)
      → 0 < C.max_outbound_frame_size h
      → s.request_sent ≡ true
      → s.request_body ≡ content
      → s.remaining_content_length ≤ length content
      → s.ended ≡ 0
      → concat s.sent ≡ take (length content - s.remaining_content_length) content
      → Sent content (send_data C s h).0
  send_data-Sent s h content some sent of_body within none_ended before =
      let fits : s.remaining_content_length ≤ length s.request_body = ground arith in
      let (new, app, con, small, rem, e) = send_data_lem s h some fits in
      let b = send_data-keeps (λ x. x.request_body) (λ x rem ended sent. refl) s h in
      let q = send_data-keeps (λ x. x.request_sent) (λ x rem ended sent. refl) s h in
      let k = min (C.local_flow_control_window s.stream_id h) s.remaining_content_length in
      let start = length content - s.remaining_content_length in
      let upto : start + k
          ≡ length content
            - (s.remaining_content_length - C.local_flow_control_window s.stream_id h) =
        ground arith in
      record {
        is_sent = q ∙ sent;
        of_body = b ∙ of_body;
        within = ground arith;
        prefix =
            ap concat app
            ∙ concat-append s.sent new
            ∙ ap (λ l. l ++ concat new) before
            ∙ ap (λ l. take start content ++ l)
                (con ∙ ap (λ l. take k (drop (length l - s.remaining_content_length) l)) of_body)
            ∙ take-add start k content
            ∙ ap (λ j. take j content) (upto ∙ ap (λ j. length content - j) (sym rem));
        once = ground arith;
      }

  -- window updates, each with the connection as it then is
  abbrev pub updates : List H → Stream → Stream
  updates [] s = s
  updates (h ∷ hs) s = updates hs (receive_window_update C s h).0

  update-Sent :
      (content : List ℕ) (s : Stream) (h : H)
      → 0 < C.max_outbound_frame_size h
      → Sent content s
      → Sent content (receive_window_update C s h).0
  unfolding receive_window_update
  update-Sent content s h some w =
      elim (Bool-cases
        (ltb 0 s.remaining_content_length && not s.stream_closed_server && s.request_sent)) [
          | inr n ↦ rw n w
          | inl y ↦ rw y (
              send_data-Sent s h content some w.is_sent w.of_body w.within (ground (arith, w.once))
                w.prefix)
        ]

  updates-Sent :
      (content : List ℕ) (hs : List H) (s : Stream)
      → All (λ h. 0 < C.max_outbound_frame_size h) hs
      → Sent content s
      → Sent content (updates hs s)
  updates-Sent content [] s a w = w
  updates-Sent content (h ∷ hs) s (a, more) w =
      updates-Sent content hs (receive_window_update C s h).0 more (update-Sent content s h a w)

  -- Whatever the windows are at the request and at each later window update: the bytes that a stream
  -- has sent, in order, and those that remain are the body of its request; and it has ended the
  -- stream once when nothing remains, and not yet otherwise. Frames have at least a byte.
  pub updates-in_order :
      (i : ℕ) (netloc : String) (content : List ℕ) (maxsize warnsize : ℕ) (first : H)
      (later : List H)
      → 0 < C.max_outbound_frame_size (C.send_headers i first)
      → All (λ h. 0 < C.max_outbound_frame_size h) later
      → let s =
          updates later (send_request C (new_stream i netloc content maxsize warnsize) first).0 in
        (concat s.sent ++ drop (length content - s.remaining_content_length) content ≡ content)
        × (s.ended ≡ (if nat_beq s.remaining_content_length 0 then 1 else 0))
  unfolding send_request new_stream
  updates-in_order i netloc content maxsize warnsize first later some more =
      let s0 = record (new_stream i netloc content maxsize warnsize) { request_sent = true } in
      let none_yet : length content - length content ≡ 0 = omega arith in
      let w = updates-Sent content later (send_data C s0 (C.send_headers i first)).0 more (
        send_data-Sent s0 (C.send_headers i first) content some refl refl (omega arith) refl
          (sym (ap (λ n. take n content) none_yet))) in
      let s = updates later (send_data C s0 (C.send_headers i first)).0 in
      let start = length content - s.remaining_content_length in
      (ap (λ l. l ++ drop start content) w.prefix ∙ take-drop start content, w.once)
