-- ===== src/Http2/Receiving.antt =====
-- What a stream does with the frames of its response's body.
use scrapy.Prelude.{
  ℕ, ◌⊎◌, ◌+◌, ◌≤◌, ◌<◌, ◌≡◌, refl, ap, ◌∙◌, sym, Bool, true, false, ◌&&◌, Option, none, some, List,
  [], ◌∷◌, ◌++◌, map, append_assoc, append-nil, if◌then◌else◌, ltb, arith, total, concat,
  Bool-cases, inl, inr,
}
use scrapy.Http2.{Stream, StreamCloseReason, reset_with, acknowledge, receive_data}

-- Frames, each with the amount that counts against the flow control window, until one of them
-- resets the stream.
abbrev pub receive_all : List (List ℕ × ℕ) → Stream → Stream × Option StreamCloseReason
receive_all [] s = (s, none)
receive_all ((chunk, n) ∷ fs) s =
    let (s', v) = receive_data chunk n none s in
    elim v [ reset_with reason ↦ (s', some reason) | acknowledge size ↦ receive_all fs s' ]

-- What is acknowledged of the frames.
abbrev pub acknowledged : List (List ℕ × ℕ) → Stream → ℕ
acknowledged [] s = 0
acknowledged ((chunk, n) ∷ fs) s =
    let (s', v) = receive_data chunk n none s in
    elim v [ reset_with reason ↦ 0 | acknowledge size ↦ size + acknowledged fs s' ]

abbrev pub amount : List (List ℕ × ℕ) → ℕ
amount = total (λ f. f.1)

abbrev pub exceeds : ℕ → Stream → Bool
exceeds n s = ltb 0 s.download_maxsize && ltb s.download_maxsize (s.flow_controlled_size + n)

-- A frame within the limit is added to the body and acknowledged.
receive_data-accepted :
    (chunk : List ℕ) (n : ℕ) (s : Stream)
    → exceeds n s ≡ false
    → let (s', v) = receive_data chunk n none s in
      (v ≡ acknowledge (s.flow_controlled_size + n))
      × (s'.flow_controlled_size ≡ s.flow_controlled_size + n)
      × (s'.body ≡ s.body ++ chunk)
      × (s'.download_maxsize ≡ s.download_maxsize)
unfolding receive_data
receive_data-accepted chunk n s h = rw h (refl, refl, refl, refl)

receive_data-refused :
    (chunk : List ℕ) (n : ℕ) (s : Stream)
    → exceeds n s ≡ true
    → (receive_data chunk n none s).1 ≡ reset_with StreamCloseReason.maxsize_exceeded_actual
unfolding receive_data
receive_data-refused chunk n s h = rw h refl

-- Frames for a stream within its limit, with no handler that stops the download: they reset the
-- stream, with the reason of an exceeded maximum, exactly when there is a limit and their amounts
-- exceed it; and otherwise its body is what it was with the frames' data, in order.
pub receive_all-body :
    (fs : List (List ℕ × ℕ)) (s : Stream)
    → exceeds 0 s ≡ false
    → ((receive_all fs s).1
        ≡ (if exceeds (amount fs) s then some StreamCloseReason.maxsize_exceeded_actual else none))
      × ((exceeds (amount fs) s ≡ true)
          ⊎ ((receive_all fs s).0.body ≡ s.body ++ concat (map (λ f. f.0) fs)))
receive_all-body [] s h =
    let same : exceeds (amount []) s ≡ false = h in (rw same refl, inr (sym (append-nil s.body)))
receive_all-body ((chunk, n) ∷ fs) s h =
    let s' : Stream = (receive_data chunk n none s).0 in
    elim (Bool-cases (exceeds n s)) [
      | inl y ↦
          let more : exceeds (n + amount fs) s ≡ true = ground arith in
          rw (receive_data-refused chunk n s y, receive_all) (rw more (refl, inl refl))
      | inr m ↦
          let (v, size, content, limit) = receive_data-accepted chunk n s m in
          let within : exceeds 0 s' ≡ false = ground (arith, m) in
          let (reset, body) = receive_all-body fs s' within in
          let same : exceeds (amount fs) s' ≡ exceeds (n + amount fs) s = ground arith in
          rw (v, receive_all)
            (
              reset
                  ∙ ap (λ b. if b then some StreamCloseReason.maxsize_exceeded_actual else none)
                      same,
              elim body [
                | inl y ↦ inl (sym same ∙ y)
                | inr e ↦ inr (
                    e
                    ∙ ap (λ l. l ++ concat (map (λ f. f.0) fs)) content
                    ∙ append_assoc s.body chunk (concat (map (λ f. f.0) fs)))
              ],
            )
    ]

no_limit : (n : ℕ) (s : Stream) → s.download_maxsize ≡ 0 → exceeds n s ≡ false
no_limit n s h = ground arith

acknowledged-next :
    (chunk : List ℕ) (n : ℕ) (fs : List (List ℕ × ℕ)) (s : Stream)
    → s.download_maxsize ≡ 0
    → acknowledged ((chunk, n) ∷ fs) s
      ≡ s.flow_controlled_size + n + acknowledged fs (receive_data chunk n none s).0
acknowledged-next chunk n fs s h =
    rw ((receive_data-accepted chunk n s (no_limit n s h)).0, acknowledged) refl

acknowledged-amount :
    (fs : List (List ℕ × ℕ)) (s : Stream) → s.download_maxsize ≡ 0 → amount fs ≤ acknowledged fs s
acknowledged-amount [] s h = omega arith
acknowledged-amount ((chunk, n) ∷ fs) s h =
    let (v, size, content, limit) = receive_data-accepted chunk n s (no_limit n s h) in
    let next = acknowledged-next chunk n fs s h in
    let rest = acknowledged-amount fs (receive_data chunk n none s).0 (limit ∙ h) in omega arith

-- Without a limit, two frames or more acknowledge more than they hold, when the first one counts
-- against the window.
pub acknowledged-exceeds :
    (f g : List ℕ × ℕ) (fs : List (List ℕ × ℕ)) (s : Stream)
    → s.download_maxsize ≡ 0
    → 0 < f.1
    → amount (f ∷ g ∷ fs) < acknowledged (f ∷ g ∷ fs) s
acknowledged-exceeds f g fs s h p =
    let (v, size, content, limit) = receive_data-accepted f.0 f.1 s (no_limit f.1 s h) in
    let s' = (receive_data f.0 f.1 none s).0 in
    let (v', size', content', limit') =
      receive_data-accepted g.0 g.1 s' (no_limit g.1 s' (limit ∙ h)) in
    let first = acknowledged-next f.0 f.1 (g ∷ fs) s h in
    let second = acknowledged-next g.0 g.1 fs s' (limit ∙ h) in
    let rest = acknowledged-amount fs (receive_data g.0 g.1 none s').0 (limit' ∙ limit ∙ h) in
    omega arith
