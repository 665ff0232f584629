-- ===== src/Http11/Laws.antt =====
-- A response of HTTP/1.1 is delivered once, with the body that was received, within its limit.
use mathlib.Core.Path.{subst}
use scrapy.Prelude.{
  ℕ, ◌⊎◌, ◌+◌, ◌≡◌, refl, sym, ap, ◌∙◌, Bool, true, false, not, ◌&&◌, Option, none, some, List, [],
  ◌∷◌, ◌++◌, if◌then◌else◌, ltb, length, length-append, concat, append_assoc, append-nil, arith,
  inl, inr, Bool-cases, Option-cases, List-cases,
}
use scrapy.Http11.{
  ResponseReader, Outcome, finish, errback, cancelled, partial, dataloss, data_loss_error, lost,
  Reason, response_done, potential_data_loss, response_failed, other_reason, Event, receive,
  lose_connection, cancel_download, new_reader, called, fire, finish_response, cancel,
  check_maxsize, check_warnsize, data_received, lose, connection_lost, step, run,
}

abbrev pub exceeds : ℕ → ℕ → Bool
exceeds maxsize n = ltb 0 maxsize && ltb maxsize n

-- A body is within the limit, or the download was stopped.
abbrev pub Fits : ℕ → Outcome → Type 0
Fits maxsize (finish body flags none) = exceeds maxsize (length body) ≡ false
Fits maxsize (finish body flags (some fail)) = Unit
Fits maxsize (errback e) = Unit

abbrev pub Delivered : ℕ → List Outcome → Type 0
Delivered maxsize [] = Unit
Delivered maxsize (o ∷ []) = Fits maxsize o
Delivered maxsize (o ∷ p ∷ os) = ⊥

-- The state of a reader between its events.
record Reads (m : ℕ) (r : ResponseReader) : Type 0 where
  limit : r.maxsize ≡ m
  delivered : Delivered m r.finished
  counted :
      (called r ≡ true)
      ⊎ ((length r.bodybuf ≡ r.bytes_received) × (exceeds m (length r.bodybuf) ≡ false))

unfired : (r : ResponseReader) → called r ≡ false → r.finished ≡ []
unfolding called
unfired r h = elim (List-cases r.finished) [ inl e ↦ e | inr (o, os, e) ↦ absurd (ground arith) ]

called_fire : (o : Outcome) (r : ResponseReader) → called (fire o r) ≡ true
unfolding called fire
called_fire o r = refl

check_warnsize-Reads : (m : ℕ) (r : ResponseReader) → Reads m r → Reads m (check_warnsize r)
unfolding check_warnsize called
check_warnsize-Reads m r w =
    elim (Bool-cases
      (ltb 0 r.warnsize && ltb r.warnsize r.bytes_received && not r.reached_warnsize)) [
        | inl y ↦ rw y (record { limit = w.limit; delivered = w.delivered; counted = w.counted })
        | inr n ↦ rw n w
      ]

fire-Reads :
    (m : ℕ) (o : Outcome) (r : ResponseReader)
    → r.finished ≡ []
    → r.maxsize ≡ m
    → Fits m o
    → Reads m (fire o r)
unfolding fire called
fire-Reads m o r h limit fits = record { limit = limit; delivered = rw h fits; counted = inl refl }

cancel_unfired : (r : ResponseReader) → r.finished ≡ [] → cancel r ≡ fire (errback cancelled) r
unfolding cancel called
cancel_unfired r h = rw h refl

check_maxsize-Reads :
    (m : ℕ) (r : ResponseReader)
    → r.finished ≡ []
    → r.maxsize ≡ m
    → length r.bodybuf ≡ r.bytes_received
    → Reads m (check_maxsize r)
unfolding check_maxsize called
check_maxsize-Reads m r h limit count =
    elim (Bool-cases (ltb 0 r.maxsize && ltb r.maxsize r.bytes_received)) [
      | inl y ↦
          let q : ResponseReader = record r { bodybuf = [] } in
          rw y (
            subst (Reads m) (sym (cancel_unfired q h))
              (fire-Reads m (errback cancelled) q h limit tt))
      | inr n ↦ rw n (record {
        limit = limit;
        delivered = rw h tt;
        counted = inr (count, ground (arith, n, limit, count));
      })
    ]

-- A stopped download has been delivered, and the check of its size changes nothing that matters.
check_maxsize-fired :
    (m : ℕ) (r : ResponseReader) → called r ≡ true → Reads m r → Reads m (check_maxsize r)
unfolding check_maxsize cancel called
check_maxsize-fired m r h w =
    elim (Bool-cases (ltb 0 r.maxsize && ltb r.maxsize r.bytes_received)) [
      | inl y ↦ rw (y, h) (record { limit = w.limit; delivered = w.delivered; counted = inl h })
      | inr n ↦ rw n w
    ]

data_received-Reads :
    (m : ℕ) (chunk : List ℕ) (stop : Option Bool) (r : ResponseReader)
    → Reads m r
    → Reads m (data_received chunk stop r)
unfolding data_received finish_response
data_received-Reads m chunk stop r w = elim (Bool-cases (called r)) [
  | inl y ↦ rw y w
  | inr n ↦
      let r1 : ResponseReader = record r {
        bodybuf = r.bodybuf ++ chunk;
        bytes_received = r.bytes_received + length chunk;
      } in
      let start = unfired r n in
      let count : length r1.bodybuf ≡ r1.bytes_received =
        ground (arith, w.counted, n, length-append r.bodybuf chunk) in
      elim (Option-cases stop) [
        | inl e ↦
            rw (n, e)
              (check_warnsize-Reads m (check_maxsize r1)
                (check_maxsize-Reads m r1 start w.limit count))
        | inr (f, e) ↦
            let r2 = fire (finish r1.bodybuf [] (some f)) r1 in
            let stopped = fire-Reads m (finish r1.bodybuf [] (some f)) r1 start w.limit tt in
            rw (n, e)
              (check_warnsize-Reads m (check_maxsize r2)
                (check_maxsize-fired m r2 (called_fire (finish r1.bodybuf [] (some f)) r1) stopped))
      ]
]

fitting :
    (m : ℕ) (r : ResponseReader)
    → called r ≡ false
    → Reads m r
    → exceeds m (length r.bodybuf) ≡ false
fitting m r n w = ground (arith, w.counted, n)

if-Reads :
    (m : ℕ) (b : Bool) (q r : ResponseReader) → Reads m q → Reads m r → Reads m (if b then q else r)
if-Reads m true q r v w = v
if-Reads m false q r v w = w

lose-Reads :
    (m : ℕ) (reason : Reason) (r : ResponseReader)
    → called r ≡ false
    → Reads m r
    → Reads m (lose reason r)
unfolding lose finish_response
lose-Reads m response_done r n w =
    fire-Reads m (finish r.bodybuf [] none) r (unfired r n) w.limit (fitting m r n w)
lose-Reads m potential_data_loss r n w =
    fire-Reads m (finish r.bodybuf (partial ∷ []) none) r (unfired r n) w.limit (fitting m r n w)
lose-Reads m (response_failed true) r n w =
    if-Reads m r.fail_on_dataloss (fire (errback data_loss_error) r)
      (fire (finish r.bodybuf (dataloss ∷ []) none) r)
      (fire-Reads m (errback data_loss_error) r (unfired r n) w.limit tt)
      (fire-Reads m (finish r.bodybuf (dataloss ∷ []) none) r (unfired r n) w.limit
        (fitting m r n w))
lose-Reads m (response_failed false) r n w =
    fire-Reads m (errback (lost (response_failed false))) r (unfired r n) w.limit tt
lose-Reads m other_reason r n w =
    fire-Reads m (errback (lost other_reason)) r (unfired r n) w.limit tt

step-Reads : (m : ℕ) (x : Event) (r : ResponseReader) → Reads m r → Reads m (step x r)
unfolding step connection_lost cancel
step-Reads m (receive chunk stop) r w = data_received-Reads m chunk stop r w
step-Reads m (lose_connection reason) r w = elim (Bool-cases (called r)) [
  | inl y ↦ rw y w
  | inr n ↦ rw n (lose-Reads m reason r n w)
]
step-Reads m cancel_download r w = elim (Bool-cases (called r)) [
  | inl y ↦ rw y w
  | inr n ↦ rw n (fire-Reads m (errback cancelled) r (unfired r n) w.limit tt)
]

run-Reads : (m : ℕ) (xs : List Event) (r : ResponseReader) → Reads m r → Reads m (run xs r)
unfolding run
run-Reads m [] r w = w
run-Reads m (x ∷ xs) r w = run-Reads m xs (step x r) (step-Reads m x r w)

-- Over any data, losses of the connection and cancellations, in any order: the deferred of a body is
-- fired at most once, and a body that it is fired with is within the maximum size, unless a signal
-- handler stopped the download.
pub run-Delivered :
    (m warnsize : ℕ) (fail_on_dataloss reached : Bool) (xs : List Event)
    → Delivered m (run xs (new_reader m warnsize fail_on_dataloss reached)).finished
unfolding new_reader called
run-Delivered m warnsize fail_on_dataloss reached xs =
    let w =
      run-Reads m xs (new_reader m warnsize fail_on_dataloss reached)
        (record { limit = refl; delivered = tt; counted = inr (refl, ground arith) }) in
    w.delivered

-- The outcome of a body that was received up to the end of its connection.
abbrev pub ending : Reason → Bool → List ℕ → Outcome
ending response_done fail_on_dataloss body = finish body [] none
ending potential_data_loss fail_on_dataloss body = finish body (partial ∷ []) none
ending (response_failed true) fail_on_dataloss body =
    if fail_on_dataloss then errback data_loss_error else finish body (dataloss ∷ []) none
ending (response_failed false) fail_on_dataloss body = errback (lost (response_failed false))
ending other_reason fail_on_dataloss body = errback (lost other_reason)

abbrev pub transfer : List (List ℕ) → Reason → ResponseReader → ResponseReader
transfer [] reason r = connection_lost reason r
transfer (chunk ∷ chunks) reason r = transfer chunks reason (data_received chunk none r)

transfer_called :
    (chunks : List (List ℕ)) (reason : Reason) (r : ResponseReader)
    → called r ≡ true
    → transfer chunks reason r ≡ r
unfolding connection_lost data_received
transfer_called [] reason r h = rw h refl
transfer_called (chunk ∷ chunks) reason r h =
    let same : data_received chunk none r ≡ r = rw h refl in
    ap (transfer chunks reason) same ∙ transfer_called chunks reason r h

check_warnsize-keeps {ℓ} :
    {A : Type ℓ} (g : ResponseReader → A)
    → ((r : ResponseReader) (b : Bool) → g (record r { reached_warnsize = b }) ≡ g r)
    → (r : ResponseReader) → g (check_warnsize r) ≡ g r
unfolding check_warnsize
check_warnsize-keeps g k r =
    elim (Bool-cases
      (ltb 0 r.warnsize && ltb r.warnsize r.bytes_received && not r.reached_warnsize)) [
        | inl y ↦ rw y (k r true)
        | inr n ↦ rw n refl
      ]

lose-ending :
    (reason : Reason) (r : ResponseReader)
    → r.finished ≡ []
    → (lose reason r).finished ≡ ending reason r.fail_on_dataloss r.bodybuf ∷ []
unfolding lose finish_response fire
lose-ending response_done r h = rw h refl
lose-ending potential_data_loss r h = rw h refl
lose-ending (response_failed true) r h = ground (arith, h)
lose-ending (response_failed false) r h = rw h refl
lose-ending other_reason r h = rw h refl

data_received-accepted :
    (chunk : List ℕ) (r : ResponseReader)
    → r.finished ≡ []
    → exceeds r.maxsize (r.bytes_received + length chunk) ≡ false
    → let q = data_received chunk none r in
      (q.finished ≡ [])
      × (q.maxsize ≡ r.maxsize)
      × (q.bodybuf ≡ r.bodybuf ++ chunk)
      × (q.bytes_received ≡ r.bytes_received + length chunk)
      × (q.fail_on_dataloss ≡ r.fail_on_dataloss)
unfolding data_received check_maxsize called
data_received-accepted chunk r h n =
    let r1 : ResponseReader = record r {
      bodybuf = r.bodybuf ++ chunk;
      bytes_received = r.bytes_received + length chunk;
    } in
    let q = check_warnsize r1 in
    let same : data_received chunk none r ≡ q = rw (h, n) refl in
    (
      ap (λ x. x.finished) same ∙ check_warnsize-keeps (λ x. x.finished) (λ x b. refl) r1 ∙ h,
      ap (λ x. x.maxsize) same ∙ check_warnsize-keeps (λ x. x.maxsize) (λ x b. refl) r1,
      ap (λ x. x.bodybuf) same ∙ check_warnsize-keeps (λ x. x.bodybuf) (λ x b. refl) r1,
      ap (λ x. x.bytes_received) same
          ∙ check_warnsize-keeps (λ x. x.bytes_received) (λ x b. refl) r1,
      ap (λ x. x.fail_on_dataloss) same
          ∙ check_warnsize-keeps (λ x. x.fail_on_dataloss) (λ x b. refl) r1,
    )

data_received-refused :
    (chunk : List ℕ) (r : ResponseReader)
    → r.finished ≡ []
    → exceeds r.maxsize (r.bytes_received + length chunk) ≡ true
    → (data_received chunk none r).finished ≡ errback cancelled ∷ []
unfolding data_received check_maxsize called fire
data_received-refused chunk r h y =
    let r1 : ResponseReader = record r {
      bodybuf = [];
      bytes_received = r.bytes_received + length chunk;
    } in
    let q = check_warnsize (cancel r1) in
    let same : data_received chunk none r ≡ q = rw (h, y) refl in
    ap (λ x. x.finished) same
    ∙ check_warnsize-keeps (λ x. x.finished) (λ x b. refl) (cancel r1)
    ∙ ap (λ x. x.finished) (cancel_unfired r1 h)
    ∙ ap (λ l. errback cancelled ∷ l) h

unfired-called : (r : ResponseReader) → r.finished ≡ [] → called r ≡ false
unfolding called
unfired-called r h = rw h refl

connection_lost_unfired :
    (reason : Reason) (r : ResponseReader)
    → r.finished ≡ []
    → connection_lost reason r ≡ lose reason r
unfolding connection_lost
connection_lost_unfired reason r h = rw (unfired-called r h) refl

fired-called : (o : Outcome) (r : ResponseReader) → r.finished ≡ o ∷ [] → called r ≡ true
unfolding called
fired-called o r h = rw h refl

-- The outcome of a whole transfer, by the maximum size, what the code does on data loss, and the body.
abbrev pub outcome_of : Reason → ℕ → Bool → List ℕ → Outcome
outcome_of reason maxsize fail_on_dataloss body =
    if exceeds maxsize (length body) then errback cancelled else ending reason fail_on_dataloss body

transfer-from :
    (chunks : List (List ℕ)) (reason : Reason) (r : ResponseReader)
    → r.finished ≡ []
    → length r.bodybuf ≡ r.bytes_received
    → exceeds r.maxsize r.bytes_received ≡ false
    → (transfer chunks reason r).finished
      ≡ outcome_of reason r.maxsize r.fail_on_dataloss (r.bodybuf ++ concat chunks) ∷ []
transfer-from [] reason r h count n =
    let whole = append-nil r.bodybuf in
    let within : exceeds r.maxsize (length r.bodybuf) ≡ false = ap (exceeds r.maxsize) count ∙ n in
    rw whole (
      rw within
        (ap (λ x. x.finished) (connection_lost_unfired reason r h) ∙ lose-ending reason r h))
transfer-from (chunk ∷ chunks) reason r h count n =
    let q = data_received chunk none r in
    let sum : length (r.bodybuf ++ chunk) ≡ r.bytes_received + length chunk =
      ground (arith, length-append r.bodybuf chunk) in
    elim (Bool-cases (exceeds r.maxsize (r.bytes_received + length chunk))) [
      | inl y ↦
          let fired = data_received-refused chunk r h y in
          let more : exceeds r.maxsize (length (r.bodybuf ++ (chunk ++ concat chunks))) ≡ true =
            ground (
              arith,
              length-append r.bodybuf (chunk ++ concat chunks),
              length-append chunk (concat chunks),
            ) in
          rw more (
            ap (λ x. x.finished)
              (transfer_called chunks reason q (fired-called (errback cancelled) q fired))
            ∙ fired)
      | inr m ↦
          let (f, limit, body, bytes, loss) = data_received-accepted chunk r h m in
          transfer-from chunks reason q f (ap length body ∙ sum ∙ sym bytes)
            (ap (λ k. exceeds k q.bytes_received) limit ∙ ap (exceeds r.maxsize) bytes ∙ m)
          ∙ ap (λ k. outcome_of reason k q.fail_on_dataloss (q.bodybuf ++ concat chunks) ∷ []) limit
          ∙ ap (λ k. outcome_of reason r.maxsize k (q.bodybuf ++ concat chunks) ∷ []) loss
          ∙ ap (λ l. outcome_of reason r.maxsize r.fail_on_dataloss (l ++ concat chunks) ∷ []) body
          ∙ ap (λ l. outcome_of reason r.maxsize r.fail_on_dataloss l ∷ [])
              (append_assoc r.bodybuf chunk (concat chunks))
    ]

-- A body that no signal handler stops, from its first data to the loss of its connection: its deferred
-- is fired with a cancellation when the data exceed the maximum size, and else with what the reason of
-- the loss asks for: the data in order, flagged as partial or with lost data where it is so, or a
-- failure.
pub transfer_lem :
    (m warnsize : ℕ) (fail_on_dataloss reached : Bool) (chunks : List (List ℕ)) (reason : Reason)
    → (transfer chunks reason (new_reader m warnsize fail_on_dataloss reached)).finished
      ≡ outcome_of reason m fail_on_dataloss (concat chunks) ∷ []
unfolding new_reader
transfer_lem m warnsize fail_on_dataloss reached chunks reason =
    transfer-from chunks reason (new_reader m warnsize fail_on_dataloss reached) refl refl
      (ground arith)
