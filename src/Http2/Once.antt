-- ===== src/Http2/Once.antt =====
-- The deferred of each request of an HTTP/2 connection is fired once.
use mathlib.Core.Option.{map as option_map}
use scrapy.Prelude.{
  ℕ, ◌⊎◌, ◌+◌, ◌*◌, ◌<◌, ◌≡◌, refl, ap, ◌∙◌, true, Option, some, List, [], ◌∷◌, ◌++◌, if◌then◌else◌,
  ◌==◌, nat_eq, arith, length, contains, total, total-append, updated, Bool-cases, inl, inr,
}
use scrapy.Http2.{Stream, StreamCloseReason, Peer, Connection, settle}
use scrapy.Http2.Protocol.{
  Protocol, Event, pop_key, change, lose_all, lose_connection, run, new_protocol,
}
use scrapy.Http2.Firing.{firings, created, settle-fired, firings-map, created-map, created-cases}
use scrapy.Http2.Invariant.{Keeps, run-Kept}

abbrev is_key : ℕ → ℕ → ℕ
is_key k j = if j == k then 1 else 0

abbrev pub open_streams : ℕ → List ℕ → ℕ
open_streams k = total (is_key k)

open_streams-pop_key :
    (k j : ℕ) (ks : List ℕ)
    → contains j ks ≡ true
    → open_streams k (pop_key j ks) + is_key k j ≡ open_streams k ks
unfolding pop_key
open_streams-pop_key k j [] h = ground arith
open_streams-pop_key k j (i ∷ ks) h = ground (arith, open_streams-pop_key k j ks)

module _ {H : Type 0} (C : Connection H) (k : ℕ) where
  -- A stream object is settled or in `streams`, but for `d` that are between the two.
  record Off (d : ℕ) (p : Protocol H) : Type 0 where
    counted : firings (p.objects k) + open_streams k p.streams + d ≡ created (p.objects k)
    fresh : (k < p.next_id) ⊎ (created (p.objects k) ≡ 0)

  -- A change that fires the deferred of a stream `n` times.
  change-counts :
      (n j : ℕ) (f : Stream → Stream) (objects : ℕ → Option Stream)
      → ((s : Stream) → objects j ≡ some s → length (f s).fired ≡ n + length s.fired)
      → let new = updated j (option_map f (objects j)) objects in
        (firings (new k) ≡ n * created (objects k) * is_key k j + firings (objects k))
        × (created (new k) ≡ created (objects k))
  change-counts n j f objects same = elim (Bool-cases (j == k)) [
    | inr m ↦ rw m (omega arith, refl)
    | inl y ↦
        let there : objects j ≡ objects k = ap objects ((nat_eq.same_iff j k).0 y) in
        rw y (
          let e = firings-map n (objects j) f same in
              let here = ap firings there in
              let now = ap created there in ground (arith, e, here, now),
          created-map (objects j) f ∙ ap created there,
        )
  ]

  -- A change that leaves `fired` as it is.
  change-Off :
      (d j : ℕ) (f : Stream → Stream) (p : Protocol H)
      → ((s : Stream) → p.objects j ≡ some s → (f s).fired ≡ s.fired)
      → Off d p
      → Off d (change j f p)
  unfolding change
  change-Off d j f p same w =
      let (e, c) =
        change-counts 0 j f p.objects (λ s h. let e = ap length (same s h) in omega arith) in
      record { counted = omega (arith, w.counted); fresh = ground (arith, w.fresh, c) }

  settled-Off :
      (d j : ℕ) (reason : StreamCloseReason) (p : Protocol H)
      → Off (d + is_key k j) p
      → Off d (change j (settle reason) p)
  unfolding change
  settled-Off d j reason p w =
      let (e, c) =
        change-counts 1 j (settle reason) p.objects
          (λ s h. let e = settle-fired reason s in omega arith) in
      record { counted = ground (arith, w.counted, e, c); fresh = ground (arith, w.fresh, c) }

  lose_all-counts :
      (ks : List ℕ) (p : Protocol H)
      → let q = lose_all C ks p in
        (firings (q.objects k) ≡ created (p.objects k) * open_streams k ks + firings (p.objects k))
        × (created (q.objects k) ≡ created (p.objects k))
        × (q.next_id ≡ p.next_id)
  unfolding lose_all change
  lose_all-counts [] p = (omega arith, refl, refl)
  lose_all-counts (j ∷ ks) p =
      let f = λ (s : Stream).
        settle
          (if s.request_sent then StreamCloseReason.connection_lost else StreamCloseReason.inactive)
          s in
      let (e, c, i) = lose_all-counts ks (change j f p) in
      let (e', c') = change-counts 1 j f p.objects (λ s h.
        let e =
          settle-fired
            (if s.request_sent
              then StreamCloseReason.connection_lost
              else StreamCloseReason.inactive)
            s in
        omega arith) in
      (
        elim (created-cases (p.objects k)) [
          | inl z ↦ ground (arith, e, e', c', z)
          | inr z ↦ ground (arith, e, e', c', z)
        ],
        c ∙ c',
        i,
      )

  lose_connection-Off : (p : Protocol H) → Off 0 p → Off 0 (lose_connection C p)
  unfolding lose_connection
  lose_connection-Off p w =
      let (e, c, i) = lose_all-counts p.streams p in
      record {
        counted = (let f = created-cases (p.objects k) in ground (arith, f, e, c, w.counted));
        fresh = ground (arith, w.fresh, c, i);
      }

  request-Off :
      (d : ℕ) (s : Stream) (p : Protocol H)
      → s.fired ≡ []
      → Off d p
      → Off d (record p {
        next_id = p.next_id + 2;
        streams = p.streams ++ p.next_id ∷ [];
        objects = updated p.next_id (some s) p.objects;
        pending_request_stream_pool = p.pending_request_stream_pool ++ p.next_id ∷ [];
      })
  request-Off d s p unfired w = record {
    counted =
        let e = total-append (is_key k) p.streams (p.next_id ∷ []) in
        ground (arith, w.counted, w.fresh);
    fresh = ground (arith, w.fresh);
  }

  Off-Keeps : Keeps C (is_key k) Off
  Off-Keeps = record {
    on_conn = λ d h p w. record { counted = w.counted; fresh = w.fresh };
    on_change = change-Off;
    on_settle = settled-Off;
    on_pop = λ d j p y w. record {
      counted = (let e = open_streams-pop_key k j p.streams y in omega (arith, w.counted));
      fresh = w.fresh;
    };
    on_start = λ d j rest p e y w. record { counted = w.counted; fresh = w.fresh };
    on_request = request-Off;
    on_acknowledged = λ p w. record { counted = w.counted; fresh = w.fresh };
    on_lost = lose_connection-Off;
  }

  pub run-Fired :
      (h : H) (peer : Peer) (maxsize warnsize : ℕ) (xs : List (Event H)) (p : Protocol H)
      → run C xs (new_protocol h peer maxsize warnsize) ≡ some p
      → firings (p.objects k) + open_streams k p.streams ≡ created (p.objects k)
  unfolding new_protocol
  run-Fired h peer maxsize warnsize xs p e =
      let w : Off 0 p =
        run-Kept C (is_key k) Off Off-Keeps xs (new_protocol h peer maxsize warnsize) p e
          (record { counted = refl; fresh = inr refl }) in
      omega (arith, w.counted)
