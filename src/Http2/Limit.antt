-- ===== src/Http2/Limit.antt =====
-- The number of entries in the dict of streams of an HTTP/2 connection.
use scrapy.Prelude.{
  ℕ, suc, ◌⊎◌, ◌+◌, ◌≤◌, ◌≡◌, refl, true, false, some, List, [], ◌∷◌, arith, length, length-append,
  contains, inl, inr, nat_eq,
}
use scrapy.Prelude.Int.{pos, pos_part, neg_part, ◌+ℤ◌, +ℤ_parts, -ℤ_parts}
use scrapy.Http2.{Peer, Connection, min}
use scrapy.Http2.Protocol.{
  Protocol, Event, pop_key, change, has_room, allowed_max_concurrent_streams, h2_connected,
  lose_connection, run, new_protocol,
}
use scrapy.Http2.Invariant.{Keeps, run-Kept}

length-pop_key :
    (j : ℕ) (ks : List ℕ) → contains j ks ≡ true → suc (length (pop_key j ks)) ≡ length ks
unfolding pop_key
length-pop_key j [] h = ground arith
length-pop_key j (i ∷ ks) h = ground (arith, length-pop_key j ks)

module _ {H : Type 0} (C : Connection H) (m : ℕ) where
  -- Of the streams, all but at most `m` are pending. While the connection lasts, `active_streams`
  -- counts the streams but for the pending ones.
  record Within (p : Protocol H) : Type 0 where
    fits : length p.streams ≤ m + length p.pending_request_stream_pool
    balanced :
        (p.connected ≡ false)
        ⊎ (pos_part p.active_streams + length p.pending_request_stream_pool
            ≡ length p.streams + neg_part p.active_streams)

  module _
      (limited : (h : H)
        → min (C.local_max_concurrent_streams h) (C.remote_max_concurrent_streams h) ≤ m) where
    start-Within :
        (j : ℕ) (rest : List ℕ) (p : Protocol H)
        → p.pending_request_stream_pool ≡ j ∷ rest
        → has_room C p ≡ true
        → Within p
        → Within (record p {
          active_streams = p.active_streams +ℤ pos 1;
          pending_request_stream_pool = rest;
        })
    unfolding has_room h2_connected allowed_max_concurrent_streams
    start-Within j rest p e room w = record {
      fits = ground (arith, w.fits, w.balanced, limited p.conn);
      balanced = ground (arith, w.balanced, +ℤ_parts p.active_streams (pos 1));
    }

    Within-Keeps : Keeps C (λ j. 0) (λ d. Within)
    unfolding change lose_connection
    Within-Keeps = record {
      on_conn = λ d h p w. record { fits = w.fits; balanced = w.balanced };
      on_change = λ d j f p same w. record { fits = w.fits; balanced = w.balanced };
      on_settle = λ d j reason p w. record { fits = w.fits; balanced = w.balanced };
      on_pop = λ d j p y w.
          let shorter = length-pop_key j p.streams y in
          record {
            fits = omega (arith, w.fits);
            balanced = ground (arith, w.balanced, -ℤ_parts p.active_streams (pos 1));
          };
      on_start = λ d. start-Within;
      on_request = λ d s p unfired w.
          let a = length-append p.streams (p.next_id ∷ []) in
          let b = length-append p.pending_request_stream_pool (p.next_id ∷ []) in
          record { fits = omega (arith, w.fits); balanced = ground (arith, w.balanced) };
      on_acknowledged = λ p w. record { fits = w.fits; balanced = w.balanced };
      on_lost = λ p w. record { fits = omega arith; balanced = inl refl };
    }

    pub run-Within_limit :
        (h : H) (peer : Peer) (maxsize warnsize : ℕ) (xs : List (Event H)) (p : Protocol H)
        → run C xs (new_protocol h peer maxsize warnsize) ≡ some p
        → length p.streams ≤ m + length p.pending_request_stream_pool
    unfolding new_protocol
    run-Within_limit h peer maxsize warnsize xs p e =
        let w =
          run-Kept C (λ j. 0) (λ d. Within) Within-Keeps xs (new_protocol h peer maxsize warnsize) p
            e (record { fits = omega arith; balanced = inr refl }) in
        w.fits
