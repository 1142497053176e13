-- ===== src/Transport/Stream/Reach.antt =====
-- Every state that the operations of master/transport/streamtransport.c reach.
use tenet_t.Prelude.{
  ℕ, ◌+◌, ◌<◌, ◌≡◌, refl, ◌⊎◌, inl, inr, not, Option, none, some, List, [], leb, if◌then◌else◌,
  length, u8_mod, Run, ok, fault, All,
}
use tenet_t.Timeval.{Timeval}
use tenet_t.Transport.U16List.{u16list_is_empty}
use tenet_t.Transport.Stream.{
  StreamState, StrConn, Streams, put_str, remove_str, max_timeout_count, str_connection_timeout,
  str_timer_start, finish_stream, ask_again, streamtransport_delete_tid, streamtransport_terminate,
}
use tenet_t.Transport.Stream.Delete.{swept-IsDistinct, streamtransport_delete_tid_lem}
use tenet_t.Transport.Stream.Keeps.{
  AreDistinct, if_keeps, put, remove, finish_stream-AreDistinct, ask_again-AreDistinct,
  streamtransport_receive-Returns, Returns,
}
use tenet_t.Transport.Stream.Receive.{streamtransport_receive}
use tenet_t.Transport.Stream.Timer.{
  nack_timeout, str_timer_fired, first_due, polling_streamtransport_timer,
}

-- What the file's operations reach from no connections: packets of bytes that come in, polls of the
-- timer, the deletion of a transaction, and the end.
pub data Reached : Streams → Type 0 where
  at_start : Reached (record { conns = []; events = [] })
  packet :
      (now : Timeval) (addr : ℕ) (bytes : List ℕ) (s s' : Streams)
      → Reached s
      → All (λ (b : ℕ). b < u8_mod) bytes
      → length bytes < u8_mod
      → streamtransport_receive now addr bytes s ≡ ok s'
      → Reached s'
  poll : (now : Timeval) (s : Streams) → Reached s → Reached (polling_streamtransport_timer now s)
  deletion : (tid : ℕ) (s : Streams) → Reached s → Reached (streamtransport_delete_tid tid s).0
  termination : (s : Streams) → Reached s → Reached (streamtransport_terminate s)

StreamState-cases :
    (st : StreamState)
    → (st ≡ StreamState.passive)
      ⊎ ((st ≡ StreamState.nack_wait)
          ⊎ ((st ≡ StreamState.fin_nack_wait) ⊎ (st ≡ StreamState.finished)))
StreamState-cases StreamState.passive = inl refl
StreamState-cases StreamState.nack_wait = inr (inl refl)
StreamState-cases StreamState.fin_nack_wait = inr (inr (inl refl))
StreamState-cases StreamState.finished = inr (inr (inr refl))

module _ (now : Timeval) where
  nack_timeout-AreDistinct :
      (c : StrConn) (next s : Streams)
      → AreDistinct next
      → AreDistinct s
      → AreDistinct (nack_timeout now c next s)
  unfolding nack_timeout
  nack_timeout-AreDistinct c0 next s hn h =
      let c : StrConn = record c0 { timeout_count = c0.timeout_count + 1 } in
      let ask : Streams =
        if not (u16list_is_empty c.missing_list) then ask_again now c s else next in
      if_keeps (leb max_timeout_count c.timeout_count) (remove_str c s) ask (remove c s h) (
        if_keeps (not (u16list_is_empty c.missing_list)) (ask_again now c s) next
          (ask_again-AreDistinct now c s h) hn)

  pub str_timer_fired-AreDistinct :
      (c : StrConn) (s : Streams) → AreDistinct s → AreDistinct (str_timer_fired now c s)
  unfolding str_timer_fired
  str_timer_fired-AreDistinct c s h =
      let late : StrConn = record c { timeout_count = c.timeout_count + 1 } in
      let resumed : StrConn =
        str_timer_start now str_connection_timeout (record late { state = StreamState.passive }) in
      elim (StreamState-cases c.state) [
        | inl passive ↦
            rw (passive, str_timer_fired)
              (if_keeps c.delete_pending (remove_str c s) s (remove c s h) h)
        | inr (inl nack_wait) ↦
            rw (nack_wait, str_timer_fired)
              (nack_timeout-AreDistinct c (put_str resumed s) s (put resumed s h) h)
        | inr (inr (inl fin_nack_wait)) ↦
            rw (fin_nack_wait, str_timer_fired)
              (nack_timeout-AreDistinct c (finish_stream now late s) s
                (finish_stream-AreDistinct now late s h) h)
        | inr (inr (inr finished)) ↦ rw (finished, str_timer_fired) (remove c s h)
      ]

  first_due-AreDistinct :
      (s : Streams) (due : Option StrConn)
      → AreDistinct s
      → AreDistinct (elim due [ none ↦ s | some c ↦ str_timer_fired now c s ])
  first_due-AreDistinct s none h = h
  first_due-AreDistinct s (some c) h = str_timer_fired-AreDistinct c s h

-- In every state that the operations reach there is at most one connection for a transaction and
-- address.
pub Reached-AreDistinct : (s : Streams) → Reached s → AreDistinct s
unfolding polling_streamtransport_timer streamtransport_terminate
Reached-AreDistinct s Reached.at_start = tt
Reached-AreDistinct s (Reached.packet now addr bytes s0 s' r are_bytes short e) =
    rw e at
      (streamtransport_receive-Returns now addr bytes s0 are_bytes short (Reached-AreDistinct s0 r))
Reached-AreDistinct s (Reached.poll now s0 r) =
    first_due-AreDistinct now s0 (first_due now s0.conns) (Reached-AreDistinct s0 r)
Reached-AreDistinct s (Reached.deletion tid s0 r) =
    rw (streamtransport_delete_tid_lem tid s0)
      (swept-IsDistinct tid s0.conns (Reached-AreDistinct s0 r))
Reached-AreDistinct s (Reached.termination s0 r) = tt

ok_of : (r : Run Streams) → Returns r → (s : Streams) × ((r ≡ ok s) × AreDistinct s)
ok_of (ok s) h = (s, (refl, h))
ok_of (fault e) h = elim h [ ]

-- In every state reached, streamtransport_receive returns on every packet of at most 255 bytes,
-- whatever its bytes.
pub streamtransport_receive_returns :
    (now : Timeval) (addr : ℕ) (bytes : List ℕ) (s : Streams)
    → Reached s
    → All (λ (b : ℕ). b < u8_mod) bytes
    → length bytes < u8_mod
    → (s' : Streams) × ((streamtransport_receive now addr bytes s ≡ ok s') × AreDistinct s')
streamtransport_receive_returns now addr bytes s r are_bytes short =
    ok_of (streamtransport_receive now addr bytes s)
      (streamtransport_receive-Returns now addr bytes s are_bytes short (Reached-AreDistinct s r))
