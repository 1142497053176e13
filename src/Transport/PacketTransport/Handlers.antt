-- ===== src/Transport/PacketTransport/Handlers.antt =====
-- packettransport_receive, the timers and the deletion of transactions of
-- master/transport/packettransport.c.
use tenet_t.Prelude.{
  ℕ, ◌+◌, ◌-◌, Ordering, Bool, true, false, Option, none, some, List, [], ◌∷◌, ltb, ◌==◌,
  if◌then◌else◌, length, Run, ok, ◌>>=◌,
}
use tenet_t.Timeval.{Timeval}
use tenet_t.Trd.Timer.{alarm_due}
use tenet_t.Transport.Seqno.{tr_seqno_cmp}
use tenet_t.Transport.Packet.{TransportMsg, tr_header, tr_decode, tr_checksum_check}
use tenet_t.Transport.PacketTransport.{
  PtrConn, PtrEvent, Ptrs, ptr_max_num_retx, ptr_ack_timeout, ptr_flag_send, ptr_flag_ack,
  ptr_flag_noack_send, find_ptr, put_ptr, ptr_event, ptr_detect_missing_packet, ptr_timer_start,
  ptr_timer_stop, find_or_create_ptr, send_ptr_ack, retx_ptr, send_ptr_done,
}

unfoldable pub receive_ack : ℕ → ℕ → Ptrs → Ptrs
unfolding ptr_timer_stop send_ptr_done
receive_ack tid addr s = elim (find_ptr s.conns tid addr) [
  | none ↦ s
  | some c ↦ send_ptr_done (ptr_timer_stop c) true s
]

-- What a packet newer than all before changes.
unfoldable pub note_newer : ℕ → PtrConn → Ptrs → Run Ptrs
unfolding ptr_detect_missing_packet
note_newer seqno c s =
    let noted = ptr_detect_missing_packet seqno c >>= λ d. ok (
      put_ptr (record d { last_recv_seqno = seqno; total_recv_packets = d.total_recv_packets + 1 })
        s) in
    elim (tr_seqno_cmp seqno c.last_recv_seqno) [ Ordering.gt ↦ noted | _ ↦ ok s ]

unfoldable pub receive_packet : ℕ → ℕ → ℕ → Bool → List ℕ → Ptrs → Run Ptrs
unfolding find_or_create_ptr note_newer send_ptr_ack
receive_packet tid addr seqno acked msg s0 =
    let (c, s1) = find_or_create_ptr tid addr seqno s0 in
    note_newer seqno c s1 >>= λ s2.
    (if acked then send_ptr_ack tid addr seqno s2 else ok s2) >>= λ s3.
    ok (ptr_event (PtrEvent.received tid addr msg) s3)

-- The switch on the flag.
unfoldable pub ptr_receive_by_flag : ℕ → TransportMsg → Ptrs → Run Ptrs
unfolding receive_ack receive_packet
ptr_receive_by_flag addr m s =
    if m.flag == ptr_flag_ack
    then ok (receive_ack m.tid addr s)
    else if m.flag == ptr_flag_send
    then receive_packet m.tid addr m.seqno true m.payload s
    else if m.flag == ptr_flag_noack_send
    then receive_packet m.tid addr m.seqno false m.payload s
    else ok s

-- packettransport_receive on the bytes of a TransportMsg.
unfoldable pub packettransport_receive : ℕ → List ℕ → Ptrs → Run Ptrs
unfolding ptr_receive_by_flag
packettransport_receive addr bytes s =
    if ltb (length bytes) tr_header
    then ok s
    else (tr_checksum_check bytes (length bytes - tr_header) >>= λ right.
        if right then ptr_receive_by_flag addr (tr_decode bytes) s else ok s)

unfoldable pub ptr_timer_fired : Timeval → PtrConn → Ptrs → Run Ptrs
unfolding retx_ptr ptr_timer_start send_ptr_done
ptr_timer_fired now c s =
    let again = record c { retx_count = c.retx_count + 1 } in
    let sent =
      retx_ptr again s >>= λ t. ok (put_ptr (ptr_timer_start now ptr_ack_timeout again) t) in
    if ltb c.retx_count ptr_max_num_retx then sent else ok (send_ptr_done c false s)

unfoldable pub first_ptr_due : Timeval → List PtrConn → Option PtrConn
first_ptr_due now [] = none
first_ptr_due now (c ∷ cs) = if alarm_due c.alarm_time now then some c else first_ptr_due now cs

-- The loop stops at the first connection that is due.
unfoldable pub polling_packettransport_timer : Timeval → Ptrs → Run Ptrs
unfolding first_ptr_due ptr_timer_fired
polling_packettransport_timer now s = elim (first_ptr_due now s.conns) [
  | none ↦ ok s
  | some c ↦ ptr_timer_fired now c s
]

-- The connections of other transactions, and 1 where there was one of this, else 0.
unfoldable pub ptr_delete_from : List PtrConn → ℕ → ℕ → List PtrConn × ℕ
ptr_delete_from [] tid result = ([], result)
ptr_delete_from (c ∷ cs) tid result =
    let gone = ptr_delete_from cs tid 1 in
    let (cs', r) = ptr_delete_from cs tid result in if c.tid == tid then gone else (c ∷ cs', r)

unfoldable pub packettransport_delete_tid : ℕ → Ptrs → Ptrs × ℕ
unfolding ptr_delete_from
packettransport_delete_tid tid s =
    let (conns, result) = ptr_delete_from s.conns tid 0 in (record s { conns = conns }, result)

unfoldable pub packettransport_tid_is_alive : List PtrConn → ℕ → Bool
packettransport_tid_is_alive [] tid = false
packettransport_tid_is_alive (c ∷ cs) tid =
    if c.tid == tid then true else packettransport_tid_is_alive cs tid

unfoldable pub packettransport_terminate : Ptrs → Ptrs
packettransport_terminate s = record s { conns = [] }
