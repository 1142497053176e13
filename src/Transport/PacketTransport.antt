-- ===== src/Transport/PacketTransport.antt =====
-- master/transport/packettransport.c: packets that are sent until they are acknowledged. The
-- statistics of rates and losses are only logged, and are left out. What is sent and what goes up are
-- events. The field `len` is the length of `packet`.
pub mod Handlers
pub mod Retransmit
use tenet_t.Prelude.{
  ℕ, zero, suc, ◌+◌, ◌-◌, ◌*◌, ◌/◌, ◌%◌, ◌^◌, ◌≤◌, ◌<◌, min, Ordering, ◌≡◌, refl, sym, ap, ap₂, ◌∙◌,
  ◌≢◌, ◌↔◌, ◌⊎◌, inl, inr, Bool, true, false, not, ◌&&◌, ◌||◌, Option, none, some, List, [], ◌∷◌,
  ◌++◌, map, append-nil, append_assoc, arith, ltb, leb, ◌==◌, if◌then◌else◌, ltb→lt, lt→ltb, leb→le,
  ==_iff, Bool-cases, Option-cases, length, get_elem?, set, length-append, length-set, get_or, take,
  drop, replicate, take-append-drop, length-take, length-drop, length-replicate, length-map,
  take_all, u16_mod, u8_mod, Fault, Run, ok, fault, ◌>>=◌, All, All-append, All-set, All-take,
  All-get_or, All-replicate, All-mono, All-map, take-set_below, take-set_next, get_or-take,
  get_or-set_self, get_or-set_ne, take-set_above, set_outside, take-take, Run-cases,
}
use tenet_t.Timeval.{Timeval, zero_time, add_ms_to_timeval}
use tenet_t.Trd.Timer.{alarm_due}
use tenet_t.Transport.Seqno.{tr_seqno_next, tr_seqno_cmp}
use tenet_t.Transport.Packet.{
  TransportMsg, tr_header, tr_encode, tr_decode, tr_frame, tr_checksum_check,
}
use tenet_t.Transport.Connection.{find_connection, replace_connection}

-- ptrclist.
pub record PtrConn : Type 0 where
  pub tid : ℕ
  pub addr : ℕ
  pub last_recv_seqno : ℕ
  pub total_lost_packets : ℕ
  pub total_recv_packets : ℕ
  pub alarm_time : Timeval
  pub sent_seqno : ℕ
  pub packet : Option (List ℕ)
  pub retx_count : ℕ

-- What the functions of the file call: write_routing_msg, receive_packettransport and
-- senddone_packettransport.
pub data PtrEvent : Type 0 where
  sent : ℕ → List ℕ → PtrEvent
  received : ℕ → ℕ → List ℕ → PtrEvent
  send_done : ℕ → ℕ → Bool → PtrEvent

-- m_ptrcs, and the events so far.
pub record Ptrs : Type 0 where
  pub conns : List PtrConn
  pub events : List PtrEvent

abbrev pub ptr_max_num_retx : ℕ
ptr_max_num_retx = 5

abbrev pub ptr_ack_timeout : ℕ
ptr_ack_timeout = 3000

abbrev pub ptr_flag_send : ℕ
ptr_flag_send = 0x40

abbrev pub ptr_flag_ack : ℕ
ptr_flag_ack = 0x48

abbrev pub ptr_flag_noack_send : ℕ
ptr_flag_noack_send = 0xff

abbrev pub find_ptr : List PtrConn → ℕ → ℕ → Option PtrConn
find_ptr = find_connection (λ (c : PtrConn). c.tid) (λ (c : PtrConn). c.addr)

abbrev pub put_ptr : PtrConn → Ptrs → Ptrs
put_ptr c s = record s {
  conns = replace_connection (λ (d : PtrConn). d.tid) (λ (d : PtrConn). d.addr) s.conns c;
}

abbrev pub ptr_event : PtrEvent → Ptrs → Ptrs
ptr_event e s = record s { events = s.events ++ (e ∷ []) }

-- The do-while loop of ptr_detectMissingPacket: how many packets are missing from `last` on.
unfoldable pub count_missing : ℕ → ℕ → ℕ → ℕ → Run ℕ
count_missing zero seqno last k = fault Fault.hang
count_missing (suc n) seqno last k =
    let rest = count_missing n seqno (tr_seqno_next last) (k + 1) in
    elim (tr_seqno_cmp seqno (tr_seqno_next last)) [ Ordering.gt ↦ rest | _ ↦ ok k ]

-- The circle of the sequence numbers and one round more.
abbrev pub count_rounds : ℕ
count_rounds = 50002

unfoldable pub ptr_detect_missing_packet : ℕ → PtrConn → Run PtrConn
unfolding count_missing
ptr_detect_missing_packet seqno c = count_missing count_rounds seqno c.last_recv_seqno 0 >>= λ k.
    ok (record c { total_lost_packets = c.total_lost_packets + k })

unfoldable pub ptr_timer_start : Timeval → ℕ → PtrConn → PtrConn
ptr_timer_start now ms c = record c { alarm_time = add_ms_to_timeval now ms }

unfoldable pub ptr_timer_stop : PtrConn → PtrConn
ptr_timer_stop c = record c { alarm_time = zero_time }

-- create_ptr_connection, where there is no connection yet.
unfoldable pub new_ptr_connection : ℕ → ℕ → ℕ → PtrConn
new_ptr_connection tid addr seqno = record {
  tid = tid;
  addr = addr;
  last_recv_seqno = seqno;
  total_lost_packets = 0;
  total_recv_packets = 0;
  alarm_time = zero_time;
  sent_seqno = 0;
  packet = none;
  retx_count = 0;
}

-- The connection found, or a new one in front of the list.
unfoldable pub find_or_create_ptr : ℕ → ℕ → ℕ → Ptrs → PtrConn × Ptrs
unfolding new_ptr_connection
find_or_create_ptr tid addr seqno s = elim (find_ptr s.conns tid addr) [
  | some c ↦ (c, s)
  | none ↦ (
    new_ptr_connection tid addr seqno,
    record s { conns = new_ptr_connection tid addr seqno ∷ s.conns },
  )
]

unfoldable pub send_ptr_ack : ℕ → ℕ → ℕ → Ptrs → Run Ptrs
unfolding tr_frame
send_ptr_ack tid addr seqno s =
    tr_frame tid seqno ptr_flag_ack [] >>= λ bytes. ok (ptr_event (PtrEvent.sent addr bytes) s)

-- `++cs->sentSeqNo` is a uint16_t.
unfoldable pub packettransport_send : Timeval → ℕ → ℕ → List ℕ → Ptrs → Run Ptrs
unfolding find_or_create_ptr tr_frame ptr_timer_start
packettransport_send now tid addr msg s0 =
    let (c, s) = find_or_create_ptr tid addr 0 s0 in
    let seqno = (c.sent_seqno + 1) % u16_mod in
    let c' = record c { sent_seqno = seqno; packet = some msg; retx_count = 0 } in
    tr_frame tid seqno ptr_flag_send msg >>= λ bytes.
    ok (ptr_event (PtrEvent.sent addr bytes) (put_ptr (ptr_timer_start now ptr_ack_timeout c') s))

-- Without a packet the C function would write through a null pointer.
unfoldable pub retx_ptr : PtrConn → Ptrs → Run Ptrs
unfolding tr_frame
retx_ptr c s = elim c.packet [
  | none ↦ fault Fault.null_pointer
  | some msg ↦ tr_frame c.tid c.sent_seqno ptr_flag_send msg >>= λ bytes.
      ok (ptr_event (PtrEvent.sent c.addr bytes) s)
]

unfoldable pub send_ptr_done : PtrConn → Bool → Ptrs → Ptrs
send_ptr_done c success s =
    ptr_event (PtrEvent.send_done c.tid c.addr success) (put_ptr (record c { packet = none }) s)
