-- ===== src/Transport/Stream/Receive.antt =====
-- receive_str_msg and streamtransport_receive of master/transport/streamtransport.c.
use tenet_t.Prelude.{
  ℕ, ◌+◌, ◌-◌, Ordering, Bool, true, false, not, ◌&&◌, none, some, List, [], ◌∷◌, ◌++◌, ltb, ◌==◌,
  if◌then◌else◌, length, Run, ok, ◌>>=◌,
}
use tenet_t.Timeval.{Timeval}
use tenet_t.Transport.Seqno.{tr_valid_range, is_lt, tr_seqno_next, tr_seqno_add, tr_seqno_cmp}
use tenet_t.Transport.Packet.{TransportMsg, tr_header, tr_decode, tr_checksum_check}
use tenet_t.Transport.U16List.{u16list_delete, u16list_is_empty}
use tenet_t.Transport.PacketList.{SpEntry, sp_list_find, sp_list_insert}
use tenet_t.Transport.Stream.{
  StreamState, StrConn, StrEvent, Streams, find_str, put_str, event, str_connection_timeout,
  str_timer_start, detect_missing_packet, finish_stream, ask_again, create_str_connection,
}

-- What is left in the list of waiting packets, the next number expected, and the packets delivered.
pub record Drained : Type 0 where
  pub plist : List SpEntry
  pub next : ℕ
  pub out : List (List ℕ)

abbrev pub deliver_first : List ℕ → Drained → Drained
deliver_first p d = record d { out = p ∷ d.out }

-- The loop at the end of receive_str_msg, after packet `seqno`.
unfoldable pub drain : ℕ → List SpEntry → ℕ → Drained
drain seqno [] next = record { plist = []; next = next; out = [] }
drain seqno (e ∷ es) next =
    let in_order = drain seqno es (tr_seqno_next next) in
    let past = drain seqno es next in
    let forced = drain seqno es (tr_seqno_next e.value) in
    let stop : Drained = record { plist = e ∷ es; next = next; out = [] } in
    elim (tr_seqno_cmp e.value next) [
      | Ordering.eq ↦ deliver_first e.packet in_order
      | Ordering.lt ↦ past
      | Ordering.gt ↦ elim (tr_seqno_cmp seqno e.value) [
        | Ordering.gt ↦ elim (tr_seqno_cmp seqno (tr_seqno_add e.value tr_valid_range)) [
          | Ordering.lt ↦ stop
          | _ ↦ deliver_first e.packet forced
        ]
        | _ ↦ stop
      ]
    ]

-- The packet itself: delivered, dropped or put into the list.
unfoldable pub take_packet : ℕ → List ℕ → List SpEntry → ℕ → Drained
unfolding drain
take_packet seqno msg plist next = elim (tr_seqno_cmp seqno next) [
  | Ordering.eq ↦ deliver_first msg (drain seqno plist (tr_seqno_next next))
  | Ordering.lt ↦ drain seqno plist next
  | Ordering.gt ↦ drain seqno (sp_list_insert plist seqno msg) next
]

-- The connection, and the packets delivered.
unfoldable pub receive_str_msg : ℕ → List ℕ → StrConn → StrConn × List (List ℕ)
unfolding take_packet
receive_str_msg seqno msg c =
    let d = take_packet seqno msg c.plist c.next_expected_seqno in
    (record c { timeout_count = 0; plist = d.plist; next_expected_seqno = d.next }, d.out)

abbrev pub str_flag_data : ℕ
str_flag_data = 0x01

abbrev pub str_flag_syn : ℕ
str_flag_syn = 0x02

abbrev pub str_flag_fin : ℕ
str_flag_fin = 0x04

abbrev pub str_flag_data_retx : ℕ
str_flag_data_retx = 0x21

abbrev is_gt : Ordering → Bool
is_gt Ordering.gt = true
is_gt _ = false

-- What both kinds of packet do first: one newer than all before tells which are missing.
unfoldable pub notice : ℕ → StrConn → Run (StrConn × ℕ)
notice seqno c =
    let noticed =
      detect_missing_packet seqno c >>= λ r. ok (record r.0 { last_recv_seqno = seqno }, r.1) in
    if is_gt (tr_seqno_cmp seqno c.last_recv_seqno) then noticed else ok (c, 0)

unfoldable pub receive_syn : Timeval → ℕ → ℕ → ℕ → Streams → Streams
receive_syn now tid addr seqno s0 =
    let s : Streams = elim (find_str s0.conns tid addr) [
      | none ↦ create_str_connection tid addr seqno s0
      | some c ↦ s0
    ] in
    let s' = event (StrEvent.syn_ack tid addr) s in
    elim (find_str s.conns tid addr) [
      | none ↦ s'
      | some c ↦ put_str (str_timer_start now str_connection_timeout c) s'
    ]

unfoldable pub receive_fin : Timeval → ℕ → ℕ → ℕ → Streams → Run Streams
unfolding notice
receive_fin now tid addr seqno s = elim (find_str s.conns tid addr) [
  | none ↦ ok (event (StrEvent.fin_ack tid addr seqno) s)
  | some c0 ↦ do
    (c, k) ← notice seqno c0
    ok (
        if u16list_is_empty c.missing_list
        then finish_stream now c s
        else ask_again now (record c { timeout_count = 0; state = StreamState.fin_nack_wait }) s)
]

abbrev pub all_received : ℕ → ℕ → List (List ℕ) → List StrEvent
all_received tid addr [] = []
all_received tid addr (p ∷ ps) = StrEvent.received tid addr p ∷ all_received tid addr ps

-- The end of the case of data: ask for what is missing, or leave the state that waited for it.
unfoldable pub after_data : Timeval → ℕ → StrConn → Streams → Streams
after_data now k c s =
    let waiting : StrConn = elim c.state [
      | StreamState.passive ↦ record c { state = StreamState.nack_wait }
      | _ ↦ c
    ] in
    if ltb 0 k
    then ask_again now waiting s
    else if u16list_is_empty c.missing_list
    then elim c.state [
      | StreamState.fin_nack_wait ↦ finish_stream now c s
      | StreamState.nack_wait ↦
          put_str
            (str_timer_start now str_connection_timeout (record c { state = StreamState.passive }))
            s
      | _ ↦ put_str c s
    ]
    else put_str c s

-- The connection after a data packet, and the packets delivered.
unfoldable pub accept_packet : ℕ → Bool → List ℕ → StrConn → StrConn × List (List ℕ)
unfolding receive_str_msg
accept_packet seqno retx msg c =
    let late = is_lt (tr_seqno_cmp seqno c.next_expected_seqno) in
    let new = not late && not (sp_list_find c.plist seqno) in
    let asked =
      if retx then record c { missing_list = (u16list_delete c.missing_list seqno).0 } else c in
    let (c', out) = receive_str_msg seqno msg asked in
    (if new then record c' { total_recv_packets = c'.total_recv_packets + 1 } else c', out)

unfoldable pub receive_data : Timeval → ℕ → ℕ → ℕ → Bool → List ℕ → Streams → Run Streams
unfolding notice accept_packet after_data
receive_data now tid addr seqno retx msg s = elim (find_str s.conns tid addr) [
  | none ↦ ok s
  | some c0 ↦ notice seqno c0 >>= λ r.
      let (c, out) = accept_packet seqno retx msg r.0 in
      ok (after_data now r.1 c (record s { events = s.events ++ all_received tid addr out }))
]

-- The switch on the flag.
unfoldable pub receive_by_flag : Timeval → ℕ → TransportMsg → Streams → Run Streams
unfolding receive_syn receive_fin receive_data
receive_by_flag now addr m s =
    if m.flag == str_flag_syn
    then ok (receive_syn now m.tid addr m.seqno s)
    else if m.flag == str_flag_fin
    then receive_fin now m.tid addr m.seqno s
    else if m.flag == str_flag_data
    then receive_data now m.tid addr m.seqno false m.payload s
    else if m.flag == str_flag_data_retx
    then receive_data now m.tid addr m.seqno true m.payload s
    else ok s

-- streamtransport_receive on the bytes of a TransportMsg.
unfoldable pub streamtransport_receive : Timeval → ℕ → List ℕ → Streams → Run Streams
unfolding receive_by_flag
streamtransport_receive now addr bytes s =
    if ltb (length bytes) tr_header
    then ok s
    else (tr_checksum_check bytes (length bytes - tr_header) >>= λ right.
        if right then receive_by_flag now addr (tr_decode bytes) s else ok s)
