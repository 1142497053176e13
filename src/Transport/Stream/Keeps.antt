-- ===== src/Transport/Stream/Keeps.antt =====
-- The operations of master/transport/streamtransport.c return, and keep one connection for a transaction
-- and address.
use tenet_t.Prelude.{
  ℕ, zero, suc, ◌+◌, ◌-◌, ◌%◌, ◌<◌, ◌≡◌, refl, inl, inr, Bool, true, false, not, ◌&&◌, ◌||◌, Option,
  none, some, List, [], ◌∷◌, ◌++◌, arith, ltb, ◌==◌, if◌then◌else◌, Bool-cases, Option-cases,
  length, get_or, u16_mod, u8_mod, Run, ok, fault, All,
}
use tenet_t.Timeval.{Timeval}
use tenet_t.Transport.Seqno.{tr_seqno_cmp}
use tenet_t.Transport.Seqno.Order.{Ordering-cases}
use tenet_t.Transport.Packet.{
  TransportMsg, tr_header, tr_decode, negated_sum, tr_calculate_checksum, tr_checksum_check,
}
use tenet_t.Transport.U16List.{u16list_is_empty}
use tenet_t.Transport.Connection.Distinct.{IsDistinct, replace-IsDistinct, remove-IsDistinct}
use tenet_t.Transport.Stream.{
  StreamState, StrConn, StrEvent, Streams, str_timer_start, str_nack_timeout,
  str_connection_timeout, find_str, put_str, remove_str, event, stream_tid_is_alive, finish_stream,
  ask_again, send_nack, new_connection, create_str_connection,
}
use tenet_t.Transport.Stream.Missing.{detect_missing_packet_returns}
use tenet_t.Transport.Stream.Receive.{
  notice, all_received, accept_packet, receive_by_flag, receive_syn, receive_fin, receive_data,
  after_data, str_flag_syn, str_flag_fin, str_flag_data, str_flag_data_retx,
  streamtransport_receive,
}

-- One connection for a transaction and address.
abbrev pub AreDistinct : Streams → Type 0
AreDistinct s = IsDistinct (λ (c : StrConn). c.tid) (λ (c : StrConn). c.addr) s.conns

-- A result that is there, with distinct connections.
abbrev pub Returns : Run Streams → Type 0
Returns (ok s) = AreDistinct s
Returns (fault e) = ⊥

pub if_keeps :
    (b : Bool) (s t : Streams) → AreDistinct s → AreDistinct t → AreDistinct (if b then s else t)
if_keeps true s t hs ht = hs
if_keeps false s t hs ht = ht

if_Returns : (b : Bool) (r t : Run Streams) → Returns r → Returns t → Returns (if b then r else t)
if_Returns true r t hr ht = hr
if_Returns false r t hr ht = ht

pub put : (c : StrConn) (s : Streams) → AreDistinct s → AreDistinct (put_str c s)
put c s h = replace-IsDistinct (λ (d : StrConn). d.tid) (λ (d : StrConn). d.addr) s.conns c h

pub remove : (c : StrConn) (s : Streams) → AreDistinct s → AreDistinct (remove_str c s)
remove c s h =
    remove-IsDistinct (λ (d : StrConn). d.tid) (λ (d : StrConn). d.addr) s.conns c.tid c.addr h

tr_checksum_check_returns :
    (bytes : List ℕ) (len : ℕ)
    → tr_header + len < u8_mod
    → (right : Bool) × (tr_checksum_check bytes len ≡ ok right)
unfolding tr_checksum_check tr_calculate_checksum
tr_checksum_check_returns bytes len h =
    let small : ltb 255 (tr_header + len % u8_mod) ≡ false = ground arith in
    (
      negated_sum bytes (tr_header + len % u8_mod) == get_or bytes 5 0 || get_or bytes 5 0 == 0xff,
      rw small,
    )

get_or_byte :
    (bytes : List ℕ) (i : ℕ) → All (λ (b : ℕ). b < u8_mod) bytes → get_or bytes i 0 < u8_mod
get_or_byte [] i h = omega arith
get_or_byte (b ∷ bs) zero h = h.0
get_or_byte (b ∷ bs) (suc i) h = get_or_byte bs i h.1

seqno_bound :
    (bytes : List ℕ) → All (λ (b : ℕ). b < u8_mod) bytes → (tr_decode bytes).seqno < u16_mod
unfolding tr_decode
seqno_bound bytes h =
    let h3 = get_or_byte bytes 3 h in let h2 = get_or_byte bytes 2 h in omega arith

module _ (now : Timeval) where
  pub finish_stream-AreDistinct :
      (c : StrConn) (s : Streams) → AreDistinct s → AreDistinct (finish_stream now c s)
  unfolding finish_stream
  finish_stream-AreDistinct c s h =
      let done : StrConn =
        str_timer_start now str_connection_timeout (record c { state = StreamState.finished }) in
      let acked = event (StrEvent.fin_ack c.tid c.addr c.last_recv_seqno) (put_str done s) in
      if_keeps (c.delete_pending && not (stream_tid_is_alive acked.conns c.tid))
        (event (StrEvent.delete_done c.tid) acked) acked (put done s h) (put done s h)

  pub ask_again-AreDistinct :
      (c : StrConn) (s : Streams) → AreDistinct s → AreDistinct (ask_again now c s)
  unfolding ask_again
  ask_again-AreDistinct c s h = put (str_timer_start now str_nack_timeout (send_nack c).0) s h

  -- The two steps of a SYN, by what find_connection finds.
  create-AreDistinct :
      (tid addr seqno : ℕ) (s : Streams) (found : Option StrConn)
      → find_str s.conns tid addr ≡ found
      → AreDistinct s
      → AreDistinct (elim found [ none ↦ create_str_connection tid addr seqno s | some c ↦ s ])
  unfolding create_str_connection new_connection
  create-AreDistinct tid addr seqno s none e h = (e, h)
  create-AreDistinct tid addr seqno s (some c) e h = h

  answer-AreDistinct :
      (s : Streams) (found : Option StrConn)
      → AreDistinct s
      → AreDistinct (elim found [
        | none ↦ s
        | some c ↦ put_str (str_timer_start now str_connection_timeout c) s
      ])
  answer-AreDistinct s none h = h
  answer-AreDistinct s (some c) h = put (str_timer_start now str_connection_timeout c) s h

  receive_syn-AreDistinct :
      (tid addr seqno : ℕ) (s : Streams)
      → AreDistinct s
      → AreDistinct (receive_syn now tid addr seqno s)
  unfolding receive_syn
  receive_syn-AreDistinct tid addr seqno s h =
      let opened : Streams = elim (find_str s.conns tid addr) [
        | none ↦ create_str_connection tid addr seqno s
        | some c ↦ s
      ] in
      answer-AreDistinct (event (StrEvent.syn_ack tid addr) opened) (find_str opened.conns tid addr)
        (create-AreDistinct tid addr seqno s (find_str s.conns tid addr) refl h)

  after_data-AreDistinct :
      (k : ℕ) (c : StrConn) (s : Streams) → AreDistinct s → AreDistinct (after_data now k c s)
  unfolding after_data
  after_data-AreDistinct k c s h =
      let waiting : StrConn = elim c.state [
        | StreamState.passive ↦ record c { state = StreamState.nack_wait }
        | _ ↦ c
      ] in
      let settled : Streams = elim c.state [
        | StreamState.fin_nack_wait ↦ finish_stream now c s
        | StreamState.nack_wait ↦
            put_str
              (str_timer_start now str_connection_timeout
                (record c { state = StreamState.passive }))
              s
        | _ ↦ put_str c s
      ] in
      let settled_ok : AreDistinct settled =
        elim c.state
          as (λ (st : StreamState). AreDistinct (elim st [
            | StreamState.fin_nack_wait ↦ finish_stream now c s
            | StreamState.nack_wait ↦
                put_str
                  (str_timer_start now str_connection_timeout
                    (record c { state = StreamState.passive }))
                  s
            | _ ↦ put_str c s
          ])) [
            | StreamState.fin_nack_wait ↦ finish_stream-AreDistinct c s h
            | StreamState.nack_wait ↦
                put
                  (str_timer_start now str_connection_timeout
                    (record c { state = StreamState.passive }))
                  s h
            | StreamState.passive ↦ put c s h
            | StreamState.finished ↦ put c s h
          ] in
      if_keeps (ltb 0 k) (ask_again now waiting s)
        (if u16list_is_empty c.missing_list then settled else put_str c s)
        (ask_again-AreDistinct waiting s h)
        (if_keeps (u16list_is_empty c.missing_list) settled (put_str c s) settled_ok (put c s h))

  notice_returns :
      (seqno : ℕ) (c : StrConn) → seqno < u16_mod → (r : StrConn × ℕ) × (notice seqno c ≡ ok r)
  unfolding notice
  notice_returns seqno c h =
      let (r, found) = detect_missing_packet_returns seqno c h in
      elim (Ordering-cases (tr_seqno_cmp seqno c.last_recv_seqno)) [
        | inl lt ↦ ((c, 0), rw (lt, notice))
        | inr (inl eq) ↦ ((c, 0), rw (eq, notice))
        | inr (inr gt) ↦ ((record r.0 { last_recv_seqno = seqno }, r.1), rw (gt, found, notice))
      ]

  receive_fin-Returns :
      (tid addr seqno : ℕ) (s : Streams)
      → seqno < u16_mod
      → AreDistinct s
      → Returns (receive_fin now tid addr seqno s)
  unfolding receive_fin
  receive_fin-Returns tid addr seqno s hs h = elim (Option-cases (find_str s.conns tid addr)) [
    | inl e ↦ rw (e, receive_fin) h
    | inr (c0, e) ↦
        let (r, noticed) = notice_returns seqno c0 hs in
        let c = r.0 in
        let asking : StrConn = record c { timeout_count = 0; state = StreamState.fin_nack_wait } in
        rw (e, noticed, receive_fin)
          (if_keeps (u16list_is_empty c.missing_list) (finish_stream now c s)
            (ask_again now asking s) (finish_stream-AreDistinct c s h)
            (ask_again-AreDistinct asking s h))
  ]

  receive_data-Returns :
      (tid addr seqno : ℕ) (retx : Bool) (msg : List ℕ) (s : Streams)
      → seqno < u16_mod
      → AreDistinct s
      → Returns (receive_data now tid addr seqno retx msg s)
  unfolding receive_data
  receive_data-Returns tid addr seqno retx msg s hs h =
      elim (Option-cases (find_str s.conns tid addr)) [
        | inl e ↦ rw (e, receive_data) h
        | inr (c0, e) ↦
            let (r, noticed) = notice_returns seqno c0 hs in
            rw (e, noticed, receive_data)
              (let a = accept_packet seqno retx msg r.0 in
                after_data-AreDistinct r.1 a.0
                  (record s { events = s.events ++ all_received tid addr a.1 }) h)
      ]

  receive_by_flag-Returns :
      (addr : ℕ) (m : TransportMsg) (s : Streams)
      → m.seqno < u16_mod
      → AreDistinct s
      → Returns (receive_by_flag now addr m s)
  unfolding receive_by_flag
  receive_by_flag-Returns addr m s hs h =
      let retx = receive_data now m.tid addr m.seqno true m.payload s in
      let data_or_retx =
        if m.flag == str_flag_data
        then receive_data now m.tid addr m.seqno false m.payload s
        else if m.flag == str_flag_data_retx
        then retx
        else ok s in
      let fin_or_data =
        if m.flag == str_flag_fin then receive_fin now m.tid addr m.seqno s else data_or_retx in
      if_Returns (m.flag == str_flag_syn) (ok (receive_syn now m.tid addr m.seqno s)) fin_or_data
        (receive_syn-AreDistinct m.tid addr m.seqno s h)
        (if_Returns (m.flag == str_flag_fin) (receive_fin now m.tid addr m.seqno s) data_or_retx
          (receive_fin-Returns m.tid addr m.seqno s hs h)
          (if_Returns (m.flag == str_flag_data)
            (receive_data now m.tid addr m.seqno false m.payload s)
            (if m.flag == str_flag_data_retx then retx else ok s)
            (receive_data-Returns m.tid addr m.seqno false m.payload s hs h)
            (if_Returns (m.flag == str_flag_data_retx) retx (ok s)
              (receive_data-Returns m.tid addr m.seqno true m.payload s hs h) h)))

  pub streamtransport_receive-Returns :
      (addr : ℕ) (bytes : List ℕ) (s : Streams)
      → All (λ (b : ℕ). b < u8_mod) bytes
      → length bytes < u8_mod
      → AreDistinct s
      → Returns (streamtransport_receive now addr bytes s)
  unfolding streamtransport_receive
  streamtransport_receive-Returns addr bytes s are_bytes short h =
      elim (Bool-cases (ltb (length bytes) tr_header)) [
        | inl short ↦ rw (short, streamtransport_receive) h
        | inr long ↦
            let (right, checked) =
              tr_checksum_check_returns bytes (length bytes - tr_header) (ground arith) in
            rw (long, checked, streamtransport_receive)
              (if_Returns right (receive_by_flag now addr (tr_decode bytes) s) (ok s)
                (receive_by_flag-Returns addr (tr_decode bytes) s (seqno_bound bytes are_bytes) h)
                h)
      ]
