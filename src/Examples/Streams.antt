-- ===== src/Examples/Streams.antt =====
-- Streams of master/transport/streamtransport.c on concrete packets.
use tenet_t.Prelude.{
  ℕ, ◌+◌, ◌≡◌, refl, none, some, List, [], ◌∷◌, ◌++◌, arith, replicate, Run, ok, fault,
}
use tenet_t.Timeval.{Timeval, carry, add_ms_to_timeval}
use tenet_t.Transport.Seqno.{tr_reduce, tr_seqno_next, tr_seqno_add, tr_seqno_cmp}
use tenet_t.Transport.Seqno.Order.{at_position}
use tenet_t.Transport.U16List.{u16list_is_empty, u16list_get_ith, u16list_insert, u16list_find}
use tenet_t.Trd.Msg.{sum_bytes}
use tenet_t.Transport.Packet.{tr_decode, tr_calculate_checksum, tr_checksum_check}
use tenet_t.Transport.Connection.{find_connection, replace_connection}
use tenet_t.Transport.Stream.{
  StreamState, StrConn, StrEvent, Streams, find_str, new_connection, create_str_connection,
  str_timer_start, detect_from, finish_stream, ask_again, nack_items, detect_missing_packet,
  send_nack, stream_tid_is_alive,
}
use tenet_t.Transport.Stream.InOrder.{
  Received, IsFirstMissing, receive_str_msg-in_order, receive_str_msg-IsFirstMissing,
}
use tenet_t.Transport.Stream.Keeps.{AreDistinct}
use tenet_t.Transport.Stream.Live.{fire_all, fin_nack_wait_removed}
use tenet_t.Transport.Stream.Missing.{detect_missing_packet_between}
use tenet_t.Transport.Stream.Nack.{send_nack_lem}
use tenet_t.Transport.Stream.Reach.{Reached, Reached-AreDistinct, streamtransport_receive_returns}
use tenet_t.Transport.Stream.Receive.{
  receive_str_msg, receive_syn, receive_fin, receive_by_flag, notice, streamtransport_receive,
}

-- A stream that starts with 49999: position 1 is 50000, position 2 is 1.
abbrev base : ℕ
base = 49999

abbrev payload : ℕ → List ℕ
payload p = p ∷ 0 ∷ []

abbrev opened : StrConn
opened = new_connection 7 3 base

abbrev step : ℕ → StrConn → StrConn × List (List ℕ)
step p c = receive_str_msg (at_position base p) (payload p) c

abbrev after_one : StrConn × List (List ℕ)
after_one = step 1 opened

abbrev after_three : StrConn × List (List ℕ)
after_three = step 3 after_one.0

abbrev after_two : StrConn × List (List ℕ)
after_two = step 2 after_three.0

abbrev delivered : List (List ℕ)
delivered = (([] ++ after_one.1) ++ after_three.1) ++ after_two.1

three-Received : Received base payload after_two.0 (2 ∷ 3 ∷ 1 ∷ []) delivered
three-Received =
    Received.arrived after_three.0 (3 ∷ 1 ∷ []) (([] ++ after_one.1) ++ after_three.1) 2 2
      (Received.arrived after_one.0 (1 ∷ []) ([] ++ after_one.1) 3 2
        (Received.arrived opened [] [] 1 1 (Received.opened 7 3)
          (omega arith, (λ x h lt. ground arith, refl)) (omega arith, omega arith))
        (omega arith, (λ x h lt. ground arith, refl)) (omega arith, omega arith))
      (omega arith, (λ x h lt. ground arith, refl)) (omega arith, omega arith)

receive_str_msg-in_order_example : delivered ≡ (1 ∷ 0 ∷ []) ∷ (2 ∷ 0 ∷ []) ∷ (3 ∷ 0 ∷ []) ∷ []
receive_str_msg-in_order_example =
    receive_str_msg-in_order base payload after_two.0 (2 ∷ 3 ∷ 1 ∷ []) delivered 3 (omega arith)
      (omega arith) three-Received (omega arith, (λ x h lt. ground arith, refl))

receive_str_msg-IsFirstMissing_example :
    (m : ℕ) × (IsFirstMissing (m + 1) (2 ∷ 3 ∷ 1 ∷ [])
      × (after_two.0.next_expected_seqno ≡ at_position base (m + 1)))
receive_str_msg-IsFirstMissing_example =
    receive_str_msg-IsFirstMissing base payload after_two.0 (2 ∷ 3 ∷ 1 ∷ []) delivered (omega arith)
      (omega arith) three-Received

detect_missing_packet_between_example :
    detect_missing_packet (at_position base 3) opened
    ≡ ok (record opened { missing_list = 50000 ∷ 1 ∷ []; total_lost_packets = 2 }, 2)
unfolding at_position new_connection u16list_insert u16list_find
detect_missing_packet_between_example =
    detect_missing_packet_between base 0 2 opened (omega arith) (omega arith) refl

abbrev waiting : StrConn
waiting = record opened { last_recv_seqno = 350; missing_list = 1 ∷ 150 ∷ 151 ∷ 300 ∷ [] }

send_nack_lem_example : send_nack waiting ≡ (
  record waiting { missing_list = 151 ∷ 300 ∷ [] },
  StrEvent.nack 7 3 350 (151 ∷ 300 ∷ 0 ∷ 0 ∷ 0 ∷ []) ∷ [],
)
unfolding new_connection tr_seqno_cmp tr_seqno_add tr_reduce
send_nack_lem_example = send_nack_lem waiting (omega arith)

-- Two connections of transaction 7: one has finished, one has not.
abbrev two : Streams
two = record {
  conns = opened ∷ record opened { addr = 4; state = StreamState.finished } ∷ [];
  events = [];
}

abbrev at_second : ℕ → Timeval
at_second t = record { tv_sec = t; tv_usec = 0 }

abbrev run_ok : Run Streams → Streams
run_ok (ok s) = s
run_ok (fault e) = two

abbrev start : Streams
start = record { conns = []; events = [] }

-- A SYN with sequence number 10, a FIN with 13: 11 and 12 are missing.
abbrev syn : List ℕ
syn = 7 ∷ 0 ∷ 10 ∷ 0 ∷ 2 ∷ 255 ∷ []

abbrev fin : List ℕ
fin = 7 ∷ 0 ∷ 13 ∷ 0 ∷ 4 ∷ 255 ∷ []

abbrev after_syn : Streams
after_syn = run_ok (streamtransport_receive (at_second 100) 3 syn start)

abbrev after_fin : Streams
after_fin = run_ok (streamtransport_receive (at_second 101) 3 fin after_syn)

syn_runs : streamtransport_receive (at_second 100) 3 syn start ≡ ok after_syn
unfolding streamtransport_receive tr_checksum_check tr_calculate_checksum tr_decode receive_by_flag
    receive_syn find_connection create_str_connection new_connection replace_connection
    str_timer_start add_ms_to_timeval sum_bytes
syn_runs = refl

fin_runs : streamtransport_receive (at_second 101) 3 fin after_syn ≡ ok after_fin
unfolding streamtransport_receive tr_checksum_check tr_calculate_checksum tr_decode receive_by_flag
    receive_syn find_connection create_str_connection new_connection replace_connection
    str_timer_start add_ms_to_timeval carry sum_bytes receive_fin notice detect_missing_packet
    detect_from tr_seqno_next tr_seqno_cmp tr_seqno_add tr_reduce u16list_insert u16list_find
    u16list_is_empty finish_stream stream_tid_is_alive ask_again send_nack nack_items
    u16list_get_ith
fin_runs = refl

syn-Reached : Reached after_syn
syn-Reached =
    Reached.packet (at_second 100) 3 syn start after_syn Reached.at_start
      (omega arith, (omega arith, (omega arith, (omega arith, (omega arith, (omega arith, tt))))))
      (omega arith) syn_runs

fin-Reached : Reached after_fin
fin-Reached =
    Reached.packet (at_second 101) 3 fin after_syn after_fin syn-Reached
      (omega arith, (omega arith, (omega arith, (omega arith, (omega arith, (omega arith, tt))))))
      (omega arith) fin_runs

Reached-AreDistinct_example : AreDistinct after_fin
Reached-AreDistinct_example = Reached-AreDistinct after_fin fin-Reached

streamtransport_receive_returns_example :
    (s' : Streams) × ((streamtransport_receive (at_second 102) 3 fin after_fin ≡ ok s')
      × AreDistinct s')
streamtransport_receive_returns_example =
    streamtransport_receive_returns (at_second 102) 3 fin after_fin fin-Reached
      (omega arith, (omega arith, (omega arith, (omega arith, (omega arith, (omega arith, tt))))))
      (omega arith)

abbrev last_waiting : StrConn
last_waiting = record (new_connection 7 3 10) {
  last_recv_seqno = 13;
  total_lost_packets = 2;
  alarm_time = at_second 104;
  missing_list = 11 ∷ 12 ∷ [];
  state = StreamState.fin_nack_wait;
}

last_waiting_found : find_str after_fin.conns 7 3 ≡ some last_waiting
unfolding streamtransport_receive tr_checksum_check tr_calculate_checksum tr_decode receive_by_flag
    receive_syn find_connection create_str_connection new_connection replace_connection
    str_timer_start add_ms_to_timeval carry sum_bytes receive_fin notice detect_missing_packet
    detect_from tr_seqno_next tr_seqno_cmp tr_seqno_add tr_reduce u16list_insert u16list_find
    u16list_is_empty finish_stream stream_tid_is_alive ask_again send_nack nack_items
    u16list_get_ith
last_waiting_found = refl

fin_nack_wait_removed_example :
    find_str (fire_all 7 3 (replicate 51 (at_second 200)) after_fin).conns 7 3 ≡ none
unfolding new_connection
fin_nack_wait_removed_example =
    fin_nack_wait_removed 7 3 (replicate 51 (at_second 200)) after_fin last_waiting fin-Reached
      last_waiting_found refl (omega arith) (omega arith)
