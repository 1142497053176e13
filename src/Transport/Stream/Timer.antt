-- ===== src/Transport/Stream/Timer.antt =====
-- STR_Timer_fired and polling_streamtransport_timer of master/transport/streamtransport.c.
use tenet_t.Prelude.{◌+◌, not, Option, none, some, List, [], ◌∷◌, leb, if◌then◌else◌}
use tenet_t.Timeval.{Timeval}
use tenet_t.Trd.Timer.{alarm_due}
use tenet_t.Transport.U16List.{u16list_is_empty}
use tenet_t.Transport.Stream.{
  StreamState, StrConn, Streams, put_str, remove_str, max_timeout_count, str_connection_timeout,
  str_timer_start, finish_stream, ask_again,
}

-- The states that wait for missing packets. `done` is what happens when there are none.
unfoldable pub nack_timeout : Timeval → StrConn → Streams → Streams → Streams
nack_timeout now c0 done s =
    let c = record c0 { timeout_count = c0.timeout_count + 1 } in
    if leb max_timeout_count c.timeout_count
    then remove_str c s
    else if not (u16list_is_empty c.missing_list)
    then ask_again now c s
    else done

unfoldable pub str_timer_fired : Timeval → StrConn → Streams → Streams
unfolding nack_timeout
str_timer_fired now c s =
    let late = record c { timeout_count = c.timeout_count + 1 } in
    elim c.state [
      | StreamState.finished ↦ remove_str c s
      | StreamState.nack_wait ↦
          nack_timeout now c
            (put_str
              (str_timer_start now str_connection_timeout
                (record late { state = StreamState.passive }))
              s)
            s
      | StreamState.fin_nack_wait ↦ nack_timeout now c (finish_stream now late s) s
      | StreamState.passive ↦ if c.delete_pending then remove_str c s else s
    ]

-- The first connection whose alarm is due.
unfoldable pub first_due : Timeval → List StrConn → Option StrConn
first_due now [] = none
first_due now (c ∷ cs) = if alarm_due c.alarm_time now then some c else first_due now cs

-- The loop stops at the first connection that is due.
unfoldable pub polling_streamtransport_timer : Timeval → Streams → Streams
unfolding first_due str_timer_fired
polling_streamtransport_timer now s = elim (first_due now s.conns) [
  | none ↦ s
  | some c ↦ str_timer_fired now c s
]
