-- ===== src/Transport/Tcmp/Handlers.antt =====
-- The answers and timeouts of pings and traces in master/transport/tcmp.c.
use tenet_t.Prelude.{
  ℕ, ◌+◌, ◌-◌, ◌*◌, ◌/◌, ◌%◌, Bool, true, false, not, ◌&&◌, ◌||◌, Option, none, some, List, [], ◌∷◌,
  ltb, leb, ◌==◌, if◌then◌else◌, length, u16_mod, u8_mod, Fault, Run, ok, fault, ◌>>=◌,
}
use tenet_t.Timeval.{Timeval, subtract_timeval}
use tenet_t.Trd.Timer.{alarm_due}
use tenet_t.Transport.Packet.{tr_decode}
use tenet_t.Transport.Tcmp.{
  TcmpEntry, PingMsg, TcmpEvent, Tcmps, tcmp_flag_ping, tcmp_flag_ping_ack, tcmp_flag_tracert,
  tcmp_flag_tracert_ack, tcmp_default_num_ping, tcmp_default_num_tracert, tcmp_timeout,
  rt_default_ttl, bcast_addr, tcmp_event, find_tcmp, find_tcmp_by_tid, change_tcmp, remove_tcmp,
  tcmp_send_ping, tcmp_send_tracert,
}

-- The round-trip time since a send: `none` where it counts as a timeout. A clock that has gone back
-- leaves the variable unset.
unfoldable pub round_trip : Timeval → Timeval → Run (Option Timeval)
unfolding subtract_timeval
round_trip now sent_time = elim (subtract_timeval now sent_time) [
  | none ↦ fault Fault.uninitialised
  | some d ↦ ok (if leb (tcmp_timeout / 1000 - 1) d.tv_sec then none else some d)
]

abbrev pub has_time : Option Timeval → Bool
has_time none = false
has_time (some d) = true

-- `t->seqno++`.
unfoldable pub count_up : TcmpEntry → TcmpEntry
count_up t = record t { seqno = (t.seqno + 1) % u16_mod }

-- `t->ttl++`.
unfoldable pub one_hop_more : TcmpEntry → TcmpEntry
one_hop_more t = record t { ttl = (t.ttl + 1) % u8_mod }

unfoldable pub end_tcmp : ℕ → ℕ → Tcmps → Tcmps
unfolding remove_tcmp
end_tcmp tid addr s =
    tcmp_event (TcmpEvent.over tid) (record s { entries = remove_tcmp s.entries tid addr })

-- The report to the client of an answer to the ping `t`.
unfoldable pub report_ping : ℕ → ℕ → TcmpEntry → Option Timeval → Tcmps → Tcmps
unfolding count_up change_tcmp
report_ping tid addr t rtt s =
    if not (t.addr == bcast_addr) || has_time rtt
    then tcmp_event
        (TcmpEvent.ping_ack tid addr (record { rtt = rtt; seqno = t.seqno; node = addr }))
        (record s { entries = change_tcmp count_up s.entries tid addr })
    else s

-- What follows the report: more pings, or the end.
unfoldable pub after_ping : Timeval → ℕ → TcmpEntry → Option Timeval → ℕ → Tcmps → Tcmps
unfolding end_tcmp tcmp_send_ping
after_ping now tid t rtt seqno s =
    if t.addr == bcast_addr
    then if has_time rtt then s else end_tcmp tid t.addr s
    else if ltb seqno tcmp_default_num_ping
    then tcmp_send_ping now tid t.addr s
    else end_tcmp tid t.addr s

unfoldable pub receive_ping_ack : Timeval → ℕ → ℕ → ℕ → Tcmps → Run Tcmps
unfolding find_tcmp round_trip report_ping after_ping
receive_ping_ack now tid addr seqno s = elim (find_tcmp s.entries tid addr) [
  | none ↦ ok s
  | some t ↦
      let answered = round_trip now t.sent_time >>= λ measured.
      let rtt = if addr == bcast_addr then none else measured in
      ok (after_ping now tid t rtt seqno (report_ping tid addr t rtt s)) in
      if not (seqno == t.seqno) && not (t.addr == bcast_addr) then ok s else answered
]

-- What follows an answer to a trace: more probes of the hop, the next hop, or the end.
unfoldable pub after_tracert : Timeval → ℕ → ℕ → ℕ → TcmpEntry → Tcmps → Tcmps
unfolding tcmp_send_tracert change_tcmp one_hop_more end_tcmp
after_tracert now tid addr seqno t s =
    if ltb seqno (tcmp_default_num_tracert * t.ttl)
    then tcmp_send_tracert now tid t.addr s
    else if addr == t.addr
    then end_tcmp tid t.addr s
    else tcmp_send_tracert now tid t.addr
        (record s { entries = change_tcmp one_hop_more s.entries tid bcast_addr })

unfoldable pub receive_tracert_ack : Timeval → ℕ → ℕ → ℕ → Tcmps → Run Tcmps
unfolding find_tcmp_by_tid round_trip count_up change_tcmp after_tracert
receive_tracert_ack now tid addr seqno s = elim (find_tcmp_by_tid s.entries tid) [
  | none ↦ ok s
  | some t ↦
      let answered = round_trip now t.sent_time >>= λ rtt. ok (
        after_tracert now tid addr seqno t (
          tcmp_event
            (TcmpEvent.tracert_ack tid t.addr (record { rtt = rtt; seqno = t.seqno; node = addr }))
            (record s { entries = change_tcmp count_up s.entries tid bcast_addr }))) in
      if seqno == t.seqno then answered else ok s
]

abbrev send_ack : ℕ → ℕ → ℕ → ℕ → Tcmps → Tcmps
send_ack flag tid addr seqno s = tcmp_event (TcmpEvent.sent addr flag tid seqno rt_default_ttl) s

-- The number of bytes up to the flag, which is the last field that TCMP_receive reads.
abbrev pub read_bytes : ℕ
read_bytes = 5

-- TCMP_receive at the node `here`. The length is not tested: of a shorter packet bytes are read that are
-- not its own.
unfoldable pub tcmp_receive : ℕ → Timeval → List ℕ → ℕ → ℕ → Tcmps → Run Tcmps
unfolding receive_ping_ack receive_tracert_ack
tcmp_receive here now bytes src dst s =
    let m = tr_decode bytes in
    if ltb (length bytes) read_bytes
    then fault Fault.out_of_bounds
    else if m.flag == tcmp_flag_ping
    then ok (send_ack tcmp_flag_ping_ack m.tid src m.seqno s)
    else if m.flag == tcmp_flag_ping_ack
    then if dst == here then receive_ping_ack now m.tid src m.seqno s else ok s
    else if m.flag == tcmp_flag_tracert
    then ok (send_ack tcmp_flag_tracert_ack m.tid src m.seqno s)
    else if m.flag == tcmp_flag_tracert_ack
    then if dst == here then receive_tracert_ack now m.tid src m.seqno s else ok s
    else ok s

-- TCMP_Timer_fired: a timeout is an answer from the destination under the number expected.
unfoldable pub tcmp_timer_fired : Timeval → TcmpEntry → Tcmps → Run Tcmps
unfolding receive_ping_ack receive_tracert_ack
tcmp_timer_fired now t s =
    if t.type == tcmp_flag_ping
    then receive_ping_ack now t.tid t.addr t.seqno s
    else if t.type == tcmp_flag_tracert
    then receive_tracert_ack now t.tid t.addr t.seqno s
    else ok s

unfoldable pub first_tcmp_due : Timeval → List TcmpEntry → Option TcmpEntry
first_tcmp_due now [] = none
first_tcmp_due now (t ∷ ts) = if alarm_due t.alarm_time now then some t else first_tcmp_due now ts

unfoldable pub polling_tcmp_timer : Timeval → Tcmps → Run Tcmps
unfolding first_tcmp_due tcmp_timer_fired
polling_tcmp_timer now s = elim (first_tcmp_due now s.entries) [
  | none ↦ ok s
  | some t ↦ tcmp_timer_fired now t s
]

-- parse_tracert_response of service_if.c, on a whole message: the node, the hop, the time and the number.
unfoldable pub parse_tracert_response : PingMsg → ℕ × ℕ × Option Timeval × ℕ
parse_tracert_response m = (m.node, (m.seqno - 1) / tcmp_default_num_tracert + 1, m.rtt, m.seqno)
