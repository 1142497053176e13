-- ===== src/Trd/State/Poll.antt =====
-- trd_timer_fired and polling_trd_state_timer of master/trd/trd_state.c, with trickleFired and
-- poll_trickle_timer of master/trd/trd_timer.c: what the passing of time does.
use tenet_t.Prelude.{ℕ, ◌-◌, true, ◌||◌, none, some, ◌==◌, if◌then◌else◌}
use tenet_t.Timeval.{Timeval, subtract_timeval, tv2ms}
use tenet_t.Trd.Timer.{
  update_counters, due, timer_processed, trickle_start, next_interval, alarm_due,
}
use tenet_t.Trd.State.{
  TrdState, Env, s_disconnected, s_steady, s_rx, s_fast_packet, in_init, in_rx, send_summary,
  send_fast_packet, inittimer_fired, agingtimer_fired,
}
use tenet_t.Trd.State.Recover.{read_memory}

unfoldable pub trd_timer_fired : TrdState → TrdState
unfolding send_fast_packet send_summary
trd_timer_fired s0 =
    let s =
      if s0.m_state == s_fast_packet
      then send_fast_packet s0
      else if in_rx s0.m_state
      then record s0 { m_state = s0.m_state - s_rx }
      else if s0.m_state == s_steady || in_init s0.m_state || s0.m_state == s_disconnected
      then send_summary true s0
      else s0 in
    record s { trickle = timer_processed s.trickle }

unfoldable pub trickle_fired : Env → TrdState → TrdState
unfolding trd_timer_fired
trickle_fired e s0 =
    let s1 = record s0 { trickle = update_counters e.rand s0.trickle } in
    let s = if due s1.trickle then trd_timer_fired s1 else s1 in
    record s { trickle = trickle_start e.now (next_interval e.rand) s.trickle }

unfoldable pub poll_trickle_timer : Env → TrdState → TrdState
unfolding trickle_fired
poll_trickle_timer e s = if alarm_due s.trickle.alarm e.now then trickle_fired e s else s

-- How late the aging alarm is, in milliseconds.
unfoldable pub lateness : Timeval → Timeval → ℕ
lateness now alarm = elim (subtract_timeval now alarm) [ some d ↦ tv2ms d | none ↦ 0 ]

-- The four timers, in the order of the source.
unfoldable pub polling_trd_state_timer : Env → ℕ → TrdState → TrdState
unfolding poll_trickle_timer lateness
polling_trd_state_timer e stray s0 =
    let s1 = poll_trickle_timer e s0 in
    let s2 = if alarm_due s1.init_alarm e.now then inittimer_fired e s1 else s1 in
    let s3 = if alarm_due s2.recover_alarm e.now then read_memory e stray s2 else s2 in
    if alarm_due s3.aging_alarm e.now
    then agingtimer_fired e (lateness e.now s3.aging_alarm) s3
    else s3
