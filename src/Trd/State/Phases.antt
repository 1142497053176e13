-- ===== src/Trd/State/Phases.antt =====
-- The values of m_state in master/trd/trd_state.c: which of them the handlers leave.
use tenet_t.Prelude.{ℕ, ◌≡◌, ◌+◌, Bool, true, ◌||◌, arith, ◌==◌}
use tenet_t.Trd.State.{
  TrdState, Env, s_disconnected, s_init_0, s_init, s_init_ready, s_steady, s_rx, s_tx,
  s_fast_packet, inittimer_start, inittimer_stop, recovertimer_start, recovertimer_stop,
  timer_reset, inittimer_fired, send_summary, send_fast_packet,
}
use tenet_t.Trd.State.Poll.{trd_timer_fired}
use tenet_t.Trd.State.NewMsg.{connect, signal_new, spread}
use tenet_t.Trd.State.Summary.{Reply, send_request, agree, answer_now, act}
use tenet_t.Trd.State.Recover.{after_send}
use tenet_t.Trd.Msg.{TrdMsg}

-- A value that some phase has: one of trd_state.h, or one of its initial or steady values with
-- TRD_S_RX set.
abbrev pub is_phase : ℕ → Bool
is_phase m =
    m == s_disconnected
    || m == s_init_0
    || m == s_init
    || m == s_init_ready
    || m == s_steady
    || m == s_tx
    || m == s_fast_packet
    || m == s_init_0 + s_rx
    || m == s_init + s_rx
    || m == s_init_ready + s_rx
    || m == s_steady + s_rx

abbrev pub IsPhase : TrdState → Type 0
IsPhase s = is_phase s.m_state ≡ true

pub inittimer_fired-IsPhase : (e : Env) (s : TrdState) → IsPhase s → IsPhase (inittimer_fired e s)
unfolding inittimer_fired inittimer_start inittimer_stop timer_reset
inittimer_fired-IsPhase e s h = ground arith

pub trd_timer_fired-IsPhase : (s : TrdState) → IsPhase s → IsPhase (trd_timer_fired s)
unfolding trd_timer_fired send_summary send_fast_packet
trd_timer_fired-IsPhase s h = ground arith

pub after_send-IsPhase : (e : Env) (s : TrdState) → IsPhase s → IsPhase (after_send e s)
unfolding after_send recovertimer_start recovertimer_stop
after_send-IsPhase e s h = ground arith

pub act-IsPhase : (e : Env) (d : ℕ) (r : Reply) (s : TrdState) → IsPhase s → IsPhase (act e d r s)
unfolding act send_request agree answer_now timer_reset send_summary inittimer_stop
act-IsPhase e d r s h = ground arith

pub connect-IsPhase : (e : Env) (s : TrdState) → IsPhase s → IsPhase (connect e s)
unfolding connect inittimer_start
connect-IsPhase e s h = ground arith

pub spread-IsPhase : (e : Env) (m : TrdMsg) (s : TrdState) → IsPhase s → IsPhase (spread e m s)
unfolding spread timer_reset
spread-IsPhase e m s h = ground arith

pub signal_new-IsPhase :
    (e : Env) (m : TrdMsg) (c : Bool) (s : TrdState) → IsPhase s → IsPhase (signal_new e m c s).0
unfolding signal_new
signal_new-IsPhase e m c s h = ground arith
