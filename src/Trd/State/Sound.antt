-- ===== src/Trd/State/Sound.antt =====
-- What every handler of master/trd/trd_state.c keeps: the phase, the table, the store and the list
-- of packets to send again.
use tenet_t.Prelude.{ℕ, ◌≡◌, Bool, arith}
use tenet_t.Trd.Timer.{update_counters}
use tenet_t.Trd.Table.Live as TableLive
use tenet_t.Trd.Table.Live.{table_init-IsValid}
use tenet_t.Trd.Memory.Ring as Store
use tenet_t.Trd.Memory.Ring.{memory_init-IsValid, memory_write_lem}
use tenet_t.Trd.MetaList.Queue as ListQueue
use tenet_t.Trd.Msg.{TrdMsg}
use tenet_t.Trd.State.{
  TrdState, Env, inittimer_start, inittimer_stop, recovertimer_start, recovertimer_stop,
  timer_reset, inittimer_fired, send_summary, send_fast_packet,
}
use tenet_t.Trd.State.Phases.{IsPhase, trd_timer_fired-IsPhase}
use tenet_t.Trd.State.Poll.{trd_timer_fired, trickle_fired, poll_trickle_timer}
use tenet_t.Trd.State.NewMsg.{connect, signal_new, spread}
use tenet_t.Trd.State.Summary.{Reply, SummaryMsg, send_request, agree, answer_now, act, greet}
use tenet_t.Trd.State.Recover.{after_send}

pub record IsSound (s : TrdState) : Type 0 where
  pub phase : IsPhase s
  pub known : TableLive.IsValid s.table
  pub store : Store.IsValid s.mem
  pub queue : ListQueue.IsValid s.recoverlist

-- The parts of the state that most steps leave as they were.
pub record Kept (s s' : TrdState) : Type 0 where
  pub table : s'.table ≡ s.table
  pub mem : s'.mem ≡ s.mem
  pub recoverlist : s'.recoverlist ≡ s.recoverlist

pub Kept-IsSound : (s s' : TrdState) → Kept s s' → IsSound s → IsPhase s' → IsSound s'
Kept-IsSound s s' k v p = record {
  phase = p;
  known = rw k.table v.known;
  store = rw k.mem v.store;
  queue = rw k.recoverlist v.queue;
}

pub inittimer_fired-Kept : (e : Env) (s : TrdState) → Kept s (inittimer_fired e s)
unfolding inittimer_fired inittimer_start inittimer_stop timer_reset
inittimer_fired-Kept e s = record {
  table = ground arith;
  mem = ground arith;
  recoverlist = ground arith;
}

pub trickle_fired-Kept : (e : Env) (s : TrdState) → Kept s (poll_trickle_timer e s)
unfolding poll_trickle_timer trickle_fired trd_timer_fired send_summary send_fast_packet
trickle_fired-Kept e s = record {
  table = ground arith;
  mem = ground arith;
  recoverlist = ground arith;
}

pub act-Kept : (e : Env) (d : ℕ) (r : Reply) (s : TrdState) → Kept s (act e d r s)
unfolding act send_request agree answer_now timer_reset send_summary inittimer_stop
act-Kept e d r s = record { table = ground arith; mem = ground arith; recoverlist = ground arith }

pub connect-Kept : (e : Env) (s : TrdState) → Kept s (connect e s)
unfolding connect inittimer_start
connect-Kept e s = record { table = ground arith; mem = ground arith; recoverlist = ground arith }

pub spread-Kept : (e : Env) (m : TrdMsg) (s : TrdState) → Kept s (spread e m s)
unfolding spread timer_reset
spread-Kept e m s = record { table = ground arith; mem = ground arith; recoverlist = ground arith }

pub signal_new-Kept :
    (e : Env) (m : TrdMsg) (c : Bool) (s : TrdState) → Kept s (signal_new e m c s).0
unfolding signal_new
signal_new-Kept e m c s = record {
  table = ground arith;
  mem = ground arith;
  recoverlist = ground arith;
}

pub after_send-Kept : (e : Env) (s : TrdState) → Kept s (after_send e s)
unfolding after_send recovertimer_start recovertimer_stop
after_send-Kept e s = record {
  table = ground arith;
  mem = ground arith;
  recoverlist = ground arith;
}

pub greet-Kept : (m : SummaryMsg) (s : TrdState) → Kept s (greet m s).0
unfolding greet send_summary
greet-Kept m s = record { table = ground arith; mem = ground arith; recoverlist = ground arith }

pub greet-IsPhase : (m : SummaryMsg) (s : TrdState) → IsPhase s → IsPhase (greet m s).0
unfolding greet send_summary
greet-IsPhase m s h = ground arith

pub poll_trickle_timer-IsPhase :
    (e : Env) (s : TrdState) → IsPhase s → IsPhase (poll_trickle_timer e s)
unfolding poll_trickle_timer trickle_fired
poll_trickle_timer-IsPhase e s h =
    ground
      (arith, trd_timer_fired-IsPhase (record s { trickle = update_counters e.rand s.trickle }) h)
