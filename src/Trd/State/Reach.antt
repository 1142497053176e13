-- ===== src/Trd/State/Reach.antt =====
-- The states that master/trd/trd_state.c reaches from trd_state_init, in any order of its calls.
use tenet_t.Prelude.{ℕ, ◌*◌, ◌<◌, ◌≡◌, refl, Bool, List, arith, replicate, u16_mod, ok}
use tenet_t.Trd.Table.Live.{table_init-IsValid}
use tenet_t.Trd.Memory.Ring.{memory_init-IsValid}
use tenet_t.Trd.MetaList.{MetaListEntry, no_meta}
use tenet_t.Trd.MetaList.Keep.{metalist_init-IsValid}
use tenet_t.Trd.Msg.{TrdMsg}
use tenet_t.Trd.State.{
  TrdState, Env, inittimer_start, recovertimer_stop, agingtimer_start, recover_list_size,
  trd_state_init, get_next_seqno,
}
use tenet_t.Trd.State.Poll.{polling_trd_state_timer}
use tenet_t.Trd.State.NewMsg.{trd_state_new_msg}
use tenet_t.Trd.State.Summary.{SummaryMsg, trd_state_summary_received}
use tenet_t.Trd.State.Recover.{trd_state_request_received}
use tenet_t.Trd.State.Sound.{IsSound}
use tenet_t.Trd.State.Timers.{polling_trd_state_timer-IsSound}
use tenet_t.Trd.State.Packets.{trd_state_new_msg-IsSound}
use tenet_t.Trd.State.Requests.{
  HasAges, trd_state_summary_received-IsSound, trd_state_request_received-IsSound,
}

-- One call from the outside that returns.
pub data Step (s : TrdState) : TrdState → Type 0 where
  poll : (e : Env) (stray : ℕ) → Step s (polling_trd_state_timer e stray s)
  next_seqno : Step s (get_next_seqno s).0
  new_msg :
      (e : Env) (m : TrdMsg) (s' : TrdState) (b : Bool)
      → m.metadata.age < u16_mod
      → trd_state_new_msg e m s ≡ ok (s', b)
      → Step s s'
  summary :
      (e : Env) (m : SummaryMsg) (s' : TrdState)
      → HasAges m.entries
      → trd_state_summary_received e m s ≡ ok s'
      → Step s s'
  request :
      (e : Env) (stray : ℕ) (ms : List MetaListEntry) (s' : TrdState)
      → trd_state_request_received e stray ms s ≡ ok s'
      → Step s s'

pub data Reachable : TrdState → Type 0 where
  start : (e : Env) (s : TrdState) → Reachable (trd_state_init e s)
  step : (s s' : TrdState) → Reachable s → Step s s' → Reachable s'

pub trd_state_init-IsSound : (e : Env) (s : TrdState) → IsSound (trd_state_init e s)
unfolding trd_state_init inittimer_start recovertimer_stop agingtimer_start
trd_state_init-IsSound e s = record {
  phase = refl;
  known = table_init-IsValid;
  store = memory_init-IsValid;
  queue =
      metalist_init-IsValid (replicate (2 * recover_list_size) no_meta) recover_list_size
        (omega arith) (omega arith) (omega arith);
}

-- A step leaves a sound state sound.
pub Step-IsSound : (s s' : TrdState) → IsSound s → Step s s' → IsSound s'
unfolding get_next_seqno
Step-IsSound s s' v (poll e stray) = polling_trd_state_timer-IsSound e stray s v
Step-IsSound s s' v next_seqno = record {
  phase = v.phase;
  known = v.known;
  store = v.store;
  queue = v.queue;
}
Step-IsSound s s' v (new_msg e m t b h16 h) = trd_state_new_msg-IsSound e m s t b v h16 h
Step-IsSound s s' v (summary e m t a h) = trd_state_summary_received-IsSound e m s t v a h
Step-IsSound s s' v (request e stray ms t h) = trd_state_request_received-IsSound e stray ms s t v h

-- Every state that is reached from trd_state_init by polls, sequence numbers taken, messages,
-- summaries and requests that return, with ages in the range of uint16_t, in any order and
-- whatever the times and random numbers, is sound: m_state is one of the known phases, and the
-- table, the store and the list of packets to send again are valid.
pub Reachable-IsSound : (s : TrdState) → Reachable s → IsSound s
Reachable-IsSound s (start e s0) = trd_state_init-IsSound e s0
Reachable-IsSound s (step s0 s1 r st) = Step-IsSound s0 s1 (Reachable-IsSound s0 r) st
