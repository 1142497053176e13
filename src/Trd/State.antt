-- ===== src/Trd/State.antt =====
-- master/trd/trd_state.c: the state of the dissemination module, its timers, and what it sends.
-- `m_state` keeps the source's bits: `m_state & TRD_S_INIT` is bit 0 and `m_state & TRD_S_RX` bit 2.
pub mod NewMsg
pub mod Summary
pub mod Recover
pub mod Poll
pub mod Phases
pub mod Sound
pub mod Timers
pub mod Packets
pub mod Requests
pub mod Reach
pub mod Deliver
pub mod Enlist
use tenet_t.Prelude.{
  ℕ, zero, suc, ◌+◌, ◌-◌, ◌*◌, ◌/◌, ◌%◌, Bool, true, false, ◌&&◌, ◌||◌, List, [], ◌∷◌, ◌++◌, ltb,
  leb, ◌==◌, if◌then◌else◌, replicate, u16_mod, Ordering,
}
use tenet_t.Timeval.{Timeval, zero_time, add_ms_to_timeval}
use tenet_t.Trd.Seqno.{seqno_unknown, seqno_next}
use tenet_t.Trd.NodeCache.{cache_entries_per_node, invalid_origin}
use tenet_t.Trd.Table.{
  Table, Metadata, table_init, table_increment_age, table_summarize, table_get_last_seqno,
}
use tenet_t.Trd.Memory.{Memory, memory_init}
use tenet_t.Trd.MetaList.{MetaList, MetaListEntry, no_meta, metalist_init}
use tenet_t.Trd.Timer.{Trickle, timer_init, trickle_reset}
use tenet_t.Trd.Msg.{TrdMsg, set_checksum}

abbrev pub s_disconnected : ℕ
s_disconnected = 0x00

abbrev pub s_init_0 : ℕ
s_init_0 = 0x11

abbrev pub s_init : ℕ
s_init = 0x01

abbrev pub s_init_ready : ℕ
s_init_ready = 0x21

abbrev pub s_steady : ℕ
s_steady = 0x02

abbrev pub s_rx : ℕ
s_rx = 0x04

abbrev pub s_tx : ℕ
s_tx = 0x08

abbrev pub s_fast_packet : ℕ
s_fast_packet = 0x10

-- `m_state & TRD_S_INIT` and `m_state & TRD_S_RX`.
abbrev pub in_init : ℕ → Bool
in_init m = m % 2 == 1

abbrev pub in_rx : ℕ → Bool
in_rx m = m / 4 % 2 == 1

abbrev pub fast_retx_count : ℕ
fast_retx_count = 1

abbrev pub recover_list_size : ℕ
recover_list_size = cache_entries_per_node

abbrev pub retry_time : ℕ
retry_time = 100

abbrev pub rx_wait_time : ℕ
rx_wait_time = 200

abbrev pub age_unittime : ℕ
age_unittime = 10240

-- What is handed to the link: trd_rebroadcast, trd_send_summary and trd_send_request. A summary that
-- asks for everything has `num_entries == -1`. Of a request's entries the age is not set.
pub data Out : Type 0 where
  rebroadcast : TrdMsg → Out
  summary : Bool → List Metadata → Out
  request : ℕ → List MetaListEntry → Out

-- The global variables, with `sent` for what the link has been handed so far. The counter
-- m_fast_retx_count stays at 0 where the source's goes on to -1: it is only compared with 0.
pub record TrdState : Type 0 where
  pub local_addr : ℕ
  pub m_state : ℕ
  pub table : Table
  pub mem : Memory
  pub lastpacket : TrdMsg
  pub lastmeta : MetaListEntry
  pub retx_count : ℕ
  pub recover_alarm : Timeval
  pub aging_alarm : Timeval
  pub init_alarm : Timeval
  pub bootup : Timeval
  pub init_loop_cnt : ℕ
  pub init_done : Bool
  pub recoverlist : MetaList
  pub m_seqno : ℕ
  pub trickle : Trickle
  pub sent : List Out

-- The time of day and the next random number, read once for each call.
pub record Env : Type 0 where
  pub now : Timeval
  pub rand : ℕ

abbrev pub emit : Out → TrdState → TrdState
emit o s = record s { sent = s.sent ++ (o ∷ []) }

unfoldable pub recovertimer_start : Env → ℕ → TrdState → TrdState
recovertimer_start e ms s = record s { recover_alarm = add_ms_to_timeval e.now ms }

unfoldable pub recovertimer_stop : TrdState → TrdState
recovertimer_stop s = record s { recover_alarm = zero_time }

unfoldable pub inittimer_start : Env → ℕ → TrdState → TrdState
inittimer_start e ms s = record s { init_alarm = add_ms_to_timeval e.now ms }

unfoldable pub inittimer_stop : TrdState → TrdState
inittimer_stop s = record s { init_alarm = zero_time }

unfoldable pub agingtimer_start : Env → ℕ → TrdState → TrdState
agingtimer_start e ms s = record s { aging_alarm = add_ms_to_timeval e.now ms }

unfoldable pub timer_reset : Env → TrdState → TrdState
timer_reset e s = record s { trickle = trickle_reset e.rand s.trickle }

unfoldable pub inittimer_fired : Env → TrdState → TrdState
unfolding inittimer_start inittimer_stop timer_reset
inittimer_fired e s0 =
    let s = inittimer_stop s0 in
    if s.m_state == s_disconnected
    then record (timer_reset e (inittimer_start e 20000 s)) {
      init_loop_cnt = s.init_loop_cnt + 1;
      m_state = if leb 2 s.init_loop_cnt then s_init_0 else s.m_state;
    }
    else if s.m_state == s_init_0
    then timer_reset e (record (inittimer_start e 4000 s) { m_state = s_init })
    else if s.m_state == s_init
    then inittimer_start e 10000 (record s { m_state = s_init_ready })
    else if s.m_state == s_init_ready
    then record s { m_state = s_steady; init_done = true }
    else if in_rx s.m_state
    then inittimer_start e 1000 s
    else s

-- TRD_AGE_UNITTIME*1000/1024 milliseconds.
abbrev pub age_unit_ms : ℕ
age_unit_ms = age_unittime * 1000 / 1024

-- The do-while loop over `time_late_ms`, at most as many rounds as the first argument.
unfoldable pub age_late : ℕ → ℕ → Table → Table
age_late zero late t = t
age_late (suc n) late t =
    let t' = table_increment_age t in
    let late' = if ltb age_unit_ms late then late - age_unit_ms else late in
    let rest = age_late n late' t' in if ltb age_unit_ms late' then rest else t'

unfoldable pub agingtimer_fired : Env → ℕ → TrdState → TrdState
unfolding agingtimer_start age_late
agingtimer_fired e late s0 =
    let s = agingtimer_start e age_unit_ms s0 in
    record s { table = age_late (late + 1) late s.table }

-- trd_state_init, on variables that hold anything (`s0`); the buffer of the list is all 0, as when the
-- program starts.
unfoldable pub trd_state_init : Env → TrdState → TrdState
unfolding inittimer_start recovertimer_stop agingtimer_start
trd_state_init e s0 = agingtimer_start e age_unit_ms (
    inittimer_start e 10000 (record (recovertimer_stop s0) {
      bootup = e.now;
      m_state = s_disconnected;
      table = table_init;
      trickle = timer_init e.now e.rand s0.trickle;
      mem = memory_init;
      recoverlist = metalist_init (replicate (2 * recover_list_size) no_meta) recover_list_size;
      lastmeta = record { origin = invalid_origin; seqno = seqno_unknown };
      init_loop_cnt = 0;
      init_done = false;
    }))

unfoldable pub trd_state_send_ready : TrdState → Bool
trd_state_send_ready s = s.init_done

unfoldable pub get_next_seqno : TrdState → TrdState × ℕ
get_next_seqno s =
    let last = table_get_last_seqno s.table s.local_addr in
    let q = seqno_next (if last == seqno_unknown then s.m_seqno else last) in
    (record s { m_seqno = q }, q)

-- trd_rebroadcast of master/trd/trd.c: the message goes out under this node's address.
unfoldable pub outgoing : ℕ → TrdMsg → TrdMsg
outgoing addr m = set_checksum (record m { sender = addr })

unfoldable pub send_summary : Bool → TrdState → TrdState
send_summary ignore_old s =
    emit
      (Out.summary (s.m_state == s_disconnected || in_init s.m_state)
        (table_summarize s.table ignore_old))
      s

-- trd_rebroadcast writes the sender and the checksum into `lastpacket` itself.
unfoldable pub send_fast_packet : TrdState → TrdState
unfolding outgoing
send_fast_packet s =
    let m = outgoing s.local_addr s.lastpacket in
    emit (Out.rebroadcast m) (record s {
      lastpacket = m;
      retx_count = s.retx_count - 1;
      m_state = if s.retx_count == 0 then s_steady else s.m_state;
    })
