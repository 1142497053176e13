-- ===== src/Trd/State/Timers.antt =====
-- The timers of master/trd/trd_state.c, on sound states.
use tenet_t.Prelude.{
  ℕ, zero, suc, ◌+◌, ◌-◌, ◌∙◌, inl, inr, Bool, true, false, List, ltb, if◌then◌else◌, Bool-cases,
  Option-cases, length-set,
}
use tenet_t.Trd.Timer.{alarm_due}
use tenet_t.Trd.Table.{table_get_memloc, Table, table_increment_age}
use tenet_t.Trd.Table.Live as TableLive
use tenet_t.Trd.Table.Live.{table_init-IsValid}
use tenet_t.Trd.Table.Ages.{table_increment_age_lem}
use tenet_t.Trd.Memory.{memory_read}
use tenet_t.Trd.MetaList.{metalist_delete_first, metalist_get_first}
use tenet_t.Trd.MetaList.Keep.{metalist_delete_first-IsValid}
use tenet_t.Trd.Msg.{decode, encode}
use tenet_t.Trd.State.{
  outgoing, age_unit_ms, TrdState, Env, recovertimer_stop, agingtimer_start, inittimer_fired,
  age_late, agingtimer_fired,
}
use tenet_t.Trd.State.Phases.{inittimer_fired-IsPhase, after_send-IsPhase}
use tenet_t.Trd.State.Poll.{lateness, poll_trickle_timer, polling_trd_state_timer}
use tenet_t.Trd.State.Recover.{resend, with_age, after_send, send_stored, read_memory}
use tenet_t.Trd.State.Sound.{
  IsSound, Kept-IsSound, inittimer_fired-Kept, trickle_fired-Kept, after_send-Kept,
  poll_trickle_timer-IsPhase,
}

age_late-IsValid :
    (n late : ℕ) (t : Table) → TableLive.IsValid t → TableLive.IsValid (age_late n late t)
unfolding age_late
age_late-IsValid zero late t v = v
age_late-IsValid (suc n) late t v =
    let w : TableLive.IsValid (table_increment_age t) = (table_increment_age_lem t v).0 in
    let late' : ℕ = if ltb age_unit_ms late then late - age_unit_ms else late in
    elim (Bool-cases (ltb age_unit_ms late')) [
      | inl more ↦ rw more (age_late-IsValid n late' (table_increment_age t) w)
      | inr stop ↦ rw stop w
    ]

agingtimer_fired-IsSound :
    (e : Env) (late : ℕ) (s : TrdState) → IsSound s → IsSound (agingtimer_fired e late s)
unfolding agingtimer_fired agingtimer_start
agingtimer_fired-IsSound e late s v = record {
  phase = v.phase;
  known = age_late-IsValid (late + 1) late s.table v.known;
  store = v.store;
  queue = v.queue;
}

drop_first-IsSound :
    (s : TrdState)
    → IsSound s
    → IsSound (record s { recoverlist = (metalist_delete_first s.recoverlist).0 })
drop_first-IsSound s v = record {
  phase = v.phase;
  known = v.known;
  store = v.store;
  queue = metalist_delete_first-IsValid s.recoverlist v.queue;
}

send_stored-IsSound :
    (e : Env) (stray memloc : ℕ) (bytes : List ℕ) (s : TrdState)
    → IsSound s
    → IsSound (send_stored e stray memloc bytes s)
unfolding send_stored
send_stored-IsSound e stray memloc bytes s v =
    let s' : TrdState = resend stray memloc bytes s in
    Kept-IsSound s' (after_send e s') (after_send-Kept e s')
      (record {
        phase = v.phase;
        known = v.known;
        store = record {
          slots =
              length-set s.mem.array memloc
                (encode (outgoing s.local_addr (with_age stray s.table (decode bytes))))
              ∙ v.store.slots;
          pointer = v.store.pointer;
        };
        queue = metalist_delete_first-IsValid s.recoverlist v.queue;
      })
      (after_send-IsPhase e s' v.phase)

pub read_memory-IsSound :
    (e : Env) (stray : ℕ) (s : TrdState) → IsSound s → IsSound (read_memory e stray s)
unfolding read_memory recovertimer_stop
read_memory-IsSound e stray s v = elim (Option-cases (metalist_get_first s.recoverlist)) [
  | inl empty ↦
      rw (empty, read_memory)
        (record { phase = v.phase; known = v.known; store = v.store; queue = v.queue })
  | inr (x, first) ↦ elim (Option-cases (table_get_memloc s.table x.origin x.seqno)) [
    | inl gone ↦ rw (first, gone, read_memory) (drop_first-IsSound s v)
    | inr (memloc, place) ↦ elim (Option-cases (memory_read s.mem memloc)) [
      | inl lost ↦ rw (first, place, lost, read_memory) (drop_first-IsSound s v)
      | inr (bytes, read) ↦
          rw (first, place, read, read_memory) (send_stored-IsSound e stray memloc bytes s v)
    ]
  ]
]

-- One poll of the four timers keeps the state sound.
pub polling_trd_state_timer-IsSound :
    (e : Env) (stray : ℕ) (s : TrdState) → IsSound s → IsSound (polling_trd_state_timer e stray s)
unfolding polling_trd_state_timer
polling_trd_state_timer-IsSound e stray s v =
    let s1 : TrdState = poll_trickle_timer e s in
    let v1 : IsSound s1 =
      Kept-IsSound s s1 (trickle_fired-Kept e s) v (poll_trickle_timer-IsPhase e s v.phase) in
    let s2 : TrdState = if alarm_due s1.init_alarm e.now then inittimer_fired e s1 else s1 in
    let v2 : IsSound s2 =
      on_if (alarm_due s1.init_alarm e.now) (inittimer_fired e s1) s1
        (Kept-IsSound s1 (inittimer_fired e s1) (inittimer_fired-Kept e s1) v1
          (inittimer_fired-IsPhase e s1 v1.phase))
        v1 in
    let s3 : TrdState = if alarm_due s2.recover_alarm e.now then read_memory e stray s2 else s2 in
    let v3 : IsSound s3 =
      on_if (alarm_due s2.recover_alarm e.now) (read_memory e stray s2) s2
        (read_memory-IsSound e stray s2 v2) v2 in
    on_if (alarm_due s3.aging_alarm e.now) (agingtimer_fired e (lateness e.now s3.aging_alarm) s3)
      s3 (agingtimer_fired-IsSound e (lateness e.now s3.aging_alarm) s3 v3) v3
  where
    on_if : (b : Bool) (x y : TrdState) → IsSound x → IsSound y → IsSound (if b then x else y)
    on_if true x y p q = p
    on_if false x y p q = q
