-- ===== src/Trd/State/Packets.antt =====
-- The messages that master/trd/trd_state.c handles, on sound states.
use tenet_t.Prelude.{
  ℕ, ◌+◌, ◌<◌, ◌≡◌, refl, inl, inr, Bool, true, false, some, arith, ltb, Bool-cases, u16_mod, Run,
  ok, fault,
}
use mathlib.Core.Path.{subst}
use tenet_t.Trd.NodeCache.{Class}
use tenet_t.Trd.Table.{
  Table, table_insert, table_is_full, table_classify, table_remove_node, table_increment_age,
}
use tenet_t.Trd.Table.Ages.{table_increment_age_lem}
use tenet_t.Trd.Table.Keep.{table_insert-IsValid, table_remove_node-IsValid, table_classify-IsValid}
use tenet_t.Trd.Memory.{Memory, memory_write}
use tenet_t.Trd.Memory.Ring as Store
use tenet_t.Trd.Memory.Ring.{memory_init-IsValid, memory_write_lem}
use tenet_t.Trd.MetaList.{MetaListEntry}
use tenet_t.Trd.Msg.{header_length, TrdMsg, encode}
use tenet_t.Trd.State.{TrdState, Env, timer_reset}
use tenet_t.Trd.State.Phases.{IsPhase, connect-IsPhase, spread-IsPhase, signal_new-IsPhase}
use tenet_t.Trd.State.NewMsg.{
  lastpacket_size, keep, connect, suppress_last, signal_new, spread, take_new, take_origin,
  by_class, trd_state_new_msg,
}
use tenet_t.Trd.State.Sound.{
  IsSound, Kept, Kept-IsSound, connect-Kept, spread-Kept, signal_new-Kept,
}

spread_signal-IsSound :
    (e : Env) (m : TrdMsg) (c : Bool) (s : TrdState)
    → IsSound s
    → IsSound (signal_new e m c (spread e m s)).0
spread_signal-IsSound e m c s v =
    let p : IsPhase (spread e m s) = spread-IsPhase e m s v.phase in
    Kept-IsSound (spread e m s) (signal_new e m c (spread e m s)).0
      (signal_new-Kept e m c (spread e m s)) (Kept-IsSound s (spread e m s) (spread-Kept e m s) v p)
      (signal_new-IsPhase e m c (spread e m s) p)

take_new-IsSound :
    (e : Env) (m : TrdMsg) (c : Bool) (s s' : TrdState) (b : Bool)
    → IsSound s
    → take_new e m c s ≡ ok (s', b)
    → IsSound s'
unfolding take_new
take_new-IsSound e m c s s' b v h =
    elim (Bool-cases (ltb lastpacket_size (m.length + header_length))) [
      | inl long ↦ absurd (ground arith)
      | inr short ↦ elim (memory_write_lem s.mem (encode m) v.store) [
        | inr (bad, e0) ↦
            let same : keep m s ≡ s' = ground arith in
            subst IsSound same
              (record { phase = v.phase; known = v.known; store = v.store; queue = v.queue })
        | inl (pos, small, mem, loc, e0, w) ↦
            go mem loc e0 w.valid
              (table_insert s.table m.metadata.origin m.metadata.seqno loc m.metadata.age) refl
      ]
    ]
  where
    go :
        (mem : Memory) (loc : ℕ)
        → memory_write s.mem (encode m) ≡ some (mem, loc)
        → Store.IsValid mem
        → (r : Run (Table × Bool))
        → table_insert s.table m.metadata.origin m.metadata.seqno loc m.metadata.age ≡ r
        → IsSound s'
    go mem loc e0 w (fault f) r = absurd (ground arith)
    go mem loc e0 w (ok (t, d)) r =
        let stored : TrdState = record (keep m s) { mem = mem; table = t } in
        let same : (signal_new e m c (spread e m stored)).0 ≡ s' = ground arith in
        subst IsSound same (
          spread_signal-IsSound e m c stored (record {
            phase = v.phase;
            known =
                table_insert-IsValid s.table m.metadata.origin m.metadata.seqno loc m.metadata.age t
                  d v.known r;
            store = w;
            queue = v.queue;
          }))

take_origin-IsSound :
    (e : Env) (m : TrdMsg) (c : Bool) (s s' : TrdState) (b : Bool)
    → IsSound s
    → take_origin e m c s ≡ ok (s', b)
    → IsSound s'
unfolding take_origin
take_origin-IsSound e m c s s' b v h = elim (Bool-cases (table_is_full s.table)) [
  | inr room ↦ take_new-IsSound e m c s s' b v (ground arith)
  | inl full ↦
      let same : record s { table = table_increment_age s.table } ≡ s' = ground arith in
      subst IsSound same (record {
        phase = v.phase;
        known = (table_increment_age_lem s.table v.known).0;
        store = v.store;
        queue = v.queue;
      })
]

by_class-IsSound :
    (e : Env) (m : TrdMsg) (k : Class) (s s' : TrdState) (b : Bool)
    → IsSound s
    → by_class e m k s ≡ ok (s', b)
    → IsSound s'
unfolding by_class timer_reset suppress_last
by_class-IsSound e m Class.unknown s s' b v h =
    let same : s ≡ s' = ground arith in subst IsSound same v
by_class-IsSound e m Class.too_old s s' b v h =
    let same : s ≡ s' = ground arith in subst IsSound same v
by_class-IsSound e m Class.in_old s s' b v h =
    let same : s ≡ s' = ground arith in subst IsSound same v
by_class-IsSound e m Class.in_last s s' b v h =
    let l : MetaListEntry = record { origin = m.metadata.origin; seqno = m.metadata.seqno } in
    let same : suppress_last l s ≡ s' = ground arith in
    let k : Kept s (suppress_last l s) = record {
      table = ground arith;
      mem = ground arith;
      recoverlist = ground arith;
    } in
    subst IsSound same (Kept-IsSound s (suppress_last l s) k v (ground (arith, v.phase)))
by_class-IsSound e m Class.newer s s' b v h =
    let same : timer_reset e s ≡ s' = ground arith in
    subst IsSound same
      (record { phase = v.phase; known = v.known; store = v.store; queue = v.queue })
by_class-IsSound e m Class.too_new s s' b v h =
    take_origin-IsSound e m true
      (record s { table = (table_remove_node s.table m.metadata.origin).0 }) s' b
      (record {
        phase = v.phase;
        known = table_remove_node-IsValid s.table m.metadata.origin v.known;
        store = v.store;
        queue = v.queue;
      })
      h
by_class-IsSound e m Class.null s s' b v h = take_origin-IsSound e m false s s' b v h
by_class-IsSound e m Class.next_new s s' b v h = take_new-IsSound e m false s s' b v h

-- Where trd_state_newMsg returns, it leaves a sound state sound.
pub trd_state_new_msg-IsSound :
    (e : Env) (m : TrdMsg) (s s' : TrdState) (b : Bool)
    → IsSound s
    → m.metadata.age < u16_mod
    → trd_state_new_msg e m s ≡ ok (s', b)
    → IsSound s'
unfolding trd_state_new_msg
trd_state_new_msg-IsSound e m s s' b v h16 h =
    go (table_classify (connect e s).table m.metadata.origin m.metadata.seqno m.metadata.age) refl
  where
    w : IsSound (connect e s)
    w = Kept-IsSound s (connect e s) (connect-Kept e s) v (connect-IsPhase e s v.phase)

    go :
        (r : Run (Table × Class))
        → table_classify (connect e s).table m.metadata.origin m.metadata.seqno m.metadata.age ≡ r
        → IsSound s'
    go (fault f) r = absurd (ground arith)
    go (ok (t, c)) r =
        by_class-IsSound e m c (record (connect e s) { table = t }) s' b
          (record {
            phase = w.phase;
            known =
                table_classify-IsValid (connect e s).table m.metadata.origin m.metadata.seqno
                  m.metadata.age t c w.known h16 r;
            store = w.store;
            queue = w.queue;
          })
          (ground arith)
