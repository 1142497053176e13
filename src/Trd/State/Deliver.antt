-- ===== src/Trd/State/Deliver.antt =====
-- What trd_state_newMsg of master/trd/trd_state.c has done with a message that it lets through to the
-- application.
use tenet_t.Prelude.{
  Run-cases, ◌+◌, ◌≡◌, sym, ap₂, ◌∙◌, ◌≢◌, inl, inr, Bool, true, false, some, [], ◌∷◌, ◌++◌, arith,
  ltb, Bool-cases, ok,
}
use tenet_t.Trd.NodeCache.{Class}
use tenet_t.Trd.Table.{table_insert, table_is_full, table_classify, table_remove_node}
use tenet_t.Trd.Memory.{memory_read}
use tenet_t.Trd.Memory.Ring as Store
use tenet_t.Trd.Memory.Ring.{memory_init-IsValid, memory_write_lem}
use tenet_t.Trd.Msg.{header_length, TrdMsg, encode}
use tenet_t.Trd.State.{Out, outgoing, TrdState, Env, inittimer_start, timer_reset}
use tenet_t.Trd.State.NewMsg.{
  lastpacket_size, keep, connect, signal_new, spread, take_new, take_origin, by_class,
  trd_state_new_msg,
}
use tenet_t.Trd.Memory.Ring.{Written}
use tenet_t.Trd.State.Sound.{IsSound, connect-Kept}

-- The message is another node's, is in the store where the next packet was to go, and has been handed
-- to the link once, under this node's address.
pub record Delivered (s : TrdState) (m : TrdMsg) (s' : TrdState) : Type 0 where
  pub foreign : m.metadata.origin ≢ s.local_addr
  pub stored : memory_read s'.mem s.mem.curr_mem_ptr ≡ some (encode m)
  pub spread_once : s'.sent ≡ s.sent ++ (Out.rebroadcast (outgoing s.local_addr m) ∷ [])
  pub last : s'.lastpacket ≡ m

-- signal_new after spread, on a state that has the message in store.
signal-Delivered :
    (e : Env) (m : TrdMsg) (c : Bool) (s s' : TrdState)
    → signal_new e m c (spread e m s) ≡ (s', true)
    → (m.metadata.origin ≢ s.local_addr)
      × (s'.mem ≡ s.mem)
      × (s'.sent ≡ s.sent ++ (Out.rebroadcast (outgoing s.local_addr m) ∷ []))
      × (s'.lastpacket ≡ s.lastpacket)
unfolding signal_new spread timer_reset
signal-Delivered e m c s s' h = (ground arith, ground arith, ground arith, ground arith)

take_new-Delivered :
    (e : Env) (m : TrdMsg) (c : Bool) (s s' : TrdState)
    → Store.IsValid s.mem
    → take_new e m c s ≡ ok (s', true)
    → Delivered s m s'
unfolding take_new
take_new-Delivered e m c s s' v h =
    elim (Bool-cases (ltb lastpacket_size (m.length + header_length))) [
      | inl long ↦ absurd (ground arith)
      | inr short ↦ elim (memory_write_lem s.mem (encode m) v) [
        | inr (bad, e0) ↦ absurd (ground arith)
        | inl (pos, small, mem, loc, e0, w) ↦
            elim (Run-cases
              (table_insert s.table m.metadata.origin m.metadata.seqno loc m.metadata.age)) [
                | inr (f, r) ↦ absurd (ground arith)
                | inl ((t, d), r) ↦
                    let (other, same_mem, sent, last) =
                      signal-Delivered e m c (record (keep m s) { mem = mem; table = t }) s'
                        (ground arith) in
                    record {
                      foreign = other;
                      stored = ap₂ memory_read same_mem (sym w.place) ∙ w.back;
                      spread_once = sent;
                      last = last;
                    }
              ]
      ]
    ]

take_origin-Delivered :
    (e : Env) (m : TrdMsg) (c : Bool) (s s' : TrdState)
    → Store.IsValid s.mem
    → take_origin e m c s ≡ ok (s', true)
    → Delivered s m s'
unfolding take_origin
take_origin-Delivered e m c s s' v h = elim (Bool-cases (table_is_full s.table)) [
  | inr room ↦ take_new-Delivered e m c s s' v (ground arith)
  | inl full ↦ absurd (ground arith)
]

by_class-Delivered :
    (e : Env) (m : TrdMsg) (k : Class) (s s' : TrdState)
    → Store.IsValid s.mem
    → by_class e m k s ≡ ok (s', true)
    → Delivered s m s'
unfolding by_class
by_class-Delivered e m Class.unknown s s' v h = absurd (ground arith)
by_class-Delivered e m Class.too_old s s' v h = absurd (ground arith)
by_class-Delivered e m Class.in_old s s' v h = absurd (ground arith)
by_class-Delivered e m Class.in_last s s' v h = absurd (ground arith)
by_class-Delivered e m Class.newer s s' v h = absurd (ground arith)
by_class-Delivered e m Class.too_new s s' v h =
    let d =
      take_origin-Delivered e m true
        (record s { table = (table_remove_node s.table m.metadata.origin).0 }) s' v h in
    record { foreign = d.foreign; stored = d.stored; spread_once = d.spread_once; last = d.last }
by_class-Delivered e m Class.null s s' v h = take_origin-Delivered e m false s s' v h
by_class-Delivered e m Class.next_new s s' v h = take_new-Delivered e m false s s' v h

-- On a sound state: when trd_state_newMsg returns 1, the message is another node's, its bytes are in
-- the store at the place where the next packet was to go, it is the last packet, and it is the one
-- thing handed to the link, once and under this node's address.
pub trd_state_new_msg-Delivered :
    (e : Env) (m : TrdMsg) (s s' : TrdState)
    → IsSound s
    → trd_state_new_msg e m s ≡ ok (s', true)
    → Delivered s m s'
unfolding trd_state_new_msg connect inittimer_start
trd_state_new_msg-Delivered e m s s' v h =
    elim (Run-cases
      (table_classify (connect e s).table m.metadata.origin m.metadata.seqno m.metadata.age)) [
        | inr (f, r) ↦ absurd (ground arith)
        | inl ((t, c), r) ↦
            let d =
              by_class-Delivered e m c (record (connect e s) { table = t }) s'
                (rw (connect-Kept e s).mem v.store) (ground arith) in
            record {
              foreign = ground (arith, d.foreign);
              stored = ground (arith, d.stored);
              spread_once = ground (arith, d.spread_once);
              last = d.last;
            }
      ]
