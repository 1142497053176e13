-- ===== src/Trd/State/NewMsg.antt =====
-- trd_state_newMsg of master/trd/trd_state.c: a message has come, from the network or from this node.
use tenet_t.Prelude.{
  ℕ, ◌+◌, ◌/◌, ◌%◌, Bool, true, false, not, ◌&&◌, ◌||◌, none, some, ltb, leb, ◌==◌, if◌then◌else◌,
  u16_mod, Fault, Run, ok, fault, ◌>>=◌,
}
use tenet_t.Timeval.{Timeval, subtract_timeval, tv2ms}
use tenet_t.Trd.Seqno.{seqno_unknown}
use tenet_t.Trd.NodeCache.{Class, invalid_origin, age_ignore_old}
use tenet_t.Trd.Table.{
  table_classify, table_remove_node, table_is_full, table_increment_age, table_insert,
}
use tenet_t.Trd.Memory.{memory_write}
use tenet_t.Trd.MetaList.{MetaListEntry}
use tenet_t.Trd.Timer.{timer_suppress}
use tenet_t.Trd.Msg.{TrdMsg, header_length, encode}
use tenet_t.Trd.State.{
  TrdState, Env, Out, emit, s_disconnected, s_init_0, s_init_ready, s_steady, s_fast_packet,
  in_init, fast_retx_count, age_unittime, inittimer_start, timer_reset, outgoing,
}

-- The size of the array lastpacket.
abbrev pub lastpacket_size : ℕ
lastpacket_size = 200

-- The first packet ever seen ends the disconnected state.
unfoldable pub connect : Env → TrdState → TrdState
unfolding inittimer_start
connect e s =
    if s.m_state == s_disconnected
    then inittimer_start e 4000 (record s { m_state = s_init_0 })
    else s

-- The duplicate of the newest packet, if that came last, suppresses this node's own announcement.
unfoldable pub suppress_last : MetaListEntry → TrdState → TrdState
suppress_last m s =
    if m.origin == s.lastmeta.origin
      && not (s.lastmeta.origin == invalid_origin)
      && (m.seqno == s.lastmeta.seqno && not (s.lastmeta.seqno == seqno_unknown))
      && not (s.m_state == s_fast_packet)
    then record s { trickle = timer_suppress s.trickle }
    else s

-- The age of this node since it booted, `ct_age`, as a uint16_t.
unfoldable pub own_age : Env → TrdState → ℕ
own_age e s =
    let ct : Timeval = elim (subtract_timeval e.now s.bootup) [ some d ↦ d | none ↦ e.now ] in
    (tv2ms ct / age_unittime % u16_mod + 1) % u16_mod

-- The end of the case TRD_CLASS_NEXT_NEW: does the message go up to the application?
unfoldable pub signal_new : Env → TrdMsg → Bool → TrdState → TrdState × Bool
unfolding own_age
signal_new e m check_age s =
    let foreign = not (m.metadata.origin == s.local_addr) in
    if in_init s.m_state || check_age
    then if ltb m.metadata.age age_ignore_old && leb m.metadata.age (own_age e s)
      then (record s { m_state = s_init_ready }, foreign)
      else (s, false)
    else (s, foreign)

-- What follows the table's entry: rebroadcast a foreign message, and repeat it if all was steady.
unfoldable pub spread : Env → TrdMsg → TrdState → TrdState
unfolding timer_reset outgoing
spread e m s0 =
    let s1 =
      if m.metadata.origin == s0.local_addr
      then s0
      else emit (Out.rebroadcast (outgoing s0.local_addr m)) s0 in
    let s = timer_reset e s1 in
    if s.m_state == s_steady
    then record s { m_state = s_fast_packet; retx_count = fast_retx_count }
    else s

-- The message as the last one: lastpacket, lastorigin and lastseqno.
abbrev pub keep : TrdMsg → TrdState → TrdState
keep m s = record s {
  lastpacket = m;
  lastmeta = record { origin = m.metadata.origin; seqno = m.metadata.seqno };
}

-- The case TRD_CLASS_NEXT_NEW: store the message and enter it in the table. The copy into
-- `lastpacket` has no check of its own.
unfoldable pub take_new : Env → TrdMsg → Bool → TrdState → Run (TrdState × Bool)
take_new e m check_age s =
    if ltb lastpacket_size (m.length + header_length)
    then fault Fault.out_of_bounds
    else elim (memory_write s.mem (encode m)) [
      | none ↦ ok (keep m s, false)
      | some (mem, memloc) ↦ do
        (table, done) ←
            table_insert s.table m.metadata.origin m.metadata.seqno memloc m.metadata.age
        ok (signal_new e m check_age (spread e m (record (keep m s) { mem = mem; table = table })))
    ]

-- The case TRD_CLASS_NULL, and what falls through to it.
unfoldable pub take_origin : Env → TrdMsg → Bool → TrdState → Run (TrdState × Bool)
take_origin e m check_age s =
    let new = take_new e m check_age s in
    if table_is_full s.table
    then ok (record s { table = table_increment_age s.table }, false)
    else new

-- The switch on the message's class.
unfoldable pub by_class : Env → TrdMsg → Class → TrdState → Run (TrdState × Bool)
unfolding suppress_last timer_reset
by_class e m Class.unknown s = ok (s, false)
by_class e m Class.too_old s = ok (s, false)
by_class e m Class.in_old s = ok (s, false)
by_class e m Class.in_last s =
    ok (suppress_last (record { origin = m.metadata.origin; seqno = m.metadata.seqno }) s, false)
by_class e m Class.newer s = ok (timer_reset e s, false)
by_class e m Class.too_new s =
    take_origin e m true (record s { table = (table_remove_node s.table m.metadata.origin).0 })
by_class e m Class.null s = take_origin e m false s
by_class e m Class.next_new s = take_new e m false s

-- `true` is the return value 1: the caller passes the payload on to the application.
unfoldable pub trd_state_new_msg : Env → TrdMsg → TrdState → Run (TrdState × Bool)
unfolding connect
trd_state_new_msg e m s0 =
    let s = connect e s0 in
    do
      (table, c) ← table_classify s.table m.metadata.origin m.metadata.seqno m.metadata.age
      by_class e m c (record s { table = table })
