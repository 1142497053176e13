-- ===== src/Trd/State/Recover.antt =====
-- read_memory and trd_state_requestReceived of master/trd/trd_state.c: packets that a neighbour lacks
-- are read back from the store, one at each run of the recover timer, and sent again.
use tenet_t.Prelude.{
  ℕ, zero, suc, ◌+◌, not, ◌&&◌, ◌||◌, none, some, List, [], ◌∷◌, ltb, ◌==◌, if◌then◌else◌, set,
  Fault, Run, ok, fault, ◌>>=◌,
}
use tenet_t.Trd.Seqno.{seqno_unknown, seqno_oldest, seqno_last, seqno_next}
use tenet_t.Trd.Table.{Table, table_get_memloc, table_get_age, table_exist, table_get_oldest_seqno}
use tenet_t.Trd.NodeCache.{cache_entries_per_node}
use tenet_t.Trd.Memory.{memory_read}
use tenet_t.Trd.MetaList.{
  MetaList, MetaListEntry, metalist_get_first, metalist_delete_first, metalist_is_empty,
  metalist_is_full, metalist_insert,
}
use tenet_t.Trd.Msg.{TrdMsg, decode, encode}
use tenet_t.Trd.State.{
  TrdState, Env, Out, emit, s_steady, s_tx, retry_time, recovertimer_start, recovertimer_stop,
  outgoing,
}

abbrev drop_first : TrdState → TrdState
drop_first s = record s { recoverlist = (metalist_delete_first s.recoverlist).0 }

-- The end of read_memory: the list is done, or the timer goes on to the next packet. It is started
-- again in either case.
unfoldable pub after_send : Env → TrdState → TrdState
unfolding recovertimer_start recovertimer_stop
after_send e s0 =
    let s =
      if metalist_is_empty s0.recoverlist
      then recovertimer_stop
          (record s0 { m_state = if s0.m_state == s_tx then s_steady else s0.m_state })
      else s0 in
    recovertimer_start e retry_time s

-- The stored message with its present age; without an entry in the table the C variable `age` is not
-- set, and `stray` is what it holds.
unfoldable pub with_age : ℕ → Table → TrdMsg → TrdMsg
with_age stray t m =
    let age = elim (table_get_age t m.metadata.origin m.metadata.seqno) as (λ _. ℕ) [
      | some a ↦ a
      | none ↦ stray
    ] in
    record m { metadata = record m.metadata { age = age } }

-- The age, the sender and the checksum are written into the stored bytes themselves.
abbrev pub resend : ℕ → ℕ → List ℕ → TrdState → TrdState
resend stray memloc bytes s =
    let m = outgoing s.local_addr (with_age stray s.table (decode bytes)) in
    let mem = record s.mem { array = set s.mem.array memloc (encode m) } in
    emit (Out.rebroadcast m) (drop_first (record s { mem = mem }))

unfoldable pub send_stored : Env → ℕ → ℕ → List ℕ → TrdState → TrdState
unfolding after_send
send_stored e stray memloc bytes s = after_send e (resend stray memloc bytes s)

unfoldable pub read_memory : Env → ℕ → TrdState → TrdState
unfolding send_stored recovertimer_stop
read_memory e stray s = elim (metalist_get_first s.recoverlist) [
  | none ↦ recovertimer_stop s
  | some entry ↦ elim (table_get_memloc s.table entry.origin entry.seqno) [
    | none ↦ drop_first s
    | some memloc ↦ elim (memory_read s.mem memloc) [
      | none ↦ drop_first s
      | some bytes ↦ send_stored e stray memloc bytes s
    ]
  ]
]

-- The inner while loop: the packets from `q` on that are in the table. A node cache holds
-- TRD_CACHE_ENTRIES_PER_NODE packets, so one round more than that ends it.
unfoldable pub enlist : ℕ → Table → ℕ → ℕ → MetaList → Run MetaList
enlist zero t origin q l = fault Fault.hang
enlist (suc n) t origin q l =
    let rest = enlist n t origin (seqno_next q) (metalist_insert l origin q) in
    if not (metalist_is_full l) && table_exist t origin q then rest else ok l

abbrev pub enlist_rounds : ℕ
enlist_rounds = cache_entries_per_node + 1

-- The sequence number that a request's entry starts from.
unfoldable pub requested : Table → MetaListEntry → ℕ
requested t m = if m.seqno == seqno_oldest then table_get_oldest_seqno t m.origin else m.seqno

-- The loop over the entries; a sequence number that is out of range ends it.
unfoldable pub enlist_all : Table → List MetaListEntry → MetaList → Run MetaList
unfolding requested
enlist_all t [] l = ok l
enlist_all t (m ∷ ms) l =
    let q = requested t m in
    let rest = enlist enlist_rounds t m.origin q l >>= λ l'. enlist_all t ms l' in
    if q == seqno_unknown || ltb seqno_last q then ok l else rest

unfoldable pub trd_state_request_received : Env → ℕ → List MetaListEntry → TrdState → Run TrdState
unfolding read_memory recovertimer_start
trd_state_request_received e stray ms s0 = do
  l ← enlist_all s0.table ms s0.recoverlist
  let m = if s0.m_state == s_steady && not (metalist_is_empty l) then s_tx else s0.m_state
  ok (
      recovertimer_start e retry_time
        (read_memory e stray (record s0 { recoverlist = l; m_state = m })))
