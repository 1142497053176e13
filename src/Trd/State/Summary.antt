-- ===== src/Trd/State/Summary.antt =====
-- trd_state_summaryReceived of master/trd/trd_state.c: a neighbour tells what it has.
use tenet_t.Prelude.{
  ℕ, ◌+◌, ◌*◌, Ordering, Bool, true, false, not, ◌&&◌, ◌||◌, List, [], ◌∷◌, ◌++◌, ltb, ◌==◌,
  if◌then◌else◌, length, Run, ok, ◌>>=◌,
}
use tenet_t.Trd.Seqno.{seqno_next, seqno_oldest, seqno_cmp}
use tenet_t.Trd.NodeCache.{Class}
use tenet_t.Trd.Table.{
  Table, Metadata, request_entries, table_classify, table_remove_node, table_num_entries,
  table_get_last_seqno, table_ignore_summary,
}
use tenet_t.Trd.MetaList.{MetaListEntry}
use tenet_t.Trd.Timer.{timer_set, timer_suppress, timer_processed}
use tenet_t.Trd.State.{
  TrdState, Env, Out, emit, s_init_ready, s_steady, s_rx, in_init, in_rx, rx_wait_time,
  inittimer_stop, timer_reset, send_summary,
}
use tenet_t.Trd.State.NewMsg.{connect}

-- TRD_SummaryMsg. `want_all` is `num_entries < 0`, and then there are no entries; `beyond` is what
-- lies in memory behind the entries.
pub record SummaryMsg : Type 0 where
  pub sender : ℕ
  pub want_all : Bool
  pub entries : List Metadata
  pub beyond : ℕ → ℕ

abbrev pub bcast_addr : ℕ
bcast_addr = 0xffff

-- The loop's variables: the table, the entries of the request, and the two flags.
pub record Reply : Type 0 where
  pub table : Table
  pub wanted : List MetaListEntry
  pub send_now : Bool
  pub suppress : Bool

-- An entry of the request, while there is room.
unfoldable pub want : ℕ → ℕ → Reply → Reply
want origin q r =
    if ltb (length r.wanted) request_entries
    then record r { wanted = r.wanted ++ (record { origin = origin; seqno = q } ∷ []) }
    else r

-- The cases NEXT_NEW and NEWER: ask for what follows the last packet known.
unfoldable pub want_next : Metadata → Reply → Reply
unfolding want
want_next m r =
    let last = table_get_last_seqno r.table m.origin in
    elim (seqno_cmp last m.seqno) [ Ordering.lt ↦ want m.origin (seqno_next last) r | _ ↦ r ]

-- The switch on the class of an entry.
unfoldable pub reply_class : Metadata → Class → Reply → Reply
unfolding want want_next
reply_class m Class.in_last r = record r { suppress = true }
reply_class m Class.next_new r = want_next m r
reply_class m Class.newer r = want_next m r
reply_class m Class.too_new r =
    want m.origin seqno_oldest (record r { table = (table_remove_node r.table m.origin).0 })
reply_class m Class.null r = want m.origin seqno_oldest r
reply_class m Class.unknown r = want m.origin seqno_oldest r
reply_class m Class.in_old r = record r { send_now = true }
reply_class m Class.too_old r = record r { send_now = true }

unfoldable pub reply_from : List Metadata → Reply → Run Reply
unfolding reply_class
reply_from [] r = ok r
reply_from (m ∷ ms) r = do
  (table, c) ← table_classify r.table m.origin m.seqno m.age
  reply_from ms (reply_class m c (record r { table = table }))

-- The request goes out unless one is under way. In the steady and the init states the node then waits.
unfoldable pub send_request : Env → ℕ → List MetaListEntry → TrdState → TrdState
send_request e dst wanted s0 =
    if in_rx s0.m_state
    then s0
    else (let s = emit (Out.request (if in_init s0.m_state then bcast_addr else dst) wanted) s0 in
        if s.m_state == s_steady || in_init s.m_state
        then record s {
          trickle = timer_set e.rand (length wanted * rx_wait_time) s.trickle;
          m_state = s.m_state + s_rx;
        }
        else s)

-- A summary like this node's own: no need to announce, and the init phase is over.
unfoldable pub agree : TrdState → TrdState
unfolding inittimer_stop
agree s0 =
    let s = record s0 { trickle = timer_suppress s0.trickle } in
    if s.m_state == s_init_ready && ltb 0 (table_num_entries s.table)
    then inittimer_stop (record s { m_state = s_steady; init_done = true })
    else s

-- Send a summary at once, and start the timer over with this announcement done.
unfoldable pub answer_now : Env → TrdState → TrdState
unfolding timer_reset send_summary
answer_now e s0 =
    let s = timer_reset e (send_summary true s0) in record s { trickle = timer_processed s.trickle }

-- What the node does with the reply: one of three, or nothing.
unfoldable pub act : Env → ℕ → Reply → TrdState → TrdState
unfolding send_request agree answer_now
act e dst r s =
    if ltb 0 (length r.wanted)
    then send_request e dst r.wanted s
    else if r.send_now
    then answer_now e s
    else if r.suppress
    then agree s
    else s

-- The start of the handler: answer a node that asks for everything. `true`: both have nothing.
unfoldable pub greet : SummaryMsg → TrdState → TrdState × Bool
unfolding send_summary
greet m s =
    let known = ltb 0 (table_num_entries s.table) in
    let steady = s.m_state == s_steady in
    if m.want_all
    then (if known && steady then send_summary false s else s, false)
    else (s, length m.entries == 0 && not known && steady)

unfoldable pub trd_state_summary_received : Env → SummaryMsg → TrdState → Run TrdState
unfolding connect greet reply_from act
trd_state_summary_received e m s0 =
    let (s, both_empty) = greet m (connect e s0) in
    let start : Reply = record {
      table = s.table;
      wanted = [];
      send_now = false;
      suppress = both_empty;
    } in
    reply_from m.entries start >>= λ r.
    let more =
      ltb (length m.entries) (table_num_entries r.table)
      && not (table_ignore_summary m.beyond r.table m.entries) in
    ok (act e m.sender (record r { send_now = r.send_now || more }) (record s { table = r.table }))
