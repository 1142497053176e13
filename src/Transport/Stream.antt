-- ===== src/Transport/Stream.antt =====
-- master/transport/streamtransport.c: the master's end of streams from the motes. The statistics of
-- rates and losses are only logged, and are left out. What is sent and what goes up are events.
pub mod Delete
pub mod InOrder
pub mod Keeps
pub mod Live
pub mod Missing
pub mod Nack
pub mod Positions
pub mod Reach
pub mod Receive
pub mod Reorder
pub mod Timer
use tenet_t.Prelude.{
  ℕ, zero, suc, ◌+◌, ◌-◌, ◌*◌, ◌/◌, ◌%◌, ◌^◌, ◌≤◌, ◌<◌, min, Ordering, ◌≡◌, refl, sym, ap, ap₂, ◌∙◌,
  ◌≢◌, ◌↔◌, ◌⊎◌, inl, inr, Bool, true, false, not, ◌&&◌, ◌||◌, Option, none, some, List, [], ◌∷◌,
  ◌++◌, map, append-nil, append_assoc, arith, ltb, leb, ◌==◌, if◌then◌else◌, ltb→lt, lt→ltb, leb→le,
  ==_iff, Bool-cases, Option-cases, length, get_elem?, set, length-append, length-set, get_or, take,
  drop, replicate, take-append-drop, length-take, length-drop, length-replicate, length-map,
  take_all, u16_mod, u8_mod, Fault, Run, ok, fault, ◌>>=◌, All, All-append, All-set, All-take,
  All-get_or, All-replicate, All-mono, All-map, take-set_below, take-set_next, get_or-take,
  get_or-set_self, get_or-set_ne, take-set_above, set_outside, take-take, Run-cases,
}
use tenet_t.Timeval.{Timeval, zero_time, add_ms_to_timeval}
use tenet_t.Transport.Seqno.{tr_valid_range, tr_seqno_next, tr_seqno_add, tr_seqno_cmp}
use tenet_t.Transport.U16List.{u16list_insert, u16list_delete, u16list_is_empty, u16list_get_ith}
use tenet_t.Transport.PacketList.{SpEntry, sp_list_find, sp_list_insert}
use tenet_t.Transport.Connection.{find_connection, replace_connection, remove_connection}

pub data StreamState : Type 0 where
  passive nack_wait fin_nack_wait finished : StreamState

abbrev pub is_finished : StreamState → Bool
is_finished StreamState.finished = true
is_finished _ = false

-- strclist.
pub record StrConn : Type 0 where
  pub tid : ℕ
  pub addr : ℕ
  pub last_recv_seqno : ℕ
  pub total_lost_packets : ℕ
  pub total_recv_packets : ℕ
  pub alarm_time : Timeval
  pub missing_list : List ℕ
  pub state : StreamState
  pub delete_pending : Bool
  pub timeout_count : ℕ
  pub next_expected_seqno : ℕ
  pub plist : List SpEntry

-- What the functions of the file call: write_routing_msg with an ACK or a NACK, receive_streamtransport
-- and streamtransport_tid_delete_done.
pub data StrEvent : Type 0 where
  syn_ack : ℕ → ℕ → StrEvent
  fin_ack : ℕ → ℕ → ℕ → StrEvent
  nack : ℕ → ℕ → ℕ → List ℕ → StrEvent
  received : ℕ → ℕ → List ℕ → StrEvent
  delete_done : ℕ → StrEvent

-- m_strcs, and the events so far.
pub record Streams : Type 0 where
  pub conns : List StrConn
  pub events : List StrEvent

abbrev pub str_nack_mlist_len : ℕ
str_nack_mlist_len = 5

abbrev pub str_nack_timeout : ℕ
str_nack_timeout = 3000

abbrev pub max_timeout_count : ℕ
max_timeout_count = 50

abbrev pub str_connection_timeout : ℕ
str_connection_timeout = 120000

abbrev pub find_str : List StrConn → ℕ → ℕ → Option StrConn
find_str = find_connection (λ (c : StrConn). c.tid) (λ (c : StrConn). c.addr)

abbrev pub put_str : StrConn → Streams → Streams
put_str c s = record s {
  conns = replace_connection (λ (d : StrConn). d.tid) (λ (d : StrConn). d.addr) s.conns c;
}

abbrev pub remove_str : StrConn → Streams → Streams
remove_str c s = record s {
  conns = remove_connection (λ (d : StrConn). d.tid) (λ (d : StrConn). d.addr) s.conns c.tid c.addr;
}

abbrev pub event : StrEvent → Streams → Streams
event e s = record s { events = s.events ++ (e ∷ []) }

unfoldable pub str_timer_start : Timeval → ℕ → StrConn → StrConn
str_timer_start now ms c = record c { alarm_time = add_ms_to_timeval now ms }

-- The loop of send_NACK at item `i`: the missing list, and the items of the payload. A number that is
-- too old is deleted, and the same place is tried again.
unfoldable pub nack_items : ℕ → ℕ → ℕ → List ℕ → List ℕ × List ℕ
nack_items zero last i missing = (missing, [])
nack_items (suc n) last i missing =
    let item = u16list_get_ith missing (i + 1) in
    let again = nack_items n last i (u16list_delete missing item).0 in
    let (kept, items) = nack_items n last (i + 1) missing in
    if leb str_nack_mlist_len i
    then (missing, [])
    else if ltb i (length missing)
    then elim (tr_seqno_cmp last (tr_seqno_add item tr_valid_range)) [
      | Ordering.lt ↦ (kept, item ∷ items)
      | _ ↦ again
    ]
    else (kept, 0 ∷ items)

-- Each round deletes a number or fills an item.
abbrev pub nack_rounds : List ℕ → ℕ
nack_rounds missing = str_nack_mlist_len + length missing

unfoldable pub send_nack : StrConn → StrConn × List StrEvent
unfolding nack_items
send_nack c =
    if u16list_is_empty c.missing_list
    then (c, [])
    else (let (missing, items) =
          nack_items (nack_rounds c.missing_list) c.last_recv_seqno 0 c.missing_list in
        (
          record c { missing_list = missing },
          StrEvent.nack c.tid c.addr c.last_recv_seqno items ∷ [],
        ))

-- The do-while loop of detectMissingPacket from `last` on: the missing list and the count.
unfoldable pub detect_from : ℕ → ℕ → ℕ → List ℕ → ℕ → Run (List ℕ × ℕ)
detect_from zero seqno last missing k = fault Fault.hang
detect_from (suc n) seqno last missing k =
    let next = tr_seqno_next last in
    let rest = detect_from n seqno next (u16list_insert missing next) (k + 1) in
    elim (tr_seqno_cmp seqno next) [ Ordering.gt ↦ rest | _ ↦ ok (missing, k) ]

-- The circle of the sequence numbers and one round more.
abbrev pub detect_rounds : ℕ
detect_rounds = 50002

-- The connection, and how many packets are missing.
unfoldable pub detect_missing_packet : ℕ → StrConn → Run (StrConn × ℕ)
unfolding detect_from
detect_missing_packet seqno c = do
  (missing, k) ← detect_from detect_rounds seqno c.last_recv_seqno c.missing_list 0
  ok (record c { missing_list = missing; total_lost_packets = c.total_lost_packets + k }, k)

-- streamtransport_tid_is_alive.
unfoldable pub stream_tid_is_alive : List StrConn → ℕ → Bool
stream_tid_is_alive [] tid = false
stream_tid_is_alive (c ∷ cs) tid =
    if c.tid == tid && not (is_finished c.state) then true else stream_tid_is_alive cs tid

-- All packets have come: acknowledge the FIN, and tell that a pending deletion is done.
unfoldable pub finish_stream : Timeval → StrConn → Streams → Streams
unfolding stream_tid_is_alive str_timer_start
finish_stream now c s0 =
    let c' =
      str_timer_start now str_connection_timeout (record c { state = StreamState.finished }) in
    let s = event (StrEvent.fin_ack c.tid c.addr c.last_recv_seqno) (put_str c' s0) in
    if c.delete_pending && not (stream_tid_is_alive s.conns c.tid)
    then event (StrEvent.delete_done c.tid) s
    else s

-- send_NACK, with the timer started for the answer.
unfoldable pub ask_again : Timeval → StrConn → Streams → Streams
unfolding send_nack str_timer_start
ask_again now c s =
    let (c', sent) = send_nack c in
    let s' = put_str (str_timer_start now str_nack_timeout c') s in
    record s' { events = s'.events ++ sent }

-- `seqno + 1` is a uint16_t.
unfoldable pub new_connection : ℕ → ℕ → ℕ → StrConn
new_connection tid addr seqno = record {
  tid = tid;
  addr = addr;
  last_recv_seqno = seqno;
  total_lost_packets = 0;
  total_recv_packets = 0;
  alarm_time = zero_time;
  missing_list = [];
  state = StreamState.passive;
  delete_pending = false;
  timeout_count = 0;
  next_expected_seqno = (seqno + 1) % u16_mod;
  plist = [];
}

-- create_str_connection, where there is no connection yet.
unfoldable pub create_str_connection : ℕ → ℕ → ℕ → Streams → Streams
unfolding new_connection
create_str_connection tid addr seqno s = record s {
  conns = new_connection tid addr seqno ∷ s.conns;
}

-- streamtransport_delete_tid over the list: finished connections go, the others are marked. The result
-- is 0 where there was none, 1 where all were finished, and -1 (`none`) where one was not.
unfoldable pub delete_tid_from : List StrConn → ℕ → Option ℕ → List StrConn × Option ℕ
delete_tid_from [] tid result = ([], result)
delete_tid_from (c ∷ cs) tid result =
    let started : Option ℕ = elim result [
      | some r ↦ some (if r == 0 then 1 else r)
      | none ↦ none
    ] in
    let gone = delete_tid_from cs tid started in
    let (cs', r) = delete_tid_from cs tid none in
    let (cs'', r') = delete_tid_from cs tid result in
    if c.tid == tid
    then if is_finished c.state then gone else (record c { delete_pending = true } ∷ cs', r)
    else (c ∷ cs'', r')

unfoldable pub streamtransport_delete_tid : ℕ → Streams → Streams × Option ℕ
unfolding delete_tid_from
streamtransport_delete_tid tid s =
    let (conns, result) = delete_tid_from s.conns tid (some 0) in
    (record s { conns = conns }, result)

unfoldable pub streamtransport_terminate : Streams → Streams
streamtransport_terminate s = record s { conns = [] }
