-- ===== src/Examples/Dissemination.antt =====
-- The theorems on the timer, the messages and the handlers of master/trd at concrete inputs.
use tenet_t.Trd.State.Packets.{trd_state_new_msg-IsSound}
use tenet_t.Trd.State.Recover.{trd_state_request_received}
use tenet_t.Trd.State.Enlist.{trd_state_request_received_lem}
use tenet_t.Trd.MetaList.{MetaListEntry}
use tenet_t.Prelude.{◌*◌, ◌^◌, ◌<◌, ◌≡◌, refl, true, false, [], ◌∷◌, arith, ok, fault, ℕ, List}
use tenet_t.Timeval.{Timeval, zero_time, compare_timeval, subtract_timeval, add_ms_to_timeval}
use tenet_t.Trd.NodeCache.{
  CacheEntry, NodeCache, live, null_entry, put_entry, find_oldest_seqno_index, nodecache_init,
  nodecache_insert,
}
use tenet_t.Trd.Table.{Table, Metadata, nodes, table_init, table_insert, table_increment_age}
use tenet_t.Trd.Memory.{memory_init, memory_write}
use tenet_t.Trd.Timer.{Trickle, trickle_set}
use tenet_t.Trd.Timer.Period.{trickle_set_lem}
use tenet_t.Trd.Msg.{TrdMsg, encode, decode, sum_bytes, checksum_check, set_checksum}
use tenet_t.Trd.Msg.Check.{IsWellFormed}
use tenet_t.Trd.State.{TrdState, Env, Out, outgoing, trd_state_init}
use tenet_t.Trd.State.Poll.{polling_trd_state_timer}
use tenet_t.Trd.State.NewMsg.{trd_state_new_msg}
use tenet_t.Trd.State.Sound.{IsSound}
use tenet_t.Trd.State.Reach.{Step, Reachable, trd_state_init-IsSound, Reachable-IsSound}
use tenet_t.Trd.Seqno.{seqno_next}
use tenet_t.Trd.Fragment.{fragment_init}
use tenet_t.Trd.State.{Out, get_next_seqno}
use tenet_t.Trd.Link.{Node, own_msg, trd_send, trd_receive, am_trd_msg}
use tenet_t.Trd.Link.Receiving.{IsBytes, trd_receive-IsSound}
use tenet_t.Trd.State.Deliver.{Delivered, trd_state_new_msg-Delivered}

-- The start of an interval of eight ticks, with the announcement after six of them.
abbrev eight : Trickle
eight = record {
  announce = 2;
  countdown = 8;
  stage = 3;
  suppress = false;
  processed = false;
  alarm = zero_time;
}

trickle_set_lem_example :
    let s = trickle_set 1001 eight in
    (s.countdown ≡ 2 ^ 3)
    × (2 * s.announce < s.countdown)
    × (s.stage ≡ 3)
    × (s.suppress ≡ false)
    × (s.processed ≡ false)
trickle_set_lem_example = trickle_set_lem 1001 eight (omega arith)

-- A message of node 7 with three bytes.
abbrev news : TrdMsg
news = record {
  metadata = record { origin = 7; seqno = 300; age = 0 };
  sender = 8;
  length = 3;
  checksum = 0;
  payload = 10 ∷ 20 ∷ 30 ∷ [];
}

news-IsWellFormed : IsWellFormed news
news-IsWellFormed = record {
  origin = omega arith;
  seqno = omega arith;
  age = omega arith;
  sender = omega arith;
  checksum = omega arith;
  sized = refl;
  fits = omega arith;
}

abbrev env : Env
env = record { now = record { tv_sec = 100; tv_usec = 0 }; rand = 77 }

-- The variables before trd_state_init; the node's address is 1.
abbrev raw : TrdState
raw = record {
  local_addr = 1;
  m_state = 0;
  table = table_init;
  mem = memory_init;
  lastpacket = news;
  lastmeta = record { origin = 0; seqno = 0 };
  retx_count = 0;
  recover_alarm = zero_time;
  aging_alarm = zero_time;
  init_alarm = zero_time;
  bootup = zero_time;
  init_loop_cnt = 0;
  init_done = false;
  recoverlist = record { head_p = 0; tail_p = 0; length = 0; max_size = 0; item = [] };
  m_seqno = 0;
  trickle = record {
    announce = 0;
    countdown = 0;
    stage = 0;
    suppress = false;
    processed = false;
    alarm = zero_time;
  };
  sent = [];
}

abbrev booted : TrdState
booted = trd_state_init env raw

-- The state after the message, computed.
abbrev informed : TrdState
informed = elim (trd_state_new_msg env news booted) [ ok (s, b) ↦ s | fault f ↦ booted ]

informed_run : trd_state_new_msg env news booted ≡ ok (informed, true)
unfolding trd_state_new_msg trd_state_init tenet_t.Trd.Table.table_classify
    tenet_t.Trd.Table.get_origin_index table_init tenet_t.Trd.State.NewMsg.by_class
    tenet_t.Trd.State.NewMsg.take_origin tenet_t.Trd.Table.table_is_full
    tenet_t.Trd.State.NewMsg.take_new memory_write memory_init encode table_insert nodecache_insert
    tenet_t.Trd.NodeCache.find_index nodecache_init tenet_t.Trd.State.NewMsg.signal_new
    tenet_t.Trd.State.NewMsg.spread tenet_t.Timeval.tv2ms tenet_t.Trd.State.NewMsg.own_age
    subtract_timeval compare_timeval
informed_run = refl

trd_state_new_msg-Delivered_example : Delivered booted news informed
trd_state_new_msg-Delivered_example =
    trd_state_new_msg-Delivered env news booted informed (trd_state_init-IsSound env raw)
      informed_run

informed-Reachable : Reachable (polling_trd_state_timer env 0 informed)
informed-Reachable =
    Reachable.step informed (polling_trd_state_timer env 0 informed)
      (Reachable.step booted informed (Reachable.start env raw)
        (Step.new_msg env news informed true (omega arith) informed_run))
      (Step.poll env 0)

Reachable-IsSound_example : IsSound (polling_trd_state_timer env 0 informed)
Reachable-IsSound_example =
    Reachable-IsSound (polling_trd_state_timer env 0 informed) informed-Reachable

abbrev two_bytes : List ℕ
two_bytes = 40 ∷ 50 ∷ []

-- The state after a packet of this node's own, computed.
abbrev spoken : TrdState
spoken = elim (trd_send env two_bytes booted) [ ok (s, q) ↦ s | fault f ↦ booted ]

abbrev node : Node
node = record { state = booted; frag = fragment_init; up = [] }

abbrev wire : List ℕ
wire = encode (set_checksum news)

-- The node after the message's bytes have come, computed.
abbrev node_after : Node
node_after = elim (trd_receive env 0 (λ i. 0) am_trd_msg wire node) [
  | ok (n, b) ↦ n
  | fault f ↦ node
]

wire-IsBytes : IsBytes wire
unfolding trd_state_new_msg trd_state_init tenet_t.Trd.Table.table_classify
    tenet_t.Trd.Table.get_origin_index table_init tenet_t.Trd.State.NewMsg.by_class
    tenet_t.Trd.State.NewMsg.take_origin tenet_t.Trd.Table.table_is_full
    tenet_t.Trd.State.NewMsg.take_new memory_write memory_init encode table_insert nodecache_insert
    tenet_t.Trd.NodeCache.find_index nodecache_init tenet_t.Trd.State.NewMsg.signal_new
    tenet_t.Trd.State.NewMsg.spread tenet_t.Timeval.tv2ms tenet_t.Trd.State.NewMsg.own_age
    subtract_timeval compare_timeval trd_send get_next_seqno tenet_t.Trd.Table.table_get_last_seqno
    seqno_next own_msg set_checksum tenet_t.Trd.Msg.calculate_checksum sum_bytes
    tenet_t.Trd.Msg.negate_sum trd_receive tenet_t.Trd.Link.trd_receive_msg decode checksum_check
    tenet_t.Trd.Link.pass_up
wire-IsBytes = ground arith

node_after_run : trd_receive env 0 (λ i. 0) am_trd_msg wire node ≡ ok (node_after, true)
unfolding trd_state_new_msg trd_state_init tenet_t.Trd.Table.table_classify
    tenet_t.Trd.Table.get_origin_index table_init tenet_t.Trd.State.NewMsg.by_class
    tenet_t.Trd.State.NewMsg.take_origin tenet_t.Trd.Table.table_is_full
    tenet_t.Trd.State.NewMsg.take_new memory_write memory_init encode table_insert nodecache_insert
    tenet_t.Trd.NodeCache.find_index nodecache_init tenet_t.Trd.State.NewMsg.signal_new
    tenet_t.Trd.State.NewMsg.spread tenet_t.Timeval.tv2ms tenet_t.Trd.State.NewMsg.own_age
    subtract_timeval compare_timeval trd_send get_next_seqno tenet_t.Trd.Table.table_get_last_seqno
    seqno_next own_msg set_checksum tenet_t.Trd.Msg.calculate_checksum sum_bytes
    tenet_t.Trd.Msg.negate_sum trd_receive tenet_t.Trd.Link.trd_receive_msg decode checksum_check
    tenet_t.Trd.Link.pass_up
node_after_run = refl

trd_receive-IsSound_example : IsSound node_after.state
trd_receive-IsSound_example =
    trd_receive-IsSound env 0 (λ i. 0) am_trd_msg wire node node_after true
      (trd_state_init-IsSound env raw) wire-IsBytes node_after_run

-- All packets of node 7 are asked for.
abbrev all_of_seven : List MetaListEntry
all_of_seven = record { origin = 7; seqno = 0xfffd } ∷ []

trd_state_request_received_lem_example :
    (s' : TrdState) × (trd_state_request_received env 0 all_of_seven informed ≡ ok s') × IsSound s'
trd_state_request_received_lem_example =
    trd_state_request_received_lem env 0 all_of_seven informed (
      trd_state_new_msg-IsSound env news booted informed true (trd_state_init-IsSound env raw)
        (omega arith) informed_run)
