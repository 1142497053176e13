-- ===== src/Examples.antt =====
-- The theorems on the parts of master/trd and mote/lib/trd, and on master/include/timeval.c, at
-- concrete inputs.
pub mod Dissemination
pub mod Master
pub mod Packets
pub mod Responses
pub mod Streams
pub mod Tasks
use tenet_t.Prelude.{
  ℕ, zero, suc, ◌+◌, ◌-◌, ◌*◌, ◌/◌, ◌%◌, ◌^◌, ◌≤◌, ◌<◌, min, Ordering, ◌≡◌, refl, sym, ap, ap₂, ◌∙◌,
  ◌≢◌, ◌↔◌, ◌⊎◌, inl, inr, Bool, true, false, not, ◌&&◌, ◌||◌, Option, none, some, List, [], ◌∷◌,
  ◌++◌, map, append-nil, append_assoc, arith, ltb, leb, ◌==◌, if◌then◌else◌, ltb→lt, lt→ltb, leb→le,
  ==_iff, Bool-cases, Option-cases, length, get_elem?, set, length-append, length-set, get_or, take,
  drop, replicate, take-append-drop, length-take, length-drop, length-replicate, length-map,
  take_all, u16_mod, u8_mod, Fault, Run, ok, fault, ◌>>=◌, All-append, All-set, All-take,
  All-get_or, All-replicate, All-mono, All-map, take-set_below, take-set_next, get_or-take,
  get_or-set_self, get_or-set_ne, take-set_above, set_outside, take-take, Run-cases,
}
use Prim.Native.Nat.{compare}
use tenet_t.Timeval.{Timeval, zero_time, compare_timeval, subtract_timeval, add_ms_to_timeval}
use tenet_t.Timeval.Order.{micros, IsNormal}
use tenet_t.Trd.Seqno.{seqno_last, seqno_wrap_window, seqno_add, seqno_cmp}
use tenet_t.Trd.Seqno.Order.{flip, seqno_cmp-flip, seqno_add_lem}
use tenet_t.Trd.NodeCache.{
  CacheEntry, NodeCache, live, null_entry, put_entry, find_oldest_seqno_index, nodecache_init,
  nodecache_insert,
}
use tenet_t.Trd.NodeCache.Classify.{nodecache_classify_seqno}
use tenet_t.Trd.NodeCache.Live as Node
use tenet_t.Trd.NodeCache.Live.{entry, with_next, AllZero, IsOldest, nodecache_insert_full}
use tenet_t.Trd.NodeCache.Outcome.{Outcome, nodecache_classify_seqno_lem}
use tenet_t.Trd.Table.{Table, Metadata, table_init, table_insert}
use tenet_t.Trd.Table.Live as TableLive
use tenet_t.Trd.Table.Live.{table_init-IsValid}
use tenet_t.Trd.Table.Insert.{Stored, table_insert-Stored}
use tenet_t.Trd.MetaList.{
  MetaList, MetaListEntry, metalist_is_in_list, metalist_insert, metalist_delete_first,
  metalist_get_first,
}
use tenet_t.Trd.MetaList.Queue as ListQueue
use tenet_t.Trd.MetaList.Queue.{window, contents, Missing, metalist_is_in_list-contents}
use tenet_t.Trd.Memory.{Memory, packet_size, memory_init, memory_write}
use tenet_t.Trd.Memory.Ring.{Written, memory_init-IsValid, memory_write_lem}
use tenet_t.Trd.Fragment.{fragment_init, fragment_send}
use tenet_t.Trd.Fragment.RoundTrip.{direct, fragment_round_trip}
use tenet_t.Trd.Timer.{Trickle, trickle_set}
use tenet_t.Trd.Timer.Period.{run, next_stage, trickle_set_lem}
use tenet_t.Trd.Msg.{TrdMsg, encode, decode, sum_bytes, checksum_check, set_checksum}
use tenet_t.Trd.Msg.Check.{IsWellFormed}

abbrev noon : Timeval
noon = record { tv_sec = 12; tv_usec = 900000 }

abbrev later : Timeval
later = record { tv_sec = 14; tv_usec = 200000 }

-- Packets 7 to 11 of node 3.
abbrev five : NodeCache
five = record {
  origin = 3;
  num_entries = 5;
  cache = entry 7 0 30 ∷ entry 8 1 40 ∷ entry 9 2 20 ∷ entry 10 3 40 ∷ entry 11 4 0 ∷ [];
}

five-IsValid : Node.IsValid five
five-IsValid = record { slots = refl; fits = omega arith; distinct = ground arith }

-- Packets 7 and 8 of it.
abbrev two : NodeCache
two = record {
  origin = 3;
  num_entries = 2;
  cache = entry 7 0 30 ∷ entry 8 1 40 ∷ null_entry ∷ null_entry ∷ null_entry ∷ [];
}

two-IsValid : Node.IsValid two
two-IsValid = record { slots = refl; fits = omega arith; distinct = ground arith }

nodecache_classify_seqno_lem_example : Outcome five 11 40 (nodecache_classify_seqno five 11 40)
nodecache_classify_seqno_lem_example =
    nodecache_classify_seqno_lem five 11 40 five-IsValid (omega arith)

nodecache_insert_full_example :
    ((i : ℕ) × IsOldest (live five) i
      × (nodecache_insert five 12 6 1 ≡ ok (put_entry five i (entry 12 6 1), true))
      × (live (put_entry five i (entry 12 6 1)) ≡ set (live five) i (entry 12 6 1))
      × Node.IsValid (put_entry five i (entry 12 6 1)))
    ⊎ (AllZero (live five) × (nodecache_insert five 12 6 1 ≡ fault Fault.out_of_bounds))
nodecache_insert_full_example = nodecache_insert_full five 12 6 1 five-IsValid (ground arith) refl

-- A table of node 3 alone.
abbrev one_node : Table
one_node = record {
  num_entries = 1;
  ncache = two ∷ nodecache_init ∷ nodecache_init ∷ nodecache_init ∷ nodecache_init ∷ [];
}

one_node-IsValid : TableLive.IsValid one_node
one_node-IsValid = record {
  slots = refl;
  fits = omega arith;
  each = (two-IsValid, tt);
  distinct = (tt, tt);
}

abbrev one_node_more : Table
one_node_more = record one_node {
  ncache =
      with_next two (entry 9 6 1)
      ∷ nodecache_init
      ∷ nodecache_init
      ∷ nodecache_init
      ∷ nodecache_init
      ∷ [];
}

one_node_more_run : table_insert one_node 3 9 6 1 ≡ ok (one_node_more, true)
unfolding table_insert nodecache_insert nodecache_init tenet_t.Trd.Table.get_origin_index
    tenet_t.Trd.NodeCache.find_index
one_node_more_run = refl

table_insert-Stored_example : Stored one_node_more 3 9 6
table_insert-Stored_example =
    table_insert-Stored one_node 3 9 6 1 one_node_more one_node-IsValid (λ e. omega arith)
      one_node_more_run

-- Two pairs in a circle of three places, with the second at its start.
abbrev pairs : MetaList
pairs = record {
  head_p = 1;
  tail_p = 2;
  length = 2;
  max_size = 3;
  item =
      record { origin = 4; seqno = 8 }
      ∷ record { origin = 4; seqno = 6 }
      ∷ record { origin = 4; seqno = 7 }
      ∷ [];
}

pairs-IsValid : ListQueue.IsValid pairs
unfolding window
pairs-IsValid = record {
  room = omega arith;
  some_place = omega arith;
  byte = omega arith;
  tail_in = omega arith;
  fits = omega arith;
  head_at = refl;
  distinct = ground arith;
}

pairs-Missing : Missing 4 9 (contents pairs)
unfolding window
pairs-Missing = ground arith

abbrev some_bytes : List ℕ
some_bytes = 1 ∷ 2 ∷ 3 ∷ []

memory_write_lem_example :
    ((0 < length some_bytes)
      × (length some_bytes < packet_size)
      × (mem' : Memory) × (loc : ℕ) × (memory_write memory_init some_bytes ≡ some (mem', loc))
      × Written memory_init some_bytes mem' loc)
    ⊎ (((length some_bytes ≡ 0) ⊎ (packet_size ≤ length some_bytes))
        × (memory_write memory_init some_bytes ≡ none))
memory_write_lem_example = memory_write_lem memory_init some_bytes memory_init-IsValid

-- 60 bytes make two fragments.
abbrev sixty : List ℕ
sixty = replicate 60 5

fragment_round_trip_example : fragment_send (direct 9) sixty (ok (fragment_init, [])) ≡ (
  ok (fragment_init, record { sender = 9 % u16_mod; len = length sixty; bytes = sixty } ∷ []),
  some 1,
)
fragment_round_trip_example = fragment_round_trip 9 fragment_init sixty (omega arith) (omega arith)
