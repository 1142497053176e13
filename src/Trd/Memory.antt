-- ===== src/Trd/Memory.antt =====
-- master/trd/trd_memory.c: the packets in store, TRD_MEM_NUM_PKTS slots written in a circle. A
-- packet is the list of its bytes, so its `len` is the list's length; 0 marks an empty slot.
pub mod Ring
use tenet_t.Prelude.{
  ℕ, ◌+◌, ◌*◌, Option, none, some, List, [], ◌||◌, leb, ◌==◌, if◌then◌else◌, length, get_or, set,
  replicate,
}
use tenet_t.Trd.NodeCache.{cache_entries_per_node}
use tenet_t.Trd.Table.{node_entries}

abbrev pub mem_num_pkts : ℕ
mem_num_pkts = node_entries * cache_entries_per_node

-- The size of the array `packet` of a slot.
abbrev pub packet_size : ℕ
packet_size = 128

pub record Memory : Type 0 where
  pub array : List (List ℕ)
  pub curr_mem_ptr : ℕ

unfoldable pub memory_init : Memory
memory_init = record { array = replicate mem_num_pkts []; curr_mem_ptr = 0 }

-- `none` is the return value -1; otherwise the new store and `memloc`.
unfoldable pub memory_write : Memory → List ℕ → Option (Memory × ℕ)
memory_write mem bytes =
    if leb mem_num_pkts mem.curr_mem_ptr
    then none
    else if length bytes == 0 || leb packet_size (length bytes)
    then none
    else some (
      record {
        array = set mem.array mem.curr_mem_ptr bytes;
        curr_mem_ptr = if leb mem_num_pkts (mem.curr_mem_ptr + 1) then 0 else mem.curr_mem_ptr + 1;
      },
      mem.curr_mem_ptr,
    )

unfoldable pub memory_read : Memory → ℕ → Option (List ℕ)
memory_read mem memloc =
    if leb mem_num_pkts memloc
    then none
    else let bytes = get_or mem.array memloc [] in if length bytes == 0 then none else some bytes
