-- ===== src/Trd/Memory/Ring.antt =====
-- Writing to the store of master/trd/trd_memory.c, and reading back.
use tenet_t.Prelude.{
  ℕ, ◌+◌, ◌≤◌, ◌<◌, ◌≡◌, refl, ◌∙◌, ◌⊎◌, inl, inr, ◌||◌, none, some, List, [], arith, leb, ◌==◌,
  if◌then◌else◌, Bool-cases, length, set, length-set, get_or-set_self, get_or-set_ne,
}
use tenet_t.Trd.Memory.{Memory, mem_num_pkts, packet_size, memory_init, memory_write, memory_read}

pub record IsValid (mem : Memory) : Type 0 where
  pub slots : length mem.array ≡ mem_num_pkts
  pub pointer : mem.curr_mem_ptr < mem_num_pkts

pub memory_init-IsValid : IsValid memory_init
unfolding memory_init
memory_init-IsValid = record { slots = refl; pointer = omega arith }

-- What a write leaves: the packet at its place, and every other place as it was.
pub record Written (mem : Memory) (bytes : List ℕ) (mem' : Memory) (loc : ℕ) : Type 0 where
  pub valid : IsValid mem'
  pub place : loc ≡ mem.curr_mem_ptr
  pub back : memory_read mem' loc ≡ some bytes
  pub others : (i : ℕ) → (i ≡ loc) ⊎ (memory_read mem' i ≡ memory_read mem i)

-- On a valid store trd_memory_write takes exactly the packets of 1 to 127 bytes, at the place of its
-- pointer: the packet is then read back from there, no other place changes, and the store is valid.
pub memory_write_lem :
    (mem : Memory) (bytes : List ℕ)
    → IsValid mem
    → ((0 < length bytes)
        × (length bytes < packet_size)
        × (mem' : Memory) × (loc : ℕ) × (memory_write mem bytes ≡ some (mem', loc))
        × Written mem bytes mem' loc)
      ⊎ (((length bytes ≡ 0) ⊎ (packet_size ≤ length bytes)) × (memory_write mem bytes ≡ none))
unfolding memory_write memory_read
memory_write_lem mem bytes v =
    elim (Bool-cases (length bytes == 0 || leb packet_size (length bytes))) [
      | inl bad ↦ inr (ground arith, ground (arith, v.pointer))
      | inr good ↦ inl (
        ground arith,
        ground arith,
        new,
        mem.curr_mem_ptr,
        ground (arith, v.pointer),
        record {
          valid = record {
            slots = length-set mem.array mem.curr_mem_ptr bytes ∙ v.slots;
            pointer = ground (arith, v.pointer);
          };
          place = refl;
          back = ground (
            arith,
            get_or-set_self mem.array mem.curr_mem_ptr bytes [] (omega (arith, v.slots, v.pointer)),
            v.pointer,
          );
          others = λ i. elim (Bool-cases (mem.curr_mem_ptr == i)) [
            | inl same ↦ inl (ground arith)
            | inr other ↦
                inr (
                  ground
                    (arith, get_or-set_ne mem.array mem.curr_mem_ptr i bytes [] (ground arith)))
          ];
        },
      )
    ]
  where
    new : Memory
    new = record {
      array = set mem.array mem.curr_mem_ptr bytes;
      curr_mem_ptr = if leb mem_num_pkts (mem.curr_mem_ptr + 1) then 0 else mem.curr_mem_ptr + 1;
    }
