-- ===== src/Transport/PacketList.antt =====
-- master/transport/sortedpacketlist.c: packets that wait for those before them, in the order of their
-- sequence numbers. `length` is the list's length, and -1 says that there is no entry.
use tenet_t.Prelude.{
  ℕ, ◌+◌, ◌/◌, Bool, true, false, ◌&&◌, ◌||◌, List, [], ◌∷◌, ltb, ◌==◌, if◌then◌else◌,
}
use tenet_t.Transport.Seqno.{tr_max_seqno}

-- SPList_entry; `len` is the length of the packet.
pub record SpEntry : Type 0 where
  pub value : ℕ
  pub packet : List ℕ

unfoldable pub sp_list_find : List SpEntry → ℕ → Bool
sp_list_find [] value = false
sp_list_find (e ∷ es) value = if e.value == value then true else sp_list_find es value

-- The test that puts the new value before an entry: smaller, as numbers that wrap at TR_MAX_SEQNO.
unfoldable pub goes_before : ℕ → ℕ → Bool
goes_before new old =
    (ltb new old || ltb (old + tr_max_seqno / 2) new) && ltb old (new + tr_max_seqno / 2)

-- The three cases of the insertion: into an empty list, at the head, and behind it, where the loop
-- looks for the first entry that the new one goes before.
unfoldable pub sp_place : SpEntry → List SpEntry → List SpEntry
unfolding goes_before
sp_place new [] = new ∷ []
sp_place new (e ∷ es) =
    let rest = sp_place new es in if goes_before new.value e.value then new ∷ e ∷ es else e ∷ rest

unfoldable pub sp_list_insert : List SpEntry → ℕ → List ℕ → List SpEntry
unfolding sp_place
sp_list_insert es value packet =
    if sp_list_find es value then es else sp_place (record { value = value; packet = packet }) es
