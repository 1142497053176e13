-- ===== src/Transport/U16List.antt =====
-- master/transport/uint16list.c: a linked list of uint16_t, first to last. `length` is the list's
-- length and `tail` its last entry; the value 0xffff says that there is none.
use tenet_t.Prelude.{ℕ, ◌-◌, Bool, List, [], ◌∷◌, ◌++◌, ltb, ◌==◌, if◌then◌else◌, length, get_or}

abbrev pub no_value : ℕ
no_value = 0xffff

unfoldable pub u16list_find : List ℕ → ℕ → ℕ
u16list_find [] x = no_value
u16list_find (v ∷ vs) x = if v == x then v else u16list_find vs x

-- The list without the first entry that holds the value, and what the C function returns.
unfoldable pub u16list_delete : List ℕ → ℕ → List ℕ × ℕ
u16list_delete [] x = ([], no_value)
u16list_delete (v ∷ vs) x =
    let (rest, r) = u16list_delete vs x in if v == x then (vs, x) else (v ∷ rest, r)

unfoldable pub u16list_insert : List ℕ → ℕ → List ℕ
unfolding u16list_find
u16list_insert vs x = if u16list_find vs x == no_value then vs ++ (x ∷ []) else vs

unfoldable pub u16list_delete_first : List ℕ → List ℕ × ℕ
u16list_delete_first [] = ([], no_value)
u16list_delete_first (v ∷ vs) = (vs, v)

unfoldable pub u16list_is_empty : List ℕ → Bool
u16list_is_empty vs = length vs == 0

-- The entry at `i`, counted from 1. At 0 the C function returns the first one.
unfoldable pub u16list_get_ith : List ℕ → ℕ → ℕ
u16list_get_ith vs i = if ltb (length vs) i then no_value else get_or vs (i - 1) no_value
