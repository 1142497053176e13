-- ===== src/Trd/Seqno.antt =====
-- mote/lib/trd/trd_seqno.c: sequence numbers 1 .. 5000 that wrap, and their circular order.
pub mod Order
use tenet_t.Prelude.{
  ℕ, zero, suc, ◌+◌, ◌-◌, ◌%◌, ◌≤◌, ◌≡◌, Bool, ◌||◌, Ordering, ltb, leb, ◌==◌, if◌then◌else◌,
  u16_mod, arith,
}

abbrev pub seqno_unknown : ℕ
seqno_unknown = 0x0000

abbrev pub seqno_first : ℕ
seqno_first = 0x0001

abbrev pub seqno_last : ℕ
seqno_last = 0x1388

abbrev pub seqno_oldest : ℕ
seqno_oldest = 0xfffd

abbrev pub seqno_wrap_window : ℕ
seqno_wrap_window = 0x10

unfoldable pub seqno_next : ℕ → ℕ
seqno_next a =
    if a == seqno_unknown
    then seqno_first
    else if leb seqno_last a
    then seqno_first
    else (a + 1) % u16_mod

-- `while (c > TRD_SEQNO_LAST) c -= TRD_SEQNO_LAST;`, at most as many rounds as the first argument.
unfoldable pub reduce : ℕ → ℕ → ℕ
reduce zero c = c
reduce (suc n) c = let rest = reduce n (c - seqno_last) in if ltb seqno_last c then rest else c

-- No uint16_t takes more rounds.
abbrev pub reduce_rounds : ℕ
reduce_rounds = 14

unfoldable pub seqno_add : ℕ → ℕ → ℕ
seqno_add a b =
    let c = reduce reduce_rounds ((a + b) % u16_mod) in if ltb c seqno_first then seqno_first else c

-- The comparison of two different numbers that are at most TRD_SEQNO_LAST.
unfoldable pub cmp_reduced : ℕ → ℕ → Ordering
cmp_reduced a b =
    if a == b
    then Ordering.eq
    else if ltb a b
    then if leb (b - a) seqno_wrap_window
      then Ordering.lt
      else if ltb (seqno_add a (seqno_last - b)) seqno_wrap_window
      then Ordering.gt
      else Ordering.lt
    else if leb (a - b) seqno_wrap_window
    then Ordering.gt
    else if ltb (seqno_add b (seqno_last - a)) seqno_wrap_window
    then Ordering.lt
    else Ordering.gt

-- The result is the sign of the C function's int: `lt` is -1, `gt` is 1.
unfoldable pub seqno_cmp : ℕ → ℕ → Ordering
seqno_cmp a b =
    if a == b
    then Ordering.eq
    else if b == seqno_oldest || b == seqno_unknown
    then Ordering.gt
    else if a == seqno_oldest || a == seqno_unknown
    then Ordering.lt
    else cmp_reduced (reduce reduce_rounds a) (reduce reduce_rounds b)
