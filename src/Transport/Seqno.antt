-- ===== src/Transport/Seqno.antt =====
-- mote/lib/transport/tr_seqno.c: the transport's sequence numbers 1 .. 50000, which wrap.
pub mod Order
use tenet_t.Prelude.{
  ℕ, zero, suc, ◌+◌, ◌-◌, ◌*◌, ◌/◌, ◌%◌, ◌^◌, ◌≤◌, ◌<◌, min, Ordering, ◌≡◌, refl, sym, ap, ap₂, ◌∙◌,
  ◌≢◌, ◌↔◌, ◌⊎◌, inl, inr, Bool, true, false, not, ◌&&◌, ◌||◌, Option, none, some, List, [], ◌∷◌,
  ◌++◌, map, append-nil, append_assoc, arith, ltb, leb, ◌==◌, if◌then◌else◌, ltb→lt, lt→ltb, leb→le,
  ==_iff, Bool-cases, Option-cases, length, get_elem?, set, length-append, length-set, get_or, take,
  drop, replicate, take-append-drop, length-take, length-drop, length-replicate, length-map,
  take_all, u16_mod, u8_mod, Fault, Run, ok, fault, ◌>>=◌, All, All-append, All-set, All-take,
  All-get_or, All-replicate, All-mono, All-map, take-set_below, take-set_next, get_or-take,
  get_or-set_self, get_or-set_ne, take-set_above, set_outside, take-take, Run-cases,
}

abbrev pub tr_first_seqno : ℕ
tr_first_seqno = 1

abbrev pub tr_max_seqno : ℕ
tr_max_seqno = 50000

abbrev pub tr_valid_range : ℕ
tr_valid_range = 200

-- A difference below 0 wraps around as a uint16_t.
unfoldable pub tr_seqno_diff : ℕ → ℕ → ℕ
tr_seqno_diff seq2 seq1 =
    if ltb seq2 seq1 then (tr_max_seqno + seq2 + u16_mod - seq1) % u16_mod else seq2 - seq1

unfoldable pub tr_seqno_next : ℕ → ℕ
tr_seqno_next seq = if leb tr_max_seqno seq then tr_first_seqno else seq + 1

unfoldable pub tr_seqno_prev : ℕ → ℕ
tr_seqno_prev seq = if leb seq tr_first_seqno then tr_max_seqno else seq - 1

-- `while (c > TR_MAX_SEQNO) c -= TR_MAX_SEQNO;`, in at most as many rounds as the first argument. A
-- uint16_t takes one.
unfoldable pub tr_reduce : ℕ → ℕ → ℕ
tr_reduce zero c = c
tr_reduce (suc n) c =
    let rest = tr_reduce n (c - tr_max_seqno) in if ltb tr_max_seqno c then rest else c

unfoldable pub tr_seqno_add : ℕ → ℕ → ℕ
unfolding tr_reduce
tr_seqno_add a b =
    let c = tr_reduce 1 ((a + b) % u16_mod) in if ltb c tr_first_seqno then tr_first_seqno else c

-- TR_MAX_SEQNO - b, as the uint16_t that tr_seqno_add takes.
abbrev pub tr_complement : ℕ → ℕ
tr_complement b = (tr_max_seqno + u16_mod - b) % u16_mod

-- The test `< 0` of such a sign.
abbrev pub is_lt : Ordering → Bool
is_lt Ordering.lt = true
is_lt _ = false

-- The result is the sign of the C function's int: `lt` is -1, `gt` is 1.
unfoldable pub tr_seqno_cmp : ℕ → ℕ → Ordering
tr_seqno_cmp a b =
    if a == b
    then Ordering.eq
    else if ltb a b
    then if leb (b - a) tr_valid_range
      then Ordering.lt
      else if ltb (tr_seqno_add a (tr_complement b)) tr_valid_range
      then Ordering.gt
      else Ordering.lt
    else if leb (a - b) tr_valid_range
    then Ordering.gt
    else if ltb (tr_seqno_add b (tr_complement a)) tr_valid_range
    then Ordering.lt
    else Ordering.gt
