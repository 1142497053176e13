-- ===== src/Trd/Seqno/Order.antt =====
-- The circular order of the sequence numbers of mote/lib/trd/trd_seqno.c.
use tenet_t.Prelude.{
  ℕ, zero, suc, ◌+◌, ◌-◌, ◌*◌, ◌%◌, ◌≤◌, ◌<◌, ◌≡◌, refl, Ordering, leb, if◌then◌else◌, u16_mod,
  arith,
}
use tenet_t.Trd.Seqno.{
  seqno_first, seqno_last, seqno_wrap_window, seqno_next, seqno_add, seqno_cmp, cmp_reduced, reduce,
  reduce_rounds,
}

-- A sequence number that TRD uses.
abbrev pub IsSeqno : ℕ → Type 0
IsSeqno a = (seqno_first ≤ a) × (a ≤ seqno_last)

pub reduce_small : (n c : ℕ) → c ≤ seqno_last → reduce n c ≡ c
unfolding reduce
reduce_small zero c h = refl
reduce_small (suc n) c h = ground arith

pub reduce_step : (n c : ℕ) → seqno_last < c → reduce (suc n) c ≡ reduce n (c - seqno_last)
unfolding reduce
reduce_step n c h = ground arith

reduce-le : (n c : ℕ) → c ≤ seqno_last * (n + 1) → reduce n c ≤ seqno_last
unfolding reduce
reduce-le zero c h = omega arith
reduce-le (suc n) c h = ground (arith, reduce-le n (c - seqno_last))

pub seqno_add_small :
    (a b : ℕ)
    → IsSeqno a
    → b < seqno_last
    → seqno_add a b ≡ (if leb (a + b) seqno_last then a + b else a + b - seqno_last)
unfolding seqno_add
seqno_add_small a b ha hb = ground (
  arith,
  reduce_small reduce_rounds (a + b),
  reduce_step 13 (a + b),
  reduce_small 13 (a + b - seqno_last),
)

pub add-IsSeqno : (a b : ℕ) → IsSeqno (seqno_add a b)
unfolding seqno_add
add-IsSeqno a b = ground (arith, reduce-le reduce_rounds ((a + b) % u16_mod))

cmp_add :
    (a k : ℕ)
    → IsSeqno a
    → 0 < k
    → k < seqno_wrap_window
    → cmp_reduced (seqno_add a k) a ≡ Ordering.gt
unfolding cmp_reduced
cmp_add a k ha hk hw =
    ground (arith, seqno_add_small a k, seqno_add_small (seqno_add a k) (seqno_last - a))

-- The window is one short across the wrap.
cmp_add_window :
    (a : ℕ)
    → IsSeqno a
    → cmp_reduced (seqno_add a seqno_wrap_window) a
      ≡ (if leb (a + seqno_wrap_window) seqno_last then Ordering.gt else Ordering.lt)
unfolding cmp_reduced
cmp_add_window a ha = ground (
  arith,
  seqno_add_small a seqno_wrap_window,
  seqno_add_small (seqno_add a seqno_wrap_window) (seqno_last - a),
)

pub flip : Ordering → Ordering
flip Ordering.lt = Ordering.gt
flip Ordering.eq = Ordering.eq
flip Ordering.gt = Ordering.lt

cmp_reduced-flip : (a b : ℕ) → cmp_reduced b a ≡ flip (cmp_reduced a b)
unfolding cmp_reduced flip
cmp_reduced-flip a b = ground arith

pub seqno_cmp_reduced : (a b : ℕ) → IsSeqno a → IsSeqno b → seqno_cmp a b ≡ cmp_reduced a b
unfolding seqno_cmp cmp_reduced
seqno_cmp_reduced a b ha hb =
    ground (arith, reduce_small reduce_rounds a, reduce_small reduce_rounds b)

-- For two sequence numbers in use, exchanging the arguments of trd_seqno_cmp reverses its answer.
pub seqno_cmp-flip : (a b : ℕ) → IsSeqno a → IsSeqno b → seqno_cmp b a ≡ flip (seqno_cmp a b)
seqno_cmp-flip a b ha hb =
    rw (seqno_cmp_reduced a b ha hb, seqno_cmp_reduced b a hb ha) (cmp_reduced-flip a b)

-- On a sequence number in use and a distance below TRD_SEQNO_LAST, trd_seqno_add moves that far round
-- the circle 1 .. TRD_SEQNO_LAST.
pub seqno_add_lem :
    (a b : ℕ) → IsSeqno a → b < seqno_last → seqno_add a b ≡ (a + b - 1) % seqno_last + 1
seqno_add_lem a b ha hb = ground (arith, seqno_add_small a b ha hb)

pub seqno_next-add : (a : ℕ) → IsSeqno a → seqno_next a ≡ seqno_add a 1
unfolding seqno_next
seqno_next-add a ha = ground (arith, seqno_add_small a 1)

pub seqno_next-IsSeqno : (a : ℕ) → IsSeqno (seqno_next a)
unfolding seqno_next
seqno_next-IsSeqno a = ground arith

-- A sequence number that trd_seqno_add makes from one in use by 1 to TRD_SEQNO_WRAP_WINDOW - 1 steps
-- compares as newer, across the wrap as well.
seqno_cmp-add :
    (a k : ℕ)
    → IsSeqno a
    → 0 < k
    → k < seqno_wrap_window
    → seqno_cmp (seqno_add a k) a ≡ Ordering.gt
seqno_cmp-add a k ha hk hw =
    rw (seqno_cmp_reduced (seqno_add a k) a (add-IsSeqno a k) ha) (cmp_add a k ha hk hw)

-- Across the wrap the window is one short: the number TRD_SEQNO_WRAP_WINDOW after `a` is newer than
-- `a` exactly when the count does not wrap between them, and older otherwise.
seqno_cmp-add_window :
    (a : ℕ)
    → IsSeqno a
    → seqno_cmp (seqno_add a seqno_wrap_window) a
      ≡ (if leb (a + seqno_wrap_window) seqno_last then Ordering.gt else Ordering.lt)
seqno_cmp-add_window a ha =
    rw (seqno_cmp_reduced (seqno_add a seqno_wrap_window) a (add-IsSeqno a seqno_wrap_window) ha)
      (cmp_add_window a ha)
