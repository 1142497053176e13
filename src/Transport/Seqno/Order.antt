-- ===== src/Transport/Seqno/Order.antt =====
-- The sequence numbers of mote/lib/transport/tr_seqno.c as the positions of a stream.
use tenet_t.Prelude.{
  ℕ, ◌+◌, ◌-◌, ◌%◌, ◌≤◌, ◌<◌, Ordering, ◌≡◌, refl, sym, ap, ◌∙◌, ◌⊎◌, inl, inr, arith, ltb, ◌==◌,
  Bool-cases,
}
use Prim.Native.Nat.{compare}
use tenet_t.Transport.Seqno.{
  tr_first_seqno, tr_max_seqno, tr_valid_range, tr_seqno_diff, tr_seqno_next, tr_seqno_prev,
  tr_reduce, tr_seqno_add, tr_seqno_cmp,
}

abbrev pub IsTrSeqno : ℕ → Type 0
IsTrSeqno a = (tr_first_seqno ≤ a) × (a ≤ tr_max_seqno)

-- The sequence number at position `p` of a stream that starts with `base`.
unfoldable pub at_position : ℕ → ℕ → ℕ
at_position base p = (base + p - 1) % tr_max_seqno + 1

-- Positions that are less than TR_VALID_RANGE apart.
abbrev pub Near : ℕ → ℕ → Type 0
Near p q = (p < q + tr_valid_range) × (q < p + tr_valid_range)

pub at_position-IsTrSeqno : (base p : ℕ) → IsTrSeqno (at_position base p)
unfolding at_position
at_position-IsTrSeqno base p = (omega arith, omega arith)

pub at_position_next :
    (base p : ℕ) → 0 < base → tr_seqno_next (at_position base p) ≡ at_position base (p + 1)
unfolding at_position tr_seqno_next
at_position_next base p h = ground arith

pub at_position_zero : (base : ℕ) → IsTrSeqno base → at_position base 0 ≡ base
unfolding at_position
at_position_zero base h = omega arith

-- Two near numbers, `k` apart.
steps :
    (base p k : ℕ)
    → 0 < base
    → k < tr_valid_range
    → let a = at_position base p in
      let b = at_position base (p + k) in (b ≡ a + k) ⊎ ((b + tr_max_seqno ≡ a + k))
unfolding at_position
steps base p k h hk = ground arith

cmp_ahead :
    (a b k : ℕ)
    → IsTrSeqno a
    → IsTrSeqno b
    → 0 < k
    → k < tr_valid_range
    → (b ≡ a + k) ⊎ ((b + tr_max_seqno ≡ a + k))
    → (tr_seqno_cmp a b ≡ Ordering.lt) × (tr_seqno_cmp b a ≡ Ordering.gt)
unfolding tr_seqno_cmp tr_seqno_add tr_reduce
cmp_ahead a b k ha hb hp hk (inl e) = (ground arith, ground arith)
cmp_ahead a b k ha hb hp hk (inr e) = (ground arith, ground arith)

cmp_at :
    (base p k : ℕ)
    → 0 < base
    → 0 < k
    → k < tr_valid_range
    → (tr_seqno_cmp (at_position base p) (at_position base (p + k)) ≡ Ordering.lt)
      × (tr_seqno_cmp (at_position base (p + k)) (at_position base p) ≡ Ordering.gt)
cmp_at base p k h hp hk =
    cmp_ahead (at_position base p) (at_position base (p + k)) k (at_position-IsTrSeqno base p)
      (at_position-IsTrSeqno base (p + k)) hp hk (steps base p k h hk)

cmp_self : (a : ℕ) → tr_seqno_cmp a a ≡ Ordering.eq
unfolding tr_seqno_cmp
cmp_self a = ground arith

pub Ordering-cases : (o : Ordering) → (o ≡ Ordering.lt) ⊎ ((o ≡ Ordering.eq) ⊎ (o ≡ Ordering.gt))
Ordering-cases Ordering.lt = inl refl
Ordering-cases Ordering.eq = inr (inl refl)
Ordering-cases Ordering.gt = inr (inr refl)

-- On positions of a stream that are less than TR_VALID_RANGE apart, tr_seqno_cmp is the order of the
-- positions.
pub tr_seqno_cmp-at_position :
    (base p q : ℕ)
    → 0 < base
    → Near p q
    → tr_seqno_cmp (at_position base p) (at_position base q) ≡ compare p q
tr_seqno_cmp-at_position base p q h near = elim (Bool-cases (ltb p q)) [
  | inl lt ↦
      let k : p + (q - p) ≡ q = ground arith in
      ap (λ (r : ℕ). tr_seqno_cmp (at_position base p) (at_position base r)) (sym k)
      ∙ (cmp_at base p (q - p) h (ground arith) (ground arith)).0
      ∙ ground arith
  | inr ge ↦ elim (Bool-cases (p == q)) [
    | inl same ↦
        let e : p ≡ q = ground arith in
        ap (λ (r : ℕ). tr_seqno_cmp (at_position base r) (at_position base q)) e
        ∙ cmp_self (at_position base q)
        ∙ ground arith
    | inr other ↦
        let k : q + (p - q) ≡ p = ground arith in
        ap (λ (r : ℕ). tr_seqno_cmp (at_position base r) (at_position base q)) (sym k)
        ∙ (cmp_at base q (p - q) h (ground arith) (ground arith)).1
        ∙ ground arith
  ]
]

-- The next sequence number comes right after the one before, round the whole circle.
pub tr_seqno_prev-next : (a : ℕ) → IsTrSeqno a → tr_seqno_prev (tr_seqno_next a) ≡ a
unfolding tr_seqno_prev tr_seqno_next
tr_seqno_prev-next a h = ground arith

-- tr_seqno_diff counts the steps between two positions less than TR_MAX_SEQNO apart.
pub tr_seqno_diff-at_position :
    (base p k : ℕ)
    → 0 < base
    → k < tr_max_seqno
    → tr_seqno_diff (at_position base (p + k)) (at_position base p) ≡ k
unfolding tr_seqno_diff at_position
tr_seqno_diff-at_position base p k h hk = ground arith

pub tr_seqno_add-at_position :
    (base p k : ℕ)
    → 0 < base
    → k < tr_valid_range + 1
    → tr_seqno_add (at_position base p) k ≡ at_position base (p + k)
unfolding tr_seqno_add tr_reduce at_position
tr_seqno_add-at_position base p k h hk = ground arith
