-- ===== src/Transport/Stream/Missing.antt =====
-- detectMissingPacket of master/transport/streamtransport.c: its loop ends, and what it notes.
use tenet_t.Prelude.{
  ℕ, zero, suc, ◌+◌, ◌-◌, ◌<◌, Ordering, ◌≡◌, ap, ◌∙◌, ◌≢◌, inl, inr, List, [], ◌∷◌, map, arith,
  leb, ◌==◌, if◌then◌else◌, u16_mod, ok,
}
use Prim.Native.Nat.{compare}
use tenet_t.Transport.Seqno.{
  tr_max_seqno, tr_valid_range, tr_first_seqno, tr_reduce, tr_seqno_next, tr_seqno_add,
  tr_seqno_cmp,
}
use tenet_t.Transport.Seqno.Order.{
  Ordering-cases, IsTrSeqno, at_position, at_position_next, tr_seqno_cmp-at_position,
}
use tenet_t.Transport.U16List.{u16list_insert}
use tenet_t.Transport.Stream.{StrConn, detect_from, detect_rounds, detect_missing_packet}
use tenet_t.Transport.Stream.Reorder.{half_range}
use tenet_t.Transport.Stream.Positions.{positions}

-- Where the loop stops at the latest.
abbrev target : ℕ → ℕ
target seqno =
    if seqno == 0
    then tr_first_seqno
    else if leb seqno tr_max_seqno
    then seqno
    else seqno - tr_max_seqno

abbrev distance : ℕ → ℕ → ℕ
distance seqno next =
    if leb next (target seqno) then target seqno - next else target seqno + tr_max_seqno - next

target-IsTrSeqno : (seqno : ℕ) → seqno < u16_mod → IsTrSeqno (target seqno)
target-IsTrSeqno seqno h = ground arith

tr_seqno_next-IsTrSeqno : (a : ℕ) → IsTrSeqno (tr_seqno_next a)
unfolding tr_seqno_next
tr_seqno_next-IsTrSeqno a = ground arith

stops_at_target :
    (seqno : ℕ) → seqno < u16_mod → (tr_seqno_cmp seqno (target seqno) ≡ Ordering.gt) → ⊥
unfolding tr_seqno_cmp tr_seqno_add tr_reduce
stops_at_target seqno h = ground arith

distance_next :
    (seqno next : ℕ)
    → seqno < u16_mod
    → IsTrSeqno next
    → next ≢ target seqno
    → distance seqno (tr_seqno_next next) + 1 ≡ distance seqno next
unfolding tr_seqno_next
distance_next seqno next h valid other = let t = target-IsTrSeqno seqno h in ground arith

detect_stop :
    (n seqno last : ℕ) (missing : List ℕ) (k : ℕ)
    → (tr_seqno_cmp seqno (tr_seqno_next last) ≡ Ordering.gt → ⊥)
    → detect_from (suc n) seqno last missing k ≡ ok (missing, k)
unfolding detect_from
detect_stop n seqno last missing k h =
    elim (Ordering-cases (tr_seqno_cmp seqno (tr_seqno_next last))) [
      | inl lt ↦ rw (lt, detect_from)
      | inr (inl eq) ↦ rw (eq, detect_from)
      | inr (inr gt) ↦ elim (h gt) [ ]
    ]

detect_next :
    (n seqno last : ℕ) (missing : List ℕ) (k : ℕ)
    → tr_seqno_cmp seqno (tr_seqno_next last) ≡ Ordering.gt
    → detect_from (suc n) seqno last missing k
      ≡ detect_from n seqno
          (tr_seqno_next last)
          (u16list_insert missing (tr_seqno_next last))
          (k + 1)
unfolding detect_from
detect_next n seqno last missing k h = rw (h, detect_from)

detect_from_returns :
    (n seqno last : ℕ) (missing : List ℕ) (k : ℕ)
    → seqno < u16_mod
    → distance seqno (tr_seqno_next last) < n
    → (r : List ℕ × ℕ) × (detect_from n seqno last missing k ≡ ok r)
detect_from_returns zero seqno last missing k h enough = let no : ⊥ = omega arith in elim no [ ]
detect_from_returns (suc n) seqno last missing k h enough =
    let next = tr_seqno_next last in
    let valid = tr_seqno_next-IsTrSeqno last in
    elim (Ordering-cases (tr_seqno_cmp seqno next)) [
      | inl lt ↦ ((missing, k), detect_stop n seqno last missing k (λ gt. ground arith))
      | inr (inl eq) ↦ ((missing, k), detect_stop n seqno last missing k (λ gt. ground arith))
      | inr (inr gt) ↦
          let other : next ≢ target seqno = λ e. stops_at_target seqno h (rw (← e) gt) in
          let closer = distance_next seqno next h valid other in
          let rest =
            detect_from_returns n seqno next (u16list_insert missing next) (k + 1) h
              (omega arith) in
          (rest.0, detect_next n seqno last missing k gt ∙ rest.1)
    ]

-- detectMissingPacket returns, whatever the sequence number of a packet and of the last one before.
pub detect_missing_packet_returns :
    (seqno : ℕ) (c : StrConn)
    → seqno < u16_mod
    → (r : StrConn × ℕ) × (detect_missing_packet seqno c ≡ ok r)
unfolding detect_missing_packet
detect_missing_packet_returns seqno c h =
    let valid = tr_seqno_next-IsTrSeqno c.last_recv_seqno in
    let t = target-IsTrSeqno seqno h in
    let r =
      detect_from_returns detect_rounds seqno c.last_recv_seqno c.missing_list 0 h (ground arith) in
    (
      (record c { missing_list = r.0.0; total_lost_packets = c.total_lost_packets + r.0.1 }, r.0.1),
      rw r.1,
    )

-- The list with all the numbers given.
abbrev pub insert_all : List ℕ → List ℕ → List ℕ
insert_all missing [] = missing
insert_all missing (x ∷ xs) = insert_all (u16list_insert missing x) xs

detect_from_between :
    (base l d n : ℕ) (missing : List ℕ) (k : ℕ)
    → 0 < base
    → d < n
    → d < half_range
    → detect_from n (at_position base (l + 1 + d)) (at_position base l) missing k
      ≡ ok (insert_all missing (map (at_position base) (positions (l + 1) d)), k + d)
detect_from_between base l d zero missing k pos enough near =
    let no : ⊥ = omega arith in elim no [ ]
detect_from_between base l zero (suc n) missing k pos enough near =
    let same : l + 1 + 0 ≡ l + 1 = omega arith in
    let none : k ≡ k + 0 = omega arith in
    detect_stop n (at_position base (l + 1 + 0)) (at_position base l) missing k (
      rw
        (
          at_position_next base l pos,
          same,
          tr_seqno_cmp-at_position base (l + 1) (l + 1) pos (ground arith),
        )
        (ground arith))
    ∙ ap (λ (i : ℕ). ok (missing, i)) none
detect_from_between base l (suc d) (suc n) missing k pos enough near =
    let same : l + 1 + suc d ≡ l + 1 + 1 + d = omega arith in
    let more : k + 1 + d ≡ k + suc d = omega arith in
    let window : (l + 1 + suc d < l + 1 + tr_valid_range)
        × (l + 1 < l + 1 + suc d + tr_valid_range) =
      (omega arith, omega arith) in
    let order : compare (l + 1 + suc d) (l + 1) ≡ Ordering.gt = ground arith in
    let ahead : tr_seqno_cmp (at_position base (l + 1 + suc d)) (tr_seqno_next (at_position base l))
        ≡ Ordering.gt =
      rw (at_position_next base l pos)
        (tr_seqno_cmp-at_position base (l + 1 + suc d) (l + 1) pos window ∙ order) in
    let rest =
      detect_from_between base (l + 1) d n (u16list_insert missing (at_position base (l + 1)))
        (k + 1) pos (omega arith) (omega arith) in
    detect_next n (at_position base (l + 1 + suc d)) (at_position base l) missing k ahead
    ∙ rw (at_position_next base l pos, same, rest, more)

-- When a packet comes `d + 1` positions after the last one, detectMissingPacket counts and notes exactly
-- the `d` positions between them, in order, for every `d` below 100.
pub detect_missing_packet_between :
    (base l d : ℕ) (c : StrConn)
    → 0 < base
    → d < half_range
    → c.last_recv_seqno ≡ at_position base l
    → detect_missing_packet (at_position base (l + 1 + d)) c
      ≡ ok (
        record c {
          missing_list = insert_all c.missing_list (map (at_position base) (positions (l + 1) d));
          total_lost_packets = c.total_lost_packets + d;
        },
        d,
      )
unfolding detect_missing_packet
detect_missing_packet_between base l d c pos near last =
    let none : 0 + d ≡ d = omega arith in
    rw (
      last,
      detect_from_between base l d detect_rounds c.missing_list 0 pos (omega arith) near,
      none,
    )
