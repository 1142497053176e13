-- ===== src/Transport/Stream/Nack.antt =====
-- send_NACK of master/transport/streamtransport.c: which missing numbers it asks for, and which it gives
-- up.
use tenet_t.Prelude.{
  ℕ, zero, suc, ◌+◌, ◌-◌, ◌≤◌, ◌<◌, Ordering, ◌≡◌, refl, ap, ◌∙◌, inl, inr, Bool, true, false, List,
  [], ◌∷◌, ◌++◌, append-nil, append_assoc, arith, ltb, leb, ◌==◌, if◌then◌else◌, Bool-cases, length,
  length-append, get_or, replicate, All, All-append,
}
use tenet_t.Transport.Seqno.{is_lt, tr_valid_range, tr_seqno_add, tr_seqno_cmp}
use tenet_t.Transport.Seqno.Order.{Ordering-cases}
use tenet_t.Transport.U16List.{u16list_delete, u16list_get_ith, u16list_is_empty}
use tenet_t.Transport.Stream.{
  StrConn, StrEvent, str_nack_mlist_len, nack_items, nack_rounds, send_nack,
}

-- A missing number that is still worth asking for.
abbrev pub fresh : ℕ → ℕ → Bool
fresh last x = is_lt (tr_seqno_cmp last (tr_seqno_add x tr_valid_range))

-- The missing numbers without the stale ones before the `n`-th fresh one.
abbrev pub give_up : ℕ → ℕ → List ℕ → List ℕ
give_up last n [] = []
give_up last zero (x ∷ xs) = x ∷ xs
give_up last (suc n) (x ∷ xs) =
    let kept = give_up last n xs in
    let dropped = give_up last (suc n) xs in if fresh last x then x ∷ kept else dropped

-- The first `n` fresh numbers, and 0 where there are fewer.
abbrev pub asked : ℕ → ℕ → List ℕ → List ℕ
asked last n [] = replicate n 0
asked last zero (x ∷ xs) = []
asked last (suc n) (x ∷ xs) =
    let here = asked last n xs in
    let past = asked last (suc n) xs in if fresh last x then x ∷ here else past

abbrev IsFresh : ℕ → ℕ → Type 0
IsFresh last x = fresh last x ≡ true

get_or_append :
    (pre : List ℕ) (x : ℕ) (xs : List ℕ) (d : ℕ) → get_or (pre ++ (x ∷ xs)) (length pre) d ≡ x
get_or_append [] x xs d = refl
get_or_append (y ∷ ys) x xs d = get_or_append ys x xs d

get_ith_append :
    (pre : List ℕ) (x : ℕ) (xs : List ℕ) → u16list_get_ith (pre ++ (x ∷ xs)) (length pre + 1) ≡ x
unfolding u16list_get_ith
get_ith_append pre x xs =
    let long = length-append pre (x ∷ xs) in
    let inside : ltb (length (pre ++ (x ∷ xs))) (length pre + 1) ≡ false = ground arith in
    let index : length pre + 1 - 1 ≡ length pre = omega arith in
    rw (inside, index) (get_or_append pre x xs 65535)

delete_append :
    (last : ℕ) (pre : List ℕ) (x : ℕ) (xs : List ℕ)
    → All (IsFresh last) pre
    → fresh last x ≡ false
    → (u16list_delete (pre ++ (x ∷ xs)) x).0 ≡ pre ++ xs
unfolding u16list_delete
delete_append last [] x xs all stale =
    let same : (x == x) ≡ true = ground arith in rw (same, u16list_delete)
delete_append last (y ∷ ys) x xs all stale =
    let other : (y == x) ≡ false = elim (Bool-cases (y == x)) [
      | inl same ↦
          let y≡x : y ≡ x = ground arith in
          let fresh_x : fresh last x ≡ true = rw (← y≡x) all.0 in ground arith
      | inr other ↦ other
    ] in
    rw (other, u16list_delete) (ap (λ (l : List ℕ). y ∷ l) (delete_append last ys x xs all.1 stale))

nack_full :
    (n last i : ℕ) (missing : List ℕ)
    → str_nack_mlist_len ≤ i
    → nack_items n last i missing ≡ (missing, [])
unfolding nack_items
nack_full zero last i missing h = refl
nack_full (suc n) last i missing h =
    let full : leb str_nack_mlist_len i ≡ true = ground arith in rw (full, nack_items)

nack_pad :
    (n last i : ℕ) (missing : List ℕ)
    → i < str_nack_mlist_len
    → length missing ≤ i
    → nack_items (suc n) last i missing
      ≡ ((nack_items n last (i + 1) missing).0, 0 ∷ (nack_items n last (i + 1) missing).1)
unfolding nack_items
nack_pad n last i missing h long =
    let room : leb str_nack_mlist_len i ≡ false = ground arith in
    let over : ltb i (length missing) ≡ false = ground arith in rw (room, over, nack_items)

module _ (n last : ℕ) (pre : List ℕ) (x : ℕ) (xs : List ℕ)
    (room : length pre < str_nack_mlist_len) where
  nack_fresh :
      fresh last x ≡ true
      → nack_items (suc n) last (length pre) (pre ++ (x ∷ xs)) ≡ (
        (nack_items n last (length pre + 1) (pre ++ (x ∷ xs))).0,
        x ∷ (nack_items n last (length pre + 1) (pre ++ (x ∷ xs))).1,
      )
  unfolding nack_items
  nack_fresh h =
      let long = length-append pre (x ∷ xs) in
      let not_full : leb str_nack_mlist_len (length pre) ≡ false = ground arith in
      let inside : ltb (length pre) (length (pre ++ (x ∷ xs))) ≡ true = ground arith in
      let lt : tr_seqno_cmp last (tr_seqno_add x tr_valid_range) ≡ Ordering.lt = ground arith in
      rw (not_full, inside, get_ith_append pre x xs, lt, nack_items, get_ith_append pre x xs)

  nack_stale :
      All (IsFresh last) pre
      → fresh last x ≡ false
      → nack_items (suc n) last (length pre) (pre ++ (x ∷ xs))
        ≡ nack_items n last (length pre) (pre ++ xs)
  unfolding nack_items
  nack_stale all h =
      let long = length-append pre (x ∷ xs) in
      let not_full : leb str_nack_mlist_len (length pre) ≡ false = ground arith in
      let inside : ltb (length pre) (length (pre ++ (x ∷ xs))) ≡ true = ground arith in
      elim (Ordering-cases (tr_seqno_cmp last (tr_seqno_add x tr_valid_range))) [
        | inl lt ↦ let no : ⊥ = ground arith in elim no [ ]
        | inr (inl eq) ↦ rw (
          not_full,
          inside,
          get_ith_append pre x xs,
          eq,
          nack_items,
          get_ith_append pre x xs,
          delete_append last pre x xs all h,
        )
        | inr (inr gt) ↦ rw (
          not_full,
          inside,
          get_ith_append pre x xs,
          gt,
          nack_items,
          get_ith_append pre x xs,
          delete_append last pre x xs all h,
        )
      ]

nack_padding :
    (n last i j : ℕ) (missing : List ℕ)
    → i + j ≡ str_nack_mlist_len
    → length missing ≤ i
    → j ≤ n
    → nack_items n last i missing ≡ (missing, replicate j 0)
nack_padding n last i zero missing h long enough = nack_full n last i missing (omega arith)
nack_padding zero last i (suc j) missing h long enough = let no : ⊥ = omega arith in elim no [ ]
nack_padding (suc n) last i (suc j) missing h long enough =
    nack_pad n last i missing (omega arith) long
    ∙ rw (nack_padding n last (i + 1) j missing (omega arith) (omega arith) (omega arith))

nack_items_lem :
    (n last j : ℕ) (pre rest : List ℕ)
    → All (IsFresh last) pre
    → length pre + j ≡ str_nack_mlist_len
    → j + length rest ≤ n
    → nack_items n last (length pre) (pre ++ rest) ≡ (pre ++ give_up last j rest, asked last j rest)
nack_items_lem n last j pre [] all h enough =
    let base = append-nil pre in
    rw base (nack_padding n last (length pre) j pre h (omega arith) (omega arith))
nack_items_lem n last zero pre (x ∷ xs) all h enough =
    nack_full n last (length pre) (pre ++ (x ∷ xs)) (omega arith)
nack_items_lem zero last (suc j) pre (x ∷ xs) all h enough = let no : ⊥ = omega arith in elim no [ ]
nack_items_lem (suc n) last (suc j) pre (x ∷ xs) all h enough = elim (Bool-cases (fresh last x)) [
  | inl new ↦
      let count = length-append pre (x ∷ []) in
      let next : length (pre ++ (x ∷ [])) ≡ length pre + 1 = omega arith in
      let rest =
        nack_items_lem n last j (pre ++ (x ∷ [])) xs
          (All-append (IsFresh last) pre (x ∷ []) all (new, tt)) (omega arith) (omega arith) in
      nack_fresh n last pre x xs (omega arith) new
      ∙ let moved : nack_items n last (length pre + 1) (pre ++ (x ∷ xs))
            ≡ (pre ++ (x ∷ give_up last j xs), asked last j xs) =
          rw
            (
              ← next,
              ← append_assoc pre (x ∷ []) xs,
              ← append_assoc pre (x ∷ []) (give_up last j xs),
            )
            rest in
        rw (moved, new)
  | inr old ↦
      nack_stale n last pre x xs (omega arith) all old
      ∙ nack_items_lem n last (suc j) pre xs all h (omega arith)
      ∙ rw old
]

-- send_NACK on a connection that misses something sends one NACK with the first five missing numbers
-- that are less than TR_VALID_RANGE behind the last one received, in order, with 0 for those that
-- there are not; the stale numbers that it passes, and no others, leave the list.
pub send_nack_lem :
    (c : StrConn)
    → 0 < length c.missing_list
    → send_nack c ≡ (
      record c { missing_list = give_up c.last_recv_seqno str_nack_mlist_len c.missing_list },
      StrEvent.nack c.tid c.addr c.last_recv_seqno
            (asked c.last_recv_seqno str_nack_mlist_len c.missing_list)
          ∷ [],
    )
unfolding send_nack u16list_is_empty
send_nack_lem c h =
    let some_missing : (length c.missing_list == 0) ≡ false = ground arith in
    let items =
      nack_items_lem (nack_rounds c.missing_list) c.last_recv_seqno str_nack_mlist_len []
        c.missing_list tt refl (omega arith) in
    rw (some_missing, items)
