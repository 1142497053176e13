-- ===== src/Transport/Stream/Reorder.antt =====
-- receive_str_msg of master/transport/streamtransport.c on the positions of a stream: the buffer that
-- puts packets back into their order, without sequence numbers.
use tenet_t.Prelude.{
  ℕ, suc, ◌+◌, ◌≤◌, ◌<◌, Ordering, ◌≡◌, refl, sym, ap, ap₂, ◌∙◌, inl, inr, Bool, true, false, List,
  [], ◌∷◌, map, arith, ltb, ◌==◌, if◌then◌else◌, Bool-cases, All,
}
use tenet_t.Transport.Seqno.{tr_valid_range, tr_seqno_next, tr_seqno_add, tr_seqno_cmp}
use tenet_t.Transport.Seqno.Order.{
  Ordering-cases, at_position, at_position_next, Near, tr_seqno_cmp-at_position,
  tr_seqno_add-at_position,
}
use tenet_t.Transport.Stream.Positions.{
  AscendingFrom, AscendingFrom-weaken, has, insert, release, release_here, release_wait, positions,
  admit, admit_first, admit-AscendingFrom, admit-All,
}
use tenet_t.Transport.PacketList.{SpEntry, sp_list_find, goes_before, sp_place, sp_list_insert}
use tenet_t.Transport.Stream.Receive.{Drained, deliver_first, drain, take_packet}

drain_in_order :
    (seqno next : ℕ) (e : SpEntry) (es : List SpEntry)
    → tr_seqno_cmp e.value next ≡ Ordering.eq
    → drain seqno (e ∷ es) next ≡ deliver_first e.packet (drain seqno es (tr_seqno_next next))
unfolding drain
drain_in_order seqno next e es h = rw (h, drain)

drain_before :
    (seqno next : ℕ) (e : SpEntry) (es : List SpEntry)
    → tr_seqno_cmp e.value next ≡ Ordering.gt
    → tr_seqno_cmp seqno e.value ≡ Ordering.lt
    → drain seqno (e ∷ es) next ≡ record { plist = e ∷ es; next = next; out = [] }
unfolding drain
drain_before seqno next e es h g = rw (h, g, drain)

drain_at :
    (seqno next : ℕ) (e : SpEntry) (es : List SpEntry)
    → tr_seqno_cmp e.value next ≡ Ordering.gt
    → tr_seqno_cmp seqno e.value ≡ Ordering.eq
    → drain seqno (e ∷ es) next ≡ record { plist = e ∷ es; next = next; out = [] }
unfolding drain
drain_at seqno next e es h g = rw (h, g, drain)

drain_window :
    (seqno next : ℕ) (e : SpEntry) (es : List SpEntry)
    → tr_seqno_cmp e.value next ≡ Ordering.gt
    → tr_seqno_cmp seqno (tr_seqno_add e.value tr_valid_range) ≡ Ordering.lt
    → drain seqno (e ∷ es) next ≡ record { plist = e ∷ es; next = next; out = [] }
unfolding drain
drain_window seqno next e es h g = elim (Ordering-cases (tr_seqno_cmp seqno e.value)) [
  | inl lt ↦ drain_before seqno next e es h lt
  | inr (inl eq) ↦ drain_at seqno next e es h eq
  | inr (inr gt) ↦ rw (h, gt, g, drain)
]

-- Packets this close to the next one expected are within TR_VALID_RANGE of each other.
abbrev pub half_range : ℕ
half_range = 100

module _ (base : ℕ) (payload : ℕ → List ℕ) (base_pos : 0 < base) where
  -- The packet at a position, as it waits.
  abbrev pub waiting : ℕ → SpEntry
  waiting p = record { value = at_position base p; packet = payload p }

  cmp_lt :
      (p q : ℕ)
      → Near p q
      → p < q
      → tr_seqno_cmp (at_position base p) (at_position base q) ≡ Ordering.lt
  cmp_lt p q near h = tr_seqno_cmp-at_position base p q base_pos near ∙ ground arith

  cmp_gt :
      (p q : ℕ)
      → Near p q
      → q < p
      → tr_seqno_cmp (at_position base p) (at_position base q) ≡ Ordering.gt
  cmp_gt p q near h = tr_seqno_cmp-at_position base p q base_pos near ∙ ground arith

  cmp_eq :
      (p q : ℕ)
      → (p == q) ≡ true
      → tr_seqno_cmp (at_position base p) (at_position base q) ≡ Ordering.eq
  cmp_eq p q h = tr_seqno_cmp-at_position base p q base_pos (ground arith) ∙ ground arith

  goes_before-at_position :
      (p q : ℕ) → Near p q → goes_before (at_position base p) (at_position base q) ≡ ltb p q
  unfolding goes_before at_position
  goes_before-at_position p q near = ground arith

  same-at_position : (p q : ℕ) → Near p q → (at_position base q == at_position base p) ≡ (q == p)
  unfolding at_position
  same-at_position p q near = ground arith

  sp_list_find-waiting :
      (p : ℕ) (w : List ℕ)
      → All (Near p) w
      → sp_list_find (map waiting w) (at_position base p) ≡ has p w
  unfolding sp_list_find
  sp_list_find-waiting p [] near = refl
  sp_list_find-waiting p (e ∷ es) near =
      ap₂ (λ (b r : Bool). if b then true else r) (same-at_position p e near.0)
        (sp_list_find-waiting p es near.1)

  sp_place-waiting :
      (p : ℕ) (w : List ℕ)
      → All (Near p) w
      → sp_place (waiting p) (map waiting w) ≡ map waiting (insert p w)
  unfolding sp_place
  sp_place-waiting p [] near = refl
  sp_place-waiting p (e ∷ es) near = elim (Bool-cases (ltb p e)) [
    | inl lt ↦ rw (goes_before-at_position p e near.0, lt)
    | inr ge ↦ rw (goes_before-at_position p e near.0, ge, sp_place-waiting p es near.1)
  ]

  -- The waiting positions that follow on from `n`, delivered.
  abbrev pub released : ℕ → List ℕ → Drained
  released n w =
      let r = release n w in
      record {
        plist = map waiting r.1;
        next = at_position base (n + r.0);
        out = map payload (positions n r.0);
      }

  released_here :
      (e n : ℕ) (es : List ℕ)
      → (e == n) ≡ true
      → deliver_first (payload e) (released (n + 1) es) ≡ released n (e ∷ es)
  released_here e n es h =
      let same : e ≡ n = ground arith in
      let next : n + 1 + (release (n + 1) es).0 ≡ n + suc (release (n + 1) es).0 = omega arith in
      rw (release_here e n es h, same, next)

  released_wait :
      (e n : ℕ) (es : List ℕ)
      → (e == n) ≡ false
      → record { plist = waiting e ∷ map waiting es; next = at_position base n; out = [] }
        ≡ released n (e ∷ es)
  released_wait e n es h = let next : n ≡ n + 0 = omega arith in rw (release_wait e n es h, ← next)

  -- What the loop of receive_str_msg does after a packet `p`, on positions.
  drain-waiting :
      (p n top : ℕ) (w : List ℕ)
      → AscendingFrom n w
      → All (λ (e : ℕ). e < top) w
      → (top ≤ n + tr_valid_range) × ((top ≤ p + tr_valid_range) × (p < n + tr_valid_range))
      → drain (at_position base p) (map waiting w) (at_position base n) ≡ released n w
  unfolding drain
  drain-waiting p n top [] asc below window =
      let still : n ≡ n + 0 = omega arith in
      ap (λ (m : ℕ). record { plist = []; next = at_position base m; out = [] }) still
  drain-waiting p n top (e ∷ es) asc below window = elim (Bool-cases (e == n)) [
    | inl same ↦
        let e≡n : e ≡ n = ground arith in
        let after : AscendingFrom (n + 1) es = rw (← e≡n) asc.1 in
        let rest = drain-waiting p (n + 1) top es after below.1 (ground arith) in
        drain_in_order (at_position base p) (at_position base n) (waiting e) (map waiting es)
          (cmp_eq e n same)
        ∙ rw (at_position_next base n base_pos, rest) (released_here e n es same)
    | inr other ↦
        let ahead = cmp_gt e n (ground arith) (ground arith) in
        let stop = released_wait e n es other in
        elim (Bool-cases (ltb e p)) [
          | inl lt ↦
              let near : tr_seqno_cmp (at_position base p)
                    (tr_seqno_add (at_position base e) tr_valid_range)
                  ≡ Ordering.lt =
                rw (tr_seqno_add-at_position base e tr_valid_range base_pos (ground arith))
                  (cmp_lt p (e + tr_valid_range) (ground arith) (ground arith)) in
              drain_window (at_position base p) (at_position base n) (waiting e) (map waiting es)
                ahead near
              ∙ stop
          | inr ge ↦ elim (Bool-cases (p == e)) [
            | inl here ↦
                drain_at (at_position base p) (at_position base n) (waiting e) (map waiting es)
                  ahead (cmp_eq p e here)
                ∙ stop
            | inr later ↦
                drain_before (at_position base p) (at_position base n) (waiting e) (map waiting es)
                  ahead (cmp_lt p e (ground arith) (ground arith))
                ∙ stop
          ]
        ]
  ]

  AscendingFrom-Near :
      (p n m : ℕ) (w : List ℕ)
      → n ≤ m
      → AscendingFrom m w
      → All (λ (e : ℕ). e < n + half_range) w
      → (p < n + half_range) × (n ≤ p + half_range)
      → All (Near p) w
  AscendingFrom-Near p n m [] h asc below close = tt
  AscendingFrom-Near p n m (e ∷ es) h asc below close = (
    (omega arith, omega arith),
    AscendingFrom-Near p n (e + 1) es (omega arith) asc.1 below.1 close,
  )

  released_none :
      (n : ℕ) (w : List ℕ)
      → AscendingFrom (n + 1) w
      → released n w ≡ record { plist = map waiting w; next = at_position base n; out = [] }
  released_none n [] asc = let next : n + 0 ≡ n = omega arith in rw next
  released_none n (e ∷ es) asc = sym (released_wait e n es (ground arith))

  -- The list with a packet that is not past.
  sp_list_insert-waiting :
      (p n : ℕ) (w : List ℕ)
      → n ≤ p
      → All (Near p) w
      → sp_list_insert (map waiting w) (at_position base p) (payload p) ≡ map waiting (admit p n w)
  unfolding sp_list_insert
  sp_list_insert-waiting p n w h near =
      let ahead : ltb p n ≡ false = ground arith in
      let found = sp_list_find-waiting p w near in
      elim (Bool-cases (has p w)) [
        | inl there ↦ rw (found, ahead, there)
        | inr new ↦ rw (found, ahead, new) (sp_place-waiting p w near)
      ]

  -- receive_str_msg on positions: the buffer admits the packet and releases what follows on.
  pub take_packet-waiting :
      (p n : ℕ) (w : List ℕ)
      → AscendingFrom (n + 1) w
      → All (λ (e : ℕ). e < n + half_range) w
      → (p < n + half_range) × (n ≤ p + half_range)
      → take_packet (at_position base p) (payload p) (map waiting w) (at_position base n)
        ≡ released n (admit p n w)
  unfolding take_packet
  take_packet-waiting p n w asc below close =
      let near = AscendingFrom-Near p n (n + 1) w (omega arith) asc below close in
      let from_n = AscendingFrom-weaken n (n + 1) w (omega arith) asc in
      elim (Bool-cases (ltb p n)) [
        | inl past ↦
            rw (cmp_lt p n (ground arith) (ground arith), take_packet, past)
              (drain-waiting p n (n + half_range) w from_n below (ground arith))
        | inr ahead ↦ elim (Bool-cases (p == n)) [
          | inl here ↦
              let p≡n : p ≡ n = ground arith in
              let first : admit p n w ≡ n ∷ w = rw p≡n (admit_first n w asc) in
              rw
                (
                  cmp_eq p n here,
                  take_packet,
                  at_position_next base n base_pos,
                  first,
                  drain-waiting p (n + 1) (n + half_range) w asc below (ground arith),
                )
                (ap (λ (q : ℕ). deliver_first (payload q) (released (n + 1) w)) p≡n
                  ∙ released_here n n w (ground arith))
          | inr later ↦
              rw
                (
                  cmp_gt p n (ground arith) (ground arith),
                  take_packet,
                  sp_list_insert-waiting p n w (ground arith) near,
                )
                (drain-waiting p n (n + half_range) (admit p n w) (admit-AscendingFrom p n w asc)
                  (admit-All (n + half_range) p n w close.0 below) (ground arith))
        ]
      ]
