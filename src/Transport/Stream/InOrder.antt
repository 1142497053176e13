-- ===== src/Transport/Stream/InOrder.antt =====
-- Whole runs of receive_str_msg of master/transport/streamtransport.c: what one connection has delivered
-- after any arrivals.
use tenet_t.Prelude.{
  ℕ, zero, suc, ◌+◌, ◌≤◌, ◌<◌, ◌≡◌, refl, sym, ap, ap₂, ◌∙◌, inl, inr, true, false, ◌||◌, List, [],
  ◌∷◌, ◌++◌, map, arith, ltb, ◌==◌, Bool-cases, All, All-mono,
}
use tenet_t.Transport.Seqno.{tr_max_seqno}
use tenet_t.Transport.Seqno.Order.{at_position}
use tenet_t.Transport.Stream.{StrConn, new_connection}
use tenet_t.Transport.Stream.Positions.{
  AscendingFrom, has, has_below, release, release-AscendingFrom, release-All, has-release,
  positions, admit, admit-AscendingFrom, admit-All, has-admit,
}
use tenet_t.Transport.Stream.Receive.{Drained, take_packet, receive_str_msg}
use tenet_t.Transport.Stream.Reorder.{half_range, waiting, released, take_packet-waiting}

-- `n` is the first position, from 1 on, that is not among those that have arrived.
abbrev pub IsFirstMissing : ℕ → List ℕ → Type 0
IsFirstMissing n ps = (0 < n) × (((x : ℕ) → 0 < x → x < n → has x ps ≡ true) × (has n ps ≡ false))

-- A new connection for a stream that starts with `base`, where the packet at each position has arrived
-- once or more in the order given, the latest first, and what has been delivered. Each was close to
-- the first position missing then.
pub data Received (base : ℕ) (payload : ℕ → List ℕ)
    : StrConn → List ℕ → List (List ℕ) → Type 0 where
  opened : (tid addr : ℕ) → Received base payload (new_connection tid addr base) [] []
  arrived :
      (c : StrConn) (ps : List ℕ) (out : List (List ℕ)) (p n : ℕ)
      → Received base payload c ps out
      → IsFirstMissing n ps
      → (p < n + half_range) × (n ≤ p + half_range)
      → Received base payload
          (receive_str_msg (at_position base p) (payload p) c).0
          (p ∷ ps)
          (out ++ (receive_str_msg (at_position base p) (payload p) c).1)

positions_append : (n m k : ℕ) → positions n (m + k) ≡ positions n m ++ positions (n + m) k
positions_append n zero k =
    let still : n ≡ n + 0 = omega arith in
    let none : 0 + k ≡ k = omega arith in ap₂ positions still none
positions_append n (suc m) k =
    let next : n + suc m ≡ n + 1 + m = omega arith in
    let more : suc m + k ≡ suc (m + k) = omega arith in
    rw (next, more) (ap (λ (l : List ℕ). n ∷ l) (positions_append (n + 1) m k))

map-append : {A B : Type 0} (f : A → B) (xs ys : List A) → map f (xs ++ ys) ≡ map f xs ++ map f ys
map-append f [] ys = refl
map-append f (x ∷ xs) ys = ap (λ l. f x ∷ l) (map-append f xs ys)

first_missing_unique : (n m : ℕ) (ps : List ℕ) → IsFirstMissing n ps → IsFirstMissing m ps → n ≡ m
first_missing_unique n m ps hn hm = elim (Bool-cases (ltb n m)) [
  | inl lt ↦ let there = hm.1.0 n hn.0 (ground arith) in ground arith
  | inr ge ↦ elim (Bool-cases (ltb m n)) [
    | inl lt ↦ let there = hn.1.0 m hm.0 (ground arith) in ground arith
    | inr le ↦ ground arith
  ]
]

module _ (base : ℕ) (payload : ℕ → List ℕ) (base_pos : 0 < base) where
  -- After `m` deliveries, with the positions that wait.
  pub record IsBuffer (c : StrConn) (ps : List ℕ) (out : List (List ℕ)) : Type 0 where
    pub m : ℕ
    pub w : List ℕ
    pub plist : c.plist ≡ map (waiting base payload base_pos) w
    pub next : c.next_expected_seqno ≡ at_position base (m + 1)
    pub ascending : AscendingFrom (m + 1 + 1) w
    pub below : All (λ (e : ℕ). e < m + 1 + half_range) w
    pub known : (x : ℕ) → 0 < x → has x ps ≡ (ltb x (m + 1) || has x w)
    pub delivered : out ≡ map payload (positions 1 m)

  IsBuffer-first :
      (c : StrConn) (ps : List ℕ) (out : List (List ℕ)) (b : IsBuffer c ps out)
      → IsFirstMissing (b.m + 1) ps
  IsBuffer-first c ps out b =
      let none = has_below (b.m + 1) (b.m + 1 + 1) b.w (omega arith) b.ascending in
      (
        omega arith,
        (λ x h lt. b.known x h ∙ ground arith, b.known (b.m + 1) (omega arith) ∙ ground arith),
      )

  IsBuffer-new :
      (tid addr : ℕ) → base < tr_max_seqno → IsBuffer (new_connection tid addr base) [] []
  unfolding new_connection at_position
  IsBuffer-new tid addr h = record {
    m = 0;
    w = [];
    plist = refl;
    next = ground arith;
    ascending = tt;
    below = tt;
    known = λ x hx. ground arith;
    delivered = refl;
  }

  IsBuffer-receive :
      (c : StrConn) (ps : List ℕ) (out : List (List ℕ)) (p : ℕ) (b : IsBuffer c ps out)
      → (p < b.m + 1 + half_range) × (b.m + 1 ≤ p + half_range)
      → IsBuffer
          (receive_str_msg (at_position base p) (payload p) c).0
          (p ∷ ps)
          (out ++ (receive_str_msg (at_position base p) (payload p) c).1)
  unfolding receive_str_msg
  IsBuffer-receive c ps out p b close =
      let n = b.m + 1 in
      let a = admit p n b.w in
      let r = release n a in
      let taken : take_packet (at_position base p) (payload p) c.plist c.next_expected_seqno
          ≡ released base payload base_pos n a =
        rw (b.plist, b.next)
          (take_packet-waiting base payload base_pos p n b.w b.ascending b.below close) in
      let asc = admit-AscendingFrom p n b.w b.ascending in
      let total : b.m + r.0 + 1 ≡ n + r.0 = omega arith in
      let first : 1 + b.m ≡ n = omega arith in
      record {
        m = b.m + r.0;
        w = r.1;
        plist = ap (λ (d : Drained). d.plist) taken;
        next = ap (λ (d : Drained). d.next) taken ∙ ap (at_position base) (sym total);
        ascending = rw total (release-AscendingFrom n a asc);
        below =
            All-mono (λ (e : ℕ). e < n + half_range) (λ (e : ℕ). e < b.m + r.0 + 1 + half_range)
              (λ e h. omega arith) r.1
              (release-All (n + half_range) n a
                (admit-All (n + half_range) p n b.w close.0 b.below));
        known = λ x hx.
            let before = b.known x hx in
            let head : has x (p ∷ ps) ≡ (p == x || (ltb x n || has x b.w)) = ground arith in
            head
            ∙ sym (has-admit x p n b.w)
            ∙ sym (has-release x n a asc)
            ∙ ap (λ (i : ℕ). ltb x i || has x r.1) (sym total);
        delivered =
            ap₂ (λ (xs ys : List (List ℕ)). xs ++ ys) b.delivered
              (ap (λ (d : Drained). d.out) taken)
            ∙ sym (map-append payload (positions 1 b.m) (positions n r.0))
            ∙ ap (map payload) (
                ap (λ (i : ℕ). positions 1 b.m ++ positions i r.0) (sym first)
                ∙ sym (positions_append 1 b.m r.0));
      }

  Received-IsBuffer :
      (c : StrConn) (ps : List ℕ) (out : List (List ℕ))
      → base < tr_max_seqno
      → Received base payload c ps out
      → IsBuffer c ps out
  Received-IsBuffer c ps out h (Received.opened tid addr) = IsBuffer-new tid addr h
  Received-IsBuffer c ps out h (Received.arrived c0 ps0 out0 p n r first close) =
      let b = Received-IsBuffer c0 ps0 out0 h r in
      let same = first_missing_unique n (b.m + 1) ps0 first (IsBuffer-first c0 ps0 out0 b) in
      IsBuffer-receive c0 ps0 out0 p b (ground arith)

-- A stream that starts with a sequence number below TR_MAX_SEQNO delivers the packets in order and
-- once: as soon as the first `m` have arrived and the next has not, in whatever order and however
-- often, exactly the first `m` have been delivered. Each packet must have been at most 100 positions
-- before the first one missing and less than 100 after it.
pub receive_str_msg-in_order :
    (base : ℕ) (payload : ℕ → List ℕ) (c : StrConn) (ps : List ℕ) (out : List (List ℕ)) (m : ℕ)
    → 0 < base
    → base < tr_max_seqno
    → Received base payload c ps out
    → IsFirstMissing (m + 1) ps
    → out ≡ map payload (positions 1 m)
receive_str_msg-in_order base payload c ps out m pos h r first =
    let b = Received-IsBuffer base payload pos c ps out h r in
    let same =
      first_missing_unique (m + 1) (b.m + 1) ps first
        (IsBuffer-first base payload pos c ps out b) in
    let count : b.m ≡ m = ground arith in
    b.delivered ∙ ap (λ (k : ℕ). map payload (positions 1 k)) count

-- In a stream that starts with a sequence number below TR_MAX_SEQNO, whose packets each arrived at most
-- 100 positions before the first one missing then and less than 100 after it, there is always a first
-- position missing, and nextExpectedSeqNo is its sequence number.
pub receive_str_msg-IsFirstMissing :
    (base : ℕ) (payload : ℕ → List ℕ) (c : StrConn) (ps : List ℕ) (out : List (List ℕ))
    → 0 < base
    → base < tr_max_seqno
    → Received base payload c ps out
    → (m : ℕ) × (IsFirstMissing (m + 1) ps × (c.next_expected_seqno ≡ at_position base (m + 1)))
receive_str_msg-IsFirstMissing base payload c ps out pos h r =
    let b = Received-IsBuffer base payload pos c ps out h r in
    (b.m, (IsBuffer-first base payload pos c ps out b, b.next))
