-- ===== src/Transport/Stream/Positions.antt =====
-- A buffer of waiting positions, ascending: what receive_str_msg of
-- master/transport/streamtransport.c does to it, without sequence numbers.
use tenet_t.Prelude.{
  ℕ, zero, suc, ◌+◌, ◌≤◌, ◌<◌, ◌≡◌, refl, ◌∙◌, inl, inr, Bool, true, false, ◌||◌, List, [], ◌∷◌,
  arith, ltb, ◌==◌, if◌then◌else◌, Bool-cases, All,
}

-- The positions that wait, ascending, from `n` on.
abbrev pub AscendingFrom : ℕ → List ℕ → Type 0
AscendingFrom n [] = Unit
AscendingFrom n (e ∷ es) = (n ≤ e) × AscendingFrom (e + 1) es

abbrev pub has : ℕ → List ℕ → Bool
has x [] = false
has x (e ∷ es) = if e == x then true else has x es

abbrev pub insert : ℕ → List ℕ → List ℕ
insert p [] = p ∷ []
insert p (e ∷ es) = let rest = insert p es in if ltb p e then p ∷ e ∷ es else e ∷ rest

-- How many of the waiting positions follow on from `n`, and the others.
abbrev pub release : ℕ → List ℕ → ℕ × List ℕ
release n [] = (0, [])
release n (e ∷ es) =
    let (k, left) = release (n + 1) es in if e == n then (suc k, left) else (0, e ∷ es)

-- The buffer with position `p`, unless it is past or waits already.
abbrev pub admit : ℕ → ℕ → List ℕ → List ℕ
admit p n w = if ltb p n || has p w then w else insert p w

-- `k` positions from `n` on.
abbrev pub positions : ℕ → ℕ → List ℕ
positions n zero = []
positions n (suc k) = n ∷ positions (n + 1) k

pub release_here :
    (e n : ℕ) (es : List ℕ)
    → (e == n) ≡ true
    → release n (e ∷ es) ≡ (suc (release (n + 1) es).0, (release (n + 1) es).1)
release_here e n es h = rw h

pub release_wait : (e n : ℕ) (es : List ℕ) → (e == n) ≡ false → release n (e ∷ es) ≡ (0, e ∷ es)
release_wait e n es h = rw h

pub AscendingFrom-weaken : (m n : ℕ) (w : List ℕ) → m ≤ n → AscendingFrom n w → AscendingFrom m w
AscendingFrom-weaken m n [] h asc = asc
AscendingFrom-weaken m n (e ∷ es) h asc = (omega arith, asc.1)

pub has_below : (x n : ℕ) (w : List ℕ) → x < n → AscendingFrom n w → has x w ≡ false
has_below x n [] h asc = refl
has_below x n (e ∷ es) h asc = let rest = has_below x (e + 1) es (omega arith) asc.1 in ground arith

insert_past : (p e : ℕ) (es : List ℕ) → ltb p e ≡ false → insert p (e ∷ es) ≡ e ∷ insert p es
insert_past p e es h = rw h

pub has-insert : (x p : ℕ) (w : List ℕ) → has x (insert p w) ≡ (p == x || has x w)
has-insert x p [] = ground arith
has-insert x p (e ∷ es) =
    let rest = has-insert x p es in
    elim (Bool-cases (ltb p e)) [
      | inl lt ↦ ground arith
      | inr ge ↦ rw (insert_past p e es ge) (ground arith)
    ]

pub insert-AscendingFrom :
    (p n : ℕ) (w : List ℕ)
    → n ≤ p
    → has p w ≡ false
    → AscendingFrom n w
    → AscendingFrom n (insert p w)
insert-AscendingFrom p n [] h new asc = (h, tt)
insert-AscendingFrom p n (e ∷ es) h new asc = elim (Bool-cases (ltb p e)) [
  | inl lt ↦ rw lt (h, (ground arith, asc.1))
  | inr ge ↦
      let others : (e == p ≡ false) × (has p es ≡ false) = (ground arith, ground arith) in
      rw (insert_past p e es ge)
        (asc.0, insert-AscendingFrom p (e + 1) es (ground arith) others.1 asc.1)
]

pub insert_first : (p : ℕ) (w : List ℕ) → AscendingFrom (p + 1) w → insert p w ≡ p ∷ w
insert_first p [] asc = refl
insert_first p (e ∷ es) asc = let lt : ltb p e ≡ true = ground arith in rw lt

pub insert-All :
    (top p : ℕ) (w : List ℕ)
    → p < top
    → All (λ (e : ℕ). e < top) w
    → All (λ (e : ℕ). e < top) (insert p w)
insert-All top p [] h below = (h, tt)
insert-All top p (e ∷ es) h below = elim (Bool-cases (ltb p e)) [
  | inl lt ↦ rw lt (h, below)
  | inr ge ↦ rw (insert_past p e es ge) (below.0, insert-All top p es h below.1)
]

pub release-AscendingFrom :
    (n : ℕ) (w : List ℕ)
    → AscendingFrom n w
    → AscendingFrom (n + (release n w).0 + 1) (release n w).1
release-AscendingFrom n [] asc = asc
release-AscendingFrom n (e ∷ es) asc = elim (Bool-cases (e == n)) [
  | inl same ↦
      let e≡n : e ≡ n = ground arith in
      let after : AscendingFrom (n + 1) es = rw (← e≡n) asc.1 in
      rw (release_here e n es same) (
        AscendingFrom-weaken (n + suc (release (n + 1) es).0 + 1)
          (n + 1 + (release (n + 1) es).0 + 1) (release (n + 1) es).1 (omega arith)
          (release-AscendingFrom (n + 1) es after))
  | inr other ↦ rw (release_wait e n es other) (ground arith, asc.1)
]

pub release-All :
    (top n : ℕ) (w : List ℕ) → All (λ (e : ℕ). e < top) w → All (λ (e : ℕ). e < top) (release n w).1
release-All top n [] below = below
release-All top n (e ∷ es) below = elim (Bool-cases (e == n)) [
  | inl same ↦ rw (release_here e n es same) (release-All top (n + 1) es below.1)
  | inr other ↦ rw (release_wait e n es other) below
]

-- What was before `n` or waits is before the new `n` or waits.
pub has-release :
    (x n : ℕ) (w : List ℕ)
    → AscendingFrom n w
    → (ltb x (n + (release n w).0) || has x (release n w).1) ≡ (ltb x n || has x w)
has-release x n [] asc = ground arith
has-release x n (e ∷ es) asc = elim (Bool-cases (e == n)) [
  | inl same ↦
      let e≡n : e ≡ n = ground arith in
      let after : AscendingFrom (n + 1) es = rw (← e≡n) asc.1 in
      let rest = has-release x (n + 1) es after in
      let next : n + suc (release (n + 1) es).0 ≡ n + 1 + (release (n + 1) es).0 = omega arith in
      let head : (ltb x (n + 1) || has x es) ≡ (ltb x n || has x (e ∷ es)) = ground arith in
      rw (release_here e n es same, next) (rest ∙ head)
  | inr other ↦ rw (release_wait e n es other) (ground arith)
]

-- What admit keeps.
pub admit-AscendingFrom :
    (p n : ℕ) (w : List ℕ) → AscendingFrom (n + 1) w → AscendingFrom n (admit p n w)
admit-AscendingFrom p n w asc =
    let from_n = AscendingFrom-weaken n (n + 1) w (omega arith) asc in
    elim (Bool-cases (ltb p n || has p w)) [
      | inl out ↦ rw out from_n
      | inr new ↦
          let parts : (n ≤ p) × (has p w ≡ false) = (ground arith, ground arith) in
          rw new (insert-AscendingFrom p n w parts.0 parts.1 from_n)
    ]

pub admit-All :
    (top p n : ℕ) (w : List ℕ)
    → p < top
    → All (λ (e : ℕ). e < top) w
    → All (λ (e : ℕ). e < top) (admit p n w)
admit-All top p n w h below = elim (Bool-cases (ltb p n || has p w)) [
  | inl out ↦ rw out below
  | inr new ↦ rw new (insert-All top p w h below)
]

pub has-admit :
    (x p n : ℕ) (w : List ℕ) → (ltb x n || has x (admit p n w)) ≡ (p == x || (ltb x n || has x w))
has-admit x p n w = elim (Bool-cases (ltb p n || has p w)) [
  | inl out ↦ elim (Bool-cases (p == x)) [
    | inl same ↦
        let p≡x : p ≡ x = ground arith in
        let there : (ltb x n || has x w) ≡ true = rw (← p≡x) out in rw (out, there, same)
    | inr other ↦ rw (out, other)
  ]
  | inr new ↦ let inserted = has-insert x p w in rw new (ground arith)
]

-- The buffer's own number comes first.
pub admit_first : (n : ℕ) (w : List ℕ) → AscendingFrom (n + 1) w → admit n n w ≡ n ∷ w
admit_first n w asc =
    let new : (ltb n n || has n w) ≡ false =
      let none = has_below n (n + 1) w (omega arith) asc in ground arith in
    rw new (insert_first n w asc)
