-- ===== src/Transport/Connection/Distinct.antt =====
-- Lists of connections with one connection for a transaction and address, as
-- master/transport/connectionlist.c keeps them.
use tenet_t.Prelude.{
  ℕ, ◌≡◌, refl, sym, ◌∙◌, inl, inr, true, false, none, some, List, [], ◌∷◌, arith, Bool-cases,
}
use mathlib.Core.Option.{some-injective, none-ne-some}
use tenet_t.Transport.Connection.{is_for, find_connection, replace_connection, remove_connection}

module _ {ℓ} {A : Type ℓ} (tid addr : A → ℕ) where
  abbrev pub IsDistinct : List A → Type ℓ
  IsDistinct [] = Unit
  IsDistinct (c ∷ cs) = (find_connection tid addr cs (tid c) (addr c) ≡ none) × IsDistinct cs

  is_for_iff : (t a : ℕ) (d : A) → is_for tid addr t a d ≡ true → (tid d ≡ t) × (addr d ≡ a)
  is_for_iff t a d h = (ground arith, ground arith)

  pub is_for_self : (d : A) → is_for tid addr (tid d) (addr d) d ≡ true
  is_for_self d = ground arith

  pub find_here :
      (d : A) (ds : List A) (t a : ℕ)
      → is_for tid addr t a d ≡ true
      → find_connection tid addr (d ∷ ds) t a ≡ some d
  unfolding find_connection
  find_here d ds t a h = rw h

  pub find_past :
      (d : A) (ds : List A) (t a : ℕ)
      → is_for tid addr t a d ≡ false
      → find_connection tid addr (d ∷ ds) t a ≡ find_connection tid addr ds t a
  unfolding find_connection
  find_past d ds t a h = rw h

  pub find_tail :
      (d : A) (ds : List A) (t a : ℕ)
      → find_connection tid addr (d ∷ ds) t a ≡ none
      → (is_for tid addr t a d ≡ false) × (find_connection tid addr ds t a ≡ none)
  find_tail d ds t a h = elim (Bool-cases (is_for tid addr t a d)) [
    | inl here ↦ absurd (none-ne-some d (sym h ∙ find_here d ds t a here))
    | inr past ↦ (past, sym (find_past d ds t a past) ∙ h)
  ]

  pub find_connection_for :
      (cs : List A) (t a : ℕ) (c : A)
      → find_connection tid addr cs t a ≡ some c
      → (tid c ≡ t) × (addr c ≡ a)
  unfolding find_connection
  find_connection_for [] t a c h = absurd (none-ne-some c h)
  find_connection_for (d ∷ ds) t a c h = elim (Bool-cases (is_for tid addr t a d)) [
    | inl here ↦
        let same = some-injective d c (sym (find_here d ds t a here) ∙ h) in
        rw (← same) (is_for_iff t a d here)
    | inr past ↦ find_connection_for ds t a c (sym (find_past d ds t a past) ∙ h)
  ]

  replace_here :
      (d : A) (ds : List A) (n : A)
      → is_for tid addr (tid n) (addr n) d ≡ true
      → replace_connection tid addr (d ∷ ds) n ≡ n ∷ ds
  unfolding replace_connection
  replace_here d ds n h = rw h

  replace_past :
      (d : A) (ds : List A) (n : A)
      → is_for tid addr (tid n) (addr n) d ≡ false
      → replace_connection tid addr (d ∷ ds) n ≡ d ∷ replace_connection tid addr ds n
  unfolding replace_connection
  replace_past d ds n h = rw h

  pub find-replace_self :
      (cs : List A) (n c : A)
      → find_connection tid addr cs (tid n) (addr n) ≡ some c
      → find_connection tid addr (replace_connection tid addr cs n) (tid n) (addr n) ≡ some n
  unfolding find_connection
  find-replace_self [] n c h = absurd (none-ne-some c h)
  find-replace_self (d ∷ ds) n c h = elim (Bool-cases (is_for tid addr (tid n) (addr n) d)) [
    | inl here ↦ rw (replace_here d ds n here) (find_here n ds (tid n) (addr n) (is_for_self n))
    | inr past ↦ rw (replace_past d ds n past) (
        find_past d (replace_connection tid addr ds n) (tid n) (addr n) past
        ∙ find-replace_self ds n c (sym (find_past d ds (tid n) (addr n) past) ∙ h))
  ]

  find-replace_none :
      (cs : List A) (n : A) (t a : ℕ)
      → find_connection tid addr cs t a ≡ none
      → find_connection tid addr (replace_connection tid addr cs n) t a ≡ none
  unfolding replace_connection
  find-replace_none [] n t a h = h
  find-replace_none (d ∷ ds) n t a h =
      let parts = find_tail d ds t a h in
      elim (Bool-cases (is_for tid addr (tid n) (addr n) d)) [
        | inl here ↦
            let k = is_for_iff (tid n) (addr n) d here in
            let other : is_for tid addr t a n ≡ false = rw (← k.0, ← k.1) parts.0 in
            rw (replace_here d ds n here) (find_past n ds t a other ∙ parts.1)
        | inr past ↦ rw (replace_past d ds n past) (
            find_past d (replace_connection tid addr ds n) t a parts.0
            ∙ find-replace_none ds n t a parts.1)
      ]

  pub replace-IsDistinct :
      (cs : List A) (n : A) → IsDistinct cs → IsDistinct (replace_connection tid addr cs n)
  unfolding replace_connection
  replace-IsDistinct [] n h = h
  replace-IsDistinct (d ∷ ds) n h = elim (Bool-cases (is_for tid addr (tid n) (addr n) d)) [
    | inl here ↦
        let k = is_for_iff (tid n) (addr n) d here in
        rw (replace_here d ds n here) (rw (← k.0, ← k.1) h.0, h.1)
    | inr past ↦
        rw (replace_past d ds n past)
          (find-replace_none ds n (tid d) (addr d) h.0, replace-IsDistinct ds n h.1)
  ]

  remove_here :
      (d : A) (ds : List A) (t a : ℕ)
      → is_for tid addr t a d ≡ true
      → remove_connection tid addr (d ∷ ds) t a ≡ ds
  unfolding remove_connection
  remove_here d ds t a h = rw h

  remove_past :
      (d : A) (ds : List A) (t a : ℕ)
      → is_for tid addr t a d ≡ false
      → remove_connection tid addr (d ∷ ds) t a ≡ d ∷ remove_connection tid addr ds t a
  unfolding remove_connection
  remove_past d ds t a h = rw h

  find-remove_none :
      (cs : List A) (u b t a : ℕ)
      → find_connection tid addr cs t a ≡ none
      → find_connection tid addr (remove_connection tid addr cs u b) t a ≡ none
  unfolding remove_connection
  find-remove_none [] u b t a h = h
  find-remove_none (d ∷ ds) u b t a h =
      let parts = find_tail d ds t a h in
      elim (Bool-cases (is_for tid addr u b d)) [
        | inl here ↦ rw (remove_here d ds u b here) parts.1
        | inr past ↦ rw (remove_past d ds u b past) (
            find_past d (remove_connection tid addr ds u b) t a parts.0
            ∙ find-remove_none ds u b t a parts.1)
      ]

  pub remove-IsDistinct :
      (cs : List A) (t a : ℕ) → IsDistinct cs → IsDistinct (remove_connection tid addr cs t a)
  unfolding remove_connection
  remove-IsDistinct [] t a h = h
  remove-IsDistinct (d ∷ ds) t a h = elim (Bool-cases (is_for tid addr t a d)) [
    | inl here ↦ rw (remove_here d ds t a here) h.1
    | inr past ↦
        rw (remove_past d ds t a past)
          (find-remove_none ds t a (tid d) (addr d) h.0, remove-IsDistinct ds t a h.1)
  ]

  -- Where connections are distinct, what is removed is gone.
  pub find-remove_self :
      (cs : List A) (t a : ℕ)
      → IsDistinct cs
      → find_connection tid addr (remove_connection tid addr cs t a) t a ≡ none
  unfolding remove_connection find_connection
  find-remove_self [] t a h = refl
  find-remove_self (d ∷ ds) t a h = elim (Bool-cases (is_for tid addr t a d)) [
    | inl here ↦ let k = is_for_iff t a d here in rw (remove_here d ds t a here, ← k.0, ← k.1) h.0
    | inr past ↦
        rw (remove_past d ds t a past)
          (find_past d (remove_connection tid addr ds t a) t a past ∙ find-remove_self ds t a h.1)
  ]
