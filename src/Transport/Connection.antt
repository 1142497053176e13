-- ===== src/Transport/Connection.antt =====
-- master/transport/connectionlist.c: the connections of a transport, the latest first, found by
-- transaction and address. A pointer to a connection is the connection found; a write through it is
-- `replace_connection`. The rates of loss and arrival are only logged, and are left out.
pub mod Distinct
use tenet_t.Prelude.{
  ℕ, zero, suc, ◌+◌, ◌-◌, ◌*◌, ◌/◌, ◌%◌, ◌^◌, ◌≤◌, ◌<◌, min, Ordering, ◌≡◌, refl, sym, ap, ap₂, ◌∙◌,
  ◌≢◌, ◌↔◌, ◌⊎◌, inl, inr, Bool, true, false, not, ◌&&◌, ◌||◌, Option, none, some, List, [], ◌∷◌,
  ◌++◌, map, append-nil, append_assoc, arith, ltb, leb, ◌==◌, if◌then◌else◌, ltb→lt, lt→ltb, leb→le,
  ==_iff, Bool-cases, Option-cases, length, get_elem?, set, length-append, length-set, get_or, take,
  drop, replicate, take-append-drop, length-take, length-drop, length-replicate, length-map,
  take_all, u16_mod, u8_mod, Fault, Run, ok, fault, ◌>>=◌, All, All-append, All-set, All-take,
  All-get_or, All-replicate, All-mono, All-map, take-set_below, take-set_next, get_or-take,
  get_or-set_self, get_or-set_ne, take-set_above, set_outside, take-take, Run-cases,
}

-- The fields that a list of connections is searched by.
module _ {ℓ} {A : Type ℓ} (tid addr : A → ℕ) where
  abbrev pub is_for : ℕ → ℕ → A → Bool
  is_for t a c = tid c == t && addr c == a

  unfoldable pub find_connection : List A → ℕ → ℕ → Option A
  find_connection [] t a = none
  find_connection (c ∷ cs) t a = if is_for t a c then some c else find_connection cs t a

  unfoldable pub replace_connection : List A → A → List A
  replace_connection [] n = []
  replace_connection (c ∷ cs) n =
      if is_for (tid n) (addr n) c then n ∷ cs else c ∷ replace_connection cs n

  unfoldable pub remove_connection : List A → ℕ → ℕ → List A
  remove_connection [] t a = []
  remove_connection (c ∷ cs) t a = if is_for t a c then cs else c ∷ remove_connection cs t a
