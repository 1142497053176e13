-- ===== src/Transport/TidList.antt =====
-- master/transport/tidlist.c: the transactions of the clients, the latest first, and the numbers that
-- they get. `num_tids` is the list's length; the file that keeps myTID is left out.
pub mod Assign
pub mod Distinct
use tenet_t.Timeval.{Timeval}
use tenet_t.Prelude.{
  ℕ, zero, suc, ◌+◌, ◌-◌, ◌*◌, ◌/◌, ◌%◌, ◌^◌, ◌≤◌, ◌<◌, min, Ordering, ◌≡◌, refl, sym, ap, ap₂, ◌∙◌,
  ◌≢◌, ◌↔◌, ◌⊎◌, inl, inr, Bool, true, false, not, ◌&&◌, ◌||◌, Option, none, some, List, [], ◌∷◌,
  ◌++◌, map, append-nil, append_assoc, arith, ltb, leb, ◌==◌, if◌then◌else◌, ltb→lt, lt→ltb, leb→le,
  ==_iff, Bool-cases, Option-cases, length, get_elem?, set, length-append, length-set, get_or, take,
  drop, replicate, take-append-drop, length-take, length-drop, length-replicate, length-map,
  take_all, u16_mod, u8_mod, Fault, Run, ok, fault, ◌>>=◌, All, All-append, All-set, All-take,
  All-get_or, All-replicate, All-mono, All-map, take-set_below, take-set_next, get_or-take,
  get_or-set_self, get_or-set_ne, take-set_above, set_outside, take-take, Run-cases,
}

-- tid_list.
pub record TidEntry : Type 0 where
  pub tid : ℕ
  pub addr : ℕ
  pub type : ℕ
  pub fd : ℕ
  pub timestamp : Timeval

-- myTID and tids.
pub record Tids : Type 0 where
  pub my_tid : ℕ
  pub tids : List TidEntry

abbrev pub all_tid : ℕ
all_tid = 0xffff

abbrev pub max_tid : ℕ
max_tid = 0xc350

abbrev pub min_tid : ℕ
min_tid = 1

unfoldable pub tidlist_find_tid : List TidEntry → ℕ → Option TidEntry
tidlist_find_tid [] tid = none
tidlist_find_tid (t ∷ ts) tid = if t.tid == tid then some t else tidlist_find_tid ts tid

abbrev pub is_none : Option TidEntry → Bool
is_none none = true
is_none (some t) = false

-- The test that ends the loop of assign_new_tid.
abbrev pub is_usable : List TidEntry → ℕ → Bool
is_usable ts tid =
    not (tid == 0) && (leb min_tid tid && (leb tid max_tid && is_none (tidlist_find_tid ts tid)))

-- The loop: the number assigned, and myTID, which is a uint16_t.
unfoldable pub assign_from : ℕ → List TidEntry → ℕ → ℕ → Run (ℕ × ℕ)
assign_from zero ts tid my = fault Fault.hang
assign_from (suc n) ts tid my =
    let next = if ltb max_tid my then min_tid else my in
    let rest = assign_from n ts next ((my + 1) % u16_mod) in
    if is_usable ts tid then ok (tid, my) else rest

-- The circle of a uint16_t and two rounds more.
abbrev pub assign_rounds : ℕ
assign_rounds = u16_mod + 2

unfoldable pub assign_new_tid : ℕ → Tids → Run (ℕ × Tids)
unfolding assign_from
assign_new_tid tid0 s = assign_from assign_rounds s.tids tid0 s.my_tid >>= λ r.
    let after = r.0 + 1 in
    ok (r.0, record s { my_tid = if ltb max_tid after then min_tid else after })

-- The entry, which is the one found where there is one.
unfoldable pub tidlist_add_tid : Timeval → ℕ → ℕ → ℕ → ℕ → Tids → TidEntry × Tids
tidlist_add_tid now tid addr type fd s =
    let new : TidEntry = record { tid = tid; addr = addr; type = type; fd = fd; timestamp = now } in
    elim (tidlist_find_tid s.tids tid) [
      | some t ↦ (t, s)
      | none ↦ (new, record s { tids = new ∷ s.tids })
    ]

unfoldable pub remove_from : List TidEntry → ℕ → List TidEntry
remove_from [] tid = []
remove_from (t ∷ ts) tid = if t.tid == tid then ts else t ∷ remove_from ts tid

unfoldable pub tidlist_remove_tid : ℕ → Tids → Tids
unfolding remove_from
tidlist_remove_tid tid s = record s { tids = remove_from s.tids tid }

-- `none` is the result -1.
unfoldable pub find_client_fd : ℕ → Tids → Option ℕ
unfolding tidlist_find_tid
find_client_fd tid s = elim (tidlist_find_tid s.tids tid) [ none ↦ none | some t ↦ some t.fd ]
