-- ===== src/Transport/TidList/Assign.antt =====
-- assign_new_tid of master/transport/tidlist.c finds a number that no transaction has.
use tenet_t.Prelude.{
  ℕ, zero, suc, ◌+◌, ◌-◌, ◌%◌, ◌≤◌, ◌<◌, ◌≡◌, refl, sym, ap, ◌∙◌, inl, inr, true, false, Option,
  none, some, List, arith, ltb, leb, ◌==◌, if◌then◌else◌, Bool-cases, u16_mod, Run, ok, fault,
  ◌>>=◌,
}
use tenet_t.Transport.TidList.{
  TidEntry, Tids, max_tid, min_tid, tidlist_find_tid, is_none, is_usable, assign_from,
  assign_rounds, assign_new_tid,
}

-- How far myTID is from a number, going up and round.
abbrev away : ℕ → ℕ → ℕ
away f my = if leb my f then f - my else f + u16_mod - my

is_none_lem : (o : Option TidEntry) → is_none o ≡ true → o ≡ none
is_none_lem none h = refl
is_none_lem (some t) h = absurd (ground arith)

usable_parts :
    (ts : List TidEntry) (t : ℕ)
    → is_usable ts t ≡ true
    → ((min_tid ≤ t) × (t ≤ max_tid)) × (tidlist_find_tid ts t ≡ none)
usable_parts ts t h =
    let free : is_none (tidlist_find_tid ts t) ≡ true = ground arith in
    ((ground arith, ground arith), is_none_lem (tidlist_find_tid ts t) free)

usable_of :
    (ts : List TidEntry) (t : ℕ)
    → (min_tid ≤ t) × (t ≤ max_tid)
    → tidlist_find_tid ts t ≡ none
    → is_usable ts t ≡ true
usable_of ts t range free =
    let none_found : is_none (tidlist_find_tid ts t) ≡ true = rw free in ground arith

assign_usable :
    (n : ℕ) (ts : List TidEntry) (tid my : ℕ)
    → is_usable ts tid ≡ true
    → assign_from (suc n) ts tid my ≡ ok (tid, my)
unfolding assign_from
assign_usable n ts tid my h = rw (h, assign_from)

assign_next :
    (n : ℕ) (ts : List TidEntry) (tid my : ℕ)
    → is_usable ts tid ≡ false
    → assign_from (suc n) ts tid my
      ≡ assign_from n ts (if ltb max_tid my then min_tid else my) ((my + 1) % u16_mod)
unfolding assign_from
assign_next n ts tid my h = rw (h, assign_from)

assign_from_returns :
    (n : ℕ) (ts : List TidEntry) (tid my f : ℕ)
    → is_usable ts f ≡ true
    → my < u16_mod
    → away f my + 1 < n
    → (r : ℕ × ℕ) × ((assign_from n ts tid my ≡ ok r) × (is_usable ts r.0 ≡ true))
assign_from_returns zero ts tid my f free h enough = absurd (omega arith)
assign_from_returns (suc zero) ts tid my f free h enough = absurd (omega arith)
assign_from_returns (suc (suc n)) ts tid my f free h enough = elim (Bool-cases (is_usable ts tid)) [
  | inl usable ↦ ((tid, my), (assign_usable (suc n) ts tid my usable, usable))
  | inr taken ↦
      let next = if ltb max_tid my then min_tid else my in
      let step = assign_next (suc n) ts tid my taken in
      elim (Bool-cases (my == f)) [
        | inl here ↦
            let parts = usable_parts ts f free in
            let same : next ≡ f = ground arith in
            (
              (f, (my + 1) % u16_mod),
              (step ∙ rw same (assign_usable n ts f ((my + 1) % u16_mod) free), free),
            )
        | inr before ↦
            let parts = (usable_parts ts f free).0 in
            let (r, (rest, good)) =
              assign_from_returns (suc n) ts next ((my + 1) % u16_mod) f free (omega arith)
                (ground arith) in
            (r, (step ∙ rest, good))
      ]
]

after_range :
    (t : ℕ)
    → let after = if ltb max_tid (t + 1) then min_tid else t + 1 in
      (min_tid ≤ after) × (after ≤ max_tid)
after_range t = (ground arith, ground arith)

-- As long as there is a number from MIN_TID to MAX_TID that no transaction has, assign_new_tid
-- returns such a number, whatever number is asked for and wherever myTID stands, and leaves the list
-- as it is and myTID in that range.
pub assign_new_tid_lem :
    (tid f : ℕ) (s : Tids)
    → (min_tid ≤ f) × (f ≤ max_tid)
    → tidlist_find_tid s.tids f ≡ none
    → s.my_tid < u16_mod
    → (t : ℕ) × ((s' : Tids) × ((assign_new_tid tid s ≡ ok (t, s'))
          × (((min_tid ≤ t) × (t ≤ max_tid))
              × ((tidlist_find_tid s.tids t ≡ none)
                  × ((s'.tids ≡ s.tids) × ((min_tid ≤ s'.my_tid) × (s'.my_tid ≤ max_tid)))))))
unfolding assign_new_tid
assign_new_tid_lem tid f s range free hm =
    let usable : is_usable s.tids f ≡ true = usable_of s.tids f range free in
    let near : away f s.my_tid + 1 < assign_rounds = ground arith in
    let ((t, my), (found, good)) =
      assign_from_returns assign_rounds s.tids tid s.my_tid f usable hm near in
    let parts = usable_parts s.tids t good in
    let after = if ltb max_tid (t + 1) then min_tid else t + 1 in
    let back : (min_tid ≤ after) × (after ≤ max_tid) = after_range t in
    (t, (record s { my_tid = after }, (rw found, (parts.0, (parts.1, (refl, back))))))

abbrev tids_of : List TidEntry → Run (ℕ × Tids) → List TidEntry
tids_of ts (ok r) = r.1.tids
tids_of ts (fault e) = ts

tids_after :
    (m : Run (ℕ × ℕ)) (s : Tids)
    → tids_of s.tids (
        m >>= λ r.
        let after = r.0 + 1 in
        ok (r.0, record s { my_tid = if ltb max_tid after then min_tid else after }))
      ≡ s.tids
tids_after (ok r) s = refl
tids_after (fault e) s = refl

-- assign_new_tid leaves the list as it is.
pub assign_new_tid-tids :
    (tid t : ℕ) (s s' : Tids) → assign_new_tid tid s ≡ ok (t, s') → s'.tids ≡ s.tids
unfolding assign_new_tid
assign_new_tid-tids tid t s s' given =
    sym (ap (tids_of s.tids) given) ∙ tids_after (assign_from assign_rounds s.tids tid s.my_tid) s
