-- ===== src/Transport/TidList/Distinct.antt =====
-- Lists of transactions of master/transport/tidlist.c with one entry for a number.
use tenet_t.Prelude.{
  ℕ, ◌≡◌, refl, sym, ap, ◌∙◌, inl, inr, Bool, true, false, none, some, List, [], ◌∷◌, arith, ◌==◌,
  if◌then◌else◌, Bool-cases, Option-cases,
}
use mathlib.Core.Option.{none-ne-some}
use tenet_t.Timeval.{Timeval}
use tenet_t.Transport.TidList.{
  TidEntry, Tids, tidlist_find_tid, tidlist_add_tid, remove_from, tidlist_remove_tid,
  find_client_fd,
}

abbrev pub AreDistinctTids : List TidEntry → Type 0
AreDistinctTids [] = Unit
AreDistinctTids (t ∷ ts) = (tidlist_find_tid ts t.tid ≡ none) × AreDistinctTids ts

find_first :
    (t : TidEntry) (ts : List TidEntry) (n : ℕ)
    → (t.tid == n) ≡ true
    → tidlist_find_tid (t ∷ ts) n ≡ some t
unfolding tidlist_find_tid
find_first t ts n h = rw (h, tidlist_find_tid)

find_later :
    (t : TidEntry) (ts : List TidEntry) (n : ℕ)
    → (t.tid == n) ≡ false
    → tidlist_find_tid (t ∷ ts) n ≡ tidlist_find_tid ts n
unfolding tidlist_find_tid
find_later t ts n h = rw (h, tidlist_find_tid)

same_none : (n : ℕ) (b : Bool) → tidlist_find_tid [] n ≡ (if b then none else tidlist_find_tid [] n)
unfolding tidlist_find_tid
same_none n true = refl
same_none n false = refl

fd_same :
    (n : ℕ) (a b : Tids)
    → tidlist_find_tid a.tids n ≡ tidlist_find_tid b.tids n
    → find_client_fd n a ≡ find_client_fd n b
unfolding find_client_fd
fd_same n a b h = rw (h, find_client_fd)

fd_none : (n : ℕ) (a : Tids) → tidlist_find_tid a.tids n ≡ none → find_client_fd n a ≡ none
unfolding find_client_fd
fd_none n a h = rw (h, find_client_fd)

-- After a removal just the number removed is not found.
pub find-remove :
    (ts : List TidEntry) (tid n : ℕ)
    → AreDistinctTids ts
    → tidlist_find_tid (remove_from ts tid) n ≡ (if n == tid then none else tidlist_find_tid ts n)
unfolding remove_from
find-remove [] tid n d = same_none n (n == tid)
find-remove (t ∷ ts) tid n (alone, d) = elim (Bool-cases (t.tid == tid)) [
  | inl gone ↦ elim (Bool-cases (n == tid)) [
    | inl this ↦ let same : n ≡ t.tid = ground arith in rw (gone, remove_from, this, same) alone
    | inr that ↦
        let apart : (t.tid == n) ≡ false = ground arith in
        rw (gone, remove_from, that) (sym (find_later t ts n apart))
  ]
  | inr kept ↦ elim (Bool-cases (t.tid == n)) [
    | inl here ↦
        let that : (n == tid) ≡ false = ground arith in
        rw (kept, remove_from, that)
          (find_first t (remove_from ts tid) n here ∙ sym (find_first t ts n here))
    | inr apart ↦
        rw (kept, remove_from)
          (find_later t (remove_from ts tid) n apart
            ∙ find-remove ts tid n d
            ∙ ap (λ o. if n == tid then none else o) (sym (find_later t ts n apart)))
  ]
]

pub remove-AreDistinctTids :
    (ts : List TidEntry) (tid : ℕ) → AreDistinctTids ts → AreDistinctTids (remove_from ts tid)
unfolding remove_from
remove-AreDistinctTids [] tid d = tt
remove-AreDistinctTids (t ∷ ts) tid (alone, d) = elim (Bool-cases (t.tid == tid)) [
  | inl gone ↦ rw (gone, remove_from) d
  | inr kept ↦
      let still : tidlist_find_tid (remove_from ts tid) t.tid ≡ none =
        find-remove ts tid t.tid d ∙ rw kept alone in
      rw (kept, remove_from) (still, remove-AreDistinctTids ts tid d)
]

pub add-AreDistinctTids :
    (now : Timeval) (tid addr type fd : ℕ) (s : Tids)
    → AreDistinctTids s.tids
    → AreDistinctTids (tidlist_add_tid now tid addr type fd s).1.tids
unfolding tidlist_add_tid
add-AreDistinctTids now tid addr type fd s d = elim (Option-cases (tidlist_find_tid s.tids tid)) [
  | inl new ↦ rw (new, tidlist_add_tid) (new, d)
  | inr (t, known) ↦ rw (known, tidlist_add_tid) d
]

-- The owners in the second list are owners in the first.
abbrev pub HasOwnersOf : Tids → Tids → Type 0
HasOwnersOf base s =
    (tid fd : ℕ) → find_client_fd tid s ≡ some fd → find_client_fd tid base ≡ some fd

pub remove-HasOwnersOf :
    (base s : Tids) (tid : ℕ)
    → AreDistinctTids s.tids
    → HasOwnersOf base s
    → HasOwnersOf base (tidlist_remove_tid tid s)
unfolding tidlist_remove_tid
remove-HasOwnersOf base s tid d owners n fd h =
    let found = find-remove s.tids tid n d in
    elim (Bool-cases (n == tid)) [
      | inl gone ↦
          absurd
            (none-ne-some fd (sym (fd_none n (tidlist_remove_tid tid s) (rw gone at found)) ∙ h))
      | inr kept ↦ owners n fd (sym (fd_same n (tidlist_remove_tid tid s) s (rw kept at found)) ∙ h)
    ]
