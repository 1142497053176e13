-- ===== src/Trd/MetaList/Keep.antt =====
-- The operations of mote/lib/trd/trd_metalist.c that keep a list valid, whatever they find.
use tenet_t.Prelude.{
  ℕ, zero, suc, ◌≤◌, ◌<◌, ◌≡◌, refl, ap, inl, inr, List, [], ◌∷◌, arith, ltb, Bool-cases,
  Option-cases, length, u8_mod,
}
use mathlib.Core.Path.{subst}
use tenet_t.Trd.MetaList.{
  MetaList, MetaListEntry, clear_items, metalist_clear, metalist_init, metalist_find_index,
  metalist_insert, metalist_delete_first,
}
use tenet_t.Trd.MetaList.Queue.{
  IsValid, window, find_index-none, metalist_insert_lem, metalist_delete_first_lem,
}

length-clear_items : (n : ℕ) (es : List MetaListEntry) → length (clear_items n es) ≡ length es
unfolding clear_items
length-clear_items zero es = refl
length-clear_items (suc n) [] = refl
length-clear_items (suc n) (e ∷ es) = ap suc (length-clear_items n es)

pub metalist_init-IsValid :
    (buf : List MetaListEntry) (size : ℕ)
    → 0 < size
    → size < u8_mod
    → size ≤ length buf
    → IsValid (metalist_init buf size)
unfolding metalist_init metalist_clear window
metalist_init-IsValid buf size pos byte room = record {
  room = omega (arith, length-clear_items size buf);
  some_place = pos;
  byte = byte;
  tail_in = pos;
  fits = omega arith;
  head_at = ground arith;
  distinct = tt;
}

pub metalist_insert-IsValid :
    (l : MetaList) (origin q : ℕ) → IsValid l → IsValid (metalist_insert l origin q)
metalist_insert-IsValid l origin q v = elim (Bool-cases (ltb l.length l.max_size)) [
  | inr full ↦
      let same : l ≡ metalist_insert l origin q = unfold metalist_insert in ground arith in
      subst IsValid same v
  | inl room ↦ elim (Option-cases (metalist_find_index l origin q)) [
    | inl free ↦
        (metalist_insert_lem l v origin q ((find_index-none l origin q v).0 free) (ground arith)).1
    | inr (i, at) ↦
        let same : l ≡ metalist_insert l origin q = unfold metalist_insert in ground arith in
        subst IsValid same v
  ]
]

pub metalist_delete_first-IsValid : (l : MetaList) → IsValid l → IsValid (metalist_delete_first l).0
metalist_delete_first-IsValid l v = elim (metalist_delete_first_lem l v) [
  | inl (e, none_left, empty) ↦ rw e v
  | inr (x, l', e, first, front, valid) ↦ rw e valid
]
