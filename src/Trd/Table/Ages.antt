-- ===== src/Trd/Table/Ages.antt =====
-- What trd_table_incrementAge of mote/lib/trd/trd_table.c leaves in the table.
use tenet_t.Prelude.{
  ℕ, zero, suc, ◌+◌, ◌-◌, ◌≤◌, ◌<◌, ◌≡◌, sym, ap, ◌∙◌, inl, inr, some, List, [], ◌∷◌, arith, ltb,
  Bool-cases, length, set, take, All, All-append, take-set_below, take-set_next, take-set_above,
  take-take,
}
use mathlib.Core.Path.{subst}
use tenet_t.Trd.NodeCache.{NodeCache, age_delete_old, nodecache_increment_age}
use tenet_t.Trd.NodeCache.Aging.{increment_age-IsValid, origin-increment_age}
use tenet_t.Trd.NodeCache.Classify.{nodecache_find_newest_age}
use tenet_t.Trd.Table.{
  Table, nodes, node_at, put_node, remove_node_index, age_node, age_from, table_increment_age,
}
use tenet_t.Trd.Table.Live.{
  IsValid, node_at-IsValid, put_node-IsValid, remove_node_index-IsValid, nodes-remove_node_index,
  num_entries-remove, length-nodes,
}

abbrev pub IsYoung : NodeCache → Type 0
IsYoung nc = nodecache_find_newest_age nc ≤ age_delete_old

-- The nodes before slot `i` are done.
record Aged (t : Table) (i : ℕ) : Type 0 where
  valid : IsValid t
  inside : i ≤ t.num_entries
  young : All IsYoung (take i (nodes t))

IsYoung-next :
    (i : ℕ) (ncs : List NodeCache) (nc : NodeCache)
    → i < length ncs
    → All IsYoung (take i ncs)
    → IsYoung nc
    → All IsYoung (take (suc i) (set ncs i nc))
IsYoung-next i ncs nc h y w =
    rw (take-set_next i ncs nc h) (All-append IsYoung (take i ncs) (nc ∷ []) y (w, tt))

-- The slots before the one that is removed or replaced stay.
take-remove :
    (t : Table) (i : ℕ)
    → i < t.num_entries
    → take i (nodes (remove_node_index t (some i)).0) ≡ take i (nodes t)
take-remove t i h =
    let n = t.num_entries - 1 in
    ap (take i) (nodes-remove_node_index t i h)
    ∙ take-set_above i (take n t.ncache) i (node_at t n) (omega arith)
    ∙ take-take i n t.ncache (omega arith)
    ∙ sym (take-take i t.num_entries t.ncache (omega arith))

take-put :
    (t : Table) (i : ℕ) (nc : NodeCache)
    → i < t.num_entries
    → take i (nodes (put_node t i nc)) ≡ take i (nodes t)
take-put t i nc h =
    take-take i t.num_entries (set t.ncache i nc) (omega arith)
    ∙ take-set_above i t.ncache i nc (omega arith)
    ∙ sym (take-take i t.num_entries t.ncache (omega arith))

take-put_next :
    (t : Table) (i : ℕ) (nc : NodeCache)
    → IsValid t
    → i < t.num_entries
    → take (i + 1) (nodes (put_node t i nc)) ≡ take (suc i) (set (nodes t) i nc)
take-put_next t i nc v h =
    let e : i + 1 ≡ suc i = omega arith in
    rw e (ap (take (suc i)) (take-set_below t.num_entries t.ncache i nc h))

age_node-Aged :
    (t : Table) (i : ℕ)
    → Aged t i
    → i < t.num_entries
    → Aged (age_node t i).0 (age_node t i).1
      × ((age_node t i).0.num_entries - (age_node t i).1 ≡ t.num_entries - i - 1)
unfolding age_node
age_node-Aged t i a h =
    let nc : NodeCache = nodecache_increment_age (node_at t i) in
    let t' : Table = put_node t i nc in
    let v' : IsValid t' =
      put_node-IsValid t i nc a.valid h
        (increment_age-IsValid (node_at t i) (node_at-IsValid t i a.valid h))
        (origin-increment_age (node_at t i)) in
    elim (Bool-cases (ltb age_delete_old (nodecache_find_newest_age nc))) [
      | inl old ↦ rw old (
        record {
          valid = remove_node_index-IsValid t' i v' h;
          inside = omega (arith, num_entries-remove t' i);
          young = rw (take-remove t' i h, take-put t i nc h) a.young;
        },
        omega (arith, num_entries-remove t' i),
      )
      | inr young ↦ rw young (
        record {
          valid = v';
          inside = omega arith;
          young = rw (take-put_next t i nc a.valid h) (
              IsYoung-next i (nodes t) nc (omega (arith, length-nodes t a.valid)) a.young
                (ground arith));
        },
        omega arith,
      )
    ]

age_from-Aged :
    (n : ℕ) (t : Table) (i : ℕ)
    → t.num_entries - i ≡ n
    → Aged t i
    → Aged (age_from n t i) (age_from n t i).num_entries
unfolding age_from
age_from-Aged zero t i e a =
    let done : i ≡ t.num_entries = omega (arith, a.inside) in subst (Aged t) done a
age_from-Aged (suc n) t i e a =
    let (a', fewer) = age_node-Aged t i a (omega arith) in
    age_from-Aged n (age_node t i).0 (age_node t i).1 (omega arith) a'

pub table_increment_age_lem :
    (t : Table)
    → IsValid t
    → IsValid (table_increment_age t) × All IsYoung (nodes (table_increment_age t))
unfolding table_increment_age
table_increment_age_lem t v =
    let a : Aged (age_from t.num_entries t 0) (age_from t.num_entries t 0).num_entries =
      age_from-Aged t.num_entries t 0 (omega arith)
        (record { valid = v; inside = omega arith; young = tt }) in
    (
      a.valid,
      subst (All IsYoung)
          (take-take (age_from t.num_entries t 0).num_entries
            (age_from t.num_entries t 0).num_entries (age_from t.num_entries t 0).ncache
            (omega arith))
          a.young,
    )
