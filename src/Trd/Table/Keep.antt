-- ===== src/Trd/Table/Keep.antt =====
-- The operations of mote/lib/trd/trd_table.c that keep a table valid, whatever they return.
use tenet_t.Prelude.{
  ℕ, ◌<◌, ◌≡◌, refl, sym, ◌∙◌, inl, inr, Bool, arith, ltb, ◌==◌, Bool-cases, Option-cases, u16_mod,
  Run, ok, fault,
}
use mathlib.Core.Path.{subst}
use tenet_t.Trd.NodeCache.{
  NodeCache, Class, live, cache_entries_per_node, put_entry, find_index, nodecache_insert,
}
use tenet_t.Trd.NodeCache.Live as Node
use tenet_t.Trd.NodeCache.Live.{
  Absent, entry, with_next, find_from-none, nodecache_insert_duplicate, nodecache_insert_room,
  nodecache_insert_full,
}
use tenet_t.Trd.NodeCache.Outcome.{nodecache_classify_seqno_lem}
use tenet_t.Trd.Table.{
  Table, node_entries, node_at, put_node, remove_node_index, get_origin_index, insert_at,
  table_insert, table_remove_node, table_classify,
}
use tenet_t.Trd.Table.Live.{IsValid, node_at-IsValid, put_node-IsValid, remove_node_index-IsValid}
use tenet_t.Trd.Table.Insert.{
  with_origin, with_origin-IsValid, insert_known, insert_unknown, get_origin_index-none,
  get_origin_index-some,
}

nodecache_insert-IsValid :
    (nc : NodeCache) (q loc age : ℕ) (nc' : NodeCache) (b : Bool)
    → Node.IsValid nc
    → nodecache_insert nc q loc age ≡ ok (nc', b)
    → Node.IsValid nc' × (nc'.origin ≡ nc.origin)
nodecache_insert-IsValid nc q loc age nc' b v h = elim (Option-cases (find_index nc q)) [
  | inr (i, at) ↦
      let same : nc ≡ nc' = ground (arith, nodecache_insert_duplicate nc q loc age v i at) in
      subst (λ (n : NodeCache). Node.IsValid n × (n.origin ≡ nc.origin)) same (v, refl)
  | inl free ↦
      let a : Absent q (live nc) = find_from-none 0 q (live nc) (unfold find_index in free) in
      elim (Bool-cases (nc.num_entries == cache_entries_per_node)) [
        | inl full ↦ elim (nodecache_insert_full nc q loc age v a (ground arith)) [
          | inr (z, f) ↦ absurd (ground arith)
          | inl (i, old, done, kept, valid) ↦
              let same : put_entry nc i (entry q loc age) ≡ nc' = ground arith in
              subst (λ (n : NodeCache). Node.IsValid n × (n.origin ≡ nc.origin)) same (valid, refl)
        ]
        | inr room ↦
            let (done, kept, valid) =
              nodecache_insert_room nc q loc age v a (ground (arith, v.fits)) in
            let same : with_next nc (entry q loc age) ≡ nc' = ground arith in
            subst (λ (n : NodeCache). Node.IsValid n × (n.origin ≡ nc.origin)) same (valid, refl)
      ]
]

insert_at-IsValid :
    (t : Table) (i q loc age : ℕ) (t' : Table) (b : Bool)
    → IsValid t
    → i < t.num_entries
    → insert_at t i q loc age ≡ ok (t', b)
    → IsValid t'
insert_at-IsValid t i q loc age t' b v h e = go (nodecache_insert (node_at t i) q loc age) refl
  where
    go : (r : Run (NodeCache × Bool)) → nodecache_insert (node_at t i) q loc age ≡ r → IsValid t'
    go (fault f) r = absurd (ground arith)
    go (ok (nc, c)) r =
        let (new, own) =
          nodecache_insert-IsValid (node_at t i) q loc age nc c (node_at-IsValid t i v h) r in
        let same : put_node t i nc ≡ t' = ground arith in
        subst IsValid same (put_node-IsValid t i nc v h new own)

pub table_insert-IsValid :
    (t : Table) (o q loc age : ℕ) (t' : Table) (b : Bool)
    → IsValid t
    → table_insert t o q loc age ≡ ok (t', b)
    → IsValid t'
table_insert-IsValid t o q loc age t' b v e = elim (Option-cases (get_origin_index t o)) [
  | inr (i, at) ↦
      insert_at-IsValid t i q loc age t' b v (get_origin_index-some t o i v at).0
        (sym (insert_known t o q loc age i at) ∙ e)
  | inl free ↦ elim (Bool-cases (ltb t.num_entries node_entries)) [
    | inl room ↦
        insert_at-IsValid (with_origin t o) t.num_entries q loc age t' b
          (with_origin-IsValid t o v (ground arith) (get_origin_index-none t o free)) (omega arith)
          (sym (insert_unknown t o q loc age free room) ∙ e)
    | inr full ↦ let same : t ≡ t' = unfold table_insert in ground arith in subst IsValid same v
  ]
]

pub table_remove_node-IsValid : (t : Table) (o : ℕ) → IsValid t → IsValid (table_remove_node t o).0
unfolding table_remove_node remove_node_index
table_remove_node-IsValid t o v = elim (Option-cases (get_origin_index t o)) [
  | inl free ↦ rw free v
  | inr (i, at) ↦ rw at (remove_node_index-IsValid t i v (get_origin_index-some t o i v at).0)
]

pub table_classify-IsValid :
    (t : Table) (o q age : ℕ) (t' : Table) (c : Class)
    → IsValid t
    → age < u16_mod
    → table_classify t o q age ≡ ok (t', c)
    → IsValid t'
unfolding table_classify
table_classify-IsValid t o q age t' c v h16 e = elim (Option-cases (get_origin_index t o)) [
  | inl free ↦ let same : t ≡ t' = ground arith in subst IsValid same v
  | inr (i, at) ↦
      let (lt, own) = get_origin_index-some t o i v at in
      elim (nodecache_classify_seqno_lem (node_at t i) q age (node_at-IsValid t i v lt) h16) [
        | inr (hang, stuck) ↦ absurd (ground arith)
        | inl (nc, d, done, k) ↦
            let same : put_node t i nc ≡ t' = ground arith in
            subst IsValid same (put_node-IsValid t i nc v lt k.valid k.same_origin)
      ]
]
