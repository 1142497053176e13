-- ===== src/Trd/Table/Insert.antt =====
-- Finding an origin, and what trd_table_insert of mote/lib/trd/trd_table.c leaves.
use tenet_t.Prelude.{
  ℕ, zero, suc, ◌+◌, ◌<◌, ◌≡◌, refl, sym, ap, ◌∙◌, ◌≢◌, inl, inr, Bool, true, false, none, some,
  List, [], ◌∷◌, ◌++◌, arith, ltb, ◌==◌, Bool-cases, Option-cases, length, set, length-set, get_or,
  take, Run, ok, fault, All-append, All-get_or, take-set_next, get_or-set_self,
}
use mathlib.Core.Path.{subst}
use tenet_t.Trd.NodeCache.{NodeCache, null_memloc, nodecache_init, nodecache_insert}
use tenet_t.Trd.NodeCache.Live
use tenet_t.Trd.NodeCache.Stored.{Inserted, nodecache_insert-Inserted}
use tenet_t.Trd.Table.{
  Table, node_entries, nodes, node_at, put_node, insert_at, origin_from, get_origin_index,
  table_insert, table_get_memloc,
}
use tenet_t.Trd.Table.Live.{
  IsValid, NoOrigin, DistinctOrigins, DistinctOrigins-append, length-nodes, init-IsValid, at-nodes,
  node_at-IsValid, put_node-IsValid,
}

origin_from-none : (k o : ℕ) (ncs : List NodeCache) → origin_from k o ncs ≡ none → NoOrigin o ncs
unfolding origin_from
origin_from-none k o [] h = tt
origin_from-none k o (nc ∷ ncs) h = elim (Bool-cases (nc.origin == o)) [
  | inl t ↦ absurd (ground arith)
  | inr f ↦ ((λ c. ground arith), origin_from-none (k + 1) o ncs (ground arith))
]

origin_from-some :
    (k o : ℕ) (ncs : List NodeCache) (i : ℕ)
    → origin_from k o ncs ≡ some i
    → (j : ℕ) × (i ≡ k + j) × (j < length ncs) × ((get_or ncs j nodecache_init).origin ≡ o)
unfolding origin_from
origin_from-some k o [] i h = absurd (ground arith)
origin_from-some k o (nc ∷ ncs) i h = elim (Bool-cases (nc.origin == o)) [
  | inl t ↦ (0, ground arith, omega arith, ground arith)
  | inr f ↦
      let (j, at, below, found) = origin_from-some (k + 1) o ncs i (ground arith) in
      (suc j, omega arith, omega arith, found)
]

origin_from-at :
    (k o : ℕ) (ncs : List NodeCache) (i : ℕ)
    → DistinctOrigins ncs
    → i < length ncs
    → (get_or ncs i nodecache_init).origin ≡ o
    → origin_from k o ncs ≡ some (k + i)
unfolding origin_from
origin_from-at k o [] i d h e = absurd (omega arith)
origin_from-at k o (x ∷ ncs) zero d h e = ground arith
origin_from-at k o (x ∷ ncs) (suc i) d h e =
    let other : x.origin ≢ o = λ c.
      All-get_or (λ (y : NodeCache). y.origin ≢ x.origin) ncs i nodecache_init d.0 (omega arith)
        (e ∙ sym c) in
    ground (arith, other, origin_from-at (k + 1) o ncs i d.1 (omega arith) e)

pub get_origin_index-none : (t : Table) (o : ℕ) → get_origin_index t o ≡ none → NoOrigin o (nodes t)
unfolding get_origin_index
get_origin_index-none t o h = origin_from-none 0 o (nodes t) h

pub get_origin_index-some :
    (t : Table) (o i : ℕ)
    → IsValid t
    → get_origin_index t o ≡ some i
    → (i < t.num_entries) × ((node_at t i).origin ≡ o)
unfolding get_origin_index
get_origin_index-some t o i v h =
    let (j, at, below, found) = origin_from-some 0 o (nodes t) i h in
    let lt : i < t.num_entries = omega (arith, length-nodes t v) in
    (
      lt,
      ap (λ (nc : NodeCache). nc.origin)
            (sym (at-nodes t i lt)
              ∙ ap (λ (k : ℕ). get_or (nodes t) k nodecache_init) {y = j} (omega arith))
          ∙ found,
    )

pub get_origin_index-at :
    (t : Table) (i : ℕ)
    → IsValid t
    → i < t.num_entries
    → get_origin_index t (node_at t i).origin ≡ some i
unfolding get_origin_index
get_origin_index-at t i v h =
    origin_from-at 0 (node_at t i).origin (nodes t) i v.distinct (omega (arith, length-nodes t v))
      (ap (λ (nc : NodeCache). nc.origin) (at-nodes t i h))
    ∙ ap some (omega arith)

-- The table with a fresh node cache for the origin.
abbrev pub with_origin : Table → ℕ → Table
with_origin t o = record (put_node t t.num_entries (record nodecache_init { origin = o })) {
  num_entries = t.num_entries + 1;
}

fresh-IsValid : (o : ℕ) → Live.IsValid (record nodecache_init { origin = o })
fresh-IsValid o = record {
  slots = init-IsValid.slots;
  fits = init-IsValid.fits;
  distinct = init-IsValid.distinct;
}

nodes-with_origin :
    (t : Table) (o : ℕ)
    → IsValid t
    → t.num_entries < node_entries
    → nodes (with_origin t o) ≡ nodes t ++ (record nodecache_init { origin = o } ∷ [])
nodes-with_origin t o v h =
    ap (λ (n : ℕ). take n (set t.ncache t.num_entries (record nodecache_init { origin = o })))
      {y = suc t.num_entries} (omega arith)
    ∙ take-set_next t.num_entries t.ncache (record nodecache_init { origin = o })
        (omega (arith, v.slots))

pub with_origin-IsValid :
    (t : Table) (o : ℕ)
    → IsValid t
    → t.num_entries < node_entries
    → NoOrigin o (nodes t)
    → IsValid (with_origin t o)
with_origin-IsValid t o v h a = record {
  slots = length-set t.ncache t.num_entries (record nodecache_init { origin = o }) ∙ v.slots;
  fits = omega arith;
  each = rw (nodes-with_origin t o v h) (
      All-append Live.IsValid (nodes t) (record nodecache_init { origin = o } ∷ []) v.each
        (fresh-IsValid o, tt));
  distinct =
      rw (nodes-with_origin t o v h)
        (DistinctOrigins-append (nodes t) (record nodecache_init { origin = o }) a v.distinct);
}

-- What an accepted insertion leaves.
pub record Stored (t : Table) (origin q loc : ℕ) : Type 0 where
  pub valid : IsValid t
  pub found : table_get_memloc t origin q ≡ some loc

insert_at-Stored :
    (t : Table) (i q loc age : ℕ) (t' : Table)
    → IsValid t
    → i < t.num_entries
    → loc ≢ null_memloc
    → insert_at t i q loc age ≡ ok (t', true)
    → Stored t' (node_at t i).origin q loc
unfolding table_get_memloc
insert_at-Stored t i q loc age t' v h hl e = go (nodecache_insert (node_at t i) q loc age) refl
  where
    go :
        (r : Run (NodeCache × Bool))
        → nodecache_insert (node_at t i) q loc age ≡ r
        → Stored t' (node_at t i).origin q loc
    go (fault f) r = absurd (ground arith)
    go (ok (nc, false)) r = absurd (ground arith)
    go (ok (nc, true)) r =
        let new : Inserted (node_at t i) q loc nc =
          nodecache_insert-Inserted (node_at t i) q loc age nc (node_at-IsValid t i v h) hl r in
        let v' : IsValid (put_node t i nc) =
          put_node-IsValid t i nc v h new.valid new.same_origin in
        let same : put_node t i nc ≡ t' = ground arith in
        let here : node_at (put_node t i nc) i ≡ nc =
          get_or-set_self t.ncache i nc nodecache_init (omega (arith, v.slots, v.fits)) in
        let at : get_origin_index (put_node t i nc) (node_at t i).origin ≡ some i =
          ap (get_origin_index (put_node t i nc))
            (sym (ap (λ (n : NodeCache). n.origin) here ∙ new.same_origin))
          ∙ get_origin_index-at (put_node t i nc) i v' h in
        subst (λ (u : Table). Stored u (node_at t i).origin q loc) same
          (record { valid = v'; found = ground (arith, at, here, new.stored) })

insert_fresh :
    (t : Table) (o q loc age : ℕ) (t' : Table)
    → IsValid t
    → t.num_entries < node_entries
    → NoOrigin o (nodes t)
    → loc ≢ null_memloc
    → insert_at (with_origin t o) t.num_entries q loc age ≡ ok (t', true)
    → Stored t' o q loc
insert_fresh t o q loc age t' v h a hl e =
    let own : (node_at (with_origin t o) t.num_entries).origin ≡ o =
      ap (λ (n : NodeCache). n.origin)
        (get_or-set_self t.ncache t.num_entries (record nodecache_init { origin = o })
          nodecache_init (omega (arith, v.slots))) in
    subst (λ (k : ℕ). Stored t' k q loc) own
      (insert_at-Stored (with_origin t o) t.num_entries q loc age t' (with_origin-IsValid t o v h a)
        (omega arith) hl e)

pub insert_known :
    (t : Table) (o q loc age i : ℕ)
    → get_origin_index t o ≡ some i
    → table_insert t o q loc age ≡ insert_at t i q loc age
unfolding table_insert
insert_known t o q loc age i at = rw (at, table_insert)

pub insert_unknown :
    (t : Table) (o q loc age : ℕ)
    → get_origin_index t o ≡ none
    → ltb t.num_entries node_entries ≡ true
    → table_insert t o q loc age ≡ insert_at (with_origin t o) t.num_entries q loc age
unfolding table_insert
insert_unknown t o q loc age at room = rw (at, room, table_insert)

-- A packet that trd_table_insert takes into a valid table at a place that is not the null one leaves
-- the table valid, and trd_table_getMemloc then finds that place under the packet's origin and
-- sequence number.
pub table_insert-Stored :
    (t : Table) (o q loc age : ℕ) (t' : Table)
    → IsValid t
    → loc ≢ null_memloc
    → table_insert t o q loc age ≡ ok (t', true)
    → Stored t' o q loc
table_insert-Stored t o q loc age t' v hl e = elim (Option-cases (get_origin_index t o)) [
  | inr (i, at) ↦
      let (lt, own) = get_origin_index-some t o i v at in
      subst (λ (k : ℕ). Stored t' k q loc) own
        (insert_at-Stored t i q loc age t' v lt hl (sym (insert_known t o q loc age i at) ∙ e))
  | inl free ↦ elim (Bool-cases (ltb t.num_entries node_entries)) [
    | inl room ↦
        insert_fresh t o q loc age t' v (ground arith) (get_origin_index-none t o free) hl
          (sym (insert_unknown t o q loc age free room) ∙ e)
    | inr full ↦ absurd (unfold table_insert in ground arith)
  ]
]
