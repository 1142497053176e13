-- ===== src/Trd/Table/Live.antt =====
-- The table's invariant, and that every operation of mote/lib/trd/trd_table.c keeps it.
use tenet_t.Prelude.{
  ℕ, zero, suc, ◌-◌, ◌≤◌, ◌<◌, ◌≡◌, refl, sym, ap, ◌∙◌, ◌≢◌, inl, inr, some, List, [], ◌∷◌, ◌++◌,
  arith, ◌==◌, ==_iff, Bool-cases, length, set, length-set, get_or, take, length-take, All,
  All-append, All-set, All-take, All-get_or, take-set_below, get_or-take, take-set_above,
  set_outside, take-take,
}
use tenet_t.Trd.NodeCache.{NodeCache, nodecache_init}
use tenet_t.Trd.NodeCache.Live
use tenet_t.Trd.Table.{Table, node_entries, nodes, node_at, put_node, table_init, remove_node_index}

abbrev pub NoOrigin : ℕ → List NodeCache → Type 0
NoOrigin origin = All (λ (nc : NodeCache). nc.origin ≢ origin)

abbrev pub DistinctOrigins : List NodeCache → Type 0
DistinctOrigins [] = Unit
DistinctOrigins (nc ∷ ncs) = NoOrigin nc.origin ncs × DistinctOrigins ncs

pub record IsValid (t : Table) : Type 0 where
  pub slots : length t.ncache ≡ node_entries
  pub fits : t.num_entries ≤ node_entries
  pub each : All Live.IsValid (nodes t)
  pub distinct : DistinctOrigins (nodes t)

pub length-nodes : (t : Table) → IsValid t → length (nodes t) ≡ t.num_entries
length-nodes t v = omega (arith, length-take t.num_entries t.ncache, v.slots, v.fits)

pub init-IsValid : Live.IsValid nodecache_init
unfolding nodecache_init
init-IsValid = record { slots = refl; fits = omega arith; distinct = tt }

-- The table starts valid.
pub table_init-IsValid : IsValid table_init
unfolding table_init
table_init-IsValid = record { slots = refl; fits = omega arith; each = tt; distinct = tt }

pub at-nodes :
    (t : Table) (i : ℕ) → i < t.num_entries → get_or (nodes t) i nodecache_init ≡ node_at t i
at-nodes t i h = get_or-take t.num_entries t.ncache i nodecache_init h

pub node_at-IsValid :
    (t : Table) (i : ℕ) → IsValid t → i < t.num_entries → Live.IsValid (node_at t i)
node_at-IsValid t i v h =
    rw (← at-nodes t i h)
      (All-get_or Live.IsValid (nodes t) i nodecache_init v.each (omega (arith, length-nodes t v)))

NoOrigin-set_same :
    (o : ℕ) (ncs : List NodeCache) (i : ℕ) (nc : NodeCache)
    → i < length ncs
    → nc.origin ≡ (get_or ncs i nodecache_init).origin
    → NoOrigin o ncs
    → NoOrigin o (set ncs i nc)
NoOrigin-set_same o ncs i nc h e a =
    All-set (λ (x : NodeCache). x.origin ≢ o) ncs i nc a
      (λ c. All-get_or (λ (x : NodeCache). x.origin ≢ o) ncs i nodecache_init a h (sym e ∙ c))

-- A node cache is replaced by one of the same origin.
DistinctOrigins-set_same :
    (ncs : List NodeCache) (i : ℕ) (nc : NodeCache)
    → i < length ncs
    → nc.origin ≡ (get_or ncs i nodecache_init).origin
    → DistinctOrigins ncs
    → DistinctOrigins (set ncs i nc)
DistinctOrigins-set_same [] i nc h e d = absurd (omega arith)
DistinctOrigins-set_same (x ∷ ncs) zero nc h e d = (rw e d.0, d.1)
DistinctOrigins-set_same (x ∷ ncs) (suc i) nc h e d = (
  NoOrigin-set_same x.origin ncs i nc (omega arith) e d.0,
  DistinctOrigins-set_same ncs i nc (omega arith) e d.1,
)

DistinctOrigins-set :
    (ncs : List NodeCache) (i : ℕ) (nc : NodeCache)
    → NoOrigin nc.origin ncs
    → DistinctOrigins ncs
    → DistinctOrigins (set ncs i nc)
DistinctOrigins-set [] i nc a d = tt
DistinctOrigins-set (x ∷ ncs) zero nc a d = (a.1, d.1)
DistinctOrigins-set (x ∷ ncs) (suc i) nc a d = (
  All-set (λ (y : NodeCache). y.origin ≢ x.origin) ncs i nc d.0 (λ c. a.0 (sym c)),
  DistinctOrigins-set ncs i nc a.1 d.1,
)

pub DistinctOrigins-append :
    (ncs : List NodeCache) (nc : NodeCache)
    → NoOrigin nc.origin ncs
    → DistinctOrigins ncs
    → DistinctOrigins (ncs ++ (nc ∷ []))
DistinctOrigins-append [] nc a d = (tt, tt)
DistinctOrigins-append (x ∷ ncs) nc a d = (
  All-append (λ (y : NodeCache). y.origin ≢ x.origin) ncs (nc ∷ []) d.0 ((λ c. a.0 (sym c)), tt),
  DistinctOrigins-append ncs nc a.1 d.1,
)

-- Without its last item a list of distinct origins stays so, and the last item's origin is gone.
DistinctOrigins-front :
    (n : ℕ) (ncs : List NodeCache)
    → length ncs ≡ suc n
    → DistinctOrigins ncs
    → DistinctOrigins (take n ncs) × NoOrigin (get_or ncs n nodecache_init).origin (take n ncs)
DistinctOrigins-front zero ncs h d = (tt, tt)
DistinctOrigins-front (suc n) [] h d = (tt, tt)
DistinctOrigins-front (suc n) (x ∷ ncs) h d =
    let (front, gone) = DistinctOrigins-front n ncs (omega arith) d.1 in
    (
      (All-take (λ (y : NodeCache). y.origin ≢ x.origin) n ncs d.0, front),
      (
        (λ c.
            All-get_or (λ (y : NodeCache). y.origin ≢ x.origin) ncs n nodecache_init d.0
              (omega arith) (sym c)),
        gone,
      ),
    )

pub put_node-IsValid :
    (t : Table) (i : ℕ) (nc : NodeCache)
    → IsValid t
    → i < t.num_entries
    → Live.IsValid nc
    → nc.origin ≡ (node_at t i).origin
    → IsValid (put_node t i nc)
put_node-IsValid t i nc v h w e = record {
  slots = length-set t.ncache i nc ∙ v.slots;
  fits = v.fits;
  each =
      rw (take-set_below t.num_entries t.ncache i nc h)
        (All-set Live.IsValid (nodes t) i nc v.each w);
  distinct = rw (take-set_below t.num_entries t.ncache i nc h) (
      DistinctOrigins-set_same (nodes t) i nc (omega (arith, length-nodes t v))
        (rw (at-nodes t i h) e) v.distinct);
}

-- The nodes that stay when slot `i` is removed.
pub nodes-remove_node_index :
    (t : Table) (i : ℕ)
    → i < t.num_entries
    → nodes (remove_node_index t (some i)).0
      ≡ set (take (t.num_entries - 1) t.ncache) i (node_at t (t.num_entries - 1))
unfolding remove_node_index
nodes-remove_node_index t i h = elim (Bool-cases (i == t.num_entries - 1)) [
  | inl e ↦ rw e (
      take-set_above (t.num_entries - 1) t.ncache (t.num_entries - 1) nodecache_init (omega arith)
      ∙ sym (
          set_outside (take (t.num_entries - 1) t.ncache) i (node_at t (t.num_entries - 1)) (
            omega (
              arith,
              length-take (t.num_entries - 1) t.ncache,
              (==_iff i (t.num_entries - 1)).0 e,
            ))))
  | inr ne ↦ rw ne (
      take-set_above (t.num_entries - 1) (set t.ncache i (node_at t (t.num_entries - 1)))
        (t.num_entries - 1) nodecache_init (omega arith)
      ∙ take-set_below (t.num_entries - 1) t.ncache i (node_at t (t.num_entries - 1))
          (ground arith))
]

pub num_entries-remove :
    (t : Table) (i : ℕ) → (remove_node_index t (some i)).0.num_entries ≡ t.num_entries - 1
unfolding remove_node_index
num_entries-remove t i = refl

slots-remove :
    (t : Table) (i : ℕ) → length (remove_node_index t (some i)).0.ncache ≡ length t.ncache
unfolding remove_node_index
slots-remove t i = ground (
  arith,
  length-set t.ncache (t.num_entries - 1) nodecache_init,
  length-set t.ncache i (node_at t (t.num_entries - 1)),
  length-set (set t.ncache i (node_at t (t.num_entries - 1))) (t.num_entries - 1) nodecache_init,
)

front-take : (t : Table) → take (t.num_entries - 1) t.ncache ≡ take (t.num_entries - 1) (nodes t)
front-take t = sym (take-take (t.num_entries - 1) t.num_entries t.ncache (omega arith))

-- Removing a slot in use keeps the invariant.
pub remove_node_index-IsValid :
    (t : Table) (i : ℕ) → IsValid t → i < t.num_entries → IsValid (remove_node_index t (some i)).0
remove_node_index-IsValid t i v h =
    let n = t.num_entries - 1 in
    let last : node_at t n ≡ get_or (nodes t) n nodecache_init = sym (at-nodes t n (omega arith)) in
    let shape : nodes (remove_node_index t (some i)).0 ≡ set (take n (nodes t)) i (node_at t n) =
      nodes-remove_node_index t i h
      ∙ ap (λ (r : List NodeCache). set r i (node_at t n)) (front-take t) in
    let (front, gone) =
      DistinctOrigins-front n (nodes t) (omega (arith, length-nodes t v)) v.distinct in
    record {
      slots = slots-remove t i ∙ v.slots;
      fits = omega (arith, num_entries-remove t i, v.fits);
      each = rw shape (
          All-set Live.IsValid (take n (nodes t)) i (node_at t n)
            (All-take Live.IsValid n (nodes t) v.each) (node_at-IsValid t n v (omega arith)));
      distinct =
          rw shape (DistinctOrigins-set (take n (nodes t)) i (node_at t n) (rw last gone) front);
    }
