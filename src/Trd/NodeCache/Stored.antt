-- ===== src/Trd/NodeCache/Stored.antt =====
-- Finding a packet that nodecache_insert of mote/lib/trd/trd_nodecache.c has taken.
use tenet_t.Prelude.{
  ℕ, zero, suc, ◌+◌, ◌<◌, ◌≡◌, refl, sym, ap, ◌∙◌, ◌≢◌, inl, inr, true, some, List, [], ◌∷◌, arith,
  ◌==◌, Bool-cases, Option-cases, length, get_or, ok, All-get_or, get_or-take, get_or-set_self,
}
use mathlib.Core.Path.{subst}
use tenet_t.Trd.NodeCache.{
  CacheEntry, NodeCache, live, null_entry, null_memloc, cache_entries_per_node, put_entry,
  find_from, find_index, nodecache_insert, nodecache_get_memloc,
}
use tenet_t.Trd.NodeCache.Live.{
  Absent, Distinct, IsValid, entry, with_next, length-live, find_from-none,
  nodecache_insert_duplicate, nodecache_insert_room, nodecache_insert_full,
}

find_from-at :
    (k q : ℕ) (es : List CacheEntry) (i : ℕ)
    → Distinct es
    → i < length es
    → (get_or es i null_entry).seqno ≡ q
    → find_from k q es ≡ some (k + i)
unfolding find_from
find_from-at k q [] i d h e = absurd (omega arith)
find_from-at k q (x ∷ es) zero d h e = ground arith
find_from-at k q (x ∷ es) (suc i) d h e =
    let other : x.seqno ≢ q = λ c.
      All-get_or (λ (y : CacheEntry). y.seqno ≢ x.seqno) es i null_entry d.0 (omega arith)
        (e ∙ sym c) in
    ground (arith, other, find_from-at (k + 1) q es i d.1 (omega arith) e)

get_memloc-at :
    (nc : NodeCache) (i : ℕ) (e : CacheEntry)
    → IsValid nc
    → i < nc.num_entries
    → get_or nc.cache i null_entry ≡ e
    → e.memloc ≢ null_memloc
    → nodecache_get_memloc nc e.seqno ≡ some e.memloc
unfolding nodecache_get_memloc find_index
get_memloc-at nc i e v h at loc =
    let found : find_from 0 e.seqno (live nc) ≡ some i =
      find_from-at 0 e.seqno (live nc) i v.distinct (omega (arith, length-live nc v))
        (ap (λ (x : CacheEntry). x.seqno) (get_or-take nc.num_entries nc.cache i null_entry h ∙ at))
      ∙ ap some (omega arith) in
    ground (arith, found, at, loc)

-- What an accepted insertion leaves.
pub record Inserted (nc : NodeCache) (q loc : ℕ) (nc' : NodeCache) : Type 0 where
  pub valid : IsValid nc'
  pub same_origin : nc'.origin ≡ nc.origin
  pub stored : nodecache_get_memloc nc' q ≡ some loc

pub nodecache_insert-Inserted :
    (nc : NodeCache) (q loc age : ℕ) (nc' : NodeCache)
    → IsValid nc
    → loc ≢ null_memloc
    → nodecache_insert nc q loc age ≡ ok (nc', true)
    → Inserted nc q loc nc'
nodecache_insert-Inserted nc q loc age nc' v hl h = elim (Option-cases (find_index nc q)) [
  | inr (i, at) ↦ absurd (ground (arith, nodecache_insert_duplicate nc q loc age v i at))
  | inl free ↦
      let a : Absent q (live nc) = find_from-none 0 q (live nc) (unfold find_index in free) in
      elim (Bool-cases (nc.num_entries == cache_entries_per_node)) [
        | inl full ↦ elim (nodecache_insert_full nc q loc age v a (ground arith)) [
          | inr (z, f) ↦ absurd (ground arith)
          | inl (i, old, done, kept, valid) ↦
              let same : put_entry nc i (entry q loc age) ≡ nc' = ground arith in
              subst (Inserted nc q loc) same (record {
                valid = valid;
                same_origin = refl;
                stored =
                    get_memloc-at (put_entry nc i (entry q loc age)) i (entry q loc age) valid
                      (omega (arith, old.in_use, length-live nc v))
                      (get_or-set_self nc.cache i (entry q loc age) null_entry
                        (omega (arith, old.in_use, length-live nc v, v.slots, v.fits)))
                      hl;
              })
        ]
        | inr room ↦
            let (done, kept, valid) =
              nodecache_insert_room nc q loc age v a (ground (arith, v.fits)) in
            let same : with_next nc (entry q loc age) ≡ nc' = ground arith in
            subst (Inserted nc q loc) same (record {
              valid = valid;
              same_origin = refl;
              stored =
                  get_memloc-at (with_next nc (entry q loc age)) nc.num_entries (entry q loc age)
                    valid (omega arith)
                    (get_or-set_self nc.cache nc.num_entries (entry q loc age) null_entry
                      (ground (arith, v.slots, v.fits)))
                    hl;
            })
      ]
]
