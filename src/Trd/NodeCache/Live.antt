-- ===== src/Trd/NodeCache/Live.antt =====
-- The slots in use of a node cache: searching them, the oldest of them, and insertion
-- (find_index, find_oldest_seqno_index and nodecache_insert of mote/lib/trd/trd_nodecache.c).
use tenet_t.Prelude.{
  sym, ◌∙◌, ℕ, zero, suc, ◌+◌, ◌≤◌, ◌<◌, ◌≡◌, refl, ap, ◌≢◌, ◌⊎◌, inl, inr, true, false, none, some,
  List, [], ◌∷◌, ◌++◌, ltb, ◌==◌, if◌then◌else◌, length, get_or, set, take, ok, fault, Fault, All,
  All-append, All-set, All-mono, take-set_below, take-set_next, get_or-take, length-take,
  length-set, Bool-cases, arith,
}
use tenet_t.Trd.Seqno.{seqno_unknown, seqno_cmp}
use tenet_t.Trd.NodeCache.{
  CacheEntry, NodeCache, live, null_entry, cache_entries_per_node, put_entry, find_from, find_index,
  Oldest, oldest_step, oldest_from, oldest_start, find_oldest_seqno_index, nodecache_insert,
}

-- No entry has the sequence number.
abbrev pub Absent : ℕ → List CacheEntry → Type 0
Absent q = All (λ (e : CacheEntry). e.seqno ≢ q)

abbrev pub Distinct : List CacheEntry → Type 0
Distinct [] = Unit
Distinct (e ∷ es) = Absent e.seqno es × Distinct es

pub record IsValid (nc : NodeCache) : Type 0 where
  pub slots : length nc.cache ≡ cache_entries_per_node
  pub fits : nc.num_entries ≤ cache_entries_per_node
  pub distinct : Distinct (live nc)

pub length-live : (nc : NodeCache) → IsValid nc → length (live nc) ≡ nc.num_entries
length-live nc v = omega (arith, length-take nc.num_entries nc.cache, v.slots, v.fits)

pub find_from-none : (i q : ℕ) (es : List CacheEntry) → find_from i q es ≡ none → Absent q es
unfolding find_from
find_from-none i q [] h = tt
find_from-none i q (e ∷ es) h = elim (Bool-cases (e.seqno == q)) [
  | inl t ↦ absurd (ground arith)
  | inr f ↦ ((λ c. ground arith), find_from-none (i + 1) q es (ground arith))
]

pub find_from-Absent : (i q : ℕ) (es : List CacheEntry) → Absent q es → find_from i q es ≡ none
unfolding find_from
find_from-Absent i q [] h = refl
find_from-Absent i q (e ∷ es) h = ground (arith, find_from-Absent (i + 1) q es h.1, h.0)

find_from-some :
    (i q : ℕ) (es : List CacheEntry) (k : ℕ)
    → find_from i q es ≡ some k
    → (j : ℕ) × (k ≡ i + j) × (j < length es) × ((get_or es j null_entry).seqno ≡ q)
unfolding find_from
find_from-some i q [] k h = absurd (ground arith)
find_from-some i q (e ∷ es) k h = elim (Bool-cases (e.seqno == q)) [
  | inl t ↦ (0, ground arith, omega arith, ground arith)
  | inr f ↦
      let (j, at, below, found) = find_from-some (i + 1) q es k (ground arith) in
      (suc j, omega arith, omega arith, found)
]

pub find_index-some :
    (nc : NodeCache) (q i : ℕ)
    → IsValid nc
    → find_index nc q ≡ some i
    → (i < nc.num_entries) × ((get_or nc.cache i null_entry).seqno ≡ q)
unfolding find_index
find_index-some nc q i v h =
    let (j, at, below, found) = find_from-some 0 q (live nc) i h in
    let e : i ≡ j = omega arith in
    let lt : j < nc.num_entries = omega (arith, length-live nc v) in
    rw e (lt, rw (← get_or-take nc.num_entries nc.cache j null_entry lt) found)

-- With no sequence number seen the loop only compares ages.
oldest_step_age :
    (i : ℕ) (e : CacheEntry) (s : Oldest)
    → s.seqno ≡ seqno_unknown
    → oldest_step i e s ≡ (if ltb s.age e.age then record s { idx = some i; age = e.age } else s)
unfolding oldest_step seqno_cmp
oldest_step_age i e s h = ground arith

-- Slot `i` is the first of those with the greatest age.
pub record IsOldest (es : List CacheEntry) (i : ℕ) : Type 0 where
  pub in_use : i < length es
  pub greatest : All (λ (e : CacheEntry). e.age ≤ (get_or es i null_entry).age) es
  pub earliest : All (λ (e : CacheEntry). e.age < (get_or es i null_entry).age) (take i es)

-- What the loop returns, started at slot `i` in state `s`.
record Found (i : ℕ) (s : Oldest) (es : List CacheEntry) (r : Oldest) : Type 0 where
  grows : s.age ≤ r.age
  bound : All (λ (e : CacheEntry). e.age ≤ r.age) es
  from :
      (r ≡ s)
      ⊎ ((j : ℕ) × (r.idx ≡ some (i + j))
          × (j < length es)
          × ((get_or es j null_entry).age ≡ r.age)
          × (s.age < r.age)
          × All (λ (e : CacheEntry). e.age < r.age) (take j es))

Found-newer :
    (i : ℕ) (s : Oldest) (e : CacheEntry) (es : List CacheEntry) (r : Oldest)
    → s.age < e.age
    → Found (i + 1) (record s { idx = some i; age = e.age }) es r
    → Found i s (e ∷ es) r
Found-newer i s e es r lt ih = record {
  grows = omega (arith, ih.grows);
  bound = (ih.grows, ih.bound);
  from = elim ih.from [
    | inl eq ↦ inr (
      0,
      ap (λ (o : Oldest). o.idx) eq ∙ ap some (omega arith),
      omega arith,
      sym (ap (λ (o : Oldest). o.age) eq),
      omega (arith, ih.grows),
      tt,
    )
    | inr (j, at, below, found, more, first) ↦ inr (
      suc j,
      at ∙ ap some (omega arith),
      omega arith,
      found,
      omega (arith, ih.grows),
      (more, first),
    )
  ];
}

Found-kept :
    (i : ℕ) (s : Oldest) (e : CacheEntry) (es : List CacheEntry) (r : Oldest)
    → e.age ≤ s.age
    → Found (i + 1) s es r
    → Found i s (e ∷ es) r
Found-kept i s e es r le ih = record {
  grows = ih.grows;
  bound = (omega (arith, ih.grows), ih.bound);
  from = elim ih.from [
    | inl eq ↦ inl eq
    | inr (j, at, below, found, more, first) ↦
        inr (suc j, at ∙ ap some (omega arith), omega arith, found, more, (omega arith, first))
  ];
}

oldest_from-Found :
    (i : ℕ) (s : Oldest) (es : List CacheEntry)
    → s.seqno ≡ seqno_unknown
    → Found i s es (oldest_from i s es)
unfolding oldest_from
oldest_from-Found i s [] h = record { grows = omega arith; bound = tt; from = inl refl }
oldest_from-Found i s (e ∷ es) h = elim (Bool-cases (ltb s.age e.age)) [
  | inl t ↦
      rw (oldest_step_age i e s h, t)
        (Found-newer i s e es _ (ground arith)
          (oldest_from-Found (i + 1) (record s { idx = some i; age = e.age }) es h))
  | inr f ↦
      rw (oldest_step_age i e s h, f)
        (Found-kept i s e es _ (ground arith) (oldest_from-Found (i + 1) s es h))
]

-- Every age in use is 0.
abbrev pub AllZero : List CacheEntry → Type 0
AllZero = All (λ (e : CacheEntry). e.age ≡ 0)

-- find_oldest_seqno_index returns the first slot in use with the greatest age, and finds none when
-- every age in use is 0.
find_oldest_seqno_index_lem :
    (nc : NodeCache)
    → ((i : ℕ) × (find_oldest_seqno_index nc ≡ some i) × IsOldest (live nc) i)
      ⊎ ((find_oldest_seqno_index nc ≡ none) × AllZero (live nc))
unfolding find_oldest_seqno_index
find_oldest_seqno_index_lem nc =
    let r : Oldest = oldest_from 0 oldest_start (live nc) in
    let f : Found 0 oldest_start (live nc) r = oldest_from-Found 0 oldest_start (live nc) refl in
    elim f.from [
      | inl eq ↦ inr (
        ap (λ (o : Oldest). o.idx) eq,
        All-mono _ _ (λ e le. omega (arith, ap (λ (o : Oldest). o.age) eq)) (live nc) f.bound,
      )
      | inr (j, at, below, found, more, first) ↦ inl (
        j,
        at ∙ ap some (omega arith),
        record { in_use = below; greatest = rw found f.bound; earliest = rw found first },
      )
    ]

Distinct-append :
    (es : List CacheEntry) (e : CacheEntry)
    → Distinct es
    → Absent e.seqno es
    → Distinct (es ++ (e ∷ []))
Distinct-append [] e d a = (tt, tt)
Distinct-append (f ∷ es) e d a = (
  All-append (λ (x : CacheEntry). x.seqno ≢ f.seqno) es (e ∷ []) d.0 ((λ q. a.0 (sym q)), tt),
  Distinct-append es e d.1 a.1,
)

Distinct-set :
    (es : List CacheEntry) (i : ℕ) (e : CacheEntry)
    → Distinct es
    → Absent e.seqno es
    → Distinct (set es i e)
Distinct-set [] i e d a = tt
Distinct-set (f ∷ es) zero e d a = (a.1, d.1)
Distinct-set (f ∷ es) (suc i) e d a = (
  All-set (λ (x : CacheEntry). x.seqno ≢ f.seqno) es i e d.0 (λ q. a.0 (sym q)),
  Distinct-set es i e d.1 a.1,
)

abbrev pub entry : ℕ → ℕ → ℕ → CacheEntry
entry q loc age = record { memloc = loc; seqno = q; age = age }

abbrev pub with_next : NodeCache → CacheEntry → NodeCache
with_next nc e = record (put_entry nc nc.num_entries e) { num_entries = nc.num_entries + 1 }

module _ (nc : NodeCache) (q loc age : ℕ) (v : IsValid nc) where
  -- A sequence number that is in use is not inserted again.
  pub nodecache_insert_duplicate :
      (i : ℕ) → find_index nc q ≡ some i → nodecache_insert nc q loc age ≡ ok (nc, false)
  unfolding nodecache_insert
  nodecache_insert_duplicate i h = rw (h, nodecache_insert)

  -- Into a valid cache with a free slot nodecache_insert puts a packet that is missing behind the
  -- others, and the cache stays valid.
  pub nodecache_insert_room :
      Absent q (live nc)
      → nc.num_entries < cache_entries_per_node
      → (nodecache_insert nc q loc age ≡ ok (with_next nc (entry q loc age), true))
        × (live (with_next nc (entry q loc age)) ≡ live nc ++ (entry q loc age ∷ []))
        × IsValid (with_next nc (entry q loc age))
  unfolding nodecache_insert find_index
  nodecache_insert_room a lt = (
    ground (arith, find_from-Absent 0 q (live nc) a),
    grown,
    record {
      slots = length-set nc.cache nc.num_entries (entry q loc age) ∙ v.slots;
      fits = omega arith;
      distinct = rw grown (Distinct-append (live nc) (entry q loc age) v.distinct a);
    },
  )
    where
      grown : live (with_next nc (entry q loc age)) ≡ live nc ++ (entry q loc age ∷ [])
      grown =
          ap (λ n. take n (set nc.cache nc.num_entries (entry q loc age))) {y = suc nc.num_entries}
            (omega arith)
          ∙ take-set_next nc.num_entries nc.cache (entry q loc age) (omega (arith, v.slots))

  -- Into a valid cache without a free slot nodecache_insert puts a packet that is missing at the first
  -- slot with the greatest age, and the cache stays valid; with every age 0 it writes outside the array.
  pub nodecache_insert_full :
      Absent q (live nc)
      → nc.num_entries ≡ cache_entries_per_node
      → ((i : ℕ) × IsOldest (live nc) i
          × (nodecache_insert nc q loc age ≡ ok (put_entry nc i (entry q loc age), true))
          × (live (put_entry nc i (entry q loc age)) ≡ set (live nc) i (entry q loc age))
          × IsValid (put_entry nc i (entry q loc age)))
        ⊎ (AllZero (live nc) × (nodecache_insert nc q loc age ≡ fault Fault.out_of_bounds))
  unfolding nodecache_insert find_index
  nodecache_insert_full a e = elim (find_oldest_seqno_index_lem nc) [
    | inl (i, at, oldest) ↦
        let kept : live (put_entry nc i (entry q loc age)) ≡ set (live nc) i (entry q loc age) =
          take-set_below nc.num_entries nc.cache i (entry q loc age)
            (omega (arith, oldest.in_use, length-live nc v)) in
        inl (
          i,
          oldest,
          ground (arith, find_from-Absent 0 q (live nc) a, at, e),
          kept,
          record {
            slots = length-set nc.cache i (entry q loc age) ∙ v.slots;
            fits = v.fits;
            distinct = rw kept (Distinct-set (live nc) i (entry q loc age) v.distinct a);
          },
        )
    | inr (at, zero_ages) ↦ inr (zero_ages, ground (arith, find_from-Absent 0 q (live nc) a, at, e))
  ]
