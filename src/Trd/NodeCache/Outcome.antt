-- ===== src/Trd/NodeCache/Outcome.antt =====
-- What nodecache_classifySeqno of mote/lib/trd/trd_nodecache.c returns, and when it does not return.
use tenet_t.Prelude.{
  ℕ, suc, ◌+◌, ◌<◌, Ordering, ◌≡◌, refl, sym, ap, ◌∙◌, ◌⊎◌, inl, inr, Bool, true, false, none, some,
  List, [], ◌∷◌, arith, ltb, ◌==◌, if◌then◌else◌, Bool-cases, length, get_or, u16_mod, Fault, Run,
  ok, fault, get_or-take,
}
use tenet_t.Trd.Seqno.{seqno_unknown, seqno_oldest, seqno_next, seqno_cmp}
use tenet_t.Trd.NodeCache.{CacheEntry, NodeCache, Class, live, null_entry}
use tenet_t.Trd.NodeCache.Live.{IsValid, length-live}
use tenet_t.Trd.NodeCache.Aging.{catch_up_ends, catch_up_hangs, catch_up_stays}
use tenet_t.Trd.NodeCache.Classify.{
  is_gt, classify_newer, Scan, scan_start, scan_from, see_exist, see_newest, see_oldest,
  classify_last, classify_scan, classify_older, nodecache_classify_seqno,
}

abbrev item : List CacheEntry → ℕ → CacheEntry
item es j = get_or es j null_entry

-- What the scan returns, started at slot `i` in state `s`.
record Scanned (q i : ℕ) (s : Scan) (es : List CacheEntry) (r : Scan) : Type 0 where
  newest :
      ((r.newest_idx ≡ s.newest_idx) × (r.newest_seqno ≡ s.newest_seqno))
      ⊎ ((j : ℕ) × (r.newest_idx ≡ some (i + j))
          × (j < length es)
          × ((item es j).seqno ≡ r.newest_seqno))
  exist :
      (r.exist_idx ≡ s.exist_idx)
      ⊎ ((j : ℕ) × (j < length es) × (seqno_cmp (item es j).seqno q ≡ Ordering.eq))

abbrev seen : ℕ → ℕ → CacheEntry → Scan → Scan
seen q i e s = see_oldest i e (see_newest i e (see_exist q i e s))

seen_newest :
    (q i : ℕ) (e : CacheEntry) (s : Scan)
    → (((seen q i e s).newest_idx ≡ s.newest_idx) × ((seen q i e s).newest_seqno ≡ s.newest_seqno))
      ⊎ (((seen q i e s).newest_idx ≡ some i) × ((seen q i e s).newest_seqno ≡ e.seqno))
seen_newest q i e s = ground arith

seen_exist :
    (q i : ℕ) (e : CacheEntry) (s : Scan)
    → ((seen q i e s).exist_idx ≡ s.exist_idx) ⊎ (seqno_cmp e.seqno q ≡ Ordering.eq)
seen_exist q i e s = ground arith

scan_from-Scanned :
    (q i : ℕ) (s : Scan) (es : List CacheEntry) → Scanned q i s es (scan_from q i s es)
unfolding scan_from
scan_from-Scanned q i s [] = record { newest = inl (refl, refl); exist = inl refl }
scan_from-Scanned q i s (e ∷ es) =
    let ih = scan_from-Scanned q (i + 1) (seen q i e s) es in
    record {
      newest = elim ih.newest [
        | inr (j, at, below, found) ↦ inr (suc j, at ∙ ap some (omega arith), omega arith, found)
        | inl (idx, same) ↦ elim (seen_newest q i e s) [
          | inl (idx', same') ↦ inl (idx ∙ idx', same ∙ same')
          | inr (idx', same') ↦
              inr (0, idx ∙ idx' ∙ ap some (omega arith), omega arith, sym (same ∙ same'))
        ]
      ];
      exist = elim ih.exist [
        | inr (j, below, found) ↦ inr (suc j, omega arith, found)
        | inl same ↦ elim (seen_exist q i e s) [
          | inl same' ↦ inl (same ∙ same')
          | inr found ↦ inr (0, omega arith, found)
        ]
      ];
    }

-- The classes that say that the packet is in the cache.
abbrev pub says_known : Class → Bool
says_known Class.in_last = true
says_known Class.in_old = true
says_known _ = false

-- A slot in use holds a sequence number that compares as equal.
abbrev pub InUse : NodeCache → ℕ → Type 0
InUse nc q =
    (j : ℕ) × (j < nc.num_entries)
    × (seqno_cmp (get_or nc.cache j null_entry).seqno q ≡ Ordering.eq)

pub record Classified (nc : NodeCache) (q : ℕ) (nc' : NodeCache) (c : Class) : Type 0 where
  pub valid : IsValid nc'
  pub same_origin : nc'.origin ≡ nc.origin
  pub same_number : nc'.num_entries ≡ nc.num_entries
  pub known : (says_known c ≡ false) ⊎ InUse nc q

-- The packet is in use with age 0, and the message's age is above 2.
pub record Stuck (nc : NodeCache) (q age : ℕ) : Type 0 where
  pub slot : ℕ
  pub in_use : slot < nc.num_entries
  pub same : (get_or nc.cache slot null_entry).seqno ≡ q
  pub ageless : (get_or nc.cache slot null_entry).age ≡ 0
  pub older : 2 < age

abbrev pub Outcome : NodeCache → ℕ → ℕ → Run (NodeCache × Class) → Type 0
Outcome nc q age r =
    ((nc' : NodeCache) × (c : Class) × (r ≡ ok (nc', c)) × Classified nc q nc' c)
    ⊎ ((r ≡ fault Fault.hang) × Stuck nc q age)

module _ (nc : NodeCache) (q age : ℕ) (v : IsValid nc) (h16 : age < u16_mod) where
  unchanged : (c : Class) → (says_known c ≡ false) ⊎ InUse nc q → Outcome nc q age (ok (nc, c))
  unchanged c k =
      inl (nc, c, refl, record { valid = v; same_origin = refl; same_number = refl; known = k })

  in_slots :
      (j : ℕ)
      → j < length (live nc)
      → (j < nc.num_entries) × (item (live nc) j ≡ get_or nc.cache j null_entry)
  in_slots j h =
      let lt : j < nc.num_entries = omega (arith, length-live nc v) in
      (lt, get_or-take nc.num_entries nc.cache j null_entry lt)

  older_known :
      (s : Scan)
      → (s.exist_idx ≡ none) ⊎ InUse nc q
      → (says_known (classify_older s q) ≡ false) ⊎ InUse nc q
  unfolding classify_older
  older_known s (inr k) = inr k
  older_known s (inl e) = inl (ground arith)

  self_eq : (seqno_cmp q q ≡ Ordering.eq)
  unfolding seqno_cmp
  self_eq = ground arith

  classify_last-Outcome :
      (i : ℕ)
      → i < nc.num_entries
      → (get_or nc.cache i null_entry).seqno ≡ q
      → Outcome nc q age (classify_last nc i age)
  unfolding classify_last
  classify_last-Outcome i hi e = elim (Bool-cases ((get_or nc.cache i null_entry).age == 0)) [
    | inl z ↦ elim (Bool-cases (ltb 2 age)) [
      | inl old ↦ inr (
        rw (catch_up_hangs i age (age + 1) nc 0 v hi (ground arith) (ground arith)),
        record { slot = i; in_use = hi; same = e; ageless = ground arith; older = ground arith },
      )
      | inr young ↦
          rw (catch_up_stays i age nc 0 (ground arith))
            (unchanged Class.in_last (inr (i, hi, rw e self_eq)))
    ]
    | inr pos ↦
        let (nc', aging, done, v', o, n) =
          catch_up_ends i age (age + 1) nc 0 v hi h16 (ground arith) (omega arith) (omega arith) in
        inl (
          nc',
          if ltb 1 aging then Class.in_old else Class.in_last,
          rw done,
          record {
            valid = v';
            same_origin = o;
            same_number = n;
            known = inr (i, hi, rw e self_eq);
          },
        )
  ]

  classify_scan-Outcome :
      (s : Scan)
      → ((s.newest_seqno ≡ seqno_unknown)
          ⊎ ((j : ℕ) × (s.newest_idx ≡ some j)
              × (j < nc.num_entries)
              × ((get_or nc.cache j null_entry).seqno ≡ s.newest_seqno)))
      → (s.exist_idx ≡ none) ⊎ InUse nc q
      → Outcome nc q age (classify_scan nc s q age)
  unfolding classify_scan classify_newer
  classify_scan-Outcome s nw ex = elim (Bool-cases (s.newest_seqno == seqno_unknown)) [
    | inl none_yet ↦ rw none_yet (unchanged (classify_older s q) (older_known s ex))
    | inr some_yet ↦ elim (Bool-cases (q == s.newest_seqno)) [
      | inl last ↦ elim nw [
        | inl z ↦ absurd (ground arith)
        | inr (j, at, below, found) ↦
            rw (some_yet, last, at) (classify_last-Outcome j below (found ∙ ground arith))
      ]
      | inr other ↦ elim (Bool-cases (q == seqno_next s.newest_seqno)) [
        | inl next ↦ rw (some_yet, other, next) (unchanged Class.next_new (inl refl))
        | inr far ↦ elim (Bool-cases (is_gt (seqno_cmp q (seqno_next s.newest_seqno)))) [
          | inl gt ↦
              rw (some_yet, other, far, gt)
                (unchanged (classify_newer s.newest_seqno q) (inl newer_known))
          | inr le ↦
              rw (some_yet, other, far, le) (unchanged (classify_older s q) (older_known s ex))
        ]
      ]
    ]
  ]
    where
      newer_known : says_known (classify_newer s.newest_seqno q) ≡ false
      newer_known = ground arith

  -- On a valid cache and an age in the range of uint16_t: nodecache_classifySeqno returns with a
  -- valid cache of the same origin and size, and says that the packet is in the cache only if the
  -- sequence number of a slot in use compares as equal; or it never returns, and then the packet
  -- is in use with age 0 while the message's age is above 2.
  pub nodecache_classify_seqno_lem : Outcome nc q age (nodecache_classify_seqno nc q age)
  unfolding nodecache_classify_seqno
  nodecache_classify_seqno_lem = elim (Bool-cases (q == seqno_unknown)) [
    | inl u ↦ rw u (unchanged Class.unknown (inl refl))
    | inr u ↦ elim (Bool-cases (q == seqno_oldest)) [
      | inl o ↦ rw (u, o) (unchanged Class.too_old (inl refl))
      | inr o ↦ elim (Bool-cases (nc.num_entries == 0)) [
        | inl z ↦ rw (u, o, z) (unchanged Class.null (inl refl))
        | inr z ↦
            rw (u, o, z) (classify_scan-Outcome (scan_from q 0 scan_start (live nc)) newest exist)
      ]
    ]
  ]
    where
      r : Scan
      r = scan_from q 0 scan_start (live nc)

      f : Scanned q 0 scan_start (live nc) r
      f = scan_from-Scanned q 0 scan_start (live nc)

      newest :
          (r.newest_seqno ≡ seqno_unknown)
          ⊎ ((j : ℕ) × (r.newest_idx ≡ some j)
              × (j < nc.num_entries)
              × ((get_or nc.cache j null_entry).seqno ≡ r.newest_seqno))
      newest = elim f.newest [
        | inl (idx, same) ↦ inl same
        | inr (j, at, below, found) ↦
            inr (
              j,
              at ∙ ap some (omega arith),
              (in_slots j below).0,
              rw (← (in_slots j below).1) found,
            )
      ]

      exist : (r.exist_idx ≡ none) ⊎ InUse nc q
      exist = elim f.exist [
        | inl same ↦ inl same
        | inr (j, below, found) ↦ inr (j, (in_slots j below).0, rw (← (in_slots j below).1) found)
      ]
