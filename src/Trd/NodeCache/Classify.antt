-- ===== src/Trd/NodeCache/Classify.antt =====
-- nodecache_classifySeqno and nodecache_findNewestAge of mote/lib/trd/trd_nodecache.c.
use tenet_t.Prelude.{
  ℕ, zero, suc, ◌+◌, ◌-◌, ◌%◌, Bool, true, false, ◌&&◌, ◌||◌, not, Ordering, Option, none, some,
  List, [], ◌∷◌, ltb, ◌==◌, if◌then◌else◌, get_or, u8_mod, Run, ok, fault, Fault, ◌>>=◌,
}
use tenet_t.Trd.Seqno.{seqno_unknown, seqno_oldest, seqno_next, seqno_add, seqno_cmp}
use tenet_t.Trd.NodeCache.{
  CacheEntry, NodeCache, Class, live, null_entry, cache_entries_per_node, nodecache_increment_age,
  age_max,
}

abbrev pub is_lt : Ordering → Bool
is_lt Ordering.lt = true
is_lt _ = false

abbrev pub is_gt : Ordering → Bool
is_gt Ordering.gt = true
is_gt _ = false

abbrev pub is_eq : Ordering → Bool
is_eq Ordering.eq = true
is_eq _ = false

-- The loop variables of the scan; `none` stands for TRD_INVALID_INDEX.
pub record Scan : Type 0 where
  pub exist_idx : Option ℕ
  pub newest_idx : Option ℕ
  pub newest_seqno : ℕ
  pub oldest_idx : Option ℕ
  pub oldest_seqno : ℕ

abbrev pub scan_start : Scan
scan_start = record {
  exist_idx = none;
  newest_idx = none;
  newest_seqno = seqno_unknown;
  oldest_idx = none;
  oldest_seqno = seqno_unknown;
}

abbrev pub see_exist : ℕ → ℕ → CacheEntry → Scan → Scan
see_exist q i e s = if is_eq (seqno_cmp e.seqno q) then record s { exist_idx = some i } else s

abbrev pub see_newest : ℕ → CacheEntry → Scan → Scan
see_newest i e s =
    if s.newest_seqno == seqno_unknown || is_gt (seqno_cmp e.seqno s.newest_seqno)
    then record s { newest_idx = some i; newest_seqno = e.seqno }
    else s

abbrev pub see_oldest : ℕ → CacheEntry → Scan → Scan
see_oldest i e s =
    if s.oldest_seqno == seqno_unknown || is_lt (seqno_cmp e.seqno s.oldest_seqno)
    then record s { oldest_idx = some i; oldest_seqno = e.seqno }
    else s

-- The scan for the sequence number `q`.
unfoldable pub scan_from : ℕ → ℕ → Scan → List CacheEntry → Scan
scan_from q i s [] = s
scan_from q i s (e ∷ es) =
    scan_from q (i + 1) (see_oldest i e (see_newest i e (see_exist q i e s))) es

-- `while ((age - 1) > cache[newest].age + 1)` over ints: the cache with its ages raised, and the
-- uint8_t `aging`. No round changes an age that is 0, so the loop then never ends.
unfoldable pub catch_up : ℕ → ℕ → ℕ → NodeCache → ℕ → Run (NodeCache × ℕ)
catch_up zero i age nc aging = fault Fault.hang
catch_up (suc n) i age nc aging =
    let rest = catch_up n i age (nodecache_increment_age nc) ((aging + 1) % u8_mod) in
    if ltb ((get_or nc.cache i null_entry).age + 2) age then rest else ok (nc, aging)

-- The case `seqno == newest_seqno`, at slot `i`.
unfoldable pub classify_last : NodeCache → ℕ → ℕ → Run (NodeCache × Class)
classify_last nc i age = do
  (nc', aging) ← catch_up (age + 1) i age nc 0
  ok (nc', if ltb 1 aging then Class.in_old else Class.in_last)

unfoldable pub classify_newer : ℕ → ℕ → Class
classify_newer newest q =
    if is_gt (seqno_cmp q (seqno_add newest (cache_entries_per_node - 1)))
    then Class.too_new
    else Class.newer

unfoldable pub classify_older : Scan → ℕ → Class
classify_older s q =
    if not (s.oldest_seqno == seqno_unknown) && is_lt (seqno_cmp q s.oldest_seqno)
    then Class.too_old
    else elim s.exist_idx [ some i ↦ Class.in_old | none ↦ Class.unknown ]

unfoldable pub classify_scan : NodeCache → Scan → ℕ → ℕ → Run (NodeCache × Class)
unfolding classify_newer classify_older
classify_scan nc s q age =
    if s.newest_seqno == seqno_unknown
    then ok (nc, classify_older s q)
    else if q == s.newest_seqno
    then elim s.newest_idx [ some i ↦ classify_last nc i age | none ↦ fault Fault.out_of_bounds ]
    else if q == seqno_next s.newest_seqno
    then ok (nc, Class.next_new)
    else if is_gt (seqno_cmp q (seqno_next s.newest_seqno))
    then ok (nc, classify_newer s.newest_seqno q)
    else ok (nc, classify_older s q)

unfoldable pub nodecache_classify_seqno : NodeCache → ℕ → ℕ → Run (NodeCache × Class)
unfolding classify_scan
nodecache_classify_seqno nc q age =
    if q == seqno_unknown
    then ok (nc, Class.unknown)
    else if q == seqno_oldest
    then ok (nc, Class.too_old)
    else if nc.num_entries == 0
    then ok (nc, Class.null)
    else classify_scan nc (scan_from q 0 scan_start (live nc)) q age

-- The loop variables of nodecache_findNewestAge.
pub record Newest : Type 0 where
  pub idx : Option ℕ
  pub age : ℕ
  pub seqno : ℕ

unfoldable pub newest_step : ℕ → CacheEntry → Newest → Newest
newest_step i e s =
    if ltb e.age s.age
    then record { idx = some i; age = e.age; seqno = e.seqno }
    else if e.age == s.age
    then if is_gt (seqno_cmp e.seqno s.seqno)
      then record { idx = some i; age = e.age; seqno = e.seqno }
      else s
    else s

unfoldable pub newest_from : ℕ → Newest → List CacheEntry → Newest
newest_from i s [] = s
newest_from i s (e ∷ es) = newest_from (i + 1) (newest_step i e s) es

abbrev pub newest_start : Newest
newest_start = record { idx = none; age = age_max; seqno = seqno_unknown }

-- `return -1` is 0xffff as a uint16_t.
unfoldable pub nodecache_find_newest_age : NodeCache → ℕ
unfolding newest_from newest_step
nodecache_find_newest_age nc = elim (newest_from 0 newest_start (live nc)).idx [
  | none ↦ 0xffff
  | some i ↦ (get_or nc.cache i null_entry).age
]
