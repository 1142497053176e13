-- ===== src/Trd/NodeCache.antt =====
-- mote/lib/trd/trd_nodecache.c and .h: what the table knows of the packets of one origin. The array
-- `cache` has TRD_CACHE_ENTRIES_PER_NODE slots, of which the first `num_entries` are in use; each
-- loop `for (i = 0; i < ncache->num_entries; i++)` is a recursion on the list of those slots.
pub mod Classify
pub mod Live
pub mod Aging
pub mod Outcome
pub mod Stored
use Prim.Native.Nat.{max}
use tenet_t.Prelude.{
  ℕ, zero, suc, ◌+◌, ◌-◌, ◌%◌, ◌≤◌, ◌<◌, ◌≡◌, Bool, true, false, ◌&&◌, ◌||◌, not, Ordering, Option,
  none, some, List, [], ◌∷◌, map, ltb, leb, ◌==◌, if◌then◌else◌, length, get_elem?, get_or, set,
  take, replicate, u16_mod, u8_mod, Run, ok, fault, Fault, ◌>>=◌, arith,
}
use tenet_t.Trd.Seqno.{seqno_unknown, seqno_oldest, seqno_next, seqno_add, seqno_cmp}

pub record CacheEntry : Type 0 where
  pub memloc : ℕ
  pub seqno : ℕ
  pub age : ℕ

pub record NodeCache : Type 0 where
  pub origin : ℕ
  pub num_entries : ℕ
  pub cache : List CacheEntry

abbrev pub cache_entries_per_node : ℕ
cache_entries_per_node = 5

abbrev pub age_max : ℕ
age_max = 0xfffe

abbrev pub age_ignore_old : ℕ
age_ignore_old = 90

abbrev pub age_no_summary : ℕ
age_no_summary = 120

abbrev pub age_delete_old : ℕ
age_delete_old = 150

abbrev pub null_memloc : ℕ
null_memloc = 0xffff

abbrev pub invalid_origin : ℕ
invalid_origin = 0xfffe

-- trd_class_t of trd_seqno.h.
pub data Class : Type 0 where
  unknown next_new newer too_new in_last in_old too_old null : Class

-- An unused slot; its age -1 is 0xffff as a uint16_t.
abbrev pub null_entry : CacheEntry
null_entry = record { memloc = null_memloc; seqno = 0; age = 0xffff }

abbrev pub live : NodeCache → List CacheEntry
live nc = take nc.num_entries nc.cache

unfoldable pub nodecache_init : NodeCache
nodecache_init = record {
  origin = invalid_origin;
  num_entries = 0;
  cache = replicate cache_entries_per_node null_entry;
}

-- The removed slot takes the last entry in use.
unfoldable pub remove_index : NodeCache → ℕ → NodeCache × Bool
remove_index nc i =
    if nc.num_entries == 0 then (nc, false) else if leb nc.num_entries i then (nc, false) else (
      record nc {
        cache =
            set (set nc.cache i (get_or nc.cache (nc.num_entries - 1) null_entry))
              (nc.num_entries - 1) null_entry;
        num_entries = nc.num_entries - 1;
      },
      true,
    )

unfoldable pub find_from : ℕ → ℕ → List CacheEntry → Option ℕ
find_from i q [] = none
find_from i q (e ∷ es) = if e.seqno == q then some i else find_from (i + 1) q es

unfoldable pub find_index : NodeCache → ℕ → Option ℕ
unfolding find_from
find_index nc q = find_from 0 q (live nc)

-- The loop variables of find_oldest_seqno_index; `idx` is `none` for TRD_INVALID_INDEX.
pub record Oldest : Type 0 where
  pub idx : Option ℕ
  pub age : ℕ
  pub seqno : ℕ

unfoldable pub oldest_step : ℕ → CacheEntry → Oldest → Oldest
oldest_step i e s =
    if ltb s.age e.age
    then record s { idx = some i; age = e.age }
    else if e.age == s.age
    then elim (seqno_cmp e.seqno s.seqno) [
      | Ordering.lt ↦ record { idx = some i; age = e.age; seqno = e.seqno }
      | _ ↦ s
    ]
    else s

unfoldable pub oldest_from : ℕ → Oldest → List CacheEntry → Oldest
oldest_from i s [] = s
oldest_from i s (e ∷ es) = oldest_from (i + 1) (oldest_step i e s) es

abbrev pub oldest_start : Oldest
oldest_start = record { idx = none; age = 0; seqno = seqno_unknown }

unfoldable pub find_oldest_seqno_index : NodeCache → Option ℕ
unfolding oldest_from oldest_step
find_oldest_seqno_index nc = (oldest_from 0 oldest_start (live nc)).idx

unfoldable pub nodecache_get_oldest_seqno : NodeCache → ℕ
nodecache_get_oldest_seqno nc = elim (find_oldest_seqno_index nc) [
  | none ↦ seqno_unknown
  | some i ↦ (get_or nc.cache i null_entry).seqno
]

abbrev pub put_entry : NodeCache → ℕ → CacheEntry → NodeCache
put_entry nc i e = record nc { cache = set nc.cache i e }

-- Where no oldest entry is found the C code writes at index -1, before the array.
unfoldable pub nodecache_insert : NodeCache → ℕ → ℕ → ℕ → Run (NodeCache × Bool)
nodecache_insert nc q loc age =
    let e : CacheEntry = record { memloc = loc; seqno = q; age = age } in
    elim (find_index nc q) [
      | some i ↦ ok (nc, false)
      | none ↦
          if nc.num_entries == cache_entries_per_node
          then elim (find_oldest_seqno_index nc) [
            | some i ↦ ok (put_entry nc i e, true)
            | none ↦ fault Fault.out_of_bounds
          ]
          else ok
              (record (put_entry nc nc.num_entries e) { num_entries = nc.num_entries + 1 }, true)
    ]

unfoldable pub nodecache_exist : NodeCache → ℕ → Bool
nodecache_exist nc q = elim (find_index nc q) [ none ↦ false | some i ↦ true ]

unfoldable pub nodecache_get_memloc : NodeCache → ℕ → Option ℕ
nodecache_get_memloc nc q = elim (find_index nc q) [
  | none ↦ none
  | some i ↦
      let loc = (get_or nc.cache i null_entry).memloc in
      if loc == null_memloc then none else some loc
]

unfoldable pub nodecache_get_age : NodeCache → ℕ → Option ℕ
nodecache_get_age nc q = elim (find_index nc q) [
  | none ↦ none
  | some i ↦ some (get_or nc.cache i null_entry).age
]

-- The loop of nodecache_getLastSeqno: the sequence number and age of the newest entry so far.
unfoldable pub last_step : CacheEntry → ℕ × ℕ → ℕ × ℕ
last_step e (q, age) =
    if ltb e.age age
    then (e.seqno, e.age)
    else if e.age == age
    then elim (seqno_cmp e.seqno q) [ Ordering.gt ↦ (e.seqno, e.age) | _ ↦ (q, age) ]
    else (q, age)

unfoldable pub last_from : ℕ × ℕ → List CacheEntry → ℕ × ℕ
last_from s [] = s
last_from s (e ∷ es) = last_from (last_step e s) es

unfoldable pub nodecache_get_last_seqno : NodeCache → ℕ × ℕ
unfolding last_from last_step
nodecache_get_last_seqno nc = last_from (seqno_unknown, age_max) (live nc)

abbrev pub increment_entry : CacheEntry → CacheEntry
increment_entry e = if ltb 0 e.age && ltb e.age age_max then record e { age = e.age + 1 } else e

-- Only the first `n` slots are aged.
unfoldable pub increment_first : ℕ → List CacheEntry → List CacheEntry
increment_first zero es = es
increment_first (suc n) [] = []
increment_first (suc n) (e ∷ es) = increment_entry e ∷ increment_first n es

unfoldable pub nodecache_increment_age : NodeCache → NodeCache
unfolding increment_first
nodecache_increment_age nc = record nc { cache = increment_first nc.num_entries nc.cache }
