-- ===== src/Trd/Table.antt =====
-- mote/lib/trd/trd_table.c: one node cache for each origin, at most TRD_NODE_ENTRIES of them. The
-- array `ncache` has that many slots, of which the first `num_entries` are in use.
pub mod Live
pub mod Ages
pub mod Insert
pub mod Keep
use tenet_t.Prelude.{
  ℕ, zero, suc, ◌+◌, ◌-◌, Bool, true, false, ◌&&◌, ◌||◌, not, Option, none, some, List, [], ◌∷◌,
  ltb, leb, ◌==◌, if◌then◌else◌, length, get_or, set, take, replicate, Run, ok, ◌>>=◌,
}
use tenet_t.Trd.Seqno.{seqno_unknown}
use tenet_t.Trd.NodeCache.{
  NodeCache, Class, invalid_origin, age_delete_old, age_no_summary, age_ignore_old, nodecache_init,
  nodecache_increment_age, nodecache_insert, nodecache_get_memloc, nodecache_get_age,
  nodecache_exist, nodecache_get_oldest_seqno, nodecache_get_last_seqno,
}
use tenet_t.Trd.NodeCache.Classify.{nodecache_classify_seqno, nodecache_find_newest_age}

abbrev pub node_entries : ℕ
node_entries = 5

-- TRD_SUMMARY_ENTRIES and TRD_REQUEST_ENTRIES of trd.h.
abbrev pub summary_entries : ℕ
summary_entries = node_entries

abbrev pub request_entries : ℕ
request_entries = node_entries

pub record Table : Type 0 where
  pub num_entries : ℕ
  pub ncache : List NodeCache

-- TRD_Metadata of trd.h, in host byte order.
pub record Metadata : Type 0 where
  pub origin : ℕ
  pub seqno : ℕ
  pub age : ℕ

abbrev pub nodes : Table → List NodeCache
nodes t = take t.num_entries t.ncache

abbrev pub node_at : Table → ℕ → NodeCache
node_at t i = get_or t.ncache i nodecache_init

abbrev pub put_node : Table → ℕ → NodeCache → Table
put_node t i nc = record t { ncache = set t.ncache i nc }

unfoldable pub table_init : Table
table_init = record { num_entries = 0; ncache = replicate node_entries nodecache_init }

unfoldable pub table_num_entries : Table → ℕ
table_num_entries t = t.num_entries

unfoldable pub table_is_full : Table → Bool
table_is_full t = leb node_entries t.num_entries

-- `none` is an index below 0. The last node cache takes the place of the removed one.
unfoldable pub remove_node_index : Table → Option ℕ → Table × Bool
remove_node_index t none = (t, false)
remove_node_index t (some i) =
    let last = t.num_entries - 1 in
    let moved = if i == last then t.ncache else set t.ncache i (node_at t last) in
    (record { num_entries = last; ncache = set moved last nodecache_init }, true)

unfoldable pub oldest_node_from : ℕ → ℕ → Option ℕ → List NodeCache → Option ℕ
oldest_node_from i age idx [] = idx
oldest_node_from i age idx (nc ∷ ncs) =
    let newest = nodecache_find_newest_age nc in
    let older = not (nc.origin == invalid_origin) && ltb age newest in
    oldest_node_from (i + 1) (if older then newest else age) (if older then some i else idx) ncs

unfoldable pub find_oldest_node_index : Table → Option ℕ
unfolding oldest_node_from
find_oldest_node_index t = oldest_node_from 0 0 none (nodes t)

unfoldable pub table_remove_oldest : Table → Table × Bool
table_remove_oldest t =
    if ltb t.num_entries node_entries
    then (t, true)
    else remove_node_index t (find_oldest_node_index t)

unfoldable pub find_oldest_origin : Table → ℕ
find_oldest_origin t = elim (find_oldest_node_index t) [
  | none ↦ invalid_origin
  | some i ↦ (node_at t i).origin
]

unfoldable pub origin_from : ℕ → ℕ → List NodeCache → Option ℕ
origin_from i origin [] = none
origin_from i origin (nc ∷ ncs) =
    if nc.origin == origin then some i else origin_from (i + 1) origin ncs

unfoldable pub get_origin_index : Table → ℕ → Option ℕ
unfolding origin_from
get_origin_index t origin = origin_from 0 origin (nodes t)

-- One round of the loop of trd_table_incrementAge at slot `i`: the table, and the slot to go on at
-- (the same one where a node cache was removed, since another has moved there).
unfoldable pub age_node : Table → ℕ → Table × ℕ
age_node t i =
    let nc = nodecache_increment_age (node_at t i) in
    let t' = put_node t i nc in
    if ltb age_delete_old (nodecache_find_newest_age nc)
    then ((remove_node_index t' (some i)).0, i)
    else (t', i + 1)

-- Each round leaves one slot fewer from `i` to the end: the first argument counts these.
unfoldable pub age_from : ℕ → Table → ℕ → Table
age_from zero t i = t
age_from (suc n) t i = let (t', i') = age_node t i in age_from n t' i'

unfoldable pub table_increment_age : Table → Table
unfolding age_from age_node
table_increment_age t = age_from t.num_entries t 0

unfoldable pub table_remove_node : Table → ℕ → Table × Bool
table_remove_node t origin = remove_node_index t (get_origin_index t origin)

abbrev pub insert_at : Table → ℕ → ℕ → ℕ → ℕ → Run (Table × Bool)
insert_at t i q loc age = do
  (nc, done) ← nodecache_insert (node_at t i) q loc age
  ok (put_node t i nc, done)

unfoldable pub table_insert : Table → ℕ → ℕ → ℕ → ℕ → Run (Table × Bool)
table_insert t origin q loc age = elim (get_origin_index t origin) [
  | some i ↦ insert_at t i q loc age
  | none ↦
      if ltb t.num_entries node_entries
      then insert_at
          (record (put_node t t.num_entries (record nodecache_init { origin = origin })) {
            num_entries = t.num_entries + 1;
          })
          t.num_entries q loc age
      else ok (t, false)
]

unfoldable pub table_get_memloc : Table → ℕ → ℕ → Option ℕ
table_get_memloc t origin q = elim (get_origin_index t origin) [
  | none ↦ none
  | some i ↦ nodecache_get_memloc (node_at t i) q
]

unfoldable pub table_get_age : Table → ℕ → ℕ → Option ℕ
table_get_age t origin q = elim (get_origin_index t origin) [
  | none ↦ none
  | some i ↦ nodecache_get_age (node_at t i) q
]

unfoldable pub table_exist : Table → ℕ → ℕ → Bool
table_exist t origin q = elim (get_origin_index t origin) [
  | none ↦ false
  | some i ↦ nodecache_exist (node_at t i) q
]

unfoldable pub table_get_oldest_seqno : Table → ℕ → ℕ
table_get_oldest_seqno t origin = elim (get_origin_index t origin) [
  | none ↦ seqno_unknown
  | some i ↦ nodecache_get_oldest_seqno (node_at t i)
]

-- The sequence number only: no caller reads the age that the C function also writes.
unfoldable pub table_get_last_seqno : Table → ℕ → ℕ
table_get_last_seqno t origin = elim (get_origin_index t origin) [
  | none ↦ seqno_unknown
  | some i ↦ (nodecache_get_last_seqno (node_at t i)).0
]

-- The loop of trd_table_summarize, with room for `room` more entries.
unfoldable pub summary_from : Bool → ℕ → List NodeCache → List Metadata
summary_from ignore_old room [] = []
summary_from ignore_old room (nc ∷ ncs) =
    let (q, age) = nodecache_get_last_seqno nc in
    let wanted = not (q == seqno_unknown) && (not ignore_old || ltb age age_no_summary) in
    let one : Metadata = record { origin = nc.origin; seqno = q; age = age } in
    let skip = summary_from ignore_old room ncs in
    let more = summary_from ignore_old (room - 1) ncs in
    if wanted then one ∷ (if room == 1 then [] else more) else skip

-- The entries of the summary message; its `len` follows from their number.
unfoldable pub table_summarize : Table → Bool → List Metadata
unfolding summary_from
table_summarize t ignore_old = summary_from ignore_old summary_entries (nodes t)

unfoldable pub table_classify : Table → ℕ → ℕ → ℕ → Run (Table × Class)
table_classify t origin q age = elim (get_origin_index t origin) [
  | none ↦ ok (t, Class.null)
  | some i ↦ do (nc, c) ← nodecache_classify_seqno (node_at t i) q age; ok (put_node t i nc, c)
]

-- The inner loop of trd_table_ignoreSummary at the table's slot `i`. It reads entry `i` of the
-- message in every round; `beyond` is what lies in memory behind the message's entries. `true`: the
-- loop ended by `break`.
unfoldable pub summary_match : ℕ → (ℕ → ℕ) → List Metadata → ℕ → ℕ → Bool
summary_match zero beyond metas i origin = false
summary_match (suc n) beyond metas i origin =
    let rest = summary_match n beyond metas i origin in
    let m : Metadata = get_or metas i (record { origin = beyond i; seqno = 0; age = 0 }) in
    if m.origin == origin then true else rest

unfoldable pub ignore_from : (ℕ → ℕ) → ℕ → List NodeCache → List Metadata → Bool
ignore_from beyond i [] metas = true
ignore_from beyond i (nc ∷ ncs) metas =
    let rest = ignore_from beyond (i + 1) ncs metas in
    if summary_match (length metas) beyond metas i nc.origin
    then rest
    else if ltb (nodecache_find_newest_age nc) age_ignore_old
    then false
    else rest

unfoldable pub table_ignore_summary : (ℕ → ℕ) → Table → List Metadata → Bool
unfolding ignore_from summary_match
table_ignore_summary beyond t metas = ignore_from beyond 0 (nodes t) metas
