-- ===== src/Trd/MetaList.antt =====
-- mote/lib/trd/trd_metalist.c: a bounded queue of (origin, seqno) pairs without duplicates, in an
-- array used in a circle. `head_p` is where the next pair goes, `tail_p` where the oldest one is.
pub mod Queue
pub mod Keep
use tenet_t.Prelude.{
  ℕ, zero, suc, ◌+◌, ◌-◌, ◌%◌, Bool, true, false, ◌&&◌, Option, none, some, List, [], ◌∷◌, ltb,
  ◌==◌, if◌then◌else◌, get_or, set, u8_mod,
}

pub record MetaListEntry : Type 0 where
  pub origin : ℕ
  pub seqno : ℕ

pub record MetaList : Type 0 where
  pub head_p : ℕ
  pub tail_p : ℕ
  pub length : ℕ
  pub max_size : ℕ
  pub item : List MetaListEntry

abbrev pub no_meta : MetaListEntry
no_meta = record { origin = 0; seqno = 0 }

-- The first `n` items lose their origin.
unfoldable pub clear_items : ℕ → List MetaListEntry → List MetaListEntry
clear_items zero es = es
clear_items (suc n) [] = []
clear_items (suc n) (e ∷ es) = record e { origin = 0 } ∷ clear_items n es

unfoldable pub metalist_clear : MetaList → MetaList
unfolding clear_items
metalist_clear l = record l {
  head_p = 0;
  tail_p = 0;
  length = 0;
  item = clear_items l.max_size l.item;
}

unfoldable pub metalist_init : List MetaListEntry → ℕ → MetaList
unfolding metalist_clear
metalist_init buf size =
    metalist_clear (record { head_p = 0; tail_p = 0; length = 0; max_size = size; item = buf })

-- The next place in the circle. In metalist_findIndex the index is an int, but it is at most `max_size`, a
-- uint8_t, when it is compared, so that the reduction changes nothing there.
abbrev pub wrap : ℕ → ℕ → ℕ
wrap max i = if (i + 1) % u8_mod == max then 0 else (i + 1) % u8_mod

-- The do-while loop of metalist_findIndex over `i`; no circle of `max_size` places takes more rounds.
unfoldable pub find_item : ℕ → ℕ → ℕ → List MetaListEntry → ℕ → ℕ → ℕ → Option ℕ
find_item zero max head items origin q i = none
find_item (suc n) max head items origin q i =
    let e = get_or items i no_meta in
    let rest = find_item n max head items origin q (wrap max i) in
    if e.origin == origin && e.seqno == q then some i else if wrap max i == head then none else rest

unfoldable pub metalist_find_index : MetaList → ℕ → ℕ → Option ℕ
unfolding find_item
metalist_find_index l origin q =
    if l.length == 0
    then none
    else find_item l.max_size l.max_size l.head_p l.item origin q l.tail_p

unfoldable pub metalist_is_in_list : MetaList → ℕ → ℕ → Bool
metalist_is_in_list l origin q = elim (metalist_find_index l origin q) [
  | none ↦ false
  | some i ↦ true
]

abbrev pub store_item : MetaList → ℕ → ℕ → MetaList
store_item l origin q = record l {
  item = set l.item l.head_p (record { origin = origin; seqno = q });
  head_p = wrap l.max_size l.head_p;
  length = (l.length + 1) % u8_mod;
}

unfoldable pub metalist_insert : MetaList → ℕ → ℕ → MetaList
metalist_insert l origin q =
    if ltb l.length l.max_size
    then elim (metalist_find_index l origin q) [ none ↦ store_item l origin q | some i ↦ l ]
    else l

unfoldable pub metalist_delete_first : MetaList → MetaList × Option MetaListEntry
metalist_delete_first l = if l.length == 0 then (l, none) else (
  record l { tail_p = wrap l.max_size l.tail_p; length = l.length - 1 },
  some (get_or l.item l.tail_p no_meta),
)

unfoldable pub metalist_is_full : MetaList → Bool
metalist_is_full l = l.length == l.max_size

unfoldable pub metalist_is_empty : MetaList → Bool
metalist_is_empty l = l.length == 0

unfoldable pub metalist_get_first : MetaList → Option MetaListEntry
metalist_get_first l = if l.length == 0 then none else some (get_or l.item l.tail_p no_meta)
