-- ===== src/Tasklib/Response.antt =====
-- master/tasklib/response.c: the attributes of a mote's answer, sorted by type. The pointers from node
-- to node are the list itself. Types and values come from 16-bit fields of a packet, so that an int that
-- holds them is never negative. response_pop, which hands on memory that it has freed, and
-- response_delete, which calls it to free all, have no model.
pub mod Order
use tenet_t.Prelude.{
  ℕ, zero, suc, ◌+◌, ◌-◌, ◌*◌, ◌/◌, ◌%◌, ◌^◌, ◌≤◌, ◌<◌, min, Ordering, ◌≡◌, refl, sym, ap, ap₂, ◌∙◌,
  ◌≢◌, ◌↔◌, ◌⊎◌, inl, inr, Bool, true, false, not, ◌&&◌, ◌||◌, Option, none, some, List, [], ◌∷◌,
  ◌++◌, map, append-nil, append_assoc, arith, ltb, leb, ◌==◌, if◌then◌else◌, ltb→lt, lt→ltb, leb→le,
  ==_iff, Bool-cases, Option-cases, length, get_elem?, set, length-append, length-set, get_or, take,
  drop, replicate, take-append-drop, length-take, length-drop, length-replicate, length-map,
  take_all, u16_mod, u8_mod, Fault, Run, ok, fault, ◌>>=◌, All, All-append, All-set, All-take,
  All-get_or, All-replicate, All-mono, All-map, take-set_below, take-set_next, get_or-take,
  get_or-set_self, get_or-set_ne, take-set_above, set_outside, take-take, Run-cases,
}

-- attr_node, without its link.
pub record AttrNode : Type 0 where
  pub type : ℕ
  pub value : List ℕ
  pub length : ℕ

pub record Response : Type 0 where
  pub head : List AttrNode
  pub length : ℕ
  pub tid : ℕ
  pub mote_addr : ℕ

abbrev pub response_create : ℕ → ℕ → Response
response_create tid mote_addr = record { head = []; length = 0; tid = tid; mote_addr = mote_addr }

-- The loop of response_find.
unfoldable pub find_attr : List AttrNode → ℕ → Option AttrNode
find_attr [] type = none
find_attr (a ∷ rest) type = if a.type == type then some a else find_attr rest type

unfoldable pub response_find : Response → ℕ → Option AttrNode
unfolding find_attr
response_find r type = find_attr r.head type

-- The loop of response_insert, from the node `prev`: the list from there on.
unfoldable pub insert_after : AttrNode → AttrNode → List AttrNode → List AttrNode
insert_after a prev [] = prev ∷ a ∷ []
insert_after a prev (next ∷ rest) =
    let later = insert_after a next rest in
    if ltb a.type next.type then prev ∷ a ∷ next ∷ rest else prev ∷ later

unfoldable pub insert_attr : AttrNode → List AttrNode → List AttrNode
unfolding insert_after
insert_attr a [] = a ∷ []
insert_attr a (first ∷ rest) =
    if ltb a.type first.type then a ∷ first ∷ rest else insert_after a first rest

-- The caller's value has nelements items or more.
unfoldable pub response_insert : ℕ → List ℕ → ℕ → Response → Response
unfolding insert_attr
response_insert type value nelements r =
    let a : AttrNode = record { type = type; value = take nelements value; length = nelements } in
    record r { head = insert_attr a r.head; length = r.length + 1 }

-- The loop of response_remove: the list without the first node of the type, if there is one.
unfoldable pub remove_attr : List AttrNode → ℕ → Option (List AttrNode)
remove_attr [] type = none
remove_attr (a ∷ rest) type =
    let later : Option (List AttrNode) = elim (remove_attr rest type) [
      | some kept ↦ some (a ∷ kept)
      | none ↦ none
    ] in
    if a.type == type then some rest else later

-- The result is whether a node was removed.
unfoldable pub response_remove : ℕ → Response → Bool × Response
unfolding remove_attr
response_remove type r = elim (remove_attr r.head type) [
  | some kept ↦ (true, record r { head = kept; length = r.length - 1 })
  | none ↦ (false, r)
]

abbrev pub response_length : Response → ℕ
response_length r = r.length

abbrev pub response_tid : Response → ℕ
response_tid r = r.tid

abbrev pub response_mote_addr : Response → ℕ
response_mote_addr r = r.mote_addr
