-- ===== src/Tasklib/Response/Order.antt =====
-- A response of master/tasklib/response.c as a queue of attributes for each type.
use tenet_t.Prelude.{
  ℕ, ◌+◌, ◌≤◌, ◌<◌, ◌≡◌, refl, sym, ap, ◌∙◌, ◌⊎◌, inl, inr, true, false, none, some, List, [], ◌∷◌,
  ◌++◌, append-nil, arith, ltb, ◌==◌, if◌then◌else◌, Bool-cases, length, get_elem?, take, drop, All,
  All-mono,
}
use tenet_t.Tasklib.Response.{
  AttrNode, Response, find_attr, response_find, insert_after, insert_attr, response_insert,
  remove_attr, response_remove,
}

-- The attributes of a type, in the order of the list.
abbrev pub of_type : ℕ → List AttrNode → List AttrNode
of_type t [] = []
of_type t (a ∷ rest) = if a.type == t then a ∷ of_type t rest else of_type t rest

abbrev pub IsSorted : List AttrNode → Type 0
IsSorted [] = Unit
IsSorted (a ∷ rest) = All (λ b. a.type ≤ b.type) rest × IsSorted rest

-- Sorted by type, with the number of nodes counted.
abbrev pub IsValid : Response → Type 0
IsValid r = IsSorted r.head × (r.length ≡ length r.head)

insert_after_lem :
    (a prev : AttrNode) (rest : List AttrNode)
    → insert_after a prev rest ≡ prev ∷ insert_attr a rest
unfolding insert_attr insert_after
insert_after_lem a prev [] = refl
insert_after_lem a prev (next ∷ rest) = elim (Bool-cases (ltb a.type next.type)) [
  | inl before ↦ rw (before, insert_after, insert_attr)
  | inr after ↦ rw (after, insert_after, insert_attr)
]

-- The two loops of response_insert are one insertion.
insert_attr-next :
    (a first : AttrNode) (rest : List AttrNode)
    → insert_attr a (first ∷ rest)
      ≡ (if ltb a.type first.type then a ∷ first ∷ rest else first ∷ insert_attr a rest)
unfolding insert_attr
insert_attr-next a first rest = elim (Bool-cases (ltb a.type first.type)) [
  | inl before ↦ rw (before, insert_attr)
  | inr after ↦ rw (after, insert_attr) (insert_after_lem a first rest)
]

length-insert_attr :
    (a : AttrNode) (nodes : List AttrNode) → length (insert_attr a nodes) ≡ length nodes + 1
unfolding insert_attr
length-insert_attr a [] = refl
length-insert_attr a (first ∷ rest) =
    let later = length-insert_attr a rest in
    elim (Bool-cases (ltb a.type first.type)) [
      | inl before ↦ rw (insert_attr-next a first rest, before) (omega arith)
      | inr after ↦ rw (insert_attr-next a first rest, after) (omega arith)
    ]

All-insert_attr {κ} :
    (P : AttrNode → Type κ) (a : AttrNode) (nodes : List AttrNode)
    → P a
    → All P nodes
    → All P (insert_attr a nodes)
unfolding insert_attr
All-insert_attr P a [] p ps = (p, tt)
All-insert_attr P a (first ∷ rest) p ps = elim (Bool-cases (ltb a.type first.type)) [
  | inl before ↦ rw (insert_attr-next a first rest, before) (p, ps)
  | inr after ↦ rw (insert_attr-next a first rest, after) (ps.0, All-insert_attr P a rest p ps.1)
]

insert_attr-IsSorted :
    (a : AttrNode) (nodes : List AttrNode) → IsSorted nodes → IsSorted (insert_attr a nodes)
unfolding insert_attr
insert_attr-IsSorted a [] h = (tt, tt)
insert_attr-IsSorted a (first ∷ rest) h = elim (Bool-cases (ltb a.type first.type)) [
  | inl before ↦
      let least : All (λ b. a.type ≤ b.type) rest =
        All-mono (λ b. first.type ≤ b.type) (λ b. a.type ≤ b.type) (λ b le. ground arith) rest
          h.0 in
      rw (insert_attr-next a first rest, before) ((ground arith, least), h)
  | inr after ↦
      let least : All (λ b. first.type ≤ b.type) (insert_attr a rest) =
        All-insert_attr (λ b. first.type ≤ b.type) a rest (ground arith) h.0 in
      rw (insert_attr-next a first rest, after) (least, insert_attr-IsSorted a rest h.1)
]

-- Behind a larger type there is none of this type.
of_type-above :
    (t u : ℕ) (nodes : List AttrNode) → t < u → All (λ b. u ≤ b.type) nodes → of_type t nodes ≡ []
of_type-above t u [] lt h = refl
of_type-above t u (a ∷ rest) lt h =
    let other : (a.type == t) ≡ false = ground arith in rw other (of_type-above t u rest lt h.1)

of_type-insert_attr :
    (t : ℕ) (a : AttrNode) (nodes : List AttrNode)
    → IsSorted nodes
    → of_type t (insert_attr a nodes) ≡ of_type t nodes ++ of_type t (a ∷ [])
unfolding insert_attr
of_type-insert_attr t a [] h = refl
of_type-insert_attr t a (first ∷ rest) h =
    let later = of_type-insert_attr t a rest h.1 in
    elim (Bool-cases (ltb a.type first.type)) [
      | inl before ↦
          rw (insert_attr-next a first rest, before)
            (elim (Bool-cases (a.type == t)) [
              | inl same ↦
                  let lt : t < first.type = ground arith in
                  let none_there : of_type t (first ∷ rest) ≡ [] =
                    of_type-above t first.type (first ∷ rest) lt (omega arith, h.0) in
                  rw (same, none_there) refl
              | inr other ↦ rw other (sym (append-nil (of_type t (first ∷ rest))))
            ])
      | inr after ↦
          rw (insert_attr-next a first rest, after)
            (elim (Bool-cases (first.type == t)) [
              | inl same ↦ rw (same, later) refl
              | inr other ↦ rw (other, later) refl
            ])
    ]

find_attr-of_type :
    (t : ℕ) (nodes : List AttrNode) → find_attr nodes t ≡ get_elem? (of_type t nodes) 0
unfolding find_attr
find_attr-of_type t [] = refl
find_attr-of_type t (a ∷ rest) = elim (Bool-cases (a.type == t)) [
  | inl same ↦ rw (same, find_attr)
  | inr other ↦ rw (other, find_attr) (find_attr-of_type t rest)
]

-- What is left after a removal: the first of type t is gone and all else is in place.
abbrev pub IsWithoutFirst : ℕ → List AttrNode → List AttrNode → Type 0
IsWithoutFirst t nodes kept =
    (u : ℕ) → of_type u kept ≡ (if u == t then drop 1 (of_type u nodes) else of_type u nodes)

abbrev IsRemoval : ℕ → List AttrNode → List AttrNode → Type 1
IsRemoval t nodes kept =
    (length nodes ≡ length kept + 1)
    × (IsWithoutFirst t nodes kept
        × (((P : AttrNode → Type 0) → All P nodes → All P kept) × (IsSorted nodes → IsSorted kept)))

IsWithoutFirst-here :
    (t : ℕ) (a : AttrNode) (rest : List AttrNode)
    → (a.type == t) ≡ true
    → IsWithoutFirst t (a ∷ rest) rest
IsWithoutFirst-here t a rest same u = elim (Bool-cases (u == t)) [
  | inl this ↦ let here : (a.type == u) ≡ true = ground arith in rw (this, here) refl
  | inr that ↦ let elsewhere : (a.type == u) ≡ false = ground arith in rw (that, elsewhere) refl
]

IsWithoutFirst-later :
    (t : ℕ) (a : AttrNode) (rest kept : List AttrNode)
    → (a.type == t) ≡ false
    → IsWithoutFirst t rest kept
    → IsWithoutFirst t (a ∷ rest) (a ∷ kept)
IsWithoutFirst-later t a rest kept other h u = elim (Bool-cases (a.type == u)) [
  | inl here ↦
      let that : (u == t) ≡ false = ground arith in
      let later = h u in rw (here, that) (ap (λ l. a ∷ l) (later ∙ rw that refl))
  | inr elsewhere ↦ rw elsewhere (h u)
]

remove_attr_lem :
    (t : ℕ) (nodes : List AttrNode)
    → ((remove_attr nodes t ≡ none) × (find_attr nodes t ≡ none))
      ⊎ ((kept : List AttrNode) × ((remove_attr nodes t ≡ some kept)
            × (((a : AttrNode) × (find_attr nodes t ≡ some a)) × IsRemoval t nodes kept)))
unfolding remove_attr find_attr
remove_attr_lem t [] = inl (refl, refl)
remove_attr_lem t (a ∷ rest) = elim (Bool-cases (a.type == t)) [
  | inl same ↦ inr (
    rest,
    (
      rw (same, remove_attr) refl,
      (
        (a, rw (same, find_attr) refl),
        (omega arith, (IsWithoutFirst-here t a rest same, (λ P ps. ps.1, λ sorted. sorted.1))),
      ),
    ),
  )
  | inr other ↦ elim (remove_attr_lem t rest) [
    | inl (gone, lost) ↦ inl (rw (other, gone, remove_attr) refl, rw (other, lost, find_attr) refl)
    | inr (kept, (gone, ((b, found), (count, (without, (every, sorts)))))) ↦ inr (
      a ∷ kept,
      (
        rw (other, gone, remove_attr) refl,
        (
          (b, rw (other, found, find_attr) refl),
          (
            omega arith,
            (
              IsWithoutFirst-later t a rest kept other without,
              (
                λ P ps. (ps.0, every P ps.1),
                λ sorted. (every (λ b. a.type ≤ b.type) sorted.0, sorts sorted.1),
              ),
            ),
          ),
        ),
      ),
    )
  ]
]

-- On a valid response, which is sorted by type and counts its nodes, response_insert keeps both and
-- puts the new attribute behind those of its type; those of the other types stay as they are.
pub response_insert_lem :
    (type n : ℕ) (value : List ℕ) (r : Response)
    → IsValid r
    → IsValid (response_insert type value n r)
      × ((t : ℕ)
          → of_type t (response_insert type value n r).head
            ≡ of_type t r.head
              ++ (if type == t
                  then record { type = type; value = take n value; length = n } ∷ []
                  else []))
unfolding response_insert
response_insert_lem type n value r (sorted, count) =
    let a : AttrNode = record { type = type; value = take n value; length = n } in
    let grown = length-insert_attr a r.head in
    (
      (insert_attr-IsSorted a r.head sorted, omega arith),
      λ t. of_type-insert_attr t a r.head sorted,
    )

drop-none {ℓ} : {A : Type ℓ} (xs : List A) → get_elem? xs 0 ≡ none → xs ≡ drop 1 xs
drop-none [] h = refl
drop-none (x ∷ xs) h = absurd (ground arith)

IsWithoutFirst-none :
    (t : ℕ) (nodes : List AttrNode) → find_attr nodes t ≡ none → IsWithoutFirst t nodes nodes
IsWithoutFirst-none t nodes h u = elim (Bool-cases (u == t)) [
  | inl this ↦
      let same : u ≡ t = ground arith in
      rw (this, same) (drop-none (of_type t nodes) (sym (find_attr-of_type t nodes) ∙ h))
  | inr that ↦ rw that refl
]

-- On a valid response response_find returns the first attribute of a type, and response_remove removes
-- just that one, keeps the response valid, and returns whether there was one.
pub response_remove_lem :
    (type : ℕ) (r : Response)
    → IsValid r
    → let after = response_remove type r in
      (response_find r type ≡ get_elem? (of_type type r.head) 0)
      × (((after.0 ≡ false) × (response_find r type ≡ none)
            ⊎ ((after.0 ≡ true) × ((a : AttrNode) × (response_find r type ≡ some a))))
          × (IsValid after.1 × IsWithoutFirst type r.head after.1.head))
unfolding response_remove response_find
response_remove_lem type r (sorted, count) = elim (remove_attr_lem type r.head) [
  | inl (gone, lost) ↦ (
    find_attr-of_type type r.head,
    rw (gone, response_remove)
        (inl (refl, lost), ((sorted, count), IsWithoutFirst-none type r.head lost)),
  )
  | inr (kept, (gone, (found, (less, (without, (every, sorts)))))) ↦ (
    find_attr-of_type type r.head,
    rw (gone, response_remove) (inr (refl, found), ((sorts sorted, omega arith), without)),
  )
]
