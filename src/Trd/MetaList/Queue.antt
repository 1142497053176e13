-- ===== src/Trd/MetaList/Queue.antt =====
-- The circular array of mote/lib/trd/trd_metalist.c as a bounded queue without duplicates.
use tenet_t.Prelude.{
  ℕ, zero, suc, ◌+◌, ◌-◌, ◌%◌, ◌≤◌, ◌<◌, ◌≡◌, refl, sym, ap, ap₂, ◌∙◌, ◌≢◌, ◌↔◌, ◌⊎◌, inl, inr,
  false, none, some, List, [], ◌∷◌, ◌++◌, arith, ltb, ◌==◌, if◌then◌else◌, Bool-cases, Option-cases,
  length, set, length-set, get_or, u8_mod, All, All-append, get_or-set_self, get_or-set_ne,
}
use tenet_t.Trd.MetaList.{
  MetaListEntry, MetaList, no_meta, wrap, find_item, metalist_find_index, metalist_is_in_list,
  metalist_insert, store_item, metalist_delete_first, metalist_get_first,
}

-- The place `k` steps after `i` in a circle of `max` places.
abbrev pub place : ℕ → ℕ → ℕ → ℕ
place max i k = if ltb (i + k) max then i + k else i + k - max

-- The `n` pairs from place `i` on.
unfoldable pub window : ℕ → List MetaListEntry → ℕ → ℕ → List MetaListEntry
window max items i zero = []
window max items i (suc n) = get_or items i no_meta ∷ window max items (wrap max i) n

-- The pairs in the list, oldest first.
abbrev pub contents : MetaList → List MetaListEntry
contents l = window l.max_size l.item l.tail_p l.length

abbrev pub Missing : ℕ → ℕ → List MetaListEntry → Type 0
Missing origin q = All (λ (e : MetaListEntry). ¬ ((e.origin ≡ origin) × (e.seqno ≡ q)))

abbrev pub NoDup : List MetaListEntry → Type 0
NoDup [] = Unit
NoDup (e ∷ es) = Missing e.origin e.seqno es × NoDup es

pub record IsValid (l : MetaList) : Type 0 where
  pub room : l.max_size ≤ length l.item
  pub some_place : 0 < l.max_size
  pub byte : l.max_size < u8_mod
  pub tail_in : l.tail_p < l.max_size
  pub fits : l.length ≤ l.max_size
  pub head_at : l.head_p ≡ place l.max_size l.tail_p l.length
  pub distinct : NoDup (contents l)

module _ (max : ℕ) (byte : max < u8_mod) where
  wrap-place : (i k : ℕ) → i < max → k < max → place max (wrap max i) k ≡ place max i (suc k)
  wrap-place i k hi hk = ground arith

  wrap-lt : (i : ℕ) → i < max → wrap max i < max
  wrap-lt i hi = ground arith

  wrap-ne-place : (i k : ℕ) → i < max → 0 < k → k < max → wrap max i ≢ place max i (suc k)
  wrap-ne-place i k hi hk hm = ground arith

  place-ne : (i k : ℕ) → i < max → 0 < k → k < max → place max i k ≢ i
  place-ne i k hi hk hm = ground arith

  -- A write at the place behind a window makes it one pair longer.
  window-set :
      (items : List MetaListEntry) (v : MetaListEntry) (n i h : ℕ)
      → max ≤ length items
      → i < max
      → n < max
      → h ≡ place max i n
      → window max (set items h v) i (suc n) ≡ window max items i n ++ (v ∷ [])
  unfolding window
  window-set items v zero i h hl hi hn e =
      let e' : h ≡ i = ground arith in
      rw e' (ap (λ x. x ∷ []) (get_or-set_self items i v no_meta (omega arith)))
  window-set items v (suc n) i h hl hi hn e =
      ap₂ ◌∷◌ (get_or-set_ne items h i v no_meta (rw e (place-ne i (suc n) hi (omega arith) hn))) (
        window-set items v n (wrap max i) h hl (wrap-lt i hi) (omega arith)
          (e ∙ sym (wrap-place i n hi (omega arith))))

  module _ (items : List MetaListEntry) (origin q : ℕ) where
    IsMatch : ℕ → Type 0
    IsMatch i = ((get_or items i no_meta).origin ≡ origin) × ((get_or items i no_meta).seqno ≡ q)

    IsMatch-cases :
        (n h i : ℕ)
        → (IsMatch i × (find_item (suc n) max h items origin q i ≡ some i))
          ⊎ ((¬ IsMatch i)
              × (find_item (suc n) max h items origin q i ≡ (
                  if wrap max i == h then none else find_item n max h items origin q (wrap max i))))
    unfolding find_item IsMatch
    IsMatch-cases n h i = elim (Bool-cases ((get_or items i no_meta).origin == origin)) [
      | inl t ↦ elim (Bool-cases ((get_or items i no_meta).seqno == q)) [
        | inl u ↦ inl ((ground arith, ground arith), ground arith)
        | inr u ↦ inr ((λ m. ground arith), ground arith)
      ]
      | inr t ↦ inr ((λ m. ground arith), ground arith)
    ]

    -- The search finds nothing exactly when the window has no such pair.
    find_item-none :
        (k n i h : ℕ)
        → i < max
        → k < max
        → k < n
        → h ≡ place max i (suc k)
        → (find_item n max h items origin q i ≡ none)
          ↔ Missing origin q (window max items i (suc k))
    unfolding window IsMatch
    find_item-none zero (suc n) i h hi hk hn e = elim (IsMatch-cases n h i) [
      | inl (m, found) ↦ ((λ c. absurd (ground arith)), (λ c. absurd (c.0 m)))
      | inr (m, rest) ↦ ((λ c. (m, tt)), (λ c. ground arith))
    ]
    find_item-none (suc k) (suc n) i h hi hk hn e =
        let e' : h ≡ place max (wrap max i) (suc k) = e ∙ sym (wrap-place i (suc k) hi hk) in
        let ih = find_item-none k n (wrap max i) h (wrap-lt i hi) (omega arith) (omega arith) e' in
        let ne : wrap max i ≢ h = rw e (wrap-ne-place i (suc k) hi (omega arith) hk) in
        elim (IsMatch-cases n h i) [
          | inl (m, found) ↦ ((λ c. absurd (ground arith)), (λ c. absurd (c.0 m)))
          | inr (m, rest) ↦ ((λ c. (m, ih.0 (ground arith))), (λ c. ground (arith, ih.1 c.1)))
        ]
    find_item-none k zero i h hi hk hn e = absurd (omega arith)

NoDup-append :
    (es : List MetaListEntry) (e : MetaListEntry)
    → NoDup es
    → Missing e.origin e.seqno es
    → NoDup (es ++ (e ∷ []))
NoDup-append [] e d m = (tt, tt)
NoDup-append (f ∷ es) e d m = (
  All-append (λ (x : MetaListEntry). ¬ ((x.origin ≡ f.origin) × (x.seqno ≡ f.seqno))) es (e ∷ [])
      d.0 ((λ c. m.0 (sym c.0, sym c.1)), tt),
  NoDup-append es e d.1 m.1,
)

find-window :
    (max n head tail origin q : ℕ) (items : List MetaListEntry)
    → max < u8_mod
    → tail < max
    → n ≤ max
    → head ≡ place max tail n
    → ((if n == 0 then none else find_item max max head items origin q tail) ≡ none)
      ↔ Missing origin q (window max items tail n)
unfolding window
find-window max zero head tail origin q items byte ht hn e = ((λ c. tt), (λ c. refl))
find-window max (suc n) head tail origin q items byte ht hn e =
    let more : (suc n == 0) ≡ false = ground arith in
    rw more
      (find_item-none max byte items origin q n max tail head ht (omega arith) (omega arith) e)

pub find_index-none :
    (l : MetaList) (origin q : ℕ)
    → IsValid l
    → (metalist_find_index l origin q ≡ none) ↔ Missing origin q (contents l)
unfolding metalist_find_index
find_index-none l origin q v =
    find-window l.max_size l.length l.head_p l.tail_p origin q l.item v.byte v.tail_in v.fits
      v.head_at

window_of_pos :
    (max i n : ℕ) (items : List MetaListEntry)
    → 0 < n
    → window max items i n ≡ get_or items i no_meta ∷ window max items (wrap max i) (n - 1)
unfolding window
window_of_pos max i zero items h = absurd (omega arith)
window_of_pos max i (suc n) items h =
    ap (λ k. get_or items i no_meta ∷ window max items (wrap max i) k) (omega arith)

window_of_zero : (max i n : ℕ) (items : List MetaListEntry) → n ≡ 0 → window max items i n ≡ []
unfolding window
window_of_zero max i zero items h = refl
window_of_zero max i (suc n) items h = absurd (omega arith)

module _ (l : MetaList) (v : IsValid l) where
  -- On a valid list metalist_isInList answers 0 exactly when the pair is not in the list.
  pub metalist_is_in_list-contents :
      (origin q : ℕ) → (metalist_is_in_list l origin q ≡ false) ↔ Missing origin q (contents l)
  unfolding metalist_is_in_list
  metalist_is_in_list-contents origin q =
      let f = find_index-none l origin q v in
      elim (Option-cases (metalist_find_index l origin q)) [
        | inl e ↦ ((λ c. f.0 e), (λ c. rw (e, metalist_is_in_list)))
        | inr (i, e) ↦ ((λ c. absurd (ground arith)), (λ c. absurd (ground (arith, f.1 c))))
      ]

  -- On a valid list with room, metalist_insert puts a pair that is missing behind the others, and
  -- the list stays valid.
  pub metalist_insert_lem :
      (origin q : ℕ)
      → Missing origin q (contents l)
      → l.length < l.max_size
      → (contents (metalist_insert l origin q)
          ≡ contents l ++ (record { origin = origin; seqno = q } ∷ []))
        × IsValid (metalist_insert l origin q)
  metalist_insert_lem origin q m lt =
      let e : MetaListEntry = record { origin = origin; seqno = q } in
      let stored : metalist_insert l origin q ≡ store_item l origin q =
        unfold metalist_insert in ground (arith, (find_index-none l origin q v).1 m) in
      let byte : (l.length + 1) % u8_mod ≡ suc l.length = omega (arith, v.byte) in
      let longer : contents (store_item l origin q) ≡ contents l ++ (e ∷ []) = rw byte (
        window-set l.max_size v.byte l.item e l.length l.tail_p l.head_p v.room v.tail_in lt
          v.head_at) in
      rw stored (
        longer,
        record {
          room = omega (arith, length-set l.item l.head_p e, v.room);
          some_place = v.some_place;
          byte = v.byte;
          tail_in = v.tail_in;
          fits = omega (arith, byte);
          head_at = ground (arith, v.head_at, v.byte, v.tail_in);
          distinct = rw longer (NoDup-append (contents l) e v.distinct m);
        },
      )

  -- On a valid list metalist_deleteFirst returns NULL if it is empty, and otherwise takes the
  -- oldest pair, the one that metalist_getFirst shows, and leaves a valid list of the others.
  pub metalist_delete_first_lem :
      ((metalist_delete_first l ≡ (l, none)) × (metalist_get_first l ≡ none) × (contents l ≡ []))
      ⊎ ((e : MetaListEntry) × (l' : MetaList) × (metalist_delete_first l ≡ (l', some e))
          × (metalist_get_first l ≡ some e)
          × (contents l ≡ e ∷ contents l')
          × IsValid l')
  unfolding metalist_delete_first metalist_get_first
  metalist_delete_first_lem = elim (Bool-cases (l.length == 0)) [
    | inl z ↦ inl (
      ground arith,
      ground arith,
      window_of_zero l.max_size l.tail_p l.length l.item (ground arith),
    )
    | inr p ↦
        let l' : MetaList = record l { tail_p = wrap l.max_size l.tail_p; length = l.length - 1 } in
        let e : MetaListEntry = get_or l.item l.tail_p no_meta in
        let front : contents l ≡ e ∷ contents l' =
          window_of_pos l.max_size l.tail_p l.length l.item (ground arith) in
        let d : NoDup (e ∷ contents l') = rw front at v.distinct in
        inr (
          e,
          l',
          ground arith,
          ground arith,
          front,
          record {
            room = v.room;
            some_place = v.some_place;
            byte = v.byte;
            tail_in = wrap-lt l.max_size v.byte l.tail_p v.tail_in;
            fits = omega (arith, v.fits);
            head_at = ground (arith, v.head_at, v.byte, v.tail_in, v.fits);
            distinct = d.1;
          },
        )
  ]
