-- ===== src/Tasklib/Reading/Attrs.antt =====
-- What read_response of master/tasklib/tenetAPI.c makes of a packet, against the attributes in it.
use tenet_t.Prelude.{
  ℕ, zero, suc, ◌+◌, ◌*◌, ◌≤◌, ◌<◌, ◌≡◌, refl, sym, ap, ap₂, ◌∙◌, ◌⊎◌, inl, inr, false, List, [],
  ◌∷◌, ◌++◌, arith, ltb, Bool-cases, length, length-append, take, drop, take-append-drop,
  length-take, length-drop, u16_mod, u8_mod, Fault, ok, fault, All,
}
use tenet_t.Trd.Msg.{low, high}
use tenet_t.Transport.Routing.{u16_at}
use tenet_t.Tasklib.Response.{AttrNode, Response, response_insert}
use tenet_t.Tasklib.Reading.{data_words, vector_size, read_attrs}

pub record Attr : Type 0 where
  pub type : ℕ
  pub value : List ℕ

abbrev pub IsAttr : Attr → Type 0
IsAttr a = (a.type < u16_mod) × (length a.value < u16_mod)

-- attr_t in memory, one after the other.
abbrev pub encode_attrs : List Attr → List ℕ
encode_attrs [] = []
encode_attrs (a ∷ rest) =
    low a.type
    ∷ high a.type
    ∷ low (length a.value)
    ∷ high (length a.value)
    ∷ (a.value ++ encode_attrs rest)

-- n words of two bytes, from the i-th on; behind the end there are zeros.
abbrev pub word_list : List ℕ → ℕ → ℕ → List ℕ
word_list bytes i zero = []
word_list bytes i (suc n) = u16_at bytes (2 * i) ∷ word_list bytes (suc i) n

word_list-next :
    (b c : ℕ) (bytes : List ℕ) (i n : ℕ) → word_list (b ∷ c ∷ bytes) (suc i) n ≡ word_list bytes i n
word_list-next b c bytes i zero = refl
word_list-next b c bytes i (suc n) =
    let two : 2 * suc i ≡ suc (suc (2 * i)) = omega arith in
    let three : 2 * suc i + 1 ≡ suc (suc (2 * i + 1)) = omega arith in
    let here : u16_at (b ∷ c ∷ bytes) (2 * suc i) ≡ u16_at bytes (2 * i) = rw (three, two) refl in
    ap₂ (λ x rest. x ∷ rest) here (word_list-next b c bytes (suc i) n)

pub data_words_lem :
    (bytes : List ℕ) → data_words bytes ≡ word_list bytes 0 (vector_size (length bytes))
unfolding data_words
data_words_lem [] = refl
data_words_lem (b ∷ []) = let one : b ≡ 0 + b = omega arith in ap (λ x. x ∷ []) one
data_words_lem (b ∷ c ∷ bytes) =
    let n = vector_size (length bytes) in
    let size : vector_size (suc (suc (length bytes))) ≡ suc n = omega arith in
    let later : data_words bytes ≡ word_list (b ∷ c ∷ bytes) 1 n =
      data_words_lem bytes ∙ sym (word_list-next b c bytes 0 n) in
    rw (size, later) refl

-- The node that an attribute becomes.
abbrev pub attr_node : Attr → AttrNode
attr_node a = record {
  type = a.type;
  value = word_list a.value 0 (vector_size (length a.value));
  length = vector_size (length a.value);
}

-- Every byte of a value goes into the vector, and the vector is full.
pub length-data_words : (bytes : List ℕ) → length (data_words bytes) ≡ vector_size (length bytes)
unfolding data_words
length-data_words [] = refl
length-data_words (b ∷ []) = refl
length-data_words (b ∷ c ∷ bytes) = omega (arith, length-data_words bytes)

-- The attributes inserted one by one.
unfoldable pub insert_attrs : List Attr → Response → Response
insert_attrs [] r = r
insert_attrs (a ∷ rest) r =
    let words = data_words a.value in
    insert_attrs rest (response_insert a.type words (length words) r)

pub take-append : (xs ys : List ℕ) → take (length xs) (xs ++ ys) ≡ xs
take-append [] ys = refl
take-append (x ∷ xs) ys = rw (take-append xs ys)

drop-append : (xs ys : List ℕ) → drop (length xs) (xs ++ ys) ≡ ys
drop-append [] ys = refl
drop-append (x ∷ xs) ys = drop-append xs ys

high-low : (n : ℕ) → n < u16_mod → high n * u8_mod + low n ≡ n
high-low n h = omega arith

pub read_attrs-encode_attrs :
    (fuel : ℕ) (attrs : List Attr) (r : Response)
    → length (encode_attrs attrs) ≤ fuel
    → All IsAttr attrs
    → read_attrs fuel (encode_attrs attrs) r ≡ ok (insert_attrs attrs r)
unfolding read_attrs insert_attrs
read_attrs-encode_attrs fuel [] r h every = refl
read_attrs-encode_attrs zero (a ∷ rest) r h every = absurd (omega arith)
read_attrs-encode_attrs (suc fuel) (a ∷ rest) r h (ha, every) =
    let n = length a.value in
    let whole : high n * u8_mod + low n ≡ n = high-low n ha.1 in
    let type : high a.type * u8_mod + low a.type ≡ a.type = high-low a.type ha.0 in
    let total = length-append a.value (encode_attrs rest) in
    let fits : ltb (length (a.value ++ encode_attrs rest)) n ≡ false = ground arith in
    let words = data_words a.value in
    rw
      (
        whole,
        type,
        fits,
        take-append a.value (encode_attrs rest),
        drop-append a.value (encode_attrs rest),
      )
      (read_attrs-encode_attrs fuel rest (response_insert a.type words (length words) r)
        (omega arith) every)

encode_attrs-cons :
    (t t' n n' : ℕ) (bytes : List ℕ) (rest : List Attr)
    → (t < u8_mod) × ((t' < u8_mod) × ((n < u8_mod) × (n' < u8_mod)))
    → n' * u8_mod + n ≤ length bytes
    → drop (n' * u8_mod + n) bytes ≡ encode_attrs rest
    → All IsAttr rest
    → (attrs : List Attr) × ((t ∷ t' ∷ n ∷ n' ∷ bytes ≡ encode_attrs attrs) × All IsAttr attrs)
encode_attrs-cons t t' n n' bytes rest h fits later every =
    let len = n' * u8_mod + n in
    let a : Attr = record { type = t' * u8_mod + t; value = take len bytes } in
    let size : length (take len bytes) ≡ len = omega (arith, length-take len bytes) in
    let split : take len bytes ++ encode_attrs rest ≡ bytes =
      ap (λ k. take len bytes ++ k) (sym later) ∙ take-append-drop len bytes in
    let t0 : low (t' * u8_mod + t) ≡ t = omega arith in
    let t1 : high (t' * u8_mod + t) ≡ t' = omega arith in
    let n0 : low (n' * u8_mod + n) ≡ n = omega arith in
    let n1 : high (n' * u8_mod + n) ≡ n' = omega arith in
    (a ∷ rest, (rw (size, split, t0, t1, n0, n1) refl, ((omega arith, omega arith), every)))

All-drop :
    (n : ℕ) (bytes : List ℕ) → All (λ b. b < u8_mod) bytes → All (λ b. b < u8_mod) (drop n bytes)
All-drop zero bytes every = every
All-drop (suc n) [] every = tt
All-drop (suc n) (b ∷ bytes) every = All-drop n bytes every.1

-- Bytes that are not whole attributes are read behind their end.
pub read_attrs-whole :
    (fuel : ℕ) (bytes : List ℕ) (r : Response)
    → length bytes ≤ fuel
    → All (λ b. b < u8_mod) bytes
    → ((attrs : List Attr) × ((bytes ≡ encode_attrs attrs) × All IsAttr attrs))
      ⊎ (read_attrs fuel bytes r ≡ fault Fault.out_of_bounds)
unfolding read_attrs
read_attrs-whole fuel [] r h every = inl ([], (refl, tt))
read_attrs-whole zero (b ∷ bytes) r h every = absurd (omega arith)
read_attrs-whole (suc fuel) (t ∷ []) r h every = inr refl
read_attrs-whole (suc fuel) (t ∷ t' ∷ []) r h every = inr refl
read_attrs-whole (suc fuel) (t ∷ t' ∷ n ∷ []) r h every = inr refl
read_attrs-whole (suc fuel) (t ∷ t' ∷ n ∷ n' ∷ bytes) r h (h0, (h1, (h2, (h3, every)))) =
    let len = n' * u8_mod + n in
    let words = data_words (take len bytes) in
    elim (Bool-cases (ltb (length bytes) len)) [
      | inl cut ↦ inr (rw cut refl)
      | inr fits ↦
          elim (read_attrs-whole fuel (drop len bytes)
            (response_insert (t' * u8_mod + t) words (length words) r)
            (omega (arith, length-drop len bytes)) (All-drop len bytes every)) [
              | inl (rest, (later, all)) ↦ inl (
                  encode_attrs-cons t t' n n' bytes rest (h0, (h1, (h2, h3))) (ground arith) later
                    all)
              | inr beyond ↦ inr (rw fits beyond)
            ]
    ]
