-- ===== src/Tasklib/Reading/Answers.antt =====
-- What an application gets from read_response of master/tasklib/tenetAPI.c for a packet.
use tenet_t.Prelude.{
  ℕ, ◌+◌, ◌*◌, ◌≤◌, ◌<◌, ◌≡◌, refl, sym, ap, ◌∙◌, ◌≢◌, ◌⊎◌, inl, inr, false, none, some, List, [],
  ◌∷◌, ◌++◌, map, append-nil, append_assoc, arith, ltb, ◌==◌, if◌then◌else◌, Bool-cases, length,
  take, take_all, u16_mod, u8_mod, Fault, ok, fault, All,
}
use tenet_t.Trd.Msg.{low, high}
use tenet_t.Transport.Routing.{u16_at}
use tenet_t.Tasklib.Response.{AttrNode, Response, response_create, response_insert}
use tenet_t.Tasklib.Response.Order.{of_type, IsValid, response_insert_lem}
use tenet_t.Tasklib.Reading.{
  data_words, read_attrs, check_error_response, error_attribute, ErrorReport, answered, mote_error,
  read_response,
}
use tenet_t.Tasklib.Reading.Attrs.{
  Attr, IsAttr, encode_attrs, attr_node, insert_attrs, length-data_words, data_words_lem,
  read_attrs-encode_attrs, read_attrs-whole,
}

-- A list that is valid, of the task and the mote, with each type's attributes in the packet's order.
abbrev pub Holds : ℕ → ℕ → List Attr → Response → Type 0
Holds tid addr attrs r =
    IsValid r
    × ((r.tid ≡ tid)
        × ((r.mote_addr ≡ addr) × ((t : ℕ) → of_type t r.head ≡ of_type t (map attr_node attrs))))

of_type-append :
    (t : ℕ) (xs : List AttrNode) (a : AttrNode)
    → of_type t (a ∷ xs) ≡ (if a.type == t then a ∷ [] else []) ++ of_type t xs
of_type-append t xs a = elim (Bool-cases (a.type == t)) [
  | inl this ↦ rw this refl
  | inr other ↦ rw other refl
]

insert_attrs_lem :
    (attrs : List Attr) (r : Response)
    → IsValid r
    → IsValid (insert_attrs attrs r)
      × (((insert_attrs attrs r).tid ≡ r.tid)
          × (((insert_attrs attrs r).mote_addr ≡ r.mote_addr)
              × ((t : ℕ)
                  → of_type t (insert_attrs attrs r).head
                    ≡ of_type t r.head ++ of_type t (map attr_node attrs))))
unfolding insert_attrs response_insert
insert_attrs_lem [] r valid = (valid, (refl, (refl, λ t. sym (append-nil (of_type t r.head)))))
insert_attrs_lem (a ∷ rest) r valid =
    let words = data_words a.value in
    let n = length words in
    let first = response_insert_lem a.type n words r valid in
    let later = insert_attrs_lem rest (response_insert a.type words n r) first.0 in
    let full : take n words ≡ words = take_all n words (omega arith) in
    let node : AttrNode = record { type = a.type; value = take n words; length = n } in
    let same : node ≡ attr_node a =
      rw (full, length-data_words a.value, data_words_lem a.value) refl in
    let step : (t : ℕ)
        → of_type t (response_insert a.type words n r).head
          ≡ of_type t r.head ++ (if a.type == t then attr_node a ∷ [] else []) =
      λ t. first.1 t ∙ ap (λ k. of_type t r.head ++ (if a.type == t then k ∷ [] else [])) same in
    let regroup : (t : ℕ)
        → of_type t r.head
            ++ (if a.type == t then attr_node a ∷ [] else [])
            ++ of_type t (map attr_node rest)
          ≡ of_type t r.head ++ of_type t (map attr_node (a ∷ rest)) =
      λ t. rw (append_assoc, of_type-append t (map attr_node rest) (attr_node a)) refl in
    (
      later.0,
      (
        later.1.0,
        (
          later.1.1.0,
          λ t. later.1.1.1 t ∙ ap (λ k. k ++ of_type t (map attr_node rest)) (step t) ∙ regroup t,
        ),
      ),
    )

not_error :
    (a : Attr) (bytes : List ℕ)
    → a.type < u16_mod
    → a.type ≢ error_attribute
    → check_error_response (low a.type ∷ high a.type ∷ bytes) ≡ ok none
unfolding check_error_response
not_error a bytes h other =
    let type : high a.type * u8_mod + low a.type ≡ a.type = omega arith in
    let test : (a.type == error_attribute) ≡ false = ground arith in rw (type, test) refl

-- Of a packet of one attribute or more, the first of which is not an error, read_response gives a valid
-- list, sorted by type, that has each type's attributes in the packet's order, each with its bytes in
-- pairs and one word for an odd last byte.
pub read_response_lem :
    (tid addr : ℕ) (a : Attr) (rest : List Attr)
    → All IsAttr (a ∷ rest)
    → a.type ≢ error_attribute
    → (r : Response) × ((read_response tid addr (encode_attrs (a ∷ rest)) ≡ ok (answered r))
        × Holds tid addr (a ∷ rest) r)
unfolding read_response
read_response_lem tid addr a rest every other =
    let attrs = a ∷ rest in
    let empty = response_create tid addr in
    let tail : List ℕ =
      low (length a.value) ∷ high (length a.value) ∷ (a.value ++ encode_attrs rest) in
    let read =
      read_attrs-encode_attrs (length (encode_attrs attrs)) attrs empty (omega arith) every in
    let lists = insert_attrs_lem attrs empty (tt, refl) in
    (insert_attrs attrs empty, (rw (not_error a tail every.0.0 other, read) refl, lists))

-- What the error report of a packet says.
abbrev pub report_of : List ℕ → ErrorReport
report_of packet = record {
  err_code = u16_at packet 4;
  err_loc = u16_at packet 6;
  err_loc2 = u16_at packet 8;
}

error_or_not :
    (packet : List ℕ)
    → ((u16_at packet 0 ≡ error_attribute)
        × (check_error_response packet ≡ ok (some (report_of packet))))
      ⊎ (((u16_at packet 0 ≢ error_attribute) × (check_error_response packet ≡ ok none))
          ⊎ (check_error_response packet ≡ fault Fault.out_of_bounds))
unfolding check_error_response
error_or_not [] = inr (inr refl)
error_or_not (t ∷ []) = inr (inr refl)
error_or_not (t ∷ t' ∷ bytes) = elim (Bool-cases (t' * u8_mod + t == error_attribute)) [
  | inr other ↦ inr (inl (ground arith, rw other refl))
  | inl error ↦ elim (Bool-cases (ltb (length bytes) 8)) [
    | inl short ↦ inr (inr (rw (error, short) refl))
    | inr long ↦ inl (ground arith, rw (error, long) refl)
  ]
]

-- On every packet of bytes read_response does one of three things: if the packet does not start with an
-- error's type, it gives the list of the attributes that make up the packet; if it does, it gives
-- MOTE_ERROR with the report in the packet; or it reads behind the packet's end.
pub read_response_cases :
    (tid addr : ℕ) (packet : List ℕ)
    → All (λ b. b < u8_mod) packet
    → ((u16_at packet 0 ≢ error_attribute)
        × ((attrs : List Attr) × ((packet ≡ encode_attrs attrs)
              × (All IsAttr attrs
                  × ((r : Response) × ((read_response tid addr packet ≡ ok (answered r))
                        × Holds tid addr attrs r))))))
      ⊎ (((u16_at packet 0 ≡ error_attribute)
            × (read_response tid addr packet ≡ ok (mote_error (report_of packet))))
          ⊎ (read_response tid addr packet ≡ fault Fault.out_of_bounds))
unfolding read_response
read_response_cases tid addr packet every = elim (error_or_not packet) [
  | inl (type, error) ↦ inr (inl (type, rw error refl))
  | inr (inr short) ↦ inr (inr (rw short refl))
  | inr (inl (other, fine)) ↦
      let empty = response_create tid addr in
      elim (read_attrs-whole (length packet) packet empty (omega arith) every) [
        | inr beyond ↦ inr (inr (rw (fine, beyond) refl))
        | inl (attrs, (whole, all)) ↦
            let n = length packet in
            let size : length (encode_attrs attrs) ≤ n = rw whole (omega arith) in
            let read : read_attrs n packet empty ≡ ok (insert_attrs attrs empty) =
              ap (λ p. read_attrs n p empty) whole
              ∙ read_attrs-encode_attrs n attrs empty size all in
            inl (
              other,
              (
                attrs,
                (
                  whole,
                  (
                    all,
                    (
                      insert_attrs attrs empty,
                      (rw (fine, read) refl, insert_attrs_lem attrs empty (tt, refl)),
                    ),
                  ),
                ),
              ),
            )
      ]
]
