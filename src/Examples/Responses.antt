-- ===== src/Examples/Responses.antt =====
-- Responses of master/tasklib at concrete inputs.
use tenet_t.Prelude.{
  ℕ, ◌≡◌, refl, ◌⊎◌, true, false, none, some, [], ◌∷◌, ◌++◌, arith, ◌==◌, if◌then◌else◌, get_elem?,
}
use tenet_t.Tasklib.Response.{AttrNode, Response, response_insert, response_find, response_remove}
use tenet_t.Tasklib.Response.Order.{
  of_type, IsValid, IsWithoutFirst, response_insert_lem, response_remove_lem,
}

abbrev attr : ℕ → ℕ → AttrNode
attr type v = record { type = type; value = v ∷ []; length = 1 }

-- Two attributes of type 3 between one of type 2 and one of type 7.
abbrev four : Response
four = record {
  head = attr 2 10 ∷ attr 3 20 ∷ attr 3 30 ∷ attr 7 40 ∷ [];
  length = 4;
  tid = 5;
  mote_addr = 9;
}

four-IsValid : IsValid four
four-IsValid = (
  (
    (omega arith, (omega arith, (omega arith, tt))),
    ((omega arith, (omega arith, tt)), ((omega arith, tt), (tt, tt))),
  ),
  refl,
)

insert_before_seven :
    (response_insert 5 (50 ∷ 60 ∷ []) 1 four).head
    ≡ attr 2 10 ∷ attr 3 20 ∷ attr 3 30 ∷ attr 5 50 ∷ attr 7 40 ∷ []
unfolding response_insert
insert_before_seven = refl

response_insert_lem_example :
    IsValid (response_insert 3 (50 ∷ 60 ∷ []) 2 four)
    × ((t : ℕ)
        → of_type t (response_insert 3 (50 ∷ 60 ∷ []) 2 four).head
          ≡ of_type t four.head
            ++ (if 3 == t then record { type = 3; value = 50 ∷ 60 ∷ []; length = 2 } ∷ [] else []))
response_insert_lem_example = response_insert_lem 3 2 (50 ∷ 60 ∷ []) four four-IsValid

response_remove_lem_example :
    (response_find four 3 ≡ get_elem? (of_type 3 four.head) 0)
    × ((((response_remove 3 four).0 ≡ false) × (response_find four 3 ≡ none)
          ⊎ (((response_remove 3 four).0 ≡ true)
              × ((a : AttrNode) × (response_find four 3 ≡ some a))))
        × (IsValid (response_remove 3 four).1
            × IsWithoutFirst 3 four.head (response_remove 3 four).1.head))
response_remove_lem_example = response_remove_lem 3 four four-IsValid
