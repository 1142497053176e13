-- ===== src/Tasklib/Reading.antt =====
-- read_response of master/tasklib/tenetAPI.c and check_error_response of master/tasklib/task_error.c, on a
-- packet that the transport layer handed over. Waiting for it, and what is printed, have no model, and
-- memory does not run out. A read behind the packet's last byte is a fault.
pub mod Attrs
pub mod Answers
use tenet_t.Prelude.{
  ℕ, zero, suc, ◌+◌, ◌-◌, ◌*◌, ◌/◌, ◌%◌, ◌^◌, ◌≤◌, ◌<◌, min, Ordering, ◌≡◌, refl, sym, ap, ap₂, ◌∙◌,
  ◌≢◌, ◌↔◌, ◌⊎◌, inl, inr, Bool, true, false, not, ◌&&◌, ◌||◌, Option, none, some, List, [], ◌∷◌,
  ◌++◌, map, append-nil, append_assoc, arith, ltb, leb, ◌==◌, if◌then◌else◌, ltb→lt, lt→ltb, leb→le,
  ==_iff, Bool-cases, Option-cases, length, get_elem?, set, length-append, length-set, get_or, take,
  drop, replicate, take-append-drop, length-take, length-drop, length-replicate, length-map,
  take_all, u16_mod, u8_mod, Fault, Run, ok, fault, ◌>>=◌, All, All-append, All-set, All-take,
  All-get_or, All-replicate, All-mono, All-map, take-set_below, take-set_next, get_or-take,
  get_or-set_self, get_or-set_ne, take-set_above, set_outside, take-take, Run-cases,
}
use tenet_t.Transport.Routing.{u16_at}
use tenet_t.Tasklib.Response.{Response, response_create, response_insert}

-- The datavector: two bytes an item, and one of an odd number's last byte.
unfoldable pub data_words : List ℕ → List ℕ
data_words [] = []
data_words (b ∷ []) = b ∷ []
data_words (b ∷ c ∷ bytes) = (c * u8_mod + b) ∷ data_words bytes

-- The items that malloc makes room for.
abbrev pub vector_size : ℕ → ℕ
vector_size n = n / 2 + n % 2

-- The loop over the attributes, from the byte at `offset` on.
unfoldable pub read_attrs : ℕ → List ℕ → Response → Run Response
unfolding data_words
read_attrs fuel [] r = ok r
read_attrs zero (b ∷ bytes) r = fault Fault.hang
read_attrs (suc fuel) (t ∷ t' ∷ n ∷ n' ∷ bytes) r =
    let len = n' * u8_mod + n in
    let words = data_words (take len bytes) in
    let later =
      read_attrs fuel (drop len bytes) (response_insert (t' * u8_mod + t) words (length words) r) in
    if ltb (length bytes) len then fault Fault.out_of_bounds else later
read_attrs (suc fuel) (t ∷ []) r = fault Fault.out_of_bounds
read_attrs (suc fuel) (t ∷ t' ∷ []) r = fault Fault.out_of_bounds
read_attrs (suc fuel) (t ∷ t' ∷ n ∷ []) r = fault Fault.out_of_bounds

-- error_report_t.
pub record ErrorReport : Type 0 where
  pub err_code : ℕ
  pub err_loc : ℕ
  pub err_loc2 : ℕ

abbrev pub error_attribute : ℕ
error_attribute = 1

-- What is left in last_err_code, last_err_loc and last_err_loc2, if the packet starts with an error.
unfoldable pub check_error_response : List ℕ → Run (Option ErrorReport)
check_error_response (t ∷ t' ∷ bytes) =
    let report : ErrorReport = record {
      err_code = u16_at bytes 2;
      err_loc = u16_at bytes 4;
      err_loc2 = u16_at bytes 6;
    } in
    if t' * u8_mod + t == error_attribute
    then (if ltb (length bytes) 8 then fault Fault.out_of_bounds else ok (some report))
    else ok none
check_error_response _ = fault Fault.out_of_bounds

-- What read_response leaves: a list, or NULL with MOTE_ERROR in tenetErrorCode.
pub data Answer : Type 0 where
  answered : Response → Answer
  mote_error : ErrorReport → Answer

unfoldable pub read_response : ℕ → ℕ → List ℕ → Run Answer
unfolding check_error_response read_attrs
read_response tid addr packet = check_error_response packet >>= λ r. elim r [
  | some report ↦ ok (mote_error report)
  | none ↦
      read_attrs (length packet) packet (response_create tid addr) >>= λ list. ok (answered list)
]
