-- ===== src/Timeval/Order.antt =====
-- The times of master/include/timeval.c against numbers of microseconds.
use tenet_t.Prelude.{
  ℕ, ◌+◌, ◌-◌, ◌*◌, ◌%◌, ◌<◌, ◌≡◌, ◌↔◌, ◌⊎◌, inl, inr, none, some, arith, ltb, Bool-cases,
}
use Prim.Native.Nat.{compare}
use tenet_t.Timeval.{
  Timeval, compare_timeval, subtract_timeval, add_timeval, add_ms_to_timeval, tv2ms, ms2tv,
}

abbrev pub micros : Timeval → ℕ
micros t = t.tv_sec * 1000000 + t.tv_usec

abbrev pub IsNormal : Timeval → Type 0
IsNormal t = t.tv_usec < 1000000

-- On times with less than a million microseconds compare_timeval is the order of their numbers of
-- microseconds.
compare_timeval_lem :
    (a b : Timeval) → IsNormal a → IsNormal b → compare_timeval a b ≡ compare (micros a) (micros b)
unfolding compare_timeval
compare_timeval_lem a b ha hb = ground arith

-- On times with less than a million microseconds subtract_timeval either refuses, and then `to` is
-- before `from`, or returns the span from `from` to `to`, with less than a million microseconds.
subtract_timeval_lem :
    (to from : Timeval)
    → IsNormal to
    → IsNormal from
    → ((micros to < micros from) × (subtract_timeval to from ≡ none))
      ⊎ ((d : Timeval) × (subtract_timeval to from ≡ some d)
          × (micros from + micros d ≡ micros to)
          × IsNormal d)
unfolding subtract_timeval
subtract_timeval_lem to from ht hf = elim (Bool-cases (ltb (micros to) (micros from))) [
  | inl l ↦ inl (ground arith, ground arith)
  | inr g ↦ elim (Bool-cases (ltb to.tv_usec from.tv_usec)) [
    | inl u ↦ inr (
      record {
        tv_sec = to.tv_sec - from.tv_sec - 1;
        tv_usec = to.tv_usec + 1000000 - from.tv_usec;
      },
      ground arith,
      ground arith,
      ground arith,
    )
    | inr u ↦ inr (
      record { tv_sec = to.tv_sec - from.tv_sec; tv_usec = to.tv_usec - from.tv_usec },
      ground arith,
      ground arith,
      ground arith,
    )
  ]
]

-- add_timeval adds the instants exactly. Its result is not normal exactly when the microseconds add
-- up to a million.
pub add_timeval_lem :
    (a b : Timeval)
    → IsNormal a
    → IsNormal b
    → (micros (add_timeval a b) ≡ micros a + micros b)
      × ((¬ IsNormal (add_timeval a b)) ↔ (a.tv_usec + b.tv_usec ≡ 1000000))
unfolding add_timeval
add_timeval_lem a b ha hb = (ground arith, ground arith)

-- On a time with less than a million microseconds add_ms_to_timeval adds exactly so many
-- milliseconds, and its result has a million microseconds or more exactly when the microseconds
-- of the time and of the milliseconds below a second add up to a million.
add_ms_to_timeval_lem :
    (a : Timeval) (ms : ℕ)
    → IsNormal a
    → (micros (add_ms_to_timeval a ms) ≡ micros a + ms * 1000)
      × ((¬ IsNormal (add_ms_to_timeval a ms)) ↔ (a.tv_usec + ms % 1000 * 1000 ≡ 1000000))
unfolding add_ms_to_timeval
add_ms_to_timeval_lem a ms ha = (ground arith, ground arith)

-- Milliseconds survive the way into a timeval and back.
pub tv2ms-ms2tv : (ms : ℕ) → tv2ms (ms2tv ms) ≡ ms
unfolding tv2ms ms2tv
tv2ms-ms2tv ms = omega arith
