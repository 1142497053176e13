-- ===== src/Timeval.antt =====
-- master/include/timeval.c: times as seconds and microseconds.
pub mod Order
use tenet_t.Prelude.{ℕ, ◌+◌, ◌-◌, ◌*◌, ◌/◌, ◌%◌, Option, none, some, Ordering, ltb, if◌then◌else◌}

-- struct timeval. The program only stores times and spans that are not negative.
pub record Timeval : Type 0 where
  pub tv_sec : ℕ
  pub tv_usec : ℕ

abbrev pub zero_time : Timeval
zero_time = record { tv_sec = 0; tv_usec = 0 }

-- The sign of the C function's result.
unfoldable pub compare_timeval : Timeval → Timeval → Ordering
compare_timeval a b =
    if ltb b.tv_sec a.tv_sec
    then Ordering.gt
    else if ltb a.tv_sec b.tv_sec
    then Ordering.lt
    else if ltb b.tv_usec a.tv_usec
    then Ordering.gt
    else if ltb a.tv_usec b.tv_usec
    then Ordering.lt
    else Ordering.eq

-- `none` is the return value -1. A difference of the microseconds below 0 borrows a second.
unfoldable pub subtract_timeval : Timeval → Timeval → Option Timeval
unfolding compare_timeval
subtract_timeval to from = elim (compare_timeval to from) [
  | Ordering.lt ↦ none
  | _ ↦ some (
      if ltb to.tv_usec from.tv_usec
      then record {
        tv_sec = to.tv_sec - from.tv_sec - 1;
        tv_usec = to.tv_usec + 1000000 - from.tv_usec;
      }
      else record { tv_sec = to.tv_sec - from.tv_sec; tv_usec = to.tv_usec - from.tv_usec })
]

-- Carries a second where there are more than a million microseconds.
unfoldable pub carry : Timeval → Timeval
carry t =
    if ltb 1000000 t.tv_usec
    then record { tv_sec = t.tv_sec + 1; tv_usec = t.tv_usec - 1000000 }
    else t

unfoldable pub add_timeval : Timeval → Timeval → Timeval
unfolding carry
add_timeval a b = carry (record { tv_sec = a.tv_sec + b.tv_sec; tv_usec = a.tv_usec + b.tv_usec })

unfoldable pub add_ms_to_timeval : Timeval → ℕ → Timeval
unfolding carry
add_ms_to_timeval a ms =
    carry (record { tv_sec = a.tv_sec + ms / 1000; tv_usec = a.tv_usec + ms % 1000 * 1000 })

unfoldable pub tv2ms : Timeval → ℕ
tv2ms a = a.tv_sec * 1000 + a.tv_usec / 1000

unfoldable pub ms2tv : ℕ → Timeval
ms2tv ms = record { tv_sec = ms / 1000; tv_usec = ms % 1000 * 1000 }
