-- ===== src/Trd/Timer.antt =====
-- master/trd/trd_timer.c: the Trickle timer, whose interval doubles until it is reset.
pub mod Period
use tenet_t.Prelude.{
  ℕ, zero, suc, ◌+◌, ◌-◌, ◌*◌, ◌/◌, ◌%◌, ◌^◌, Bool, true, false, not, ◌&&◌, ltb, leb, ◌==◌,
  if◌then◌else◌, u16_mod, u8_mod, Ordering, ◌||◌,
}
use tenet_t.Timeval.{Timeval, compare_timeval, add_ms_to_timeval, zero_time}

abbrev pub timer_period : ℕ
timer_period = 100

abbrev pub min_interval : ℕ
min_interval = 1

abbrev pub max_interval : ℕ
max_interval = 15

-- The variables trickleAnnounce .. trickleState and trickle_alarm_time; `processed` is
-- `trickleState == TRD_POST_PROCESS`.
pub record Trickle : Type 0 where
  pub announce : ℕ
  pub countdown : ℕ
  pub stage : ℕ
  pub suppress : Bool
  pub processed : Bool
  pub alarm : Timeval

-- `rand` is what lrand48 returns.
unfoldable pub trickle_set : ℕ → Trickle → Trickle
trickle_set rand t =
    let countdown = 2 ^ t.stage % u16_mod in
    record t {
      countdown = countdown;
      announce = if ltb countdown 4 then 0 else rand % u16_mod % 65535 % (countdown / 2);
      suppress = false;
      processed = false;
    }

unfoldable pub trickle_reset : ℕ → Trickle → Trickle
unfolding trickle_set
trickle_reset rand t = trickle_set rand (record t { stage = min_interval })

unfoldable pub timer_processed : Trickle → Trickle
timer_processed t = record t { processed = true }

unfoldable pub timer_suppress : Trickle → Trickle
timer_suppress t = record t { suppress = true }

-- `while ((countdown >> stage) > 0) stage++;` for a uint16_t, in at most 16 rounds.
unfoldable pub stage_for : ℕ → ℕ → ℕ → ℕ
stage_for zero countdown stage = stage
stage_for (suc n) countdown stage =
    let rest = stage_for n countdown (stage + 1) in
    if ltb 0 (countdown / 2 ^ stage) then rest else stage

unfoldable pub timer_set : ℕ → ℕ → Trickle → Trickle
unfolding stage_for trickle_set
timer_set rand interval t =
    trickle_set rand
      (record t { stage = stage_for 16 (interval / timer_period % u16_mod) 1 % u8_mod })

abbrev count_down : Trickle → Trickle
count_down t = record t { countdown = t.countdown - 1 }

unfoldable pub update_counters : ℕ → Trickle → Trickle
update_counters rand t0 =
    let t = count_down t0 in
    if leb t.countdown t.announce && not t.processed
    then if t.suppress then record t { processed = true } else t
    else if t.countdown == 0
    then trickle_set rand
        (record t { stage = if ltb t.stage max_interval then t.stage + 1 else t.stage })
    else t

-- `true`: trickleFired calls trd_timer_fired.
unfoldable pub due : Trickle → Bool
due t = leb t.countdown t.announce && not t.processed

unfoldable pub trickle_start : Timeval → ℕ → Trickle → Trickle
trickle_start now interval t = record t { alarm = add_ms_to_timeval now interval }

unfoldable pub trickle_stop : Trickle → Trickle
trickle_stop t = record t { alarm = zero_time }

unfoldable pub timer_init : Timeval → ℕ → Trickle → Trickle
unfolding trickle_reset trickle_start
timer_init now rand t =
    let t' = trickle_reset rand t in
    if t'.alarm.tv_sec == 0 && t'.alarm.tv_usec == 0
    then trickle_start now (timer_period * 1000 / 1024) t'
    else t'

-- The interval that trickleFired starts the timer with.
unfoldable pub next_interval : ℕ → ℕ
next_interval rand = timer_period + rand % (timer_period / 2)

-- An alarm is set and its time has come.
unfoldable pub alarm_due : Timeval → Timeval → Bool
alarm_due alarm now =
    (ltb 0 alarm.tv_sec || ltb 0 alarm.tv_usec)
    && elim (compare_timeval alarm now) [ Ordering.gt ↦ false | _ ↦ true ]
