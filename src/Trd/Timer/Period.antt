-- ===== src/Trd/Timer/Period.antt =====
-- One interval of the Trickle timer of master/trd/trd_timer.c: when it fires, and what follows.
use tenet_t.Prelude.{
  ℕ, zero, suc, ◌+◌, ◌-◌, ◌*◌, ◌^◌, ◌≤◌, ◌<◌, ◌≡◌, refl, ap, ap₂, ◌∙◌, ◌⊎◌, inl, inr, true, false,
  arith, ltb, if◌then◌else◌,
}
use native.Mathlib.Nat.{pow-suc}
use tenet_t.Trd.Timer.{Trickle, max_interval, trickle_set, timer_processed, update_counters, due}

pow2-suc : (n : ℕ) → 2 ^ suc n ≡ 2 * 2 ^ n
pow2-suc n = omega (arith, pow-suc 2 n)

pub pow2_mono : (n k : ℕ) → n ≤ k → 2 ^ n ≤ 2 ^ k
pow2_mono zero zero h = omega arith
pow2_mono (suc n) zero h = absurd (omega arith)
pow2_mono zero (suc k) h = omega (arith, pow2-suc k, pow2_mono zero k (omega arith))
pow2_mono (suc n) (suc k) h = omega (arith, pow2-suc n, pow2-suc k, pow2_mono n k (omega arith))

-- At a stage up to TRD_MAX_INTERVAL, trickleSet counts down from 2 ^ stage, and announces in the
-- second half of that: at most one tick before the half if the count is below 4.
pub trickle_set_lem :
    (rand : ℕ) (t : Trickle)
    → t.stage ≤ max_interval
    → let s = trickle_set rand t in
      (s.countdown ≡ 2 ^ t.stage)
      × (2 * s.announce < s.countdown)
      × (s.stage ≡ t.stage)
      × (s.suppress ≡ false)
      × (s.processed ≡ false)
unfolding trickle_set
trickle_set_lem rand t h =
    let top : 2 ^ t.stage ≤ 2 ^ max_interval = pow2_mono t.stage max_interval h in
    let low : 2 ^ 0 ≤ 2 ^ t.stage = pow2_mono 0 t.stage (omega arith) in
    (omega arith, ground arith, refl, refl, refl)

-- trickleFired with a handler that marks the announcement as processed, as trd_timer_fired does: the
-- timer after the tick, and 1 if the handler was called.
unfoldable pub tick : ℕ → Trickle → Trickle × ℕ
tick rand t = let t' = update_counters rand t in if due t' then (timer_processed t', 1) else (t', 0)

-- So many ticks, and how many of them called the handler.
unfoldable pub run : ℕ → ℕ → Trickle → Trickle × ℕ
run rand zero t = (t, 0)
run rand (suc n) t =
    let (t', fired) = tick rand t in let (t'', more) = run rand n t' in (t'', fired + more)

abbrev pub next_stage : ℕ → ℕ
next_stage k = if ltb k max_interval then k + 1 else k

-- Neither before the announcement nor after it does a tick do more than count.
tick_quiet :
    (rand : ℕ) (t : Trickle)
    → (t.processed ≡ true) ⊎ (1 + t.announce < t.countdown)
    → 1 < t.countdown
    → tick rand t ≡ (record t { countdown = t.countdown - 1 }, 0)
unfolding tick update_counters due
tick_quiet rand t h lt = ground arith

tick_announce :
    (rand : ℕ) (t : Trickle)
    → t.processed ≡ false
    → t.announce + 1 ≡ t.countdown
    → tick rand t
      ≡ (record t { countdown = t.announce; processed = true }, if t.suppress then 0 else 1)
unfolding tick update_counters due timer_processed
tick_announce rand t h e = ground arith

set_not_due : (rand : ℕ) (t : Trickle) → t.stage ≤ max_interval → due (trickle_set rand t) ≡ false
unfolding due
set_not_due rand t h = ground (arith, trickle_set_lem rand t h)

-- With the announcement processed, the count's end begins the next interval.
tick_end :
    (rand : ℕ) (t : Trickle)
    → t.processed ≡ true
    → t.countdown ≡ 1
    → t.stage ≤ max_interval
    → tick rand t ≡ (trickle_set rand (record t { countdown = 0; stage = next_stage t.stage }), 0)
unfolding tick update_counters
tick_end rand t h e s =
    ground (
      arith,
      set_not_due rand (record t { countdown = t.countdown - 1; stage = next_stage t.stage }),
    )

module _ (rand : ℕ) where
  run-add :
      (n m : ℕ) (t : Trickle)
      → run rand (n + m) t
        ≡ ((run rand m (run rand n t).0).0, (run rand n t).1 + (run rand m (run rand n t).0).1)
  unfolding run
  run-add zero m t =
      let e : 0 + m ≡ m = omega arith in rw e (ap (λ (k : ℕ). ((run rand m t).0, k)) (omega arith))
  run-add (suc n) m t =
      let e : suc n + m ≡ suc (n + m) = omega arith in
      rw (e, run-add n m (tick rand t).0)
        (ap (λ (k : ℕ). ((run rand m (run rand n (tick rand t).0).0).0, k)) (omega arith))

  quiet :
      (n : ℕ) (t : Trickle)
      → (t.processed ≡ true) ⊎ (n + t.announce < t.countdown)
      → n < t.countdown
      → run rand n t ≡ (record t { countdown = t.countdown - n }, 0)
  unfolding run
  quiet zero t h lt =
      ap (λ (k : ℕ). (record t { countdown = k }, 0)) {y = t.countdown - 0} (omega arith)
  quiet (suc n) t h lt =
      rw
        (
          tick_quiet rand t (weaken h) (omega arith),
          quiet n (record t { countdown = t.countdown - 1 }) (lower h) (omega arith),
        )
        (ap (λ (k : ℕ). (record t { countdown = k }, 0)) {x = t.countdown - 1 - n}
          {y = t.countdown - suc n} (omega arith))
    where
      weaken :
          (t.processed ≡ true) ⊎ (suc n + t.announce < t.countdown)
          → (t.processed ≡ true) ⊎ (1 + t.announce < t.countdown)
      weaken (inl p) = inl p
      weaken (inr q) = inr (omega arith)

      lower :
          (t.processed ≡ true) ⊎ (suc n + t.announce < t.countdown)
          → (t.processed ≡ true) ⊎ (n + t.announce < t.countdown - 1)
      lower (inl p) = inl p
      lower (inr q) = inr (omega arith)

  set_overrides :
      (t : Trickle)
      → trickle_set rand (record t { countdown = 0; stage = next_stage t.stage; processed = true })
        ≡ trickle_set rand (record t { stage = next_stage t.stage })
  unfolding trickle_set
  set_overrides t = refl

  one_tick : (s : Trickle) → run rand 1 s ≡ tick rand s
  unfolding run
  one_tick s = ap (λ (k : ℕ). ((tick rand s).0, k)) {x = (tick rand s).1 + 0} (omega arith)

  module _ (t : Trickle) (fresh : t.processed ≡ false) (later : t.announce < t.countdown) where
    before :
        run rand (t.countdown - t.announce - 1) t ≡ (record t { countdown = t.announce + 1 }, 0)
    before =
        quiet (t.countdown - t.announce - 1) t (inr (omega arith)) (omega arith)
        ∙ ap (λ (k : ℕ). (record t { countdown = k }, 0))
            {x = t.countdown - (t.countdown - t.announce - 1)} {y = t.announce + 1} (omega arith)

    announced :
        run rand (t.countdown - t.announce) t
        ≡ (record t { countdown = t.announce; processed = true }, if t.suppress then 0 else 1)
    announced =
        let e : t.countdown - t.announce ≡ t.countdown - t.announce - 1 + 1 = omega arith in
        rw
          (
            e,
            run-add (t.countdown - t.announce - 1) 1 t,
            before,
            one_tick (record t { countdown = t.announce + 1 }),
            tick_announce rand (record t { countdown = t.announce + 1 }) fresh refl,
          )
          (ap (λ (k : ℕ). (record t { countdown = t.announce; processed = true }, k))
            {x = 0 + (if t.suppress then 0 else 1)} (omega arith))

    -- From the start of an interval of a stage up to TRD_MAX_INTERVAL, whose announcement is not
    -- at its very end and not yet processed: before the announced tick the handler is not called,
    -- at that tick it is called once unless the interval has been suppressed, and after
    -- `countdown` ticks in all, with no further call, the timer is set again at the next stage.
    interval_lem :
        0 < t.announce
        → t.stage ≤ max_interval
        → ((run rand (t.countdown - t.announce - 1) t).1 ≡ 0)
          × ((run rand (t.countdown - t.announce) t).1 ≡ (if t.suppress then 0 else 1))
          × (run rand t.countdown t ≡ (
            trickle_set rand (record t { stage = next_stage t.stage }),
            if t.suppress then 0 else 1,
          ))
    interval_lem pos st =
        (ap (λ (r : Trickle × ℕ). r.1) before, ap (λ (r : Trickle × ℕ). r.1) announced, all)
      where
        s : Trickle
        s = record t { countdown = t.announce; processed = true }

        last : Trickle
        last = record t { countdown = 1; processed = true }

        rest : run rand (t.announce - 1) s ≡ (last, 0)
        rest =
            quiet (t.announce - 1) s (inl refl) (omega arith)
            ∙ ap (λ (k : ℕ). (record s { countdown = k }, 0)) {x = t.announce - (t.announce - 1)}
                {y = 1} (omega arith)

        all : run rand t.countdown t ≡ (
          trickle_set rand (record t { stage = next_stage t.stage }),
          if t.suppress then 0 else 1,
        )
        all =
            let e : t.countdown ≡ t.countdown - t.announce + (t.announce - 1 + 1) = omega arith in
            ap (λ (n : ℕ). run rand n t) e
            ∙ rw
                (
                  run-add (t.countdown - t.announce) (t.announce - 1 + 1) t,
                  announced,
                  run-add (t.announce - 1) 1 s,
                  rest,
                  one_tick last,
                  tick_end rand last refl refl st,
                )
                (let no_more : (if t.suppress then 0 else 1) + (0 + 0)
                      ≡ (if t.suppress then 0 else 1) =
                    omega arith in
                  ap₂ (λ (u : Trickle) (k : ℕ). (u, k)) (set_overrides t) no_more)
