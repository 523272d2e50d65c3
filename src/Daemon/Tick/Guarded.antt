-- ===== src/Daemon/Tick/Guarded.antt =====
-- What the guard does to a turn of the loop.
use ts2phc_go.Common.{ℕ, ◌%◌, ◌≤◌, ◌≡◌, refl, ap, true, false, [], ◌∷◌, if◌then◌else◌, arith}
use ts2phc_go.Common.Int.{pos, abs_ℕ, ◌+ℤ◌, ◌-ℤ◌}
use ts2phc_go.Common.Float.{Float}
use ts2phc_go.Common.Word.{IsI64, i64-IsI64}
use ts2phc_go.Common.Time.{Time, second, Duration, sub_time, sub_time-IsI64}
use ts2phc_go.Guard.{
  Guard, Tick, bias_duration, step_trustworthy, step, step_amount, error, tick, check, pulse,
}
use ts2phc_go.Guard.Step.{check-eq-step, step_amount_lem}
use ts2phc_go.Servo.{reset}
use ts2phc_go.Daemon.{step_time}
use ts2phc_go.Daemon.Tick.{Loop, Turn, guard_tick, polled, obey_guard, take_pulse, turn}

module _ {W : Type 0} ⦃f : Float W⦄ where
  error-IsI64 : (g : Guard W) (phc tai : Time) → IsI64 (error g phc tai)
  unfolding error
  error-IsI64 g phc tai =
      ground (arith, sub_time-IsI64 phc tai, i64-IsI64 (sub_time phc tai -ℤ bias_duration g))

  -- A step is demanded on an error that is trustworthy for the configuration.
  tick-step :
      (g : Guard W) (t : Tick)
      → (tick g t).1 ≡ step
      → (step_trustworthy g.cfg (tick g t).2 ≡ true) × IsI64 (tick g t).2
  unfolding tick check pulse
  tick-step g t e =
      let q = if t.ready then pulse g t.now else g in
      ground (
        arith,
        e,
        check-eq-step q t.now t.phc t.phc_valid t.tai t.tai_valid,
        error-IsI64 q t.phc t.tai,
      )

  turn_after_step :
      (l : Loop W) (t : Turn W) (g : Guard W) (err : Duration)
      → tick l.guard (guard_tick t) ≡ (g, step, err)
      → t.guard_step_ok ≡ true
      → turn l t ≡ (
        record {
          guard = g;
          clock = record (polled t l.clock) {
            servo = reset l.clock.servo;
            outlier_count = 0;
            is_available = false;
          };
        },
        step_time (step_amount err) ∷ [],
        false,
      )
  unfolding turn obey_guard take_pulse
  turn_after_step l t g err e o = rw (e, o, turn) refl

  -- A turn in which the guard demands a step, and the device takes it, sends this one command and
  -- nothing else: a whole number of seconds within the configured bound, that leaves of the error
  -- the guard has seen no more than the ambiguity. The servo starts over, the sample that was
  -- latched before the step is dropped, and nothing counts as locked. The configured bounds are
  -- not negative, and the step bound is at most 9 * 10^18 ns.
  pub turn-step :
      (l : Loop W) (t : Turn W) (bound slack : ℕ)
      → l.guard.cfg.max_step ≡ pos bound
      → l.guard.cfg.ambiguity ≡ pos slack
      → bound ≤ 9000000000000000000
      → (tick l.guard (guard_tick t)).1 ≡ step
      → t.guard_step_ok ≡ true
      → let err = (tick l.guard (guard_tick t)).2 in
        let (l', out, locked_sample) = turn l t in
        (out ≡ step_time (step_amount err) ∷ [])
        × (abs_ℕ (step_amount err) % second ≡ 0)
        × (abs_ℕ (step_amount err) ≤ bound)
        × (abs_ℕ (err +ℤ step_amount err) ≤ slack)
        × (l'.clock.servo ≡ reset l.clock.servo)
        × (l'.clock.is_available ≡ false)
        × (locked_sample ≡ false)
  turn-step l t bound slack m a b s o =
      let (g, action, err) = tick l.guard (guard_tick t) in
      let (trusted, in_range) = tick-step l.guard (guard_tick t) s in
      let (whole, bounded, near) =
        step_amount_lem l.guard.cfg err bound slack m a in_range b trusted in
      let e : tick l.guard (guard_tick t) ≡ (g, step, err) = ap (λ x. (g, x, err)) s in
      rw (turn_after_step l t g err e o) (refl, whole, bounded, near, refl, refl, refl)
