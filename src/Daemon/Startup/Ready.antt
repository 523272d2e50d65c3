-- ===== src/Daemon/Startup/Ready.antt =====
-- A start that reaches the loop: what it begins with, and what the PHC is sent from then on.
use ts2phc_go.Common.{
  ◌≡◌, refl, ap, ◌∙◌, ◌⊎◌, false, inl, inr, Bool-cases, some, Option-cases, List, All, arith,
}
use ts2phc_go.Common.Int.{ℤ}
use ts2phc_go.Common.Float.{Float, IsOrdered, IsSigned}
use ts2phc_go.Common.Time.{Time}
use ts2phc_go.Guard.{default_config, new}
use ts2phc_go.Servo.{new_pi_servo, sync_interval}
use ts2phc_go.Servo.Bounds.{IsWithin}
use ts2phc_go.Pps.Sink.{Sink, new_sink}
use ts2phc_go.Pps.Arm.{Device, arm, attempts}
use ts2phc_go.Daemon.Tick.{Loop, Turn, turns, commands}
use ts2phc_go.Daemon.Tick.Invariant.{IsSteady, turns-IsSteady}
use ts2phc_go.Daemon.Tick.Limits.{IsLimited, IsBounded, commands-IsBounded}
use ts2phc_go.Daemon.Startup.{
  Kernel, Thresholds, StartError, open_failed, caps_failed, failed, opened, Started, ended, running,
  initial_freq, servo_config, open_sink, start_sink, start,
}

arm-is_available : (d : Device) (s : Sink) → (arm d s).0.is_available ≡ s.is_available
unfolding arm attempts
arm-is_available d s = ground arith

module _ {W : Type 0} ⦃f : Float W⦄ where
  -- What the loop begins with, if the start reaches it.
  IsStart : Kernel W → Time → Started W → Type 0
  IsStart k now (ended e) = Unit
  IsStart k now (running s l) =
      (l.guard ≡ new default_config now)
      × IsSteady l.clock
      × (l.clock.is_available ≡ false)
      × ((max_adj : ℤ) × (k.max_adj ≡ some max_adj)
          × (l.clock.servo.max_frequency ≡ f.of_int max_adj)
          × (l.clock.servo.last_freq ≡ initial_freq k.freq))

  start_sink-IsStart :
      (t : Thresholds W) (k : Kernel W) (now : Time) (max_adj : ℤ)
      → k.max_adj ≡ some max_adj
      → IsStart k now (
          start_sink k now
            (new_sink 0 6)
            (new_pi_servo (initial_freq k.freq) (f.of_int max_adj) (servo_config t)))
  unfolding start_sink IsStart sync_interval new_pi_servo
  start_sink-IsStart t k now max_adj m = elim (Bool-cases (arm k.arm (new_sink 0 6)).2) [
    | inr bad ↦ rw bad tt
    | inl ok ↦ rw ok (
      refl,
      record { count = omega arith; outliers = omega arith; target = refl },
      arm-is_available k.arm (new_sink 0 6) ∙ (unfold new_sink in refl),
      (max_adj, m, refl, refl),
    )
  ]

  open_sink-cases :
      (t : Thresholds W) (k : Kernel W)
      → ((e : StartError) × (open_sink t k 0 6 ≡ failed e))
        ⊎ ((max_adj : ℤ) × (k.max_adj ≡ some max_adj)
            × (open_sink t k 0 6
                ≡ opened
                    (new_sink 0 6)
                    (new_pi_servo (initial_freq k.freq) (f.of_int max_adj) (servo_config t))))
  unfolding open_sink
  open_sink-cases t k = elim (Bool-cases k.open_ok) [
    | inr bad ↦ inl (open_failed, rw (bad, open_sink) refl)
    | inl ok ↦ elim (Option-cases k.max_adj) [
      | inl n ↦ inl (caps_failed, rw (ok, n, open_sink) refl)
      | inr (max_adj, m) ↦ inr (max_adj, m, rw (ok, m, open_sink) refl)
    ]
  ]

  start-IsStart : (t : Thresholds W) (k : Kernel W) (now : Time) → IsStart k now (start t k now)
  unfolding start IsStart
  start-IsStart t k now = elim (open_sink-cases t k) [
    | inl (e, bad) ↦ rw (start, bad, IsStart) tt
    | inr (max_adj, m, ok) ↦ rw (start, ok) (start_sink-IsStart t k now max_adj m)
  ]

  -- A start that reaches the loop hands it a fresh guard and a clock for which nothing is latched.
  -- Over any number of turns from there on, the counts of the servo and of the outliers keep to
  -- their bounds, and no frequency that the PHC is sent compares below the negated largest one
  -- of the device or above the largest one, if the frequency read at the start does not; a NaN
  -- compares as neither and is not excluded. Floats are ordered as IEEE 754 says, two changes of sign
  -- cancel, and the largest frequency is not below its negation.
  pub start-commands :
      (laws : IsOrdered W) (signs : IsSigned W) (t : Thresholds W) (k : Kernel W) (now : Time)
      (s : Sink) (l : Loop W) (max_adj : ℤ) (ts : List (Turn W))
      → start t k now ≡ running s l
      → k.max_adj ≡ some max_adj
      → f.lt (f.of_int max_adj) (f.neg (f.of_int max_adj)) ≡ false
      → IsWithin (f.of_int max_adj) (initial_freq k.freq)
      → (l.guard ≡ new default_config now)
        × (l.clock.is_available ≡ false)
        × IsSteady (turns l ts).clock
        × All (IsBounded (f.of_int max_adj)) (commands l ts)
  unfolding IsStart
  start-commands laws signs t k now s l max_adj ts e m h w =
      let (guard, steady, off, (max, m', limit, last)) : IsStart k now (running s l) =
        rw e at (start-IsStart t k now) in
      let same : max ≡ max_adj = cc (m, m') in
      let limited : IsLimited (f.of_int max_adj) l.clock.servo = record {
        limit = limit ∙ ap (λ x. f.of_int x) same;
        last = rw last w;
      } in
      (
        guard,
        off,
        turns-IsSteady l ts steady,
        commands-IsBounded laws signs (f.of_int max_adj) h l ts limited,
      )
