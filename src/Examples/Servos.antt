-- ===== src/Examples/Servos.antt =====
-- The servo and the loop around it.
use ts2phc_go.Common.{ℕ, ◌*◌, ◌≤◌, ◌≡◌, refl, true, false, List, [], ◌∷◌, ◌++◌, arith}
use ts2phc_go.Common.Int.{ℤ, pos, negsuc, ◌+ℤ◌, ◌-ℤ◌, ◌*ℤ◌, neg_ℤ, ◌*ℤ◌, ◌-ℤ◌}
use ts2phc_go.Common.Word.{i64}
use ts2phc_go.Examples.Whole.{whole}
use ts2phc_go.Servo.{
  PiServo, PiServoConfig, Sample, unlocked, jump, locked_stable, default_pi_servo_config,
  new_pi_servo, sample, samples, states, is_locked, reset, is_discontinuous, is_implausible,
  estimate, post_process, sample_count, sample_locked, check_offset_threshold, sample_first,
  sample_second, sample_estimate, is_jump, clamp,
}
use ts2phc_go.Servo.States.{discontinuity_recovers}
use ts2phc_go.Servo.Stable.{streak, stable_needs_streak}
use ts2phc_go.Daemon.{Clock, Device, adj_freq, discipline_offset, discipline_all, is_outlier, obey}
use ts2phc_go.Daemon.Outlier.{outliers_reset}
use ts2phc_go.Daemon.Lock.{discipline_offset-locked}

abbrev config : PiServoConfig ℤ
config = record default_pi_servo_config {
  first_step_thresh = pos 20000;
  discontinuity = pos 1000000000;
  offset_threshold = pos 100;
  num_offset_values = 1;
}

-- A servo that has just been made, with gains and a sampling interval set.
abbrev start : PiServo ℤ
start = record (new_pi_servo (pos 0) (pos 900) config) { kp = pos 1; ki = pos 1 }

-- The same one, locked.
abbrev steady : PiServo ℤ
steady = record start { count = 2; first_update = false }

abbrev at_second : ℕ → ℤ → Sample ℤ
at_second n offset = record { offset = offset; local_ts = n * 1000000000; weight = pos 1 }

discontinuity_recovers_example :
    states steady (
      at_second 10 (pos 3000000000)
      ∷ at_second 11 (pos 3000000000)
      ∷ at_second 12 (pos 3000000007)
      ∷ [])
    ≡ unlocked ∷ unlocked ∷ jump ∷ []
unfolding is_discontinuous new_pi_servo ◌+ℤ◌ ◌*ℤ◌ is_implausible estimate ◌-ℤ◌ i64 neg_ℤ
discontinuity_recovers_example =
    discontinuity_recovers steady (at_second 10 (pos 3000000000)) (at_second 11 (pos 3000000000))
      (at_second 12 (pos 3000000007)) refl refl (omega arith) refl refl refl

becomes_stable :
    (sample
      (samples (new_pi_servo (pos 0) (pos 900) config) (at_second 1 (pos 5) ∷ []))
      (pos 7)
      2000000000
      (pos 1)).2
    ≡ locked_stable
unfolding sample post_process sample_count samples new_pi_servo sample_first sample_second
    sample_estimate ◌+ℤ◌ ◌*ℤ◌ is_implausible estimate ◌-ℤ◌ i64 neg_ℤ is_jump check_offset_threshold
    clamp is_discontinuous reset sample_locked
becomes_stable = refl

stable_needs_streak_example :
    1
    ≤ streak
        (new_pi_servo (pos 0) (pos 900) config)
        0
        ((at_second 1 (pos 5) ∷ []) ++ at_second 2 (pos 7) ∷ [])
stable_needs_streak_example =
    stable_needs_streak (pos 0) (pos 900) config (at_second 1 (pos 5) ∷ []) (at_second 2 (pos 7))
      (λ e. absurd (ground (arith, e))) becomes_stable

abbrev steady_clock : Clock ℤ
steady_clock = record {
  servo = steady;
  is_target = true;
  is_available = true;
  last_valid_ts = pos 0;
  outlier_count = 3;
}

abbrev willing : Device
willing = record { freq_ok = true; step_ok = true }

abbrev far_off : List (ℤ × ℕ)
far_off = (pos 70000, 1) ∷ (negsuc 80000, 2) ∷ []

outliers_reset_example :
    discipline_all willing steady_clock far_off
    ≡ (record steady_clock { servo = reset steady; outlier_count = 0 }, [])
unfolding is_locked
outliers_reset_example =
    outliers_reset willing steady_clock far_off refl (refl, (refl, refl)) (omega arith)
      (omega arith)

discipline_offset-locked_example :
    (is_locked (discipline_offset willing steady_clock (pos 40) 7).0.servo ≡ true)
    × (is_outlier steady (pos 40) ≡ false)
    × ((discipline_offset willing steady_clock (pos 40) 7).1
        ≡ adj_freq (neg_ℤ (sample steady (pos 40) 7 (pos 1)).1) ∷ [])
    × (true ≡ true)
    × (true ≡ true)
unfolding discipline_offset is_outlier is_locked obey sample post_process sample_count sample_locked
    is_discontinuous new_pi_servo ◌+ℤ◌ ◌*ℤ◌ neg_ℤ check_offset_threshold
discipline_offset-locked_example =
    discipline_offset-locked willing steady_clock (pos 40) 7 (omega arith) refl
