-- ===== src/Examples/Loops.antt =====
-- Turns of the loop, polls and sinks that are armed again.
use ts2phc_go.Common.Word.{i64}
use ts2phc_go.Common.{
  ℕ, ◌%◌, ◌≤◌, ◌≡◌, ◌≢◌, ◌⊎◌, refl, true, false, none, some, List, [], ◌∷◌, map, ◌==◌, arith,
}
use ts2phc_go.Common.Int.{ℤ, pos, abs_ℕ, ◌+ℤ◌, ◌-ℤ◌, neg_ℤ}
use ts2phc_go.Common.Time.{second, unix_time, sub_time, round_second}
use ts2phc_go.Examples.Whole.{whole}
use ts2phc_go.Guard.{
  default_config, new, step, step_amount, tick, check, threshold, error, step_trustworthy,
}
use ts2phc_go.Servo.{default_pi_servo_config, new_pi_servo, reset}
use ts2phc_go.Daemon.{step_time}
use ts2phc_go.Daemon.Tick.{Loop, Turn, guard_tick, turn, turns}
use ts2phc_go.Daemon.Tick.Guarded.{turn-step}
use ts2phc_go.Daemon.Tick.Invariant.{IsSteady, turns-IsSteady, turn-out}
use ts2phc_go.Pps.Sink.{Sink, new_sink, locked, accepted}
use ts2phc_go.Pps.Sink.Train.{edges, Pulse, IsTrain, IsRegular}
use ts2phc_go.Pps.Arm as Arm
use ts2phc_go.Pps.Arm.{rearm}
use ts2phc_go.Pps.Arm.Deaf.{rearm-deaf}
use ts2phc_go.Pps.Arm.Recover.{delivered, rearm-accepted}
use ts2phc_go.Pps.Poll.{Revents, ready}

-- A guard that has counted four violations, and a clock that is about to be wrong by 3 seconds.
abbrev pub watched : Loop ℤ
watched = record {
  guard = record (new default_config (pos 1000000000)) {
    violations = 4;
    last_violation = pos 2000000000;
  };
  clock = record {
    servo = new_pi_servo (pos 0) (pos 900) default_pi_servo_config;
    is_target = true;
    is_available = false;
    last_valid_ts = pos 0;
    outlier_count = 0;
  };
}

abbrev pub wrong_turn : Turn ℤ
wrong_turn = record {
  now = pos 9000000000;
  poll = ready;
  is_available = true;
  last_valid_ts = unix_time (pos 13) 0;
  phc = pos 13000000000;
  phc_valid = true;
  tai = pos 10000000000;
  tai_valid = true;
  pps_time = some (unix_time (pos 10) 0);
  qerr_sign = pos 0;
  qerr = none;
  device = record { freq_ok = true; step_ok = true };
  rearm_ok = true;
  guard_step_ok = true;
}

pub wrong_steps : (tick watched.guard (guard_tick wrong_turn)).1 ≡ step
unfolding tick check threshold new error sub_time ◌-ℤ◌ step_trustworthy step_amount i64 neg_ℤ
    round_second
wrong_steps = refl

turn-step_example :
    let err = (tick watched.guard (guard_tick wrong_turn)).2 in
    let (l', out, locked_sample) = turn watched wrong_turn in
    (out ≡ step_time (step_amount err) ∷ [])
    × (abs_ℕ (step_amount err) % second ≡ 0)
    × (abs_ℕ (step_amount err) ≤ 500000000000)
    × (abs_ℕ (err +ℤ step_amount err) ≤ 150000000)
    × (l'.clock.servo ≡ reset watched.clock.servo)
    × (l'.clock.is_available ≡ false)
    × (locked_sample ≡ false)
unfolding new
turn-step_example =
    turn-step watched wrong_turn 500000000000 150000000 refl refl (omega arith) wrong_steps refl

watched-IsSteady : IsSteady watched.clock
unfolding new_pi_servo
watched-IsSteady = record { count = omega arith; outliers = omega arith; target = refl }

turns-IsSteady_example : IsSteady (turns watched (wrong_turn ∷ wrong_turn ∷ [])).clock
turns-IsSteady_example = turns-IsSteady watched (wrong_turn ∷ wrong_turn ∷ []) watched-IsSteady

wrong_turn_acts : (turn watched wrong_turn).1 ≢ []
unfolding new
wrong_turn_acts e =
    let out =
      (turn-step watched wrong_turn 500000000000 150000000 refl refl (omega arith) wrong_steps
        refl).0 in
    ground (arith, out, e)

turn-out_example :
    ((tick watched.guard (guard_tick wrong_turn)).1 ≡ step)
    ⊎ ((ready ≡ ready) × (true ≡ true) × (wrong_turn.pps_time ≢ none))
turn-out_example = turn-out watched wrong_turn wrong_turn_acts

-- A device that takes rising edges only.
abbrev pub rising_only : Arm.Device
rising_only = record { clear_ok = false; drain_ok = true; grants = λ flags. flags == 2 }

abbrev pulse_at : ℕ → Pulse
pulse_at n = record { rise = pos n; width = 100000000 }

abbrev pulses : List Pulse
pulses = pulse_at 11000000100 ∷ pulse_at 12000000000 ∷ []

pulses-IsTrain : IsTrain 99000000 101000000 1000 (pulse_at 10000000000) pulses
unfolding ◌+ℤ◌
pulses-IsTrain = ground arith

pulses-IsRegular : IsRegular 99000000 101000000 1000
pulses-IsRegular = record { ordered = omega arith; short = omega arith; steady = omega arith }

rearm-accepted_example :
    let (s', requests, ok) = rearm rising_only (new_sink 0 6) in
    (ok ≡ true)
    × (s'.is_available ≡ false)
    × (accepted s' (delivered s' (pulse_at 10000000000 ∷ pulses)) ≡ map (λ q. q.rise) pulses)
unfolding new_sink
rearm-accepted_example =
    rearm-accepted 99000000 101000000 1000 rising_only (new_sink 0 6) (pulse_at 10000000000) pulses
      pulses-IsRegular (omega arith) refl refl refl (omega arith) (omega arith) pulses-IsTrain

-- Pulses of 200 ms.
abbrev wide_at : ℕ → Pulse
wide_at n = record { rise = pos n; width = 200000000 }

wide-IsTrain : IsTrain 199000000 201000000 1000 (wide_at 10000000000) (wide_at 11000000100 ∷ [])
unfolding ◌+ℤ◌
wide-IsTrain = ground arith

wide-IsRegular : IsRegular 199000000 201000000 1000
wide-IsRegular = record { ordered = omega arith; short = omega arith; steady = omega arith }

rearm-deaf_example :
    let (s', requests, ok) = rearm rising_only (new_sink 0 6) in
    (ok ≡ true) × (accepted s' (edges (wide_at 10000000000 ∷ wide_at 11000000100 ∷ [])) ≡ [])
unfolding new_sink
rearm-deaf_example =
    rearm-deaf 199000000 201000000 1000 wide-IsRegular (omega arith) rising_only (new_sink 0 6)
      (wide_at 10000000000) (wide_at 11000000100 ∷ []) refl refl refl refl (omega arith)
      (omega arith) wide-IsTrain

-- A locked sink for rising edges, and the event of the next second.
abbrev rising_sink : Sink
rising_sink = record (new_sink 0 2) {
  single_edge = true;
  state = locked;
  last_event = unix_time (pos 10) 0;
}

abbrev event_of : ℕ → Revents
event_of index = record {
  pollerr = false;
  readable = true;
  event = some (record { sec = pos 11; nsec = 40; index = index; flags = 1 });
}
