-- ===== src/Examples/Starts.antt =====
-- A daemon from its start on, and the receiver's reports that reach it.
use ts2phc_go.Common.{◌≡◌, refl, true, false, some, [], ◌∷◌, All}
use ts2phc_go.Common.Int.{ℤ, pos, negsuc, neg_ℤ}
use ts2phc_go.Examples.Whole.{whole, whole-IsOrdered, whole-IsSigned}
use ts2phc_go.Guard.{default_config, new}
use ts2phc_go.Servo.{new_pi_servo, sync_interval}
use ts2phc_go.Servo.Bounds.{IsWithin}
use ts2phc_go.Pps.Sink.{Sink, new_sink}
use ts2phc_go.Pps.Arm.{arm, attempts}
use ts2phc_go.Daemon.Tick.{Loop, turns, commands}
use ts2phc_go.Daemon.Tick.Invariant.{IsSteady}
use ts2phc_go.Daemon.Tick.Limits.{IsBounded}
use ts2phc_go.Daemon.Startup.{
  Kernel, Thresholds, running, initial_freq, servo_config, open_sink, start_sink, start,
}
use ts2phc_go.Daemon.Startup.Ready.{start-commands}
use ts2phc_go.Examples.Loops.{rising_only, wrong_turn}

-- A PHC that can do 900 ppb and runs at -100.
abbrev kernel : Kernel ℤ
kernel = record {
  open_ok = true;
  max_adj = some (pos 900);
  freq = some (negsuc 99);
  arm = rising_only;
}

abbrev thresholds : Thresholds ℤ
thresholds = record { step = pos 0; first_step = pos 20000; discontinuity = pos 0 }

abbrev armed : Sink
armed = (arm rising_only (new_sink 0 6)).0

abbrev started : Loop ℤ
started = record {
  guard = new default_config (pos 5);
  clock = record {
    servo =
        sync_interval
          (new_pi_servo (initial_freq (some (negsuc 99))) (pos 900) (servo_config thresholds))
          (pos 1);
    is_target = true;
    is_available = armed.is_available;
    last_valid_ts = armed.last_valid_ts;
    outlier_count = 0;
  };
}

starts : start thresholds kernel (pos 5) ≡ running armed started
unfolding start start_sink open_sink arm attempts new_sink
starts = refl

initial-IsWithin : IsWithin (pos 900) (initial_freq (some (negsuc 99)))
unfolding initial_freq neg_ℤ
initial-IsWithin = record { above = refl; below = refl }

start-commands_example :
    (started.guard ≡ new default_config (pos 5))
    × (started.clock.is_available ≡ false)
    × IsSteady (turns started (wrong_turn ∷ wrong_turn ∷ [])).clock
    × All (IsBounded (pos 900)) (commands started (wrong_turn ∷ wrong_turn ∷ []))
unfolding neg_ℤ
start-commands_example =
    start-commands whole-IsOrdered whole-IsSigned thresholds kernel (pos 5) armed started (pos 900)
      (wrong_turn ∷ wrong_turn ∷ []) starts refl refl initial-IsWithin
