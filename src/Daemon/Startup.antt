-- ===== src/Daemon/Startup.antt =====
-- From the start of `run` (main.go) to its loop: `NewSink` (pps/sink.go), the pin, the arming of
-- the sink, the interval of the servo and the new guard. Each step that fails ends `run`, except
-- the setting of the pin, which is only logged.
pub mod Ready
use ts2phc_go.Common.{ℕ, ◌+◌, Bool, true, false, not, Option, none, some, if◌then◌else◌}
use ts2phc_go.Common.Int.{ℤ, pos}
use ts2phc_go.Common.Float.{Float}
use ts2phc_go.Common.Time.{Time}
use ts2phc_go.Guard.{default_config, new}
use ts2phc_go.Servo.{PiServo, PiServoConfig, default_pi_servo_config, new_pi_servo, sync_interval}
use ts2phc_go.Pps.Sink.{Sink, new_sink}
use ts2phc_go.Pps.Arm as Arm
use ts2phc_go.Pps.Arm.{ptp_rising_edge, ptp_falling_edge, arm}
use ts2phc_go.Daemon.Tick.{Loop}

-- What the kernel answers: whether the device opens, `caps.MaxAdj`, and the frequency of the PHC.
pub record Kernel (W : Type 0) : Type 0 where
  pub open_ok : Bool
  pub max_adj : Option ℤ
  pub freq : Option W
  pub arm : Arm.Device

-- The flags that go into the servo, in nanoseconds.
pub record Thresholds (W : Type 0) : Type 0 where
  pub step : W
  pub first_step : W
  pub discontinuity : W

pub data StartError : Type 0 where
  open_failed caps_failed arm_failed : StartError

-- The sink and its servo, or the error.
pub data Opened (W : Type 0) : Type 0 where
  failed : StartError → Opened W
  opened : Sink → PiServo W → Opened W

pub data Started (W : Type 0) : Type 0 where
  ended : StartError → Started W
  running : Sink → Loop W → Started W

module _ {W : Type 0} ⦃f : Float W⦄ where
  -- `-fadj`, where a frequency that cannot be read is 0.
  unfoldable pub initial_freq : Option W → W
  initial_freq none = f.neg (f.of_int (pos 0))
  initial_freq (some fadj) = f.neg fadj

  -- The default configuration with the three thresholds.
  abbrev pub servo_config : Thresholds W → PiServoConfig W
  servo_config t = record default_pi_servo_config {
    step_threshold = t.step;
    first_step_thresh = t.first_step;
    discontinuity = t.discontinuity;
  }

  -- `NewSink`
  unfoldable pub open_sink : Thresholds W → Kernel W → ℕ → ℕ → Opened W
  open_sink t k channel polarity = if not k.open_ok then failed open_failed else elim k.max_adj [
    | none ↦ failed caps_failed
    | some max_adj ↦
        opened (new_sink channel polarity)
          (new_pi_servo (initial_freq k.freq) (f.of_int max_adj) (servo_config t))
  ]

  -- Behind the sink: `Arm`, `SyncInterval(1.0)`, the clock and the guard.
  unfoldable pub start_sink : Kernel W → Time → Sink → PiServo W → Started W
  start_sink k now s servo =
      let (s', requests, ok) = arm k.arm s in
      if ok
      then running s' (record {
        guard = new default_config now;
        clock = record {
          servo = sync_interval servo (f.literal (pos 10) 1);
          is_target = true;
          is_available = s'.is_available;
          last_valid_ts = s'.last_valid_ts;
          outlier_count = 0;
        };
      })
      else ended arm_failed

  -- `run`, up to the loop, from the sink on.
  unfoldable pub start : Thresholds W → Kernel W → Time → Started W
  unfolding start_sink open_sink
  start t k now = elim (open_sink t k 0 (ptp_rising_edge + ptp_falling_edge)) [
    | failed e ↦ ended e
    | opened s servo ↦ start_sink k now s servo
  ]
