-- ===== src/Servo/Config.antt =====
-- The state of the PI servo and its configuration (servo/pi.go).
use ts2phc_go.Common.{ℕ, Bool, true}
use ts2phc_go.Common.Int.{ℤ, pos, negsuc}
use ts2phc_go.Common.Float.{Float}

pub data State : Type 0 where
  unlocked jump locked locked_stable : State

pub record PiServoConfig (W : Type 0) : Type 0 where
  pub kp_scale : W
  pub kp_exponent : W
  pub kp_norm_max : W
  pub ki_scale : W
  pub ki_exponent : W
  pub ki_norm_max : W
  pub step_threshold : W
  pub first_step_thresh : W
  pub discontinuity : W
  pub plausible_freq : W
  pub offset_threshold : ℤ
  pub num_offset_values : ℕ

-- `offset` and `local` are arrays of two; `local` holds uint64. The ints `count` and
-- `currOffsetValues` are counts.
pub record PiServo (W : Type 0) : Type 0 where
  pub offset_0 : ℤ
  pub offset_1 : ℤ
  pub local_0 : ℕ
  pub local_1 : ℕ
  pub drift : W
  pub kp : W
  pub ki : W
  pub last_freq : W
  pub count : ℕ
  pub kp_scale : W
  pub kp_exponent : W
  pub kp_norm_max : W
  pub ki_scale : W
  pub ki_exponent : W
  pub ki_norm_max : W
  pub max_frequency : W
  pub step_threshold : W
  pub first_step_thresh : W
  pub discontinuity : W
  pub plausible_freq : W
  pub first_update : Bool
  pub offset_threshold : ℤ
  pub num_offset_values : ℕ
  pub curr_offset_values : ℕ

-- The arguments of one call of `Sample`.
pub record Sample (W : Type 0) : Type 0 where
  pub offset : ℤ
  pub local_ts : ℕ
  pub weight : W

module _ {W : Type 0} ⦃f : Float W⦄ where
  abbrev pub default_pi_servo_config : PiServoConfig W
  default_pi_servo_config = record {
    kp_scale = f.literal (pos 7) 1;
    kp_exponent = f.literal (negsuc 2) 1;
    kp_norm_max = f.literal (pos 7) 1;
    ki_scale = f.literal (pos 3) 1;
    ki_exponent = f.literal (pos 4) 1;
    ki_norm_max = f.literal (pos 3) 1;
    step_threshold = f.of_int (pos 0);
    first_step_thresh = f.of_int (pos 0);
    discontinuity = f.of_int (pos 0);
    plausible_freq = f.literal (pos 200000) 0;
    offset_threshold = pos 0;
    num_offset_values = 0;
  }

  unfoldable pub new_pi_servo : W → W → PiServoConfig W → PiServo W
  new_pi_servo fadj max_ppb cfg = record {
    offset_0 = pos 0;
    offset_1 = pos 0;
    local_0 = 0;
    local_1 = 0;
    drift = fadj;
    kp = f.of_int (pos 0);
    ki = f.of_int (pos 0);
    last_freq = fadj;
    count = 0;
    kp_scale = cfg.kp_scale;
    kp_exponent = cfg.kp_exponent;
    kp_norm_max = cfg.kp_norm_max;
    ki_scale = cfg.ki_scale;
    ki_exponent = cfg.ki_exponent;
    ki_norm_max = cfg.ki_norm_max;
    max_frequency = max_ppb;
    step_threshold = cfg.step_threshold;
    first_step_thresh = cfg.first_step_thresh;
    discontinuity = cfg.discontinuity;
    plausible_freq = cfg.plausible_freq;
    first_update = true;
    offset_threshold = cfg.offset_threshold;
    num_offset_values = cfg.num_offset_values;
    curr_offset_values = cfg.num_offset_values;
  }
