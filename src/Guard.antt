-- ===== src/Guard.antt =====
-- Package guard (guard/guard.go): the check of the PHC against GPS-derived TAI on every loop tick.
-- `Check` returns the new guard, the action and the error that the decision was made on.
pub mod Step
pub mod Rearm
pub mod Streak
pub mod Bias
pub mod Displaced
use ts2phc_go.Common.{
  ℕ, zero, suc, ◌+◌, ◌/◌, ◌%◌, Bool, true, false, List, [], ◌∷◌, not, ◌&&◌, ◌||◌, ltb, leb, ◌==◌,
  if◌then◌else◌,
}
use ts2phc_go.Common.Int.{ℤ, pos, negsuc, neg_ℕ, ltb_ℤ}
use ts2phc_go.Common.Float.{Float}
use ts2phc_go.Common.Time.{
  Time, Duration, second, is_zero, sub_time, sub_duration, neg_duration, round_second, quot_second,
  rem_second,
}

pub data Action : Type 0 where
  none rearm step refuse : Action

-- The counts `Violations` and `BiasSamples` are positive ints.
pub record Config (W : Type 0) : Type 0 where
  pub pulse_timeout : Duration
  pub abs_threshold : Duration
  pub uncal_threshold : Duration
  pub violations : ℕ
  pub violation_spacing : Duration
  pub max_step : Duration
  pub ambiguity : Duration
  pub bias_alpha : W
  pub bias_samples : ℕ
  pub max_bias : Duration

pub record Guard (W : Type 0) : Type 0 where
  pub cfg : Config W
  pub last_pulse : Time
  pub last_rearm : Time
  pub last_violation : Time
  pub violations : ℕ
  pub bias : W
  pub bias_n : ℕ

pub record Tick : Type 0 where
  pub now : Time
  pub ready : Bool
  pub phc : Time
  pub phc_valid : Bool
  pub tai : Time
  pub tai_valid : Bool

-- `StepAmount`: the nearest whole second, negated.
unfoldable pub step_amount : Duration → Duration
step_amount err = neg_duration (round_second err)

-- `if frac < 0 { frac = -frac }`
abbrev pub abs_duration : Duration → Duration
abs_duration d = if ltb_ℤ d (pos 0) then neg_duration d else d

module _ {W : Type 0} ⦃f : Float W⦄ where
  -- `raw.Seconds()`: whole seconds, and the rest divided by 1e9.
  abbrev pub seconds : Duration → W
  seconds d =
      f.add (f.of_int (quot_second d))
        (f.div (f.of_int (rem_second d)) (f.literal (pos 1000000000) 0))

  abbrev pub default_config : Config W
  default_config = record {
    pulse_timeout = pos 5000000000;
    abs_threshold = pos 750000000;
    uncal_threshold = pos 2000000000;
    violations = 5;
    violation_spacing = pos 500000000;
    max_step = pos 500000000000;
    ambiguity = pos 150000000;
    bias_alpha = f.literal (pos 5) 2;
    bias_samples = 30;
    max_bias = pos 1500000000;
  }

  -- `New`
  unfoldable pub new : Config W → Time → Guard W
  new cfg now = record {
    cfg = cfg;
    last_pulse = now;
    last_rearm = pos 0;
    last_violation = pos 0;
    violations = 0;
    bias = f.of_int (pos 0);
    bias_n = 0;
  }

  unfoldable pub pulse : Guard W → Time → Guard W
  pulse g now = record g { last_pulse = now }

  abbrev pub pulse_age : Guard W → Time → Duration
  pulse_age g now = sub_time now g.last_pulse

  unfoldable pub calibrate : Guard W → Duration → Guard W
  calibrate g raw =
      if ltb_ℤ g.cfg.max_bias raw || ltb_ℤ raw (neg_duration g.cfg.max_bias)
      then g
      else let s = seconds raw in
        record g {
          bias =
              if g.bias_n == 0 then s else f.add g.bias (f.mul g.cfg.bias_alpha (f.sub s g.bias));
          bias_n = if ltb g.bias_n g.cfg.bias_samples then g.bias_n + 1 else g.bias_n;
        }

  abbrev pub calibrated : Guard W → Bool
  calibrated g = leb g.cfg.bias_samples g.bias_n

  -- `Bias()`: `time.Duration(g.bias * float64(time.Second))`
  unfoldable pub bias_duration : Guard W → Duration
  bias_duration g = f.to_int (f.mul g.bias (f.of_int (pos 1000000000)))

  -- `stepTrustworthy`, which reads the configuration alone.
  unfoldable pub step_trustworthy : Config W → Duration → Bool
  step_trustworthy cfg err =
      let amount = step_amount err in
      let frac = sub_duration err (round_second err) in
      if ltb_ℤ cfg.max_step amount || ltb_ℤ amount (neg_duration cfg.max_step)
      then false
      else not (ltb_ℤ cfg.ambiguity (abs_duration frac))

  -- The threshold and the error that `Check` compares.
  unfoldable pub threshold : Guard W → Duration
  threshold g = if calibrated g then g.cfg.abs_threshold else g.cfg.uncal_threshold

  unfoldable pub error : Guard W → Time → Time → Duration
  error g phc tai =
      let raw = sub_time phc tai in if calibrated g then sub_duration raw (bias_duration g) else raw

  -- `err > threshold || err < -threshold`
  unfoldable pub violates : Guard W → Duration → Bool
  violates g err = ltb_ℤ (threshold g) err || ltb_ℤ err (neg_duration (threshold g))

  unfoldable pub count_violation : Guard W → Time → Guard W
  count_violation g now =
      if is_zero g.last_violation
        || not (ltb_ℤ (sub_time now g.last_violation) g.cfg.violation_spacing)
      then record g { last_violation = now; violations = g.violations + 1 }
      else g

  -- The end of `Check`: a re-arm, if the pipeline is silent and the last re-arm is long ago.
  unfoldable pub check_pulse : Guard W → Time → Duration → Guard W × Action × Duration
  check_pulse g now err =
      if ltb_ℤ g.cfg.pulse_timeout (sub_time now g.last_pulse)
        && ltb_ℤ g.cfg.pulse_timeout (sub_time now g.last_rearm)
      then (record g { last_rearm = now }, rearm, err)
      else (g, none, err)

  -- `if g.violations >= g.cfg.Violations { … }` and what follows it.
  unfoldable pub judge : Guard W → Time → Duration → Guard W × Action × Duration
  judge g now err =
      if leb g.cfg.violations g.violations
      then (record g { violations = 0 }, if step_trustworthy g.cfg err then step else refuse, err)
      else check_pulse g now err

  unfoldable pub check : Guard W → Time → Time → Bool → Time → Bool → Guard W × Action × Duration
  unfolding violates count_violation judge check_pulse
  check g now phc phc_valid tai tai_valid =
      let err = error g phc tai in
      if phc_valid && tai_valid
      then (if violates g err
          then judge (count_violation g now) now err
          else check_pulse (record g { violations = 0 }) now err)
      else check_pulse g now (pos 0)

  -- What main.go feeds the guard with on one tick: `gd.Pulse(now)` if a pulse was validated, then
  -- `gd.Check(…)` with the two readings.
  unfoldable pub tick : Guard W → Tick → Guard W × Action × Duration
  unfolding pulse
  tick g t = check (if t.ready then pulse g t.now else g) t.now t.phc t.phc_valid t.tai t.tai_valid

  unfoldable pub run : Guard W → List Tick → Guard W
  run g [] = g
  run g (t ∷ ts) = run (tick g t).0 ts

  unfoldable pub actions : Guard W → List Tick → List Action
  actions g [] = []
  actions g (t ∷ ts) = let (g', action, err) = tick g t in action ∷ actions g' ts
