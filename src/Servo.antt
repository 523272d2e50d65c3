-- ===== src/Servo.antt =====
-- Package servo (servo/pi.go): the PI clock servo. A method that changes `*PiServo` returns the new
-- record; `Sample` returns it with the frequency (ppb) and the state.
pub mod Config
pub mod Bounds
pub mod States
pub mod Stable
use ts2phc_go.Common.{
  ℕ, zero, suc, ◌+◌, ◌-◌, List, [], ◌∷◌, Bool, true, false, not, ◌&&◌, ◌||◌, ltb, leb, ◌==◌,
  if◌then◌else◌,
}
use ts2phc_go.Common.Int.{ℤ, pos, negsuc, ◌-ℤ◌, neg_ℤ, ltb_ℤ, eqb_ℤ}
use ts2phc_go.Common.Word.{i64}
use ts2phc_go.Common.Float.{Float}
unfoldable pub use ts2phc_go.Servo.Config.*

module _ {W : Type 0} ⦃f : Float W⦄ where
  -- `x > 0`
  abbrev pub is_positive : W → Bool
  is_positive x = f.lt (f.of_int (pos 0)) x

  -- `math.Abs(float64(offset))`
  abbrev pub abs_offset : ℤ → W
  abs_offset offset = f.abs (f.of_int offset)

  unfoldable pub reset : PiServo W → PiServo W
  reset s = record s { count = 0; first_update = true }

  unfoldable pub is_locked : PiServo W → Bool
  is_locked s = leb 2 s.count

  -- `if x < -max { x = -max } else if x > max { x = max }`
  unfoldable pub clamp : W → W → W
  clamp max x = if f.lt x (f.neg max) then f.neg max else if f.lt max x then max else x

  unfoldable pub sample_first : PiServo W → ℤ → ℕ → PiServo W × W × State
  sample_first s offset local_ts =
      (record s { offset_0 = offset; local_0 = local_ts; count = 1 }, s.last_freq, unlocked)

  -- `localDiff`, the seconds between the two samples with the margin added.
  abbrev pub local_diff : PiServo W → W
  local_diff s =
      let d = f.div (f.of_int (pos (s.local_1 - s.local_0))) (f.literal (pos 1000000000) 0) in
      f.add d (f.mul d (f.literal (pos 1) 3))

  abbrev pub freq_est_interval : PiServo W → W
  freq_est_interval s =
      let interval = f.div (f.literal (pos 16) 3) s.ki in
      if f.lt (f.literal (pos 1000) 0) interval then f.literal (pos 1000) 0 else interval

  -- The two-sample estimate of the drift.
  unfoldable pub estimate : PiServo W → W
  estimate s = f.add s.drift (
      f.div
        (f.mul (f.sub (f.literal (pos 1000000000) 0) s.drift)
          (f.of_int (i64 (s.offset_1 -ℤ s.offset_0))))
        (f.of_int (pos (s.local_1 - s.local_0))))

  unfoldable pub is_implausible : PiServo W → Bool
  is_implausible s =
      is_positive s.plausible_freq
      && (f.lt s.plausible_freq (estimate s) || f.lt (estimate s) (f.neg s.plausible_freq))

  -- Whether the second sample steps the clock.
  unfoldable pub is_jump : PiServo W → ℤ → Bool
  is_jump s offset =
      (s.first_update
        && is_positive s.first_step_thresh
        && f.lt s.first_step_thresh (abs_offset offset))
      || (is_positive s.step_threshold && f.lt s.step_threshold (abs_offset offset))

  -- Case 1 behind the two assignments.
  unfoldable pub sample_estimate : PiServo W → ℤ → PiServo W × W × State
  sample_estimate s offset =
      if leb s.local_1 s.local_0
      then (record s { count = 0 }, s.last_freq, unlocked)
      else if f.lt (local_diff s) (freq_est_interval s)
      then (s, s.last_freq, unlocked)
      else if is_implausible s
      then (record s { count = 0 }, s.last_freq, unlocked)
      else let drift = clamp s.max_frequency (estimate s) in
        (record s { drift = drift; count = 2 }, drift, if is_jump s offset then jump else locked)

  unfoldable pub sample_second : PiServo W → ℤ → ℕ → PiServo W × W × State
  sample_second s offset local_ts =
      sample_estimate (record s { offset_1 = offset; local_1 = local_ts }) offset

  unfoldable pub is_discontinuous : PiServo W → ℤ → Bool
  is_discontinuous s offset =
      is_positive s.discontinuity && f.lt s.discontinuity (abs_offset offset)

  abbrev pub ki_term : PiServo W → ℤ → W → W
  ki_term s offset weight = f.mul (f.mul s.ki (f.of_int offset)) weight

  abbrev pub pi_output : PiServo W → ℤ → W → W
  pi_output s offset weight =
      f.add (f.add (f.mul (f.mul s.kp (f.of_int offset)) weight) s.drift) (ki_term s offset weight)

  unfoldable pub sample_locked : PiServo W → ℤ → W → PiServo W × W × State
  sample_locked s offset weight =
      let ppb = pi_output s offset weight in
      if is_discontinuous s offset
      then (reset s, s.last_freq, unlocked)
      else if is_positive s.step_threshold && f.lt s.step_threshold (abs_offset offset)
      then (record s { count = 0 }, s.last_freq, unlocked)
      else if f.lt ppb (f.neg s.max_frequency)
      then (s, f.neg s.max_frequency, locked)
      else if f.lt s.max_frequency ppb
      then (s, s.max_frequency, locked)
      else (record s { drift = f.add s.drift (ki_term s offset weight) }, ppb, locked)

  -- `checkOffsetThreshold`
  unfoldable pub check_offset_threshold : PiServo W → ℤ → PiServo W × Bool
  check_offset_threshold s offset =
      let abs_off = if ltb_ℤ offset (pos 0) then i64 (neg_ℤ offset) else offset in
      let values =
        if ltb_ℤ abs_off s.offset_threshold
        then (if ltb 0 s.curr_offset_values then s.curr_offset_values - 1 else s.curr_offset_values)
        else s.num_offset_values in
      if eqb_ℤ s.offset_threshold (pos 0)
      then (s, false)
      else (record s { curr_offset_values = values }, values == 0)

  -- The switch on the count. Any other count does nothing.
  unfoldable pub sample_count : PiServo W → ℤ → ℕ → W → PiServo W × W × State
  sample_count s offset local_ts weight =
      if s.count == 0
      then sample_first s offset local_ts
      else if s.count == 1
      then sample_second s offset local_ts
      else if s.count == 2
      then sample_locked s offset weight
      else (s, s.last_freq, unlocked)

  -- The post-processing by state, and `s.lastFreq = ppb`.
  unfoldable pub post_process : PiServo W → ℤ → W → State → PiServo W × W × State
  post_process s offset ppb unlocked =
      (record s { curr_offset_values = s.num_offset_values; last_freq = ppb }, ppb, unlocked)
  post_process s offset ppb jump = (
    record s { curr_offset_values = s.num_offset_values; first_update = false; last_freq = ppb },
    ppb,
    jump,
  )
  post_process s offset ppb locked =
      let (s', stable) = check_offset_threshold s offset in
      (
        record s' { first_update = false; last_freq = ppb },
        ppb,
        if stable then locked_stable else locked,
      )
  post_process s offset ppb locked_stable = (record s { last_freq = ppb }, ppb, locked_stable)

  unfoldable pub sample : PiServo W → ℤ → ℕ → W → PiServo W × W × State
  sample s offset local_ts weight =
      let (s', ppb, state) = sample_count s offset local_ts weight in
      post_process s' offset ppb state

  -- `SyncInterval`
  unfoldable pub sync_interval : PiServo W → W → PiServo W
  sync_interval s interval =
      let kp = f.mul s.kp_scale (f.pow interval s.kp_exponent) in
      let ki = f.mul s.ki_scale (f.pow interval s.ki_exponent) in
      record s {
        kp = if f.lt (f.div s.kp_norm_max interval) kp then f.div s.kp_norm_max interval else kp;
        ki = if f.lt (f.div s.ki_norm_max interval) ki then f.div s.ki_norm_max interval else ki;
      }

  unfoldable pub samples : PiServo W → List (Sample W) → PiServo W
  samples s [] = s
  samples s (x ∷ xs) = samples (sample s x.offset x.local_ts x.weight).0 xs

  -- What a run of calls returns.
  unfoldable pub freqs : PiServo W → List (Sample W) → List W
  freqs s [] = []
  freqs s (x ∷ xs) =
      let (s', ppb, state) = sample s x.offset x.local_ts x.weight in ppb ∷ freqs s' xs

  unfoldable pub states : PiServo W → List (Sample W) → List State
  states s [] = []
  states s (x ∷ xs) =
      let (s', ppb, state) = sample s x.offset x.local_ts x.weight in state ∷ states s' xs
