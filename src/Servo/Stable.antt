-- ===== src/Servo/Stable.antt =====
-- When the servo reports a stable lock.
use ts2phc_go.Common.{
  ℕ, suc, ◌+◌, ◌≤◌, ◌≡◌, ◌≢◌, refl, ◌∙◌, ◌++◌, Bool, true, false, ◌&&◌, List, [], ◌∷◌,
  if◌then◌else◌, arith,
}
use ts2phc_go.Common.Int.{ℤ, pos, ltb_ℤ, eqb_ℤ, neg_ℤ}
use ts2phc_go.Common.Word.{i64}
use ts2phc_go.Common.Float.{Float}
use ts2phc_go.Servo.{
  PiServo, PiServoConfig, Sample, State, unlocked, jump, locked, locked_stable, sample_first,
  sample_estimate, sample_second, sample_locked, sample_count, check_offset_threshold, post_process,
  sample, samples, reset, new_pi_servo,
}

abbrev pub is_lock : State → Bool
is_lock locked = true
is_lock locked_stable = true
is_lock _ = false

-- `|offset| < threshold`, as int64 computes it.
unfoldable pub is_near : ℤ → ℤ → Bool
is_near threshold offset =
    ltb_ℤ (if ltb_ℤ offset (pos 0) then i64 (neg_ℤ offset) else offset) threshold

module _ {W : Type 0} ⦃f : Float W⦄ where
  -- How many samples in a row, up to the last one, were locked and near.
  pub streak : PiServo W → ℕ → List (Sample W) → ℕ
  streak s n [] = n
  streak s n (x ∷ xs) =
      let (s', ppb, state) = sample s x.offset x.local_ts x.weight in
      streak s' (if is_lock state && is_near s.offset_threshold x.offset then suc n else 0) xs

  sample_count-thresholds :
      (s : PiServo W) (offset : ℤ) (local_ts : ℕ) (weight : W)
      → let (s', ppb, state) = sample_count s offset local_ts weight in
        (s'.offset_threshold ≡ s.offset_threshold)
        × (s'.num_offset_values ≡ s.num_offset_values)
        × (s'.curr_offset_values ≡ s.curr_offset_values)
        × (state ≢ locked_stable)
  unfolding sample_count sample_first sample_second sample_estimate sample_locked reset
  sample_count-thresholds s offset local_ts weight = ground arith

  post_process-streak :
      (s : PiServo W) (offset : ℤ) (ppb : W) (state : State) (n : ℕ)
      → state ≢ locked_stable
      → eqb_ℤ s.offset_threshold (pos 0) ≡ false
      → s.num_offset_values ≤ s.curr_offset_values + n
      → let (s', freq, state') = post_process s offset ppb state in
        let n' = if is_lock state' && is_near s.offset_threshold offset then suc n else 0 in
        (s'.offset_threshold ≡ s.offset_threshold)
        × (s'.num_offset_values ≡ s.num_offset_values)
        × (s'.num_offset_values ≤ s'.curr_offset_values + n')
        × (state' ≡ locked_stable → s.num_offset_values ≤ n')
  unfolding post_process check_offset_threshold is_near
  post_process-streak s offset ppb unlocked n p z h = ground arith
  post_process-streak s offset ppb jump n p z h = ground arith
  post_process-streak s offset ppb locked n p z h = ground arith
  post_process-streak s offset ppb locked_stable n p z h = absurd (p refl)

  record IsCounting (s : PiServo W) (n : ℕ) : Type 0 where
    enabled : eqb_ℤ s.offset_threshold (pos 0) ≡ false
    within : s.num_offset_values ≤ s.curr_offset_values + n

  -- One sample: the streak and the countdown go together.
  sample-streak :
      (s : PiServo W) (x : Sample W) (n : ℕ)
      → IsCounting s n
      → let (s', ppb, state) = sample s x.offset x.local_ts x.weight in
        let n' = if is_lock state && is_near s.offset_threshold x.offset then suc n else 0 in
        IsCounting s' n'
        × (s'.num_offset_values ≡ s.num_offset_values)
        × (state ≡ locked_stable → s.num_offset_values ≤ n')
  unfolding sample
  sample-streak s x n h =
      let (s', ppb, state) = sample_count s x.offset x.local_ts x.weight in
      let (same, num, curr, ne) = sample_count-thresholds s x.offset x.local_ts x.weight in
      ground (arith, post_process-streak s' x.offset ppb state n)

  samples-IsCounting :
      (s : PiServo W) (n : ℕ) (xs : List (Sample W))
      → IsCounting s n
      → IsCounting (samples s xs) (streak s n xs)
        × ((samples s xs).num_offset_values ≡ s.num_offset_values)
  unfolding samples streak
  samples-IsCounting s n [] h = (h, refl)
  samples-IsCounting s n (x ∷ xs) h =
      let (s', ppb, state) = sample s x.offset x.local_ts x.weight in
      let n' = if is_lock state && is_near s.offset_threshold x.offset then suc n else 0 in
      let (h', same, enough) = sample-streak s x n h in
      let (later, num) = samples-IsCounting s' n' xs h' in (later, num ∙ same)

  streak-snoc :
      (s : PiServo W) (n : ℕ) (xs : List (Sample W)) (x : Sample W)
      → streak s n (xs ++ x ∷ []) ≡ (
          let s' = samples s xs in
          if is_lock (sample s' x.offset x.local_ts x.weight).2
            && is_near s'.offset_threshold x.offset
          then suc (streak s n xs)
          else 0)
  unfolding samples streak
  streak-snoc s n [] x = refl
  streak-snoc s n (y ∷ xs) x =
      let (s', ppb, state) = sample s y.offset y.local_ts y.weight in
      streak-snoc s' (if is_lock state && is_near s.offset_threshold y.offset then suc n else 0) xs
        x

  -- A servo made with an offset threshold other than 0 reports a stable lock only when at least the configured
  -- number of samples in a row, this one included, were locked with an offset below the threshold.
  pub stable_needs_streak :
      (fadj max_ppb : W) (cfg : PiServoConfig W) (xs : List (Sample W)) (x : Sample W)
      → cfg.offset_threshold ≢ pos 0
      → let s = new_pi_servo fadj max_ppb cfg in
        (sample (samples s xs) x.offset x.local_ts x.weight).2 ≡ locked_stable
        → cfg.num_offset_values ≤ streak s 0 (xs ++ x ∷ [])
  unfolding new_pi_servo
  stable_needs_streak fadj max_ppb cfg xs x z h =
      let s = new_pi_servo fadj max_ppb cfg in
      let start : IsCounting s 0 = record { enabled = ground arith; within = omega arith } in
      let (counting, num) = samples-IsCounting s 0 xs start in
      let (later, same, enough) = sample-streak (samples s xs) x (streak s 0 xs) counting in
      rw (streak-snoc s 0 xs x) (omega (arith, num, enough h))
