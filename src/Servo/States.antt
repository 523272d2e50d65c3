-- ===== src/Servo/States.antt =====
-- The servo as a state machine: when it is locked, and how it leaves and finds a lock.
use ts2phc_go.Common.{ℕ, ◌≤◌, ◌<◌, ◌≡◌, ap, refl, Bool, true, false, not, ◌&&◌, [], ◌∷◌, arith}
use ts2phc_go.Common.Int.{ℤ}
use ts2phc_go.Common.Float.{Float}
use ts2phc_go.Servo.{
  PiServo, Sample, states, State, unlocked, jump, locked, locked_stable, estimate, local_diff,
  freq_est_interval, is_positive, abs_offset, is_implausible, is_jump, is_discontinuous,
  sample_first, sample_estimate, sample_second, sample_locked, sample_count, check_offset_threshold,
  post_process, sample, reset, is_locked,
}

abbrev pub is_unlocked : State → Bool
is_unlocked unlocked = true
is_unlocked _ = false

module _ {W : Type 0} ⦃f : Float W⦄ where
  post_process-count :
      (s : PiServo W) (offset : ℤ) (ppb : W) (state : State)
      → let (s', freq, state') = post_process s offset ppb state in
        (s'.count ≡ s.count) × (is_unlocked state' ≡ is_unlocked state)
  unfolding post_process check_offset_threshold
  post_process-count s offset ppb unlocked = ground arith
  post_process-count s offset ppb jump = ground arith
  post_process-count s offset ppb locked = ground arith
  post_process-count s offset ppb locked_stable = ground arith

  sample_count-count :
      (s : PiServo W) (offset : ℤ) (local_ts : ℕ) (weight : W)
      → s.count ≤ 2
      → let (s', ppb, state) = sample_count s offset local_ts weight in
        (s'.count ≤ 2) × (is_locked s' ≡ not (is_unlocked state))
  unfolding sample_count sample_first sample_second sample_estimate sample_locked reset is_locked
  sample_count-count s offset local_ts weight h = ground arith

  -- The count stays in its three values, from 0 to 2, and the servo is locked after a sample exactly when the
  -- state that the sample returns is another than unlocked.
  pub sample-is_locked :
      (s : PiServo W) (offset : ℤ) (local_ts : ℕ) (weight : W)
      → s.count ≤ 2
      → let (s', ppb, state) = sample s offset local_ts weight in
        (s'.count ≤ 2) × (is_locked s' ≡ not (is_unlocked state))
  unfolding sample is_locked
  sample-is_locked s offset local_ts weight h =
      let (s', ppb, state) = sample_count s offset local_ts weight in
      ground (
        arith,
        sample_count-count s offset local_ts weight h,
        post_process-count s' offset ppb state,
      )

  -- A second sample whose estimate is implausible is discarded with the first one: the servo stays
  -- unlocked at its last frequency, keeps its drift, and begins again with the next sample.
  pub sample_implausible :
      (s : PiServo W) (offset : ℤ) (local_ts : ℕ) (weight : W)
      → s.count ≡ 1
      → s.local_0 < local_ts
      → let s₁ = record s { offset_1 = offset; local_1 = local_ts } in
        f.lt (local_diff s₁) (freq_est_interval s₁) ≡ false
        → is_implausible s₁ ≡ true
        → let (s', ppb, state) = sample s offset local_ts weight in
          (state ≡ unlocked) × (ppb ≡ s.last_freq) × (s'.drift ≡ s.drift) × (s'.count ≡ 0)
  unfolding sample sample_count sample_second sample_estimate post_process
  sample_implausible s offset local_ts weight c t d i = ground arith

  -- A locked servo answers an offset beyond the discontinuity threshold by a reset: it keeps its
  -- frequency and its drift, and the next lock counts as a first update again.
  pub sample_discontinuity :
      (s : PiServo W) (offset : ℤ) (local_ts : ℕ) (weight : W)
      → s.count ≡ 2
      → is_discontinuous s offset ≡ true
      → let (s', ppb, state) = sample s offset local_ts weight in
        (state ≡ unlocked)
        × (ppb ≡ s.last_freq)
        × (s'.drift ≡ s.drift)
        × (s'.count ≡ 0)
        × (s'.first_update ≡ true)
  unfolding sample sample_count sample_locked reset post_process
  sample_discontinuity s offset local_ts weight c d = ground arith

  -- The three steps of a recovery.
  after_reset : PiServo W → PiServo W
  after_reset s = record s {
    count = 0;
    first_update = true;
    curr_offset_values = s.num_offset_values;
    last_freq = s.last_freq;
  }

  reset_step :
      (s : PiServo W) (x : Sample W)
      → s.count ≡ 2
      → is_discontinuous s x.offset ≡ true
      → sample s x.offset x.local_ts x.weight ≡ (after_reset s, s.last_freq, unlocked)
  unfolding sample sample_count sample_locked reset post_process after_reset is_discontinuous
  reset_step s x c d = rw (c, d) refl

  after_first : PiServo W → Sample W → PiServo W
  after_first s x = record s {
    offset_0 = x.offset;
    local_0 = x.local_ts;
    count = 1;
    curr_offset_values = s.num_offset_values;
    last_freq = s.last_freq;
  }

  first_step :
      (s : PiServo W) (x : Sample W)
      → s.count ≡ 0
      → sample s x.offset x.local_ts x.weight ≡ (after_first s x, s.last_freq, unlocked)
  unfolding sample sample_count sample_first post_process after_first
  first_step s x c = rw c refl

  jump_step :
      (s : PiServo W) (x : Sample W)
      → s.count ≡ 1
      → s.local_0 < x.local_ts
      → let s₁ = record s { offset_1 = x.offset; local_1 = x.local_ts } in
        f.lt (local_diff s₁) (freq_est_interval s₁) ≡ false
        → is_implausible s₁ ≡ false
        → is_jump s x.offset ≡ true
        → (sample s x.offset x.local_ts x.weight).2 ≡ jump
  unfolding sample sample_count sample_second sample_estimate is_jump post_process
  jump_step s x c t l i j = ground arith

  -- From a lock, an offset beyond the discontinuity threshold and two plausible samples behind it
  -- end in a jump, if the second of them exceeds the first-step threshold.
  pub discontinuity_recovers :
      (s : PiServo W) (x x₁ x₂ : Sample W)
      → s.count ≡ 2
      → is_discontinuous s x.offset ≡ true
      → x₁.local_ts < x₂.local_ts
      → let s₂ = record s {
        offset_0 = x₁.offset;
        local_0 = x₁.local_ts;
        offset_1 = x₂.offset;
        local_1 = x₂.local_ts;
      } in
        f.lt (local_diff s₂) (freq_est_interval s₂) ≡ false
        → is_implausible s₂ ≡ false
        → (is_positive s.first_step_thresh && f.lt s.first_step_thresh (abs_offset x₂.offset))
          ≡ true
        → states s (x ∷ x₁ ∷ x₂ ∷ []) ≡ unlocked ∷ unlocked ∷ jump ∷ []
  unfolding states after_reset after_first is_jump is_implausible estimate
  discontinuity_recovers s x x₁ x₂ c d t l i j =
      let s₁ = after_first (after_reset s) x₁ in
      rw (reset_step s x c d, first_step (after_reset s) x₁ refl)
        (ap (λ st. unlocked ∷ unlocked ∷ st ∷ []) (jump_step s₁ x₂ refl t l i (ground arith)))
