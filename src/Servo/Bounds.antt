-- ===== src/Servo/Bounds.antt =====
-- The frequency that the servo asks for does not compare outside what the PHC can do.
use ts2phc_go.Common.{ℕ, ◌≡◌, false, List, [], ◌∷◌, arith, All}
use ts2phc_go.Common.Int.{ℤ}
use ts2phc_go.Common.Float.{Float, IsOrdered}
use ts2phc_go.Servo.{
  PiServo, State, unlocked, jump, locked, locked_stable, clamp, estimate, sample_first,
  sample_estimate, sample_second, sample_locked, sample_count, check_offset_threshold, post_process,
  sample, reset, Sample, freqs,
}

module _ {W : Type 0} ⦃f : Float W⦄ where
  -- A frequency that does not compare outside [-max, max], as no NaN does.
  pub record IsWithin (max x : W) : Type 0 where
    pub above : f.lt x (f.neg max) ≡ false
    pub below : f.lt max x ≡ false

  post_process_lem :
      (s : PiServo W) (offset : ℤ) (ppb : W) (state : State)
      → let (s', freq, state') = post_process s offset ppb state in
        (s'.max_frequency ≡ s.max_frequency) × (s'.last_freq ≡ ppb) × (freq ≡ ppb)
  unfolding post_process check_offset_threshold
  post_process_lem s offset ppb unlocked = ground arith
  post_process_lem s offset ppb jump = ground arith
  post_process_lem s offset ppb locked = ground arith
  post_process_lem s offset ppb locked_stable = ground arith

  module _ (laws : IsOrdered W) where
    clamp-IsWithin : (max x : W) → f.lt max (f.neg max) ≡ false → IsWithin max (clamp max x)
    unfolding clamp
    clamp-IsWithin max x h = ground (
      arith,
      laws.lt_irrefl (f.neg max),
      laws.lt_irrefl max,
      laws.lt_asymm (f.neg max) max,
      laws.lt_asymm max (f.neg max),
    )

    sample_count-IsWithin :
        (s : PiServo W) (offset : ℤ) (local_ts : ℕ) (weight : W)
        → f.lt s.max_frequency (f.neg s.max_frequency) ≡ false
        → IsWithin s.max_frequency s.last_freq
        → let (s', ppb, state) = sample_count s offset local_ts weight in
          (s'.max_frequency ≡ s.max_frequency) × IsWithin s.max_frequency ppb
    unfolding sample_count sample_first sample_second sample_estimate sample_locked reset
    sample_count-IsWithin s offset local_ts weight h w = ground (
      arith,
      clamp-IsWithin s.max_frequency (estimate (record s { offset_1 = offset; local_1 = local_ts }))
          h,
      laws.lt_irrefl (f.neg s.max_frequency),
      laws.lt_irrefl s.max_frequency,
      laws.lt_asymm (f.neg s.max_frequency) s.max_frequency,
    )

    pub sample-IsWithin :
        (s : PiServo W) (x : Sample W)
        → f.lt s.max_frequency (f.neg s.max_frequency) ≡ false
        → IsWithin s.max_frequency s.last_freq
        → let (s', ppb, state) = sample s x.offset x.local_ts x.weight in
          (s'.max_frequency ≡ s.max_frequency)
          × IsWithin s.max_frequency ppb
          × IsWithin s'.max_frequency s'.last_freq
    unfolding sample
    sample-IsWithin s x h w =
        let (s', ppb, state) = sample_count s x.offset x.local_ts x.weight in
        ground (
          arith,
          sample_count-IsWithin s x.offset x.local_ts x.weight h w,
          post_process_lem s' x.offset ppb state,
        )

    -- If the frequency that the servo starts with is within the limits of the PHC, then so is
    -- every frequency that it returns, whatever samples it is given, where floats are ordered as
    -- IEEE 754 says and the largest frequency is not below its negation.
    freqs-IsWithin :
        (s : PiServo W) (xs : List (Sample W))
        → f.lt s.max_frequency (f.neg s.max_frequency) ≡ false
        → IsWithin s.max_frequency s.last_freq
        → All (IsWithin s.max_frequency) (freqs s xs)
    unfolding freqs
    freqs-IsWithin s [] h w = tt
    freqs-IsWithin s (x ∷ xs) h w =
        let (s', ppb, state) = sample s x.offset x.local_ts x.weight in
        let (same, now, later) = sample-IsWithin s x h w in
        (now, rw same at (freqs-IsWithin s' xs (rw same h) later))
