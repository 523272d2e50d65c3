-- ===== src/Daemon/Outlier.antt =====
-- The outlier gate in front of the servo.
use ts2phc_go.Common.{
  ℕ, ◌+◌, ◌≤◌, ◌≡◌, true, false, List, [], ◌∷◌, length, leb, if◌then◌else◌, arith,
}
use ts2phc_go.Common.Int.{ℤ, pos}
use ts2phc_go.Common.Float.{Float}
use ts2phc_go.Servo.{reset, is_locked, abs_offset}
use ts2phc_go.Daemon.{
  Clock, Device, is_outlier, count_outlier, discipline_offset, discipline_all, outlier_threshold_ns,
}

-- Every offset of a run is beyond the gate.
abbrev pub AreOutliers : (W : Type 0) → ⦃f : Float W⦄ → List (ℤ × ℕ) → Type 0
AreOutliers W ⦃f⦄ [] = true ≡ true
AreOutliers W ⦃f⦄ ((offset, ts) ∷ ps) =
    (f.lt (f.literal (pos outlier_threshold_ns) 0) (abs_offset offset) ≡ true) × AreOutliers W ps

module _ {W : Type 0} ⦃f : Float W⦄ (d : Device) where
  outlier_step :
      (c : Clock W) (offset : ℤ) (ts : ℕ)
      → is_locked c.servo ≡ true
      → f.lt (f.literal (pos outlier_threshold_ns) 0) (abs_offset offset) ≡ true
      → discipline_offset d c offset ts ≡ (count_outlier c, [], false)
  unfolding discipline_offset is_outlier
  outlier_step c offset ts h o = ground arith

  -- While the servo is locked, a run of offsets beyond the gate sends no command to the device. The
  -- servo stays as it is until five of them have been counted in a row; the fifth resets it and
  -- clears the count.
  pub outliers_reset :
      (c : Clock W) (ps : List (ℤ × ℕ))
      → is_locked c.servo ≡ true
      → AreOutliers W ps
      → c.outlier_count + length ps ≤ 5
      → 1 ≤ length ps
      → discipline_all d c ps ≡ (
        if leb 5 (c.outlier_count + length ps)
            then record c { servo = reset c.servo; outlier_count = 0 }
            else record c { outlier_count = c.outlier_count + length ps },
        [],
      )
  unfolding discipline_all count_outlier
  outliers_reset c [] h os l n = absurd (omega arith)
  outliers_reset c ((offset, ts) ∷ []) h os l n = ground (arith, outlier_step c offset ts h os.0)
  outliers_reset c ((offset, ts) ∷ p ∷ ps) h os l n = ground (
    arith,
    outlier_step c offset ts h os.0,
    outliers_reset (record c { outlier_count = c.outlier_count + 1 }) (p ∷ ps) h os.1 (omega arith)
        (omega arith),
  )
