-- ===== src/Guard/Bias.antt =====
-- The calibration of the reference bias.
use Prim.Native.Nat.{min}
use ts2phc_go.Common.{ℕ, suc, ◌+◌, ◌≤◌, ◌≡◌, refl, ◌||◌, List, [], ◌∷◌, if◌then◌else◌, arith}
use ts2phc_go.Common.Int.{ltb_ℤ}
use ts2phc_go.Common.Float.{Float}
use ts2phc_go.Common.Time.{Duration, neg_duration}
use ts2phc_go.Guard.{Guard, Config, calibrate}

module _ {W : Type 0} ⦃f : Float W⦄ where
  unfoldable pub calibrate_all : Guard W → List Duration → Guard W
  calibrate_all g [] = g
  calibrate_all g (raw ∷ raws) = calibrate_all (calibrate g raw) raws

  -- The samples whose magnitude is within `MaxBias`.
  unfoldable pub plausible : Config W → List Duration → ℕ
  plausible cfg [] = 0
  plausible cfg (raw ∷ raws) =
      let rest = plausible cfg raws in
      if ltb_ℤ cfg.max_bias raw || ltb_ℤ raw (neg_duration cfg.max_bias) then rest else suc rest

  calibrate_step :
      (g : Guard W) (raw : Duration) (raws : List Duration)
      → g.bias_n ≤ g.cfg.bias_samples
      → ((calibrate g raw).cfg ≡ g.cfg)
        × ((calibrate g raw).bias_n ≤ g.cfg.bias_samples)
        × (min ((calibrate g raw).bias_n + plausible g.cfg raws) g.cfg.bias_samples
            ≡ min (g.bias_n + plausible g.cfg (raw ∷ raws)) g.cfg.bias_samples)
  unfolding calibrate plausible
  calibrate_step g raw raws h = ground arith

  plausible-nil : (cfg : Config W) → plausible cfg [] ≡ 0
  unfolding plausible
  plausible-nil cfg = refl

  -- However many samples come, the count goes up by that of the plausible ones and is capped at
  -- `BiasSamples`, if it did not exceed that before.
  calibrate_all-bias_n :
      (g : Guard W) (raws : List Duration)
      → g.bias_n ≤ g.cfg.bias_samples
      → (calibrate_all g raws).bias_n ≡ min (g.bias_n + plausible g.cfg raws) g.cfg.bias_samples
  unfolding calibrate_all
  calibrate_all-bias_n g [] h = omega (arith, plausible-nil g.cfg)
  calibrate_all-bias_n g (raw ∷ raws) h =
      let (same, below, counts) = calibrate_step g raw raws h in
      ground (arith, calibrate_all-bias_n (calibrate g raw) raws)
