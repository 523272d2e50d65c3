-- ===== src/Ubx/Msg/Units.antt =====
-- The methods of ubx/msg.go that give a field of a message in degrees, metres or plain numbers.
use ts2phc_go.Common.{ℕ}
use ts2phc_go.Common.Int.{ℤ, pos}
use ts2phc_go.Common.Float.{Float}
use ts2phc_go.Ubx.Msg.{NavPvt, NavDop}

module _ {W : Type 0} ⦃f : Float W⦄ where
  -- `float64(n) * 1e-7`, `float64(n) / 1000.0`, `float64(n) * 0.01` and `float64(n) * 1e-5`
  abbrev pub tens_of_nano : ℤ → W
  tens_of_nano n = f.mul (f.of_int n) (f.literal (pos 1) 7)

  abbrev pub thousandths : ℤ → W
  thousandths n = f.div (f.of_int n) (f.literal (pos 1000) 0)

  abbrev pub hundredths : ℕ → W
  hundredths n = f.mul (f.of_int (pos n)) (f.literal (pos 1) 2)

  abbrev pub tens_of_micro : ℤ → W
  tens_of_micro n = f.mul (f.of_int n) (f.literal (pos 1) 5)

  abbrev pub lon_deg : NavPvt → W
  lon_deg p = tens_of_nano p.lon

  abbrev pub lat_deg : NavPvt → W
  lat_deg p = tens_of_nano p.lat

  abbrev pub h_msl_meters : NavPvt → W
  h_msl_meters p = thousandths p.h_msl

  abbrev pub h_acc_meters : NavPvt → W
  h_acc_meters p = thousandths (pos p.h_acc)

  abbrev pub v_acc_meters : NavPvt → W
  v_acc_meters p = thousandths (pos p.v_acc)

  abbrev pub g_speed_mps : NavPvt → W
  g_speed_mps p = thousandths p.g_speed

  abbrev pub pdop_val : NavPvt → W
  pdop_val p = hundredths p.pdop

  -- `math.Round(float64(n)*0.01*100) / 100`, of `HDOPVal`, `VDOPVal` and `PDOPVal` of a NavDOP.
  abbrev pub rounded_dop : ℕ → W
  rounded_dop n =
      f.div (f.round (f.mul (hundredths n) (f.literal (pos 100) 0))) (f.literal (pos 100) 0)

  abbrev pub hdop_val : NavDop → W
  hdop_val d = rounded_dop d.hdop

  abbrev pub vdop_val : NavDop → W
  vdop_val d = rounded_dop d.vdop

  abbrev pub dop_pdop_val : NavDop → W
  dop_pdop_val d = rounded_dop d.pdop
