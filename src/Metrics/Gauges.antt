-- ===== src/Metrics/Gauges.antt =====
-- The gauges and counters of metrics/metrics.go, and the `Update` methods that set them. Names and
-- help texts of the series are left out. The satellites and `numSV`, which two methods set, are the
-- table of the module above.
use ts2phc_go.Common.{ℕ, suc, Bool, List, [], ◌∷◌, Option, some, ltb, if◌then◌else◌}
use ts2phc_go.Common.Int.{pos}
use ts2phc_go.Common.Float.{Float}
use ts2phc_go.Ubx.Msg.{NavPvt, NavDop, NavTimeUtc, NavClock, TimTp, SatInfo, valid_utc}
use ts2phc_go.Ubx.Msg.Units.{
  tens_of_micro, thousandths, hundredths, lon_deg, lat_deg, h_msl_meters, h_acc_meters,
  v_acc_meters, g_speed_mps, pdop_val, hdop_val, vdop_val, dop_pdop_val,
}
use ts2phc_go.Metrics.{Satellites, same_text, update_nav_sat}

-- `ts2phcOffset` and `ts2phcFreq` of one clock.
pub record ClockSeries (W : Type 0) : Type 0 where
  pub clock : List ℕ
  pub offset : W
  pub freq : W

-- `Metrics`. `guard_err` is none where the gauge is NaN.
pub record Metrics (W : Type 0) : Type 0 where
  pub fix_type : W
  pub lat : W
  pub lon : W
  pub alt_msl : W
  pub h_acc : W
  pub v_acc : W
  pub speed : W
  pub heading : W
  pub head_acc : W
  pub vel_n : W
  pub vel_e : W
  pub vel_d : W
  pub pdop : W
  pub hdop : W
  pub vdop : W
  pub tdop : W
  pub gdop : W
  pub time_acc : W
  pub time_valid : W
  pub clk_bias : W
  pub clk_drift : W
  pub clk_acc : W
  pub freq_acc : W
  pub tp_qerr : W
  pub satellites : Satellites
  pub clocks : List (ClockSeries W)
  pub guard_err : Option W
  pub guard_ok : W
  pub guard_bias : W
  pub leap_ok : W
  pub pulse_age : W
  pub rearm_total : ℕ
  pub step_total : ℕ

-- `if p.NumSV > 0 { m.numSV.Set(float64(p.NumSV)) }`
unfoldable pub set_num_sv : Satellites → ℕ → Satellites
set_num_sv s num_sv = if ltb 0 num_sv then record s { num_sv = num_sv } else s

module _ {W : Type 0} ⦃f : Float W⦄ where
  -- 1 or 0.
  abbrev pub bit : Bool → W
  bit b = if b then f.of_int (pos 1) else f.of_int (pos 0)

  -- `New`: a series of the library begins at 0, a vector without series.
  unfoldable pub new_metrics : Metrics W
  new_metrics = record {
    fix_type = f.of_int (pos 0);
    lat = f.of_int (pos 0);
    lon = f.of_int (pos 0);
    alt_msl = f.of_int (pos 0);
    h_acc = f.of_int (pos 0);
    v_acc = f.of_int (pos 0);
    speed = f.of_int (pos 0);
    heading = f.of_int (pos 0);
    head_acc = f.of_int (pos 0);
    vel_n = f.of_int (pos 0);
    vel_e = f.of_int (pos 0);
    vel_d = f.of_int (pos 0);
    pdop = f.of_int (pos 0);
    hdop = f.of_int (pos 0);
    vdop = f.of_int (pos 0);
    tdop = f.of_int (pos 0);
    gdop = f.of_int (pos 0);
    time_acc = f.of_int (pos 0);
    time_valid = f.of_int (pos 0);
    clk_bias = f.of_int (pos 0);
    clk_drift = f.of_int (pos 0);
    clk_acc = f.of_int (pos 0);
    freq_acc = f.of_int (pos 0);
    tp_qerr = f.of_int (pos 0);
    satellites = record { table = []; sat_seen = []; num_sv = 0 };
    clocks = [];
    guard_err = some (f.of_int (pos 0));
    guard_ok = f.of_int (pos 0);
    guard_bias = f.of_int (pos 0);
    leap_ok = f.of_int (pos 0);
    pulse_age = f.of_int (pos 0);
    rearm_total = 0;
    step_total = 0;
  }

  unfoldable pub update_nav_pvt : Metrics W → NavPvt → Metrics W
  unfolding set_num_sv
  update_nav_pvt m p = record m {
    fix_type = f.of_int (pos p.fix_type);
    satellites = set_num_sv m.satellites p.num_sv;
    lat = lat_deg p;
    lon = lon_deg p;
    alt_msl = h_msl_meters p;
    h_acc = h_acc_meters p;
    v_acc = v_acc_meters p;
    speed = g_speed_mps p;
    pdop = pdop_val p;
    heading = tens_of_micro p.head_mot;
    head_acc = tens_of_micro (pos p.head_acc);
    vel_n = thousandths p.vel_n;
    vel_e = thousandths p.vel_e;
    vel_d = thousandths p.vel_d;
  }

  unfoldable pub update_nav_dop : Metrics W → NavDop → Metrics W
  update_nav_dop m d = record m {
    hdop = hdop_val d;
    vdop = vdop_val d;
    pdop = dop_pdop_val d;
    tdop = hundredths d.tdop;
    gdop = hundredths d.gdop;
  }

  unfoldable pub update_nav_time_utc : Metrics W → NavTimeUtc → Metrics W
  update_nav_time_utc m t = record m {
    time_acc = f.of_int (pos t.t_acc);
    time_valid = bit (valid_utc t);
  }

  unfoldable pub update_nav_clock : Metrics W → NavClock → Metrics W
  update_nav_clock m c = record m {
    clk_bias = f.of_int c.clk_b;
    clk_drift = f.of_int c.clk_d;
    clk_acc = f.of_int (pos c.t_acc);
    freq_acc = f.of_int (pos c.f_acc);
  }

  unfoldable pub update_tim_tp : Metrics W → TimTp → Metrics W
  update_tim_tp m tp = record m { tp_qerr = f.of_int tp.qerr }

  -- `UpdateNavSAT`, which reads nothing of the message but its satellites.
  unfoldable pub update_satellites : Metrics W → List SatInfo → Metrics W
  update_satellites m svs = record m { satellites = update_nav_sat m.satellites svs }

  unfoldable pub update_guard : Metrics W → Option W → Bool → W → Metrics W
  update_guard m err_seconds ok pulse_age_seconds = record m {
    guard_err = err_seconds;
    guard_ok = bit ok;
    pulse_age = pulse_age_seconds;
  }

  unfoldable pub inc_rearm : Metrics W → Metrics W
  inc_rearm m = record m { rearm_total = suc m.rearm_total }

  unfoldable pub inc_guard_step : Metrics W → Metrics W
  inc_guard_step m = record m { step_total = suc m.step_total }

  unfoldable pub update_guard_bias : Metrics W → W → Metrics W
  update_guard_bias m b = record m { guard_bias = b }

  unfoldable pub update_leap_consistency : Metrics W → Bool → Metrics W
  update_leap_consistency m ok = record m { leap_ok = bit ok }

  unfoldable pub set_clock : List ℕ → W → W → List (ClockSeries W) → List (ClockSeries W)
  set_clock clock offset freq [] = record { clock = clock; offset = offset; freq = freq } ∷ []
  set_clock clock offset freq (c ∷ cs) =
      let rest = set_clock clock offset freq cs in
      if same_text clock c.clock then record c { offset = offset; freq = freq } ∷ cs else c ∷ rest

  unfoldable pub update_ts2phc : Metrics W → List ℕ → W → W → Metrics W
  update_ts2phc m clock offset freq = record m { clocks = set_clock clock offset freq m.clocks }
