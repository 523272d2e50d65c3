-- ===== src/Pps/Gpsd/Adapter.antt =====
-- GpsdMetricsAdapter (pps/gpsd_metrics.go), which turns gpsd's reports into the receiver's messages
-- for the metrics. The conversions of floats to integers are those of the machine, `Casts`. Whether
-- `OnTPV` logs the leap second warning is returned; the mutex is left out.
pub mod Alarm
use ts2phc_go.Common.{
  ℕ, ◌%◌, ◌≡◌, ap, Bool, true, false, not, ◌&&◌, ◌||◌, Option, none, some, List, [], ◌∷◌, length,
  map, if◌then◌else◌,
}
use ts2phc_go.Common.Int.{ℤ, pos, ◌+ℤ◌, ltb_ℤ, eqb_ℤ}
use ts2phc_go.Common.Word.{i64, word64, u8}
use ts2phc_go.Common.Float.{Float, Casts}
use ts2phc_go.Ubx.Msg.{NavPvt, NavDop, NavTimeUtc, SatInfo}
use ts2phc_go.Metrics.Gauges.{
  Metrics, update_nav_pvt, update_nav_dop, update_nav_time_utc, update_satellites,
  update_leap_consistency,
}
use ts2phc_go.Pps.Gpsd.{GpsdTpv, GpsdSky, GpsdSatSv, is_empty}

-- `GpsdMetricsAdapter`, where no metrics are the nil pointer.
pub record Adapter (W : Type 0) : Type 0 where
  pub metrics : Option (Metrics W)
  pub tai_offset : ℤ
  pub pdop100 : ℕ
  pub leap_warned : Bool

-- `uint8(n)` of an int.
abbrev pub uint8 : ℤ → ℕ
uint8 n = u8 (word64 n)

module _ {W : Type 0} where
  -- `tpv.Leapseconds != 0 && a.TAIOffset != 0`, and the comparison.
  unfoldable pub is_checked : Adapter W → GpsdTpv W → Bool
  is_checked a tpv = not (eqb_ℤ tpv.leapseconds (pos 0)) && not (eqb_ℤ a.tai_offset (pos 0))

  unfoldable pub is_consistent : Adapter W → GpsdTpv W → Bool
  is_consistent a tpv = eqb_ℤ a.tai_offset (i64 (tpv.leapseconds +ℤ pos 19))

module _ {W : Type 0} ⦃f : Float W⦄ ⦃c : Casts W⦄ where
  -- `x * n`, for a constant n.
  abbrev pub times : W → ℕ → W
  times x n = f.mul x (f.literal (pos n) 0)

  -- The message that `OnTPV` makes. A field that it leaves out is 0.
  unfoldable pub pvt_of : GpsdTpv W → ℕ → NavPvt
  pvt_of tpv pdop100 = record {
    itow = 0;
    year = 0;
    month = 0;
    day = 0;
    hour = 0;
    min = 0;
    sec = 0;
    valid = 0;
    t_acc = 0;
    nano = pos 0;
    fix_type = uint8 tpv.mode;
    flags = 0;
    flags2 = 0;
    num_sv = 0;
    lon = c.to_int32 (times tpv.lon 10000000);
    lat = c.to_int32 (times tpv.lat 10000000);
    height = pos 0;
    h_msl = c.to_int32 (times tpv.alt_msl 1000);
    h_acc = c.to_uint32 (times tpv.eph 1000);
    v_acc = c.to_uint32 (times tpv.epv 1000);
    vel_n = pos 0;
    vel_e = pos 0;
    vel_d = pos 0;
    g_speed = c.to_int32 (times tpv.speed 1000);
    head_mot = c.to_int32 (times tpv.track 100000);
    s_acc = 0;
    head_acc = 0;
    pdop = pdop100;
    flags3 = 0;
  }

  unfoldable pub time_utc_of : GpsdTpv W → NavTimeUtc
  time_utc_of tpv = record {
    itow = 0;
    t_acc = if f.lt (f.of_int (pos 0)) tpv.ept then c.to_uint32 (times tpv.ept 1000000000) else 0;
    nano = pos 0;
    year = 0;
    month = 0;
    day = 0;
    hour = 0;
    min = 0;
    sec = 0;
    valid = if not (ltb_ℤ tpv.mode (pos 2)) && not (is_empty tpv.time) then 4 else 0;
  }

  -- The leap second check: the metrics, `leapWarned`, and whether it warns.
  unfoldable pub check_leap : Adapter W → Metrics W → GpsdTpv W → Metrics W × Bool × Bool
  check_leap a m tpv =
      let ok = is_consistent a tpv in
      if is_checked a tpv
      then (update_leap_consistency m ok, not ok, not ok && not a.leap_warned)
      else (m, a.leap_warned, false)

  -- `OnTPV` behind its test of the metrics.
  unfoldable pub report_tpv : Adapter W → Metrics W → GpsdTpv W → Adapter W × Bool
  unfolding check_leap pvt_of time_utc_of
  report_tpv a m tpv =
      let (m', warned, warn) = check_leap a m tpv in
      let m'' = update_nav_pvt m' (pvt_of tpv a.pdop100) in
      (
        record a {
          metrics = some (update_nav_time_utc m'' (time_utc_of tpv));
          leap_warned = warned;
        },
        warn,
      )

  unfoldable pub on_tpv : Adapter W → GpsdTpv W → Adapter W × Bool
  unfolding report_tpv
  on_tpv a tpv = elim a.metrics [ none ↦ (a, false) | some m ↦ report_tpv a m tpv ]

  unfoldable pub dop_of : GpsdSky W → NavDop
  dop_of sky = record {
    itow = 0;
    gdop = c.to_uint16 (times sky.gdop 100);
    pdop = c.to_uint16 (times sky.pdop 100);
    tdop = c.to_uint16 (times sky.tdop 100);
    vdop = c.to_uint16 (times sky.vdop 100);
    hdop = c.to_uint16 (times sky.hdop 100);
    ndop = 0;
    edop = 0;
  }

  unfoldable pub sat_of : GpsdSatSv W → SatInfo
  sat_of sv = record {
    gnss_id = uint8 sv.gnss_id;
    sv_id = uint8 sv.sv_id;
    cno = c.to_uint8 sv.ss;
    elev = c.to_int8 sv.el;
    azim = c.to_int16 sv.az;
    pr_res = pos 0;
    flags = if sv.used then 8 else 0;
  }

  -- The satellites of a report that has some.
  unfoldable pub set_satellites : Metrics W → List (GpsdSatSv W) → Metrics W
  set_satellites m [] = m
  set_satellites m (sv ∷ svs) = update_satellites m (map sat_of (sv ∷ svs))

  -- `OnSKY` behind its test of the metrics.
  unfoldable pub report_sky : Adapter W → Metrics W → GpsdSky W → Adapter W
  unfolding dop_of set_satellites
  report_sky a m sky = record a {
    metrics = some (set_satellites (update_nav_dop m (dop_of sky)) sky.satellites);
    pdop100 = c.to_uint16 (times sky.pdop 100);
  }

  unfoldable pub on_sky : Adapter W → GpsdSky W → Adapter W
  unfolding report_sky
  on_sky a sky = elim a.metrics [ none ↦ a | some m ↦ report_sky a m sky ]

  -- The warnings of a run of reports.
  unfoldable pub warnings : Adapter W → List (GpsdTpv W) → List Bool
  warnings a [] = []
  warnings a (tpv ∷ tpvs) = let (a', warn) = on_tpv a tpv in warn ∷ warnings a' tpvs

  unfoldable pub on_tpvs : Adapter W → List (GpsdTpv W) → Adapter W
  on_tpvs a [] = a
  on_tpvs a (tpv ∷ tpvs) = on_tpvs (on_tpv a tpv).0 tpvs

  pub on_tpv-report :
      (a : Adapter W) (m : Metrics W) (tpv : GpsdTpv W)
      → a.metrics ≡ some m
      → on_tpv a tpv ≡ report_tpv a m tpv
  unfolding on_tpv
  on_tpv-report a m tpv e = ap (λ o. elim o [ none ↦ (a, false) | some n ↦ report_tpv a n tpv ]) e

  pub on_sky-report :
      (a : Adapter W) (m : Metrics W) (sky : GpsdSky W)
      → a.metrics ≡ some m
      → on_sky a sky ≡ report_sky a m sky
  unfolding on_sky
  on_sky-report a m sky e = ap (λ o. elim o [ none ↦ a | some n ↦ report_sky a n sky ]) e
