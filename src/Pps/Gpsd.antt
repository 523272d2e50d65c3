-- ===== src/Pps/Gpsd.antt =====
-- GpsdSource (pps/gpsd_source.go): the time of the next pulse from gpsd's TPV reports. The mutex is
-- left out; `time.Parse` is an argument.
pub mod Tai
pub mod Adapter
pub mod Run
use ts2phc_go.Common.{
  ℕ, ◌+◌, Bool, true, false, ◌||◌, not, Option, none, some, List, [], ◌∷◌, if◌then◌else◌,
}
use ts2phc_go.Common.Int.{ℤ, pos, ◌*ℤ◌, ltb_ℤ}
use ts2phc_go.Common.Word.{i64}
use ts2phc_go.Common.Time.{Time, second, sub_time, add_time, sub_duration, round_time}

-- `GpsdTPV`, with the time as a string of bytes; floats are of the type `W`.
pub record GpsdTpv (W : Type 0) : Type 0 where
  pub mode : ℤ
  pub time : List ℕ
  pub lat : W
  pub lon : W
  pub alt_msl : W
  pub alt_hae : W
  pub eph : W
  pub epv : W
  pub ept : W
  pub speed : W
  pub track : W
  pub climb : W
  pub status : ℤ
  pub leapseconds : ℤ

-- `GpsdSatSV` and `GpsdSKY`
pub record GpsdSatSv (W : Type 0) : Type 0 where
  pub prn : ℤ
  pub gnss_id : ℤ
  pub sv_id : ℤ
  pub el : W
  pub az : W
  pub ss : W
  pub used : Bool

pub record GpsdSky (W : Type 0) : Type 0 where
  pub gdop : W
  pub hdop : W
  pub pdop : W
  pub tdop : W
  pub vdop : W
  pub u_sat : ℤ
  pub satellites : List (GpsdSatSv W)

pub record GpsdSource : Type 0 where
  pub tp_tai : Time
  pub tp_rx_time : Time
  pub tp_valid : Bool
  pub tai_offset : ℤ

-- `NewGpsdSource`
abbrev pub new_gpsd_source : ℤ → GpsdSource
new_gpsd_source tai_offset_sec = record {
  tp_tai = pos 0;
  tp_rx_time = pos 0;
  tp_valid = false;
  tai_offset = tai_offset_sec;
}

abbrev pub is_empty : List ℕ → Bool
is_empty [] = true
is_empty (b ∷ bs) = false

-- Behind `time.Parse`.
unfoldable pub take_fix : GpsdSource → Time → Time → GpsdSource
take_fix s now t =
    let next = add_time (round_time t) (pos second) in
    record s {
      tp_tai = add_time next (i64 (s.tai_offset *ℤ pos second));
      tp_rx_time = now;
      tp_valid = true;
    }

unfoldable pub process_tpv :
    {W : Type 0} → (List ℕ → Option Time) → GpsdSource → Time → GpsdTpv W → GpsdSource
unfolding take_fix
process_tpv parse s now tpv =
    if ltb_ℤ tpv.mode (pos 2) || is_empty tpv.time
    then record s { tp_valid = false }
    else elim (parse tpv.time) [ none ↦ s | some t ↦ take_fix s now t ]

-- The reports of a run, each with the time it arrives at.
unfoldable pub process_all :
    {W : Type 0} → (List ℕ → Option Time) → GpsdSource → List (Time × GpsdTpv W) → GpsdSource
process_all parse s [] = s
process_all parse s ((now, tpv) ∷ tpvs) = process_all parse (process_tpv parse s now tpv) tpvs

-- `maxTPAge`
abbrev pub max_tp_age : ℕ
max_tp_age = 2000000000

-- `GetPPSTime`, and `TAINow`, at the time `now`.
unfoldable pub get_pps_time : GpsdSource → Time → Option Time
get_pps_time s now =
    if not s.tp_valid
    then none
    else if ltb_ℤ (pos max_tp_age) (sub_time now s.tp_rx_time)
    then none
    else some s.tp_tai

unfoldable pub tai_now : GpsdSource → Time → Option Time
tai_now s now =
    if not s.tp_valid || ltb_ℤ (pos max_tp_age) (sub_time now s.tp_rx_time)
    then none
    else some (add_time s.tp_tai (sub_duration (sub_time now s.tp_rx_time) (pos second)))
