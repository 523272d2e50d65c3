-- ===== src/Daemon/Tick/Export.antt =====
-- The metrics of one turn of the loop of main.go: the guard's, its two counters, and the offset and
-- frequency of a sample. They are set only where the daemon exports metrics.
pub mod Alarm
use ts2phc_go.Common.{
  ℕ, Bool, true, false, not, ◌&&◌, ◌||◌, Option, none, some, List, if◌then◌else◌,
}
use ts2phc_go.Common.Int.{ℤ, ltb_ℤ}
use ts2phc_go.Common.Word.{word64}
use ts2phc_go.Common.Float.{Float}
use ts2phc_go.Common.Int.{pos}
use ts2phc_go.Common.Time.{Time, Duration, unix_nanos, neg_duration}
use ts2phc_go.Guard.{
  Config, Guard, Action, none as no_action, rearm, step, refuse, default_config, calibrated,
  seconds, pulse_age, bias_duration,
}
use ts2phc_go.Guard as Guard
use ts2phc_go.Servo.{sample}
use ts2phc_go.Metrics.Gauges.{
  Metrics, update_guard, update_guard_bias, inc_rearm, inc_guard_step, update_ts2phc,
}
use ts2phc_go.Daemon.{Clock, is_outlier, offset_of}
use ts2phc_go.Daemon.Tick.{Loop, Turn, guard_tick, polled, obey_guard}

module _ {W : Type 0} ⦃f : Float W⦄ where
  -- `errVal`, which is NaN without two valid readings.
  abbrev pub guard_error : Bool → Duration → Option W
  guard_error ref_valid err = if ref_valid then some (seconds err) else none

  -- `ok`, by the thresholds of `gcfg`, the default configuration.
  unfoldable pub guard_verdict : Guard W → Bool → Duration → Bool
  guard_verdict g ref_valid err =
      let cfg : Config W = default_config in
      let threshold = if calibrated g then cfg.abs_threshold else cfg.uncal_threshold in
      ref_valid && ltb_ℤ (neg_duration threshold) err && ltb_ℤ err threshold

  -- `if met != nil { … }` behind `Check`.
  unfoldable pub export_guard : Metrics W → Guard W → Time → Bool → Duration → Metrics W
  unfolding guard_verdict
  export_guard m g now ref_valid err =
      update_guard_bias
        (update_guard m (guard_error ref_valid err) (guard_verdict g ref_valid err)
          (seconds (pulse_age g now)))
        (seconds (bias_duration g))

  -- `IncRearm` and `IncGuardStep`.
  unfoldable pub export_action : Metrics W → Action → Bool → Metrics W
  export_action m rearm step_ok = inc_rearm m
  export_action m step step_ok = if step_ok then inc_guard_step m else m
  export_action m _ step_ok = m

  -- `UpdateTS2PHC`, of a pulse that passes the outlier gate.
  unfoldable pub export_sample : Metrics W → List ℕ → Clock W → ℤ → ℕ → Metrics W
  export_sample m name c offset sink_nanos =
      if is_outlier c.servo offset
      then m
      else update_ts2phc m name (f.of_int offset)
          (f.neg (sample c.servo offset sink_nanos (f.literal (pos 10) 1)).1)

  unfoldable pub export_pulse : Metrics W → List ℕ → Turn W → Clock W → Bool → Metrics W
  unfolding export_sample
  export_pulse m name t c ready_to_sync = if not ready_to_sync then m else elim t.pps_time [
    | none ↦ m
    | some source_ts ↦
        if not c.is_target || not c.is_available
        then m
        else export_sample m name c (offset_of c.last_valid_ts source_ts t.qerr_sign t.qerr)
            (word64 (unix_nanos c.last_valid_ts))
  ]

  -- What a turn exports, for a sink of this name.
  unfoldable pub export_turn : Metrics W → List ℕ → Loop W → Turn W → Metrics W
  unfolding export_guard export_action export_pulse
  export_turn m name l t =
      let (g, action, err) = Guard.tick l.guard (guard_tick t) in
      let (c, out, ready_to_sync) = obey_guard t (polled t l.clock) action err in
      let m' = export_guard m g t.now (t.phc_valid && t.tai_valid) err in
      export_pulse (export_action m' action t.guard_step_ok) name t c ready_to_sync
