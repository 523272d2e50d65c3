-- ===== src/Daemon/Tick/Export/Alarm.antt =====
-- The exported verdict on the timescale and the guard's own decision.
use ts2phc_go.Common.{
  ℕ, ◌≡◌, ◌≢◌, ◌⊎◌, refl, ap, ◌∙◌, Bool, true, false, ◌&&◌, List, if◌then◌else◌, Bool-cases,
  Option-cases, inl, inr, arith,
}
use ts2phc_go.Common.Int.{pos}
use ts2phc_go.Common.Float.{Float}
use ts2phc_go.Common.Time.{Time, Duration}
use ts2phc_go.Guard.{
  Guard, Action, step, refuse, default_config, tick, check, pulse, violates, threshold,
  count_violation, judge, check_pulse,
}
use ts2phc_go.Metrics.Gauges.{
  Metrics, bit, update_guard, update_guard_bias, inc_rearm, inc_guard_step, update_ts2phc,
}
use ts2phc_go.Daemon.{Clock}
use ts2phc_go.Daemon.Tick.{Loop, Turn, guard_tick, polled, obey_guard}
use ts2phc_go.Daemon.Tick.Export.{
  guard_verdict, export_guard, export_action, export_sample, export_pulse, export_turn,
}

module _ {W : Type 0} ⦃f : Float W⦄ where
  -- Where the exported verdict is good, the guard has found no violation on this tick.
  verdict-check :
      (g : Guard W) (now phc tai : Time) (phc_valid tai_valid : Bool)
      → g.cfg ≡ default_config
      → let (g', action, err) = check g now phc phc_valid tai tai_valid in
        guard_verdict g' (phc_valid && tai_valid) err ≡ true
        → (g'.violations ≡ 0) × (action ≢ step) × (action ≢ refuse)
  unfolding check judge check_pulse violates threshold count_violation guard_verdict
  verdict-check g now phc tai phc_valid tai_valid e h =
      let abs : g.cfg.abs_threshold ≡ pos 750000000 = ap (λ c. c.abs_threshold) e in
      let uncal : g.cfg.uncal_threshold ≡ pos 2000000000 = ap (λ c. c.uncal_threshold) e in
      let samples : g.cfg.bias_samples ≡ 30 = ap (λ c. c.bias_samples) e in
      ground (arith, h, abs, uncal, samples)

  pulsed-cfg : (b : Bool) (g : Guard W) (now : Time) → (if b then pulse g now else g).cfg ≡ g.cfg
  unfolding pulse
  pulsed-cfg true g now = refl
  pulsed-cfg false g now = refl

  export_guard-guard_ok :
      (m : Metrics W) (g : Guard W) (now : Time) (ref_valid : Bool) (err : Duration)
      → (export_guard m g now ref_valid err).guard_ok ≡ bit (guard_verdict g ref_valid err)
  unfolding export_guard update_guard update_guard_bias
  export_guard-guard_ok m g now ref_valid err = refl

  -- The guard has acted on the timescale, or could not look at it.
  abbrev pub IsSuspect : Turn W → Action → Type 0
  IsSuspect t action =
      (action ≡ step) ⊎ ((action ≡ refuse) ⊎ ((t.phc_valid && t.tai_valid) ≡ false))

  verdict-IsSuspect :
      (l : Loop W) (t : Turn W)
      → l.guard.cfg ≡ default_config
      → let (g', action, err) = tick l.guard (guard_tick t) in
        IsSuspect t action → guard_verdict g' (t.phc_valid && t.tai_valid) err ≡ false
  unfolding tick pulse
  verdict-IsSuspect l t e s =
      let g = if (guard_tick t).ready then pulse l.guard t.now else l.guard in
      let (g', action, err) = tick l.guard (guard_tick t) in
      elim (Bool-cases (guard_verdict g' (t.phc_valid && t.tai_valid) err)) [
        | inr bad ↦ bad
        | inl fine ↦
            let (_, no_step, no_refusal) =
              verdict-check g t.now t.phc t.tai t.phc_valid t.tai_valid
                (pulsed-cfg (guard_tick t).ready l.guard t.now ∙ e) fine in
            elim s [
              | inl h ↦ absurd (no_step h)
              | inr (inl h) ↦ absurd (no_refusal h)
              | inr (inr h) ↦ unfold guard_verdict in rw h refl
            ]
      ]

  export_action-guard_ok :
      (m : Metrics W) (action : Action) (ok : Bool)
      → (export_action m action ok).guard_ok ≡ m.guard_ok
  unfolding export_action inc_rearm inc_guard_step
  export_action-guard_ok m action ok = ground arith

  export_pulse-guard_ok :
      (m : Metrics W) (name : List ℕ) (t : Turn W) (c : Clock W) (r : Bool)
      → (export_pulse m name t c r).guard_ok ≡ m.guard_ok
  unfolding export_pulse export_sample update_ts2phc
  export_pulse-guard_ok m name t c r = elim (Option-cases t.pps_time) [
    | inl n ↦ ground (arith, n)
    | inr (source_ts, k) ↦ ground (arith, k)
  ]

  -- In a turn in which the guard demands a step, refuses one, or lacks a valid reading of the PHC or
  -- of TAI, the exported verdict on the timescale is 0. The guard has the default configuration, by
  -- which the verdict is made.
  pub export_turn-alarm :
      (m : Metrics W) (name : List ℕ) (l : Loop W) (t : Turn W)
      → l.guard.cfg ≡ default_config
      → IsSuspect t (tick l.guard (guard_tick t)).1
      → (export_turn m name l t).guard_ok ≡ f.of_int (pos 0)
  unfolding export_turn
  export_turn-alarm m name l t e s =
      let (g, action, err) = tick l.guard (guard_tick t) in
      let (c, out, r) = obey_guard t (polled t l.clock) action err in
      let ref_valid = t.phc_valid && t.tai_valid in
      let m' = export_guard m g t.now ref_valid err in
      export_pulse-guard_ok (export_action m' action t.guard_step_ok) name t c r
      ∙ export_action-guard_ok m' action t.guard_step_ok
      ∙ export_guard-guard_ok m g t.now ref_valid err
      ∙ ap (λ b. bit b) (verdict-IsSuspect l t e s)
