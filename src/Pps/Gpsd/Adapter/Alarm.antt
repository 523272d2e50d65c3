-- ===== src/Pps/Gpsd/Adapter/Alarm.antt =====
-- The alarm of a TAI offset that does not fit the receiver's leap seconds.
use ts2phc_go.Common.{
  ◌≡◌, refl, sym, ap, ◌∙◌, Bool, true, false, ◌&&◌, none, some, Option-cases, inl, inr, List, [],
  ◌∷◌, All, arith,
}
use ts2phc_go.Common.Int.{pos}
use ts2phc_go.Common.Float.{Float, Casts}
use ts2phc_go.Metrics.Gauges.{Metrics, update_nav_pvt, update_nav_time_utc, update_leap_consistency}
use ts2phc_go.Pps.Gpsd.{GpsdTpv}
use ts2phc_go.Pps.Gpsd.Adapter.{
  Adapter, is_checked, is_consistent, check_leap, report_tpv, on_tpv, on_tpv-report, warnings,
  on_tpvs,
}

module _ {W : Type 0} ⦃f : Float W⦄ ⦃c : Casts W⦄ where
  -- A report that shows the offset to be right.
  abbrev pub clears : Adapter W → GpsdTpv W → Bool
  clears a tpv = is_checked a tpv && is_consistent a tpv

  -- The gauge is 0, and the warning is given.
  pub record IsAlarmed (a : Adapter W) : Type 0 where
    pub metrics : Metrics W
    pub there : a.metrics ≡ some metrics
    pub gauge : metrics.leap_ok ≡ f.of_int (pos 0)
    pub warned : a.leap_warned ≡ true

  report_tpv-lem :
      (a : Adapter W) (m : Metrics W) (tpv : GpsdTpv W)
      → let (a', warn) = report_tpv a m tpv in
        let (m', warned, warn') = check_leap a m tpv in
        ((k : Metrics W) × (a'.metrics ≡ some k) × (k.leap_ok ≡ m'.leap_ok))
        × (a'.tai_offset ≡ a.tai_offset)
        × (a'.leap_warned ≡ warned)
        × (warn ≡ warn')
  unfolding report_tpv update_nav_pvt update_nav_time_utc
  report_tpv-lem a m tpv = ((_, refl, refl), refl, refl, refl)

  clears-offset :
      (a b : Adapter W) (tpv : GpsdTpv W)
      → a.tai_offset ≡ b.tai_offset
      → clears a tpv ≡ clears b tpv
  unfolding is_checked is_consistent
  clears-offset a b tpv e = rw e refl

  on_tpv-none : (a : Adapter W) (tpv : GpsdTpv W) → a.metrics ≡ none → on_tpv a tpv ≡ (a, false)
  unfolding on_tpv
  on_tpv-none a tpv n = ap (λ o. elim o [ none ↦ (a, false) | some m ↦ report_tpv a m tpv ]) n

  check_leap-warns :
      (a : Adapter W) (m : Metrics W) (tpv : GpsdTpv W)
      → let (m', warned, warn) = check_leap a m tpv in
        warn ≡ true → (warned ≡ true) × (m'.leap_ok ≡ f.of_int (pos 0))
  unfolding check_leap update_leap_consistency
  check_leap-warns a m tpv h = ground (arith, h)

  check_leap-keeps :
      (a : Adapter W) (m : Metrics W) (tpv : GpsdTpv W)
      → m.leap_ok ≡ f.of_int (pos 0)
      → a.leap_warned ≡ true
      → clears a tpv ≡ false
      → let (m', warned, warn) = check_leap a m tpv in
        (warned ≡ true) × (m'.leap_ok ≡ f.of_int (pos 0)) × (warn ≡ false)
  unfolding check_leap update_leap_consistency
  check_leap-keeps a m tpv g w h = ground (arith, g, w, h)

  -- A warning raises the alarm.
  on_tpv-IsAlarmed :
      (a : Adapter W) (tpv : GpsdTpv W)
      → (on_tpv a tpv).1 ≡ true
      → IsAlarmed (on_tpv a tpv).0 × ((on_tpv a tpv).0.tai_offset ≡ a.tai_offset)
  on_tpv-IsAlarmed a tpv h = elim (Option-cases a.metrics) [
    | inl n ↦ absurd (ground (arith, on_tpv-none a tpv n, h))
    | inr (m, e) ↦
        let r = on_tpv-report a m tpv e in
        let ((k, there, gauge), offset, warned, warn) = report_tpv-lem a m tpv in
        let (w, zero_gauge) = check_leap-warns a m tpv (sym warn ∙ ap (λ x. x.1) (sym r) ∙ h) in
        rw r (
          record { metrics = k; there = there; gauge = gauge ∙ zero_gauge; warned = warned ∙ w },
          offset,
        )
  ]

  -- An alarm stays, without a warning, until a report clears it.
  IsAlarmed-on_tpv :
      (a : Adapter W) (tpv : GpsdTpv W)
      → IsAlarmed a
      → clears a tpv ≡ false
      → IsAlarmed (on_tpv a tpv).0
        × ((on_tpv a tpv).0.tai_offset ≡ a.tai_offset)
        × ((on_tpv a tpv).1 ≡ false)
  IsAlarmed-on_tpv a tpv k h =
      let m = k.metrics in
      let r = on_tpv-report a m tpv k.there in
      let ((m', there, gauge), offset, warned, warn) = report_tpv-lem a m tpv in
      let (w, zero_gauge, quiet) = check_leap-keeps a m tpv k.gauge k.warned h in
      rw r (
        record { metrics = m'; there = there; gauge = gauge ∙ zero_gauge; warned = warned ∙ w },
        offset,
        warn ∙ quiet,
      )

  stays-IsAlarmed :
      (a b : Adapter W) (tpvs : List (GpsdTpv W))
      → IsAlarmed a
      → a.tai_offset ≡ b.tai_offset
      → All (λ tpv. clears b tpv ≡ false) tpvs
      → All (λ w. w ≡ false) (warnings a tpvs) × IsAlarmed (on_tpvs a tpvs)
  unfolding warnings on_tpvs
  stays-IsAlarmed a b [] k e h = (tt, k)
  stays-IsAlarmed a b (tpv ∷ tpvs) k e h =
      let (k', offset, quiet) = IsAlarmed-on_tpv a tpv k (clears-offset a b tpv e ∙ h.0) in
      let (rest, final) = stays-IsAlarmed (on_tpv a tpv).0 b tpvs k' (offset ∙ e) h.1 in
      ((quiet, rest), final)

  -- Once a report has made the adapter warn of the TAI offset, it does not warn again, and the gauge
  -- stays at 0, over any further reports of which none shows the offset to be right: reports
  -- without leap seconds neither clear the alarm nor repeat the warning.
  pub warned_once :
      (a : Adapter W) (tpv : GpsdTpv W) (tpvs : List (GpsdTpv W))
      → (on_tpv a tpv).1 ≡ true
      → All (λ later. clears a later ≡ false) tpvs
      → let a' = (on_tpv a tpv).0 in
        All (λ warn. warn ≡ false) (warnings a' tpvs) × IsAlarmed (on_tpvs a' tpvs)
  warned_once a tpv tpvs h k =
      let (alarmed, offset) = on_tpv-IsAlarmed a tpv h in
      stays-IsAlarmed (on_tpv a tpv).0 a tpvs alarmed offset k
