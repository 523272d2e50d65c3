-- ===== src/Pps/Gpsd/Run/Received.antt =====
-- What the lines of all connections say: the TPV reports, and the SKY reports with satellites.
use ts2phc_go.Common.{ℕ, ◌&&◌, List, [], ◌∷◌, ◌++◌, map, if◌then◌else◌}
use ts2phc_go.Common.Float.{Float, Casts}
use ts2phc_go.Common.Time.{Time}
use ts2phc_go.Ubx.Msg.{SatInfo}
use ts2phc_go.Pps.Gpsd.{GpsdTpv, GpsdSatSv}
use ts2phc_go.Pps.Gpsd.Adapter.{sat_of}
use ts2phc_go.Pps.Gpsd.Run.{Decoders, Session, Report, tpv_report, sky_report, report_of}

-- The lines of all connections that have come about.
unfoldable pub received : List Session → List (Time × List ℕ)
received [] = []
received (s ∷ sessions) = (if s.connect_ok && s.watch_ok then s.lines else []) ++ received sessions

module _ {W : Type 0} where
  -- The TPV reports among the lines.
  unfoldable pub tpv_of : Time → Report W → List (Time × GpsdTpv W)
  tpv_of now (tpv_report tpv) = (now, tpv) ∷ []
  tpv_of now _ = []

  unfoldable pub tpvs : Decoders W → List (Time × List ℕ) → List (Time × GpsdTpv W)
  tpvs d [] = []
  tpvs d ((now, line) ∷ lines) = tpv_of now (report_of d line) ++ tpvs d lines

module _ {W : Type 0} ⦃f : Float W⦄ ⦃c : Casts W⦄ where
  -- The satellites of a SKY report that has some.
  unfoldable pub populated_sats : List (GpsdSatSv W) → List (List SatInfo)
  populated_sats [] = []
  populated_sats (sv ∷ svs) = map sat_of (sv ∷ svs) ∷ []

  unfoldable pub populated_of : Report W → List (List SatInfo)
  populated_of (sky_report sky) = populated_sats sky.satellites
  populated_of _ = []

  unfoldable pub populated : Decoders W → List (Time × List ℕ) → List (List SatInfo)
  populated d [] = []
  populated d ((now, line) ∷ lines) = populated_of (report_of d line) ++ populated d lines
