-- ===== src/Pps/Gpsd/Run.antt =====
-- `Run` of GpsdSource (pps/gpsd_source.go), over the lines that the connection gives. What the JSON
-- decoder makes of a line is an argument, and so is whether the connection comes about.
pub mod Received
pub mod Views
use ts2phc_go.Common.{
  ℕ, Bool, true, false, not, Option, none, some, List, [], ◌∷◌, ◌++◌, if◌then◌else◌,
}
use ts2phc_go.Common.Float.{Float, Casts}
use ts2phc_go.Common.Time.{Time}
use ts2phc_go.Metrics.{same_text}
use ts2phc_go.Pps.Gpsd.{GpsdTpv, GpsdSky, GpsdSource, process_tpv, is_empty}
use ts2phc_go.Pps.Gpsd.Adapter.{Adapter, on_tpv, on_sky}

-- `json.Unmarshal` into the class of a line, into a TPV and into a SKY, and `time.Parse`; none is an
-- error.
pub record Decoders (W : Type 0) : Type 0 where
  pub class : List ℕ → Option (List ℕ)
  pub tpv : List ℕ → Option (GpsdTpv W)
  pub sky : List ℕ → Option (GpsdSky W)
  pub time : List ℕ → Option Time

-- The source and the handler, which is the adapter.
pub record Station (W : Type 0) : Type 0 where
  pub source : GpsdSource
  pub handler : Adapter W

pub data RunError : Type 0 where
  connect_failed watch_failed read_failed closed : RunError

-- A connection: whether it comes about and takes the watch command, the lines with the times they
-- are read at, and whether the scanner ends with an error.
pub record Session : Type 0 where
  pub connect_ok : Bool
  pub watch_ok : Bool
  pub lines : List (Time × List ℕ)
  pub scan_ok : Bool

-- "TPV" and "SKY"
abbrev pub tpv_class : List ℕ
tpv_class = 84 ∷ 80 ∷ 86 ∷ []

abbrev pub sky_class : List ℕ
sky_class = 83 ∷ 75 ∷ 89 ∷ []

-- What a line is taken for.
pub data Report (W : Type 0) : Type 0 where
  ignored : Report W
  tpv_report : GpsdTpv W → Report W
  sky_report : GpsdSky W → Report W

module _ {W : Type 0} where
  abbrev pub tpv_or_ignored : Option (GpsdTpv W) → Report W
  tpv_or_ignored none = ignored
  tpv_or_ignored (some tpv) = tpv_report tpv

  abbrev pub sky_or_ignored : Option (GpsdSky W) → Report W
  sky_or_ignored none = ignored
  sky_or_ignored (some sky) = sky_report sky

  -- The switch on the class.
  unfoldable pub report_of : Decoders W → List ℕ → Report W
  report_of d line = if is_empty line then ignored else elim (d.class line) [
    | none ↦ ignored
    | some class ↦
        if same_text class tpv_class
        then tpv_or_ignored (d.tpv line)
        else if same_text class sky_class
        then sky_or_ignored (d.sky line)
        else ignored
  ]

module _ {W : Type 0} ⦃f : Float W⦄ ⦃c : Casts W⦄ where
  unfoldable pub handle : Decoders W → Station W → Time → Report W → Station W
  handle d s now ignored = s
  handle d s now (tpv_report tpv) = record {
    source = process_tpv d.time s.source now tpv;
    handler = (on_tpv s.handler tpv).0;
  }
  handle d s now (sky_report sky) = record s { handler = on_sky s.handler sky }

  -- The loop over the lines.
  unfoldable pub read_lines : Decoders W → Station W → List (Time × List ℕ) → Station W
  unfolding handle report_of
  read_lines d s [] = s
  read_lines d s ((now, line) ∷ lines) = read_lines d (handle d s now (report_of d line)) lines

  -- `Run`, which always ends with an error.
  unfoldable pub run : Decoders W → Station W → Session → Station W × RunError
  unfolding read_lines
  run d s session =
      if not session.connect_ok
      then (s, connect_failed)
      else if not session.watch_ok
      then (s, watch_failed)
      else (read_lines d s session.lines, if session.scan_ok then closed else read_failed)

  -- The loop of main.go that connects again and again.
  unfoldable pub run_all : Decoders W → Station W → List Session → Station W
  run_all d s [] = s
  run_all d s (session ∷ sessions) = run_all d (run d s session).0 sessions
