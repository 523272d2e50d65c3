-- ===== src/Pps/Gpsd/Run/Views.antt =====
-- What the reports of all connections leave: the satellites that are exported, and the time of the
-- next pulse.
use ts2phc_go.Common.{
  ℕ, ◌≡◌, refl, sym, ap, ◌∙◌, false, ◌&&◌, Option, some, List, [], ◌∷◌, ◌++◌, if◌then◌else◌, arith,
}
use ts2phc_go.Common.Int.{ℤ, pos, ◌*ℤ◌}
use ts2phc_go.Common.Word.{IsI64}
use ts2phc_go.Common.Float.{Float, Casts}
use ts2phc_go.Common.Time.{Time, second}
use ts2phc_go.Ubx.Msg.{SatInfo}
use ts2phc_go.Metrics.{Satellites, Labels, exported, used_count, update_nav_sat}
use ts2phc_go.Metrics.Table.{reported}
use ts2phc_go.Metrics.Runs.{no_satellites, update_all, last_of, update_all-fresh}
use ts2phc_go.Metrics.Gauges.{
  Metrics, new_metrics, update_nav_pvt, update_nav_dop, update_nav_time_utc, update_satellites,
  update_leap_consistency, set_num_sv,
}
use ts2phc_go.Pps.Gpsd.{
  GpsdTpv, GpsdSky, GpsdSatSv, GpsdSource, new_gpsd_source, process_tpv, process_all, get_pps_time,
}
use ts2phc_go.Pps.Gpsd.Tai.{IsWhole, get_pps_time-IsWhole}
use ts2phc_go.Pps.Gpsd.Adapter.{
  Adapter, check_leap, pvt_of, dop_of, report_tpv, report_sky, on_tpv-report, on_sky-report, on_tpv,
  on_sky, set_satellites,
}
use ts2phc_go.Pps.Gpsd.Run.{
  Decoders, Station, Session, Report, ignored, tpv_report, sky_report, report_of, handle,
  read_lines, run, run_all,
}
use ts2phc_go.Pps.Gpsd.Run.Received.{
  received, tpv_of, tpvs, populated_sats, populated_of, populated,
}

update_all-append :
    (s : Satellites) (xs ys : List (List SatInfo))
    → update_all s (xs ++ ys) ≡ update_all (update_all s xs) ys
unfolding update_all
update_all-append s [] ys = refl
update_all-append s (x ∷ xs) ys = update_all-append (update_nav_sat s x) xs ys

module _ {W : Type 0} ⦃f : Float W⦄ ⦃c : Casts W⦄ where
  -- The adapter has metrics with these satellites.
  Shows : Adapter W → Satellites → Type 0
  Shows a sats = (m : Metrics W) × (a.metrics ≡ some m) × (m.satellites ≡ sats)

  check_leap-satellites :
      (a : Adapter W) (m : Metrics W) (tpv : GpsdTpv W)
      → (check_leap a m tpv).0.satellites ≡ m.satellites
  unfolding check_leap update_leap_consistency
  check_leap-satellites a m tpv = ground arith

  on_tpv-satellites :
      (a : Adapter W) (tpv : GpsdTpv W) (sats : Satellites)
      → Shows a sats
      → Shows (on_tpv a tpv).0 sats
  unfolding report_tpv update_nav_pvt update_nav_time_utc set_num_sv pvt_of Shows
  on_tpv-satellites a tpv sats (m, e, h) =
      rw (on_tpv-report a m tpv e) (_, refl, check_leap-satellites a m tpv ∙ h)

  set_satellites-lem :
      (m : Metrics W) (svs : List (GpsdSatSv W))
      → (set_satellites m svs).satellites ≡ update_all m.satellites (populated_sats svs)
  unfolding set_satellites populated_sats update_all update_satellites
  set_satellites-lem m [] = refl
  set_satellites-lem m (sv ∷ svs) = refl

  on_sky-satellites :
      (a : Adapter W) (sky : GpsdSky W) (sats : Satellites)
      → Shows a sats
      → Shows (on_sky a sky) (update_all sats (populated_sats sky.satellites))
  unfolding report_sky update_nav_dop Shows
  on_sky-satellites a sky sats (m, e, h) =
      let m' = update_nav_dop m (dop_of sky) in
      rw (on_sky-report a m sky e) (
        _,
        refl,
        set_satellites-lem m' sky.satellites
            ∙ ap (λ x. update_all x (populated_sats sky.satellites)) h,
      )

  handle-satellites :
      (d : Decoders W) (s : Station W) (now : Time) (r : Report W) (sats : Satellites)
      → Shows s.handler sats
      → Shows (handle d s now r).handler (update_all sats (populated_of r))
  unfolding handle populated_of
  handle-satellites d s now ignored sats h = unfold update_all in h
  handle-satellites d s now (tpv_report tpv) sats h =
      unfold update_all in on_tpv-satellites s.handler tpv sats h
  handle-satellites d s now (sky_report sky) sats h = on_sky-satellites s.handler sky sats h

  read_lines-satellites :
      (d : Decoders W) (s : Station W) (lines : List (Time × List ℕ)) (sats : Satellites)
      → Shows s.handler sats
      → Shows (read_lines d s lines).handler (update_all sats (populated d lines))
  unfolding read_lines populated
  read_lines-satellites d s [] sats h = unfold update_all in h
  read_lines-satellites d s ((now, line) ∷ lines) sats h =
      rw (update_all-append sats (populated_of (report_of d line)) (populated d lines)) (
        read_lines-satellites d (handle d s now (report_of d line)) lines
          (update_all sats (populated_of (report_of d line)))
          (handle-satellites d s now (report_of d line) sats h))

  read_lines-nil : (d : Decoders W) (s : Station W) → read_lines d s [] ≡ s
  unfolding read_lines
  read_lines-nil d s = refl

  -- What one connection does, whether or not it comes about.
  run-lines :
      (d : Decoders W) (s : Station W) (session : Session)
      → (run d s session).0
        ≡ read_lines d s (if session.connect_ok && session.watch_ok then session.lines else [])
  unfolding run
  run-lines d s session = ground (arith, read_lines-nil d s)

  read_lines-append :
      (d : Decoders W) (s : Station W) (xs ys : List (Time × List ℕ))
      → read_lines d s (xs ++ ys) ≡ read_lines d (read_lines d s xs) ys
  unfolding read_lines
  read_lines-append d s [] ys = refl
  read_lines-append d s ((now, line) ∷ xs) ys =
      read_lines-append d (handle d s now (report_of d line)) xs ys

  -- To connect again and again is to read the lines of all connections in one.
  run_all-lines :
      (d : Decoders W) (s : Station W) (sessions : List Session)
      → run_all d s sessions ≡ read_lines d s (received sessions)
  unfolding run_all received
  run_all-lines d s [] = unfold read_lines in refl
  run_all-lines d s (session ∷ sessions) =
      run_all-lines d (run d s session).0 sessions
      ∙ ap (λ x. read_lines d x (received sessions)) (run-lines d s session)
      ∙ sym (
          read_lines-append d s
            (if session.connect_ok && session.watch_ok then session.lines else [])
            (received sessions))

  handle-source :
      (d : Decoders W) (s : Station W) (now : Time) (r : Report W)
      → (handle d s now r).source ≡ process_all d.time s.source (tpv_of now r)
  unfolding handle process_all tpv_of
  handle-source d s now ignored = refl
  handle-source d s now (tpv_report tpv) = refl
  handle-source d s now (sky_report sky) = refl

  process_all-append :
      (parse : List ℕ → Option Time) (s : GpsdSource) (xs ys : List (Time × GpsdTpv W))
      → process_all parse s (xs ++ ys) ≡ process_all parse (process_all parse s xs) ys
  unfolding process_all
  process_all-append parse s [] ys = refl
  process_all-append parse s ((now, tpv) ∷ xs) ys =
      process_all-append parse (process_tpv parse s now tpv) xs ys

  read_lines-source :
      (d : Decoders W) (s : Station W) (lines : List (Time × List ℕ))
      → (read_lines d s lines).source ≡ process_all d.time s.source (tpvs d lines)
  unfolding read_lines tpvs
  read_lines-source d s [] = unfold process_all in refl
  read_lines-source d s ((now, line) ∷ lines) =
      let r = report_of d line in
      read_lines-source d (handle d s now r) lines
      ∙ ap (λ x. process_all d.time x (tpvs d lines)) (handle-source d s now r)
      ∙ sym (process_all-append d.time s.source (tpv_of now r) (tpvs d lines))

  -- A daemon that has just started, with this TAI offset.
  abbrev pub new_station : ℤ → Station W
  new_station tai_offset = record {
    source = new_gpsd_source tai_offset;
    handler = record {
      metrics = some new_metrics;
      tai_offset = tai_offset;
      pdop100 = 0;
      leap_warned = false;
    };
  }

  -- Over any connections of a daemon, whatever lines they give and however they end, the source is
  -- as the TPV reports in these lines make it, and nothing else; and the satellites that are
  -- exported, for each pair of labels, and their number are those of the last SKY report that had
  -- some, where reports without satellites, other lines and lost connections change nothing.
  pub run_all-views :
      (d : Decoders W) (tai_offset : ℤ) (sessions : List Session) (l : Labels)
      → let s = run_all d (new_station tai_offset) sessions in
        let reports = populated d (received sessions) in
        (s.source ≡ process_all d.time (new_gpsd_source tai_offset) (tpvs d (received sessions)))
        × ((m : Metrics W) × (s.handler.metrics ≡ some m)
            × (exported l m.satellites.table ≡ reported l (last_of [] reports))
            × (m.satellites.num_sv ≡ used_count (last_of [] reports)))
  unfolding Shows new_metrics
  run_all-views d tai_offset sessions l =
      let s = new_station tai_offset in
      let lines = received sessions in
      let (m, e, h) = read_lines-satellites d s lines no_satellites (new_metrics, refl, refl) in
      let (table, number) = update_all-fresh (populated d lines) l in
      rw (run_all-lines d s sessions) (
        read_lines-source d s lines,
        (m, e, ap (λ x. exported l x.table) h ∙ table, ap (λ x. x.num_sv) h ∙ number),
      )

  -- Whatever lines the connections of a daemon give, the time that its source then gives for a
  -- pulse is a whole second, if the TAI offset in nanoseconds is an int64.
  pub run_all-IsWhole :
      (d : Decoders W) (tai_offset : ℤ) (sessions : List Session) (now t : Time)
      → IsI64 (tai_offset *ℤ pos second)
      → get_pps_time (run_all d (new_station tai_offset) sessions).source now ≡ some t
      → IsWhole t
  run_all-IsWhole d tai_offset sessions now t h e =
      let s = new_station tai_offset in
      let lines = received sessions in
      let same : (run_all d s sessions).source
          ≡ process_all d.time (new_gpsd_source tai_offset) (tpvs d lines) =
        ap (λ x. x.source) (run_all-lines d s sessions) ∙ read_lines-source d s lines in
      get_pps_time-IsWhole d.time tai_offset (tpvs d lines) now t h (rw same at e)
