-- ===== src/Examples/Reports.antt =====
-- The receiver's reports, the alarms that they raise, and the page of the metrics.
use ts2phc_go.Common.{◌≡◌, refl, true, false, inl, some, List, [], ◌∷◌, ◌++◌, All, arith}
use ts2phc_go.Common.Int.{ℤ, pos, ◌*ℤ◌, ◌+ℤ◌, ◌-ℤ◌}
use ts2phc_go.Common.Word.{i64}
use ts2phc_go.Common.Time.{round_time, sub_time}
use ts2phc_go.Examples.Whole.{whole, whole_casts}
use ts2phc_go.Examples.Pulses.{read_one, report}
use ts2phc_go.Examples.Loops.{watched, wrong_turn, wrong_steps}
use ts2phc_go.Guard.{new}
use ts2phc_go.Leap.Decimal.{print}
use ts2phc_go.Metrics.{Labels, gps, same_text, exported, used_count}
use ts2phc_go.Metrics.Table.{reported}
use ts2phc_go.Metrics.Runs.{last_of}
use ts2phc_go.Metrics.Gauges.{Metrics, new_metrics}
use ts2phc_go.Pps.Gpsd.{
  GpsdTpv, GpsdSky, GpsdSatSv, new_gpsd_source, process_tpv, process_all, get_pps_time,
}
use ts2phc_go.Pps.Gpsd.Tai.{IsWhole}
use ts2phc_go.Pps.Gpsd.Adapter.{Adapter, on_tpv, on_tpvs, warnings, is_checked, is_consistent}
use ts2phc_go.Pps.Gpsd.Adapter.Alarm.{IsAlarmed, clears, warned_once}
use ts2phc_go.Pps.Gpsd.Run.{Decoders, Session, tpv_class, sky_class, run_all, run}
use ts2phc_go.Pps.Gpsd.Run.Received.{received, tpvs, populated}
use ts2phc_go.Pps.Gpsd.Run.Views.{new_station, run_all-views, run_all-IsWhole}
use ts2phc_go.Daemon.Tick.Export.{export_turn}
use ts2phc_go.Daemon.Tick.Export.Alarm.{export_turn-alarm}
use ts2phc_go.Daemon.Textfiles.{Entry, lacks_newline, with_textfiles}
use ts2phc_go.Daemon.Textfiles.Lines.{lines, file_lines, with_textfiles-lines}

abbrev satellite : GpsdSatSv ℤ
satellite = record {
  prn = pos 5;
  gnss_id = pos 0;
  sv_id = pos 5;
  el = pos 40;
  az = pos 120;
  ss = pos 33;
  used = true;
}

abbrev sky : GpsdSky ℤ
sky = record {
  gdop = pos 2;
  hdop = pos 1;
  pdop = pos 2;
  tdop = pos 1;
  vdop = pos 1;
  u_sat = pos 1;
  satellites = satellite ∷ [];
}

-- Lines that are their own classes.
abbrev decoders : Decoders ℤ
decoders = record {
  class = λ line. some line;
  tpv = λ line. some report;
  sky = λ line. some sky;
  time = read_one;
}

-- A connection that breaks behind two reports, and one that does not come about.
abbrev sessions : List Session
sessions =
    record {
      connect_ok = true;
      watch_ok = true;
      lines = (pos 5, tpv_class) ∷ (pos 6, sky_class) ∷ [];
      scan_ok = false;
    }
    ∷ record { connect_ok = false; watch_ok = true; lines = []; scan_ok = true }
    ∷ []

abbrev fifth : Labels
fifth = record { gnss = gps; svid = print 5 }

run_all-views_example :
    let s = run_all decoders (new_station (pos 37)) sessions in
    let reports = populated decoders (received sessions) in
    (s.source ≡ process_all read_one (new_gpsd_source (pos 37)) (tpvs decoders (received sessions)))
    × ((m : Metrics ℤ) × (s.handler.metrics ≡ some m)
        × (exported fifth m.satellites.table ≡ reported fifth (last_of [] reports))
        × (m.satellites.num_sv ≡ used_count (last_of [] reports)))
run_all-views_example = run_all-views decoders (pos 37) sessions fifth

read_time :
    get_pps_time (run_all decoders (new_station (pos 37)) sessions).source (pos 9)
    ≡ some (pos 63000000038000000000)
unfolding get_pps_time run_all run same_text process_tpv sub_time ◌-ℤ◌ ◌+ℤ◌ round_time i64 ◌*ℤ◌
read_time = refl

run_all-IsWhole_example : IsWhole (pos 63000000038000000000)
unfolding ◌*ℤ◌
run_all-IsWhole_example =
    run_all-IsWhole decoders (pos 37) sessions (pos 9) (pos 63000000038000000000) (ground arith)
      read_time

-- An adapter for 37 seconds, of which 18 leap seconds are right.
abbrev adapter : Adapter ℤ
adapter = (new_station (pos 37)).handler

abbrev silent : GpsdTpv ℤ
silent = record report { leapseconds = pos 0 }

warned : (on_tpv adapter report).1 ≡ true
unfolding on_tpv is_checked is_consistent i64 ◌+ℤ◌
warned = refl

not_cleared : All (λ later. clears adapter later ≡ false) (silent ∷ report ∷ [])
unfolding is_checked is_consistent i64 ◌+ℤ◌
not_cleared = (refl, (refl, tt))

warned_once_example :
    let a = (on_tpv adapter report).0 in
    All (λ warn. warn ≡ false) (warnings a (silent ∷ report ∷ []))
    × IsAlarmed (on_tpvs a (silent ∷ report ∷ []))
warned_once_example = warned_once adapter report (silent ∷ report ∷ []) warned not_cleared

export_turn-alarm_example : (export_turn new_metrics (112 ∷ []) watched wrong_turn).guard_ok ≡ pos 0
unfolding new
export_turn-alarm_example =
    export_turn-alarm new_metrics (112 ∷ []) watched wrong_turn refl (inl wrong_steps)

-- "a.prom", which lacks its newline.
abbrev text_file : Entry
text_file = record {
  name = 97 ∷ 46 ∷ 112 ∷ 114 ∷ 111 ∷ 109 ∷ [];
  is_dir = false;
  text = some (98 ∷ []);
}

closed : lacks_newline (97 ∷ 10 ∷ []) ≡ false
unfolding lacks_newline
closed = refl

with_textfiles-lines_example :
    lines (with_textfiles (47 ∷ []) (λ encoded. 97 ∷ 10 ∷ []) (some (text_file ∷ [])) true)
    ≡ lines (97 ∷ 10 ∷ []) ++ file_lines (text_file ∷ [])
with_textfiles-lines_example =
    with_textfiles-lines 47 [] (λ encoded. 97 ∷ 10 ∷ []) (text_file ∷ []) true closed
