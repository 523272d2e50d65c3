-- ===== src/Examples/Pulses.antt =====
-- Pulses, the time that is given to them, and what is announced.
use ts2phc_go.Common.Word.{i64}
use ts2phc_go.Common.{ℕ, ◌≡◌, ◌≢◌, ◌⊎◌, refl, true, Option, none, some, List, [], ◌∷◌, map, arith}
use ts2phc_go.Common.Int.{ℤ, pos, negsuc, ◌+ℤ◌, ◌-ℤ◌, ◌*ℤ◌, ◌≤ℤ◌, ◌<ℤ◌}
use ts2phc_go.Common.Time.{Time, second, round_time, sub_time}
use ts2phc_go.Examples.Whole.{whole}
use ts2phc_go.Pps.Sink.{Sink, locked, new_sink, accepted}
use ts2phc_go.Pps.Sink.Train.{Pulse, fall, edges, IsTrain, IsRegular, IsLockedOn}
use ts2phc_go.Pps.Sink.Lock.{accepted-edges}
use ts2phc_go.Pps.Gpsd.{GpsdTpv, new_gpsd_source, process_tpv, process_all, get_pps_time, tai_now}
use ts2phc_go.Pps.Gpsd.Tai.{tai_now-process_tpv}
use ts2phc_go.Pps.Qerr.{
  QErrSource, new_qerr_source, handle, handle_all, lookup, pulse_second, qerr_ns,
}
use ts2phc_go.Pps.Qerr.Ring.{lookup-handle}
use ts2phc_go.Ubx.Msg as Msg
use ts2phc_go.Ubx.Msg.{TimTp, parse_tim_tp, qerr_invalid}
use ts2phc_go.Ubx.Msg.Layout.{tim_tp_bytes}
use ts2phc_go.Gm as Gm
use ts2phc_go.Gm.{
  Monitor, Settings, Agent, new_monitor, update, want, note_lock, announce, is_current,
}
use ts2phc_go.Gm.Honest.{update_honest}

abbrev pulse_at : ℕ → Pulse
pulse_at n = record { rise = pos n; width = 100000000 }

abbrev two_pulses : List Pulse
two_pulses = pulse_at 11000000100 ∷ pulse_at 12000000000 ∷ []

regular : IsRegular 99000000 101000000 1000
regular = record { ordered = omega arith; short = omega arith; steady = omega arith }

train : IsTrain 99000000 101000000 1000 (pulse_at 10000000000) two_pulses
unfolding ◌+ℤ◌
train = ground arith

abbrev locked_sink : Sink
locked_sink = record (new_sink 0 1) {
  state = locked;
  pulse_width = pos 100000000;
  last_event = fall (pulse_at 10000000000);
}

locked_sink-IsLockedOn : IsLockedOn 99000000 101000000 (pulse_at 10000000000) locked_sink
unfolding new_sink
locked_sink-IsLockedOn = record {
  width = 100000000;
  mode = refl;
  state = refl;
  period = refl;
  pulse_width = refl;
  low = omega arith;
  high = omega arith;
  behind = refl;
}

accepted-edges_example : accepted locked_sink (edges two_pulses) ≡ map (λ q. q.rise) two_pulses
accepted-edges_example =
    accepted-edges 99000000 101000000 1000 (pulse_at 10000000000) two_pulses locked_sink regular
      locked_sink-IsLockedOn (omega arith) (omega arith) train

-- A parser that reads one time.
abbrev pub read_one : List ℕ → Option Time
read_one [] = none
read_one (b ∷ bs) = some (pos 63000000000400000000)

abbrev pub report : GpsdTpv ℤ
report = record {
  mode = pos 3;
  time = 50 ∷ [];
  lat = pos 52;
  lon = pos 13;
  alt_msl = pos 40;
  alt_hae = pos 80;
  eph = pos 5;
  epv = pos 8;
  ept = pos 0;
  speed = pos 0;
  track = pos 0;
  climb = pos 0;
  status = pos 1;
  leapseconds = pos 17;
}

given :
    get_pps_time (process_all read_one (new_gpsd_source (pos 37)) ((pos 5, report) ∷ [])) (pos 9)
    ≡ some (pos 63000000038000000000)
unfolding get_pps_time process_all process_tpv sub_time ◌-ℤ◌ ◌+ℤ◌ round_time i64 ◌*ℤ◌
given = refl

tai_now-process_tpv_example :
    let s' = process_tpv read_one (new_gpsd_source (pos 37)) (pos 5) report in
    let t = pos 63000000000400000000 in
    (tai_now s' (pos 9) ≡ some (round_time t +ℤ pos 37 *ℤ pos second +ℤ (pos 9 -ℤ pos 5)))
    × (get_pps_time s' (pos 9) ≡ some (round_time t +ℤ pos second +ℤ pos 37 *ℤ pos second))
    × (round_time t ≤ℤ t +ℤ pos 500000000)
    × (t <ℤ round_time t +ℤ pos 500000001)
unfolding ◌*ℤ◌ ◌+ℤ◌
tai_now-process_tpv_example =
    tai_now-process_tpv read_one (new_gpsd_source (pos 37)) (pos 5) (pos 9)
      (pos 63000000000400000000) report (omega arith) refl (omega arith) (ground arith)
      (omega arith) (ground arith)

abbrev sawtooth : TimTp
sawtooth = record {
  tow_ms = 345600000;
  tow_sub_ms = 0;
  qerr = negsuc 4211;
  week = 2300;
  flags = 3;
  ref_info = 15;
}

sawtooth_parsed : parse_tim_tp (tim_tp_bytes sawtooth []) ≡ Msg.ok sawtooth
unfolding parse_tim_tp
sawtooth_parsed = refl

sawtooth_new :
    lookup (handle_all (new_qerr_source {W = ℤ} (pos 37)) []) (pulse_second (pos 18) sawtooth)
    ≡ none
unfolding lookup handle_all pulse_second
sawtooth_new = refl

lookup-handle_example :
    let q : QErrSource ℤ = handle_all (new_qerr_source (pos 37)) [] in
    lookup (handle q (tim_tp_bytes sawtooth [])) (pulse_second q.gps_utc_off sawtooth)
    ≡ some (qerr_ns sawtooth)
unfolding handle_all i64 ◌-ℤ◌
lookup-handle_example =
    lookup-handle (pos 37) [] (tim_tp_bytes sawtooth []) sawtooth sawtooth_parsed refl sawtooth_new

abbrev ptp_settings : Settings
ptp_settings = record {
  clock_class = 248;
  clock_accuracy = 254;
  offset_scaled_log_variance = 65535;
  utc_offset = pos 37;
  time_flags = 8;
  time_source = 160;
}

abbrev agent : Agent
agent = record { settings = some ptp_settings; set_ok = true }

abbrev monitor : Monitor
monitor = new_monitor (pos 3600) (pos 1000)

sent_locked :
    (update agent monitor (pos 60000000000) true).1 ≡ some (announce Gm.locked ptp_settings)
unfolding update sub_time ◌-ℤ◌
sent_locked = refl

update_honest_example :
    let g' = (update agent monitor (pos 60000000000) true).0 in
    let age = sub_time (pos 60000000000) g'.last_lock in
    let gs = announce Gm.locked ptp_settings in
    ((gs.clock_class ≡ 6) × (g'.last_lock ≢ pos 0) × (age <ℤ pos 10000000000))
    ⊎ ((gs.clock_class ≡ 7)
        × (g'.last_lock ≢ pos 0)
        × (pos 10000000000 ≤ℤ age)
        × (age <ℤ monitor.holdover))
    ⊎ ((gs.clock_class ≡ 248)
        × ((g'.last_lock ≡ pos 0) ⊎ ((pos 10000000000 ≤ℤ age) × (monitor.holdover ≤ℤ age))))
update_honest_example =
    update_honest agent monitor (pos 60000000000) true (announce Gm.locked ptp_settings) sent_locked
