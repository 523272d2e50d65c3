-- ===== src/Pps/Sink.antt =====
-- The dynamic edge filter of a PPS sink, pps/sink.go. The device, the name and the servo of a sink
-- are not part of the record; the servo that `NewSink` makes is in Daemon/Startup.
pub mod Train
pub mod Lock
use ts2phc_go.Common.{ℕ, ◌+◌, Bool, true, false, ◌||◌, List, [], ◌∷◌, if◌then◌else◌}
use ts2phc_go.Common.Int.{ℤ, pos, negsuc, ltb_ℤ}
use ts2phc_go.Common.Time.{
  Time, Duration, second, millisecond, unix_time, sub_time, add_duration, sub_duration,
  half_duration,
}

pub data FilterState : Type 0 where
  init locking locked : FilterState

-- `ExttsEvent` with its `ClockTime`.
pub record ExttsEvent : Type 0 where
  pub sec : ℤ
  pub nsec : ℕ
  pub index : ℕ
  pub flags : ℕ

pub record Sink : Type 0 where
  pub channel : ℕ
  pub polarity : ℕ
  pub orig_polarity : ℕ
  pub state : FilterState
  pub last_event : Time
  pub pulse_width : Duration
  pub pulse_period : Duration
  pub single_edge : Bool
  pub last_valid_ts : Time
  pub is_available : Bool

-- What `NewSink` sets up, the device and the servo apart.
unfoldable pub new_sink : ℕ → ℕ → Sink
new_sink channel polarity = record {
  channel = channel;
  polarity = polarity;
  orig_polarity = polarity;
  state = init;
  last_event = pos 0;
  pulse_width = pos 0;
  pulse_period = pos second;
  single_edge = false;
  last_valid_ts = pos 0;
  is_available = false;
}

-- `drift > 100*time.Millisecond || drift < -100*time.Millisecond`
abbrev pub is_off : Duration → Bool
is_off drift = ltb_ℤ (pos 100000000) drift || ltb_ℤ drift (negsuc 99999999)

-- The single-edge mode.
unfoldable pub process_single : FilterState → Sink → Time → Sink × Bool
process_single init s now = (record s { last_event = now; state = locked }, false)
process_single _ s now =
    let drift = sub_duration (sub_time now s.last_event) s.pulse_period in
    (record s { last_event = now }, if is_off drift then false else true)

-- The two-edge filter. The long gap between two pulses leaves a locking filter as it is.
unfoldable pub process_double : FilterState → Sink → Time → Sink × Bool
process_double init s now = (record s { last_event = now; state = locking }, false)
process_double locking s now =
    let delta = sub_time now s.last_event in
    if ltb_ℤ delta (half_duration s.pulse_period)
    then (record s { last_event = now; pulse_width = delta; state = locked }, false)
    else (record s { last_event = now }, false)
process_double locked s now =
    let delta = sub_time now s.last_event in
    let drift = sub_duration delta (sub_duration s.pulse_period s.pulse_width) in
    if ltb_ℤ delta (half_duration s.pulse_period)
    then (
      record s { last_event = now; pulse_width = half_duration (add_duration s.pulse_width delta) },
      false,
    )
    else if is_off drift
    then (record s { last_event = now; state = init }, false)
    else (record s { last_event = now }, true)

-- `ProcessEvent` at the event's time.
unfoldable pub process_time : Sink → Time → Bool → Sink × Bool
process_time s now force_ignore =
    if force_ignore
    then (record s { last_event = now }, false)
    else if s.single_edge
    then process_single s.state s now
    else process_double s.state s now

-- `ProcessEvent`: the new sink, the event's time and whether it is a true start of second.
unfoldable pub process_event : Sink → ExttsEvent → Bool → Sink × Time × Bool
unfolding process_time
process_event s event force_ignore =
    let now = unix_time event.sec event.nsec in
    let (s', valid) = process_time s now force_ignore in (s', now, valid)

-- A run of events: the times that are passed on, and the sink behind them.
unfoldable pub accepted : Sink → List Time → List Time
accepted s [] = []
accepted s (t ∷ ts) =
    let (s', valid) = process_time s t false in
    let rest = accepted s' ts in if valid then t ∷ rest else rest
