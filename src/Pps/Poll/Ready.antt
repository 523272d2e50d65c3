-- ===== src/Pps/Poll/Ready.antt =====
-- When a poll is ready, and what foreign events do to it.
use ts2phc_go.Common.{◌≡◌, ◌⊎◌, Bool, true, false}
use ts2phc_go.Pps.Sink.{Sink, ExttsEvent, process_event}
use ts2phc_go.Pps.Poll.{Slot, Poll}

-- What a sink is behind an edge that its filter has found to be a true start of second: it holds the
-- time of the edge as its time stamp.
abbrev pub stamped : Sink → ExttsEvent → Sink
stamped s event =
    let (s', ts, valid) = process_event s event false in
    record s' { last_valid_ts = ts; is_available = true }

-- The sink is what became of a sink by an event of its channel that the filter found to be a true start
-- of second, and it holds the time of the event.
pub record IsStamped (s : Sink) : Type 0 where
  pub before : Sink
  pub event : ExttsEvent
  pub channel : event.index ≡ before.channel
  pub true_start : (process_event before event false).2 ≡ true
  pub holds : s ≡ stamped before event
  pub newest : s.last_valid_ts ≡ s.last_event

-- A slot that has collected events, none of which was ignored, has such a sink.
abbrev IsSound : Bool → Slot → Type 0
IsSound ignore c = (ignore ≡ true) ⊎ ((c.collected ≡ 0) ⊎ IsStamped c.sink)
