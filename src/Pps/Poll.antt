-- ===== src/Pps/Poll.antt =====
-- `PollSinks` (pps/poll.go). The rounds of unix.Poll until the deadline are an argument: what each
-- one answers, and which event a readable sink then reads. Each sink has the device of its own.
pub mod Ready
pub mod Foreign
use ts2phc_go.Common.{
  ℕ, zero, suc, ◌+◌, Bool, true, false, not, ◌&&◌, ◌||◌, Option, none, some, List, [], ◌∷◌, map,
  ◌==◌, if◌then◌else◌,
}
use ts2phc_go.Common.Time.{unix_time}
use ts2phc_go.Pps.Sink.{Sink, ExttsEvent, process_event}

-- A sink with its entry of `collectedEvents`.
pub record Slot : Type 0 where
  pub sink : Sink
  pub collected : ℕ

-- The events of one `PollFd` that came back, and what `ReadExttsEvent` gives if it is called.
pub record Revents : Type 0 where
  pub pollerr : Bool
  pub readable : Bool
  pub event : Option ExttsEvent

-- One call of unix.Poll before the deadline.
pub data Poll : Type 0 where
  timed_out interrupted failed : Poll
  events : List Revents → Poll

pub data Answer : Type 0 where
  ready not_ready poll_error : Answer

-- `ProcessEvent` and what follows it; `true` if the edge was ignored.
unfoldable pub collect : Slot → ExttsEvent → Slot × Bool
collect c event =
    let (s, ts, valid) = process_event c.sink event false in
    if valid
    then (
      record {
        sink = record s { last_valid_ts = ts; is_available = true };
        collected = c.collected + 1;
      },
      false,
    )
    else (record { sink = s; collected = c.collected + 1 }, true)

-- One sink in a round: `none` is an error, which ends the call.
unfoldable pub visit : Slot → Revents → Option (Slot × Bool)
visit c r = if r.pollerr then none else if not r.readable then some (c, false) else elim r.event [
  | none ↦ none
  | some event ↦
      if not (event.index == c.sink.channel) then some (c, false) else some (collect c event)
]

-- The loop over the sinks: the slots, whether an edge was ignored, and whether it went without an
-- error. The sinks before an error keep what they have done.
unfoldable pub visit_all : List Slot → List Revents → List Slot × Bool × Bool
visit_all [] rs = ([], false, true)
visit_all (c ∷ cs) [] = (c ∷ cs, false, true)
visit_all (c ∷ cs) (r ∷ rs) =
    let (cs', ignored, ok) = visit_all cs rs in
    elim (visit c r) [ none ↦ (c ∷ cs, false, false) | some (c', i) ↦ (c' ∷ cs', i || ignored, ok) ]

-- Whether every sink has reported.
unfoldable pub all_collected : List Slot → Bool
all_collected [] = true
all_collected (c ∷ cs) = not (c.collected == 0) && all_collected cs

-- The loop, over the rounds that begin before the deadline.
unfoldable pub poll_loop : List Slot → Bool → List Poll → List Slot × Answer
poll_loop cs ignore [] = (cs, not_ready)
poll_loop cs ignore (timed_out ∷ ps) = (cs, not_ready)
poll_loop cs ignore (interrupted ∷ ps) = (cs, not_ready)
poll_loop cs ignore (failed ∷ ps) = (cs, poll_error)
poll_loop cs ignore (events rs ∷ ps) =
    let (cs', ignored, ok) = visit_all cs rs in
    let rest = poll_loop cs' (ignore || ignored) ps in
    if not ok
    then (cs', poll_error)
    else if not (all_collected cs')
    then rest
    else (cs', if ignore || ignored then not_ready else ready)

abbrev pub empty_slot : Sink → Slot
empty_slot s = record { sink = s; collected = 0 }

unfoldable pub poll_sinks : List Sink → List Poll → List Sink × Answer
poll_sinks [] ps = ([], not_ready)
poll_sinks (s ∷ ss) ps =
    let (cs, answer) = poll_loop (map empty_slot (s ∷ ss)) false ps in
    (map (λ c. c.sink) cs, answer)
