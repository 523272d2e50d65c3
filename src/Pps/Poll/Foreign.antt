-- ===== src/Pps/Poll/Foreign.antt =====
-- Events of channels that are not a sink's own, as a device without a channel mask delivers them.
use ts2phc_go.Common.{◌≡◌, ◌≢◌, refl, ap, true, false, some, List, [], ◌∷◌, map, arith, All}
use ts2phc_go.Pps.Sink.{Sink, ExttsEvent}
use ts2phc_go.Pps.Poll.{
  Slot, Revents, Poll, timed_out, interrupted, failed, events, not_ready, visit, visit_all,
  all_collected, poll_loop, poll_sinks, empty_slot,
}

-- An event that is there, of another channel than the sink's, without an error of the poll.
pub record IsForeign (c : Slot) (r : Revents) : Type 0 where
  pub clean : r.pollerr ≡ false
  pub event : ExttsEvent
  pub there : r.event ≡ some event
  pub other : event.index ≢ c.sink.channel

abbrev pub AreForeign : List Slot → List Revents → Type 0
AreForeign [] rs = true ≡ true
AreForeign (c ∷ cs) [] = true ≡ true
AreForeign (c ∷ cs) (r ∷ rs) = IsForeign c r × AreForeign cs rs

-- A round brings such events to the sinks, or none at all before the deadline.
abbrev pub BringsForeign : List Slot → Poll → Type 0
BringsForeign cs (events rs) = AreForeign cs rs
BringsForeign cs failed = true ≡ false
BringsForeign cs _ = true ≡ true

visit-foreign : (c : Slot) (r : Revents) → IsForeign c r → visit c r ≡ some (c, false)
unfolding visit
visit-foreign c r f = ground (arith, f.clean, f.there, f.other)

visit_all-foreign :
    (cs : List Slot) (rs : List Revents) → AreForeign cs rs → visit_all cs rs ≡ (cs, false, true)
unfolding visit_all
visit_all-foreign [] rs f = refl
visit_all-foreign (c ∷ cs) [] f = refl
visit_all-foreign (c ∷ cs) (r ∷ rs) f =
    rw (visit-foreign c r f.0, visit_all-foreign cs rs f.1, visit_all) refl

poll_loop-foreign :
    (cs : List Slot) (ps : List Poll)
    → all_collected cs ≡ false
    → All (BringsForeign cs) ps
    → poll_loop cs false ps ≡ (cs, not_ready)
unfolding poll_loop
poll_loop-foreign cs [] a f = refl
poll_loop-foreign cs (events rs ∷ ps) a f =
    rw (visit_all-foreign cs rs f.0, a, poll_loop) (poll_loop-foreign cs ps a f.1)
poll_loop-foreign cs (timed_out ∷ ps) a f = refl
poll_loop-foreign cs (interrupted ∷ ps) a f = refl
poll_loop-foreign cs (failed ∷ ps) a f = absurd cc

sinks_of_empty : (ss : List Sink) → map (λ c. c.sink) (map empty_slot ss) ≡ ss
sinks_of_empty [] = refl
sinks_of_empty (s ∷ ss) = ap (λ l. s ∷ l) (sinks_of_empty ss)

-- However many events of foreign channels come before the deadline, and if no unix.Poll fails, a poll of one or more sinks
-- ends without an error, is not ready, and leaves every sink as it was.
poll_sinks-foreign :
    (s : Sink) (ss : List Sink) (ps : List Poll)
    → All (BringsForeign (map empty_slot (s ∷ ss))) ps
    → poll_sinks (s ∷ ss) ps ≡ (s ∷ ss, not_ready)
unfolding poll_sinks
poll_sinks-foreign s ss ps f =
    rw (poll_loop-foreign (map empty_slot (s ∷ ss)) ps (unfold all_collected in refl) f)
      (rw (sinks_of_empty ss) refl)
