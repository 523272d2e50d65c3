-- ===== src/Examples/Tools.antt =====
-- The arguments of the configuration tool, and the events of a PHC.
use ts2phc_go.Leap.{parse_int, parse_magnitude}
use ts2phc_go.Metrics.{same_text}
use ts2phc_go.Common.{◌≡◌, refl, some, List, [], ◌∷◌, arith, ℕ, replicate, map}
use ts2phc_go.Common.Int.{pos}
use ts2phc_go.Pps.Sink.{ExttsEvent}
use ts2phc_go.Phc.Extts.{
  event_read, read_extts_event, PollAnswer, interrupted, readable, quiet, drained, drain_extts,
}
use ts2phc_go.Phc.Extts.Event.{
  IsEvent, event_bytes, read_extts_event-bytes, IsEmptied, drain_extts-IsEmptied,
}
use ts2phc_go.Ubxcfg.Arguments.{
  Options, default_options, dyn_model_long, baud_short, options, parse_arguments,
}
use ts2phc_go.Ubxcfg.Arguments.Numbers.{lower}
use ts2phc_go.Ubxcfg.Arguments.Printed.{spelled}
use ts2phc_go.Ubxcfg.Arguments.Bounds.{parse_arguments-again}

-- `--dynmodel 4 -b 300x`, of which the second number is read up to the letter.
abbrev arguments : List (List ℕ)
arguments = dyn_model_long ∷ (52 ∷ []) ∷ baud_short ∷ (51 ∷ 48 ∷ 48 ∷ 120 ∷ []) ∷ []

abbrev portable : Options
portable = record default_options { dyn_model = 4; baud = pos 300 }

arguments_read : parse_arguments default_options arguments ≡ options portable
unfolding parse_arguments same_text parse_int parse_magnitude
arguments_read = refl

parse_arguments-again_example :
    (map lower portable.mode ≡ portable.mode)
    × (parse_arguments default_options (spelled portable) ≡ options portable)
parse_arguments-again_example = parse_arguments-again arguments portable arguments_read

abbrev edge : ExttsEvent
edge = record { sec = pos 1700000000; nsec = 250; index = 0; flags = 1 }

edge-IsEvent : IsEvent edge
edge-IsEvent = record {
  sec = (omega arith, omega arith);
  nsec = omega arith;
  index = omega arith;
  flags = omega arith;
}

read_extts_event-bytes_example : read_extts_event (some (event_bytes edge 7 0 0)) ≡ event_read edge
read_extts_event-bytes_example = read_extts_event-bytes edge 7 0 0 edge-IsEvent

abbrev queue : List PollAnswer
queue = interrupted ∷ readable (some (replicate 32 0)) ∷ quiet ∷ []

queue_drained : (drain_extts queue).0 ≡ drained
unfolding drain_extts
queue_drained = refl

drain_extts-IsEmptied_example : IsEmptied queue (drain_extts queue).1
drain_extts-IsEmptied_example = drain_extts-IsEmptied queue queue_drained
