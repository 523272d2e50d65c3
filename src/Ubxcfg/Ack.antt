-- ===== src/Ubxcfg/Ack.antt =====
-- Waiting for an acknowledgement, and the baud rates to probe.
use ts2phc_go.Common.{ℕ, not, ◌||◌, Option, none, some, List, [], ◌∷◌, ◌++◌, ◌==◌, if◌then◌else◌}
use ts2phc_go.Common.Int.{ℤ, eqb_ℤ}
use ts2phc_go.Ubx.Frame.{Frame}
use ts2phc_go.Ubx.Msg.{Parsed, ok, Ack, parse_ack}
use ts2phc_go.Ubxcfg.{parse_frames}

-- What the wait has found so far, or how it ended.
pub data Outcome : Type 0 where
  acked naked timed_out read_error stuck : Outcome

-- The body of the inner loop: `none` is `continue`.
abbrev pub ack_of : ℕ → ℕ → ℕ → Parsed Ack → Option Outcome
ack_of cls id frame_id (ok ack) =
    if not (ack.cls_id == cls) || not (ack.msg_id == id)
    then none
    else if frame_id == 0x01
    then some acked
    else if frame_id == 0x00
    then some naked
    else none
ack_of cls id frame_id _ = none

unfoldable pub judge_frame : ℕ → ℕ → Frame → Option Outcome
judge_frame cls id f =
    if not (f.class == 0x05) then none else ack_of cls id f.id (parse_ack f.payload)

unfoldable pub judge_frames : ℕ → ℕ → List Frame → Option Outcome
unfolding judge_frame
judge_frames cls id [] = none
judge_frames cls id (f ∷ fs) =
    let rest = judge_frames cls id fs in
    elim (judge_frame cls id f) [ none ↦ rest | some o ↦ some o ]

-- The outcome of each `port.Read` before the deadline: the bytes read, or an error.
pub data Read : Type 0 where
  got : List ℕ → Read
  failed : Read

-- `awaitAck`, over the reads that return before the deadline. A read of no bytes adds nothing to
-- the buffer. `stuck` is no Go value: `parse_frames` has run out of fuel, which it does not.
unfoldable pub await_ack : ℕ → ℕ → List ℕ → List Read → Outcome
unfolding judge_frames
await_ack cls id buf [] = timed_out
await_ack cls id buf (failed ∷ reads) = read_error
await_ack cls id buf (got [] ∷ reads) = await_ack cls id buf reads
await_ack cls id buf (got (b ∷ bs) ∷ reads) = elim (parse_frames (buf ++ b ∷ bs)) [
  | none ↦ stuck
  | some (fs, rem) ↦ elim (judge_frames cls id fs) [
    | some o ↦ o
    | none ↦ await_ack cls id rem reads
  ]
]

-- `prependUnique`
unfoldable pub without : ℤ → List ℤ → List ℤ
without first [] = []
without first (v ∷ vs) = let rest = without first vs in if eqb_ℤ v first then rest else v ∷ rest

unfoldable pub prepend_unique : ℤ → List ℤ → List ℤ
unfolding without
prepend_unique first rest = first ∷ without first rest
