-- ===== src/Ubxcfg.antt =====
-- The receiver configuration tool, cmd/ubxcfg/main.go: its frame scanner, the wait for an
-- acknowledgement and the list of baud rates. Configure has what it writes to a receiver, Arguments
-- has its `main`.
pub mod Stream
pub mod Ack
pub mod Wait
pub mod Noise
pub mod Configure
pub mod Arguments
use mathlib.Core.Option
use ts2phc_go.Common.{
  ℕ, zero, suc, ◌+◌, ◌<◌, ◌≡◌, Bool, true, false, not, ◌||◌, Option, none, some, List, [], ◌∷◌,
  ◌++◌, length, get_or, take, drop, ltb, ◌==◌, if◌then◌else◌,
}
use ts2phc_go.Ubx.Frame.{
  Frame, Decoded, ok, err, decode, frame_length, header_len, checksum_len, sync_a, sync_b,
}

-- `data[i] != SyncA || data[i+1] != SyncB`, of the rest `data[i:]`.
abbrev pub out_of_sync : List ℕ → Bool
out_of_sync rest = not (get_or rest 0 0 == sync_a) || not (get_or rest 1 0 == sync_b)

abbrev pub total_length : List ℕ → ℕ
total_length rest = header_len + frame_length rest + checksum_len

-- What one round of the loop of `parseFrames` does with the rest `data[i:]`: stop, go one byte on,
-- or take a frame.
pub data Round : Type 0 where
  stop skip : Round
  take_frame : Frame → Round

abbrev pub round_of : Decoded → Round
round_of (ok f) = take_frame f
round_of (err e) = skip

unfoldable pub round : List ℕ → Round
round rest =
    if ltb (length rest) (header_len + checksum_len)
    then stop
    else if out_of_sync rest
    then skip
    else if ltb (length rest) (total_length rest)
    then stop
    else round_of (decode (take (total_length rest) rest))

-- A frame in front of the frames of the rest.
abbrev pub cons_frame : Frame → List Frame × List ℕ → List Frame × List ℕ
cons_frame f (fs, rem) = (f ∷ fs, rem)

-- The loop, on fuel; `none` means that the fuel ran out.
unfoldable pub parse_loop : ℕ → List ℕ → Option (List Frame × List ℕ)
parse_loop zero rest = none
parse_loop (suc fuel) rest = elim (round rest) [
  | stop ↦ some ([], rest)
  | skip ↦ parse_loop fuel (drop 1 rest)
  | take_frame f ↦ Option.map (cons_frame f) (parse_loop fuel (drop (total_length rest) rest))
]

-- `parseFrames`: each round takes a byte at least, so as many rounds as bytes are enough.
unfoldable pub parse_frames : List ℕ → Option (List Frame × List ℕ)
unfolding parse_loop
parse_frames buf = parse_loop (suc (length buf)) buf
