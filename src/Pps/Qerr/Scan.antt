-- ===== src/Pps/Qerr/Scan.antt =====
-- The loop of `Run` in pps/qerr_source.go: the scanner of the raw stream, in which UBX frames stand
-- between NMEA sentences. A read that fails ends `Run`; the reads before it are an argument.
pub mod Bound
pub mod Text
use ts2phc_go.Common.{
  ℕ, zero, suc, ◌+◌, ◌*◌, ◌<◌, Bool, true, false, not, ◌&&◌, Option, none, some, List, [], ◌∷◌,
  ◌++◌, length, get_or, take, drop, ltb, ◌==◌, if◌then◌else◌,
}
use mathlib.Core.Option
use ts2phc_go.Common.Float.{Float}
use ts2phc_go.Ubx.Frame.{
  Frame, Decoded, ok, err, class_id, decode, frame_length, header_len, checksum_len, sync_a, sync_b,
}
use ts2phc_go.Pps.Qerr.{QErrSource, handle}

-- `uint16(ClassTIM)<<8 | IDTimTP`
abbrev pub msg_tim_tp : ℕ
msg_tim_tp = 0x0d * 256 + 0x01

-- `buf[i:]`, for the first `i` where the two sync bytes stand, or where fewer than two bytes are left.
unfoldable pub find_sync : List ℕ → List ℕ
find_sync [] = []
find_sync (a ∷ []) = a ∷ []
find_sync (a ∷ b ∷ rest) =
    let later = find_sync (b ∷ rest) in if a == sync_a && b == sync_b then a ∷ b ∷ rest else later

-- What a round of the inner loop does, and the buffer that it leaves: end the loop, go on, or go on
-- with a frame.
pub data Round : Type 0 where
  stop again : List ℕ → Round
  with_frame : Frame → List ℕ → Round

abbrev pub after_frame : List ℕ → Decoded → Round
after_frame rest (ok f) = with_frame f rest
after_frame rest (err e) = again rest

-- A round, behind the search for the sync bytes.
unfoldable pub synced : List ℕ → Round
synced buf =
    let total = header_len + frame_length buf + checksum_len in
    if ltb (length buf) header_len
    then stop buf
    else if ltb 1024 (frame_length buf)
    then again (drop 2 buf)
    else if ltb (length buf) total
    then stop buf
    else after_frame (drop total buf) (decode (take total buf))

abbrev pub cons_frame : Frame → List Frame × List ℕ → List Frame × List ℕ
cons_frame f (fs, rem) = (f ∷ fs, rem)

-- The inner loop, on fuel; `none` means that the fuel ran out.
unfoldable pub scan_loop : ℕ → List ℕ → Option (List Frame × List ℕ)
scan_loop zero buf = none
scan_loop (suc fuel) buf = elim (synced (find_sync buf)) [
  | stop rest ↦ some ([], rest)
  | again rest ↦ scan_loop fuel rest
  | with_frame f rest ↦ Option.map (cons_frame f) (scan_loop fuel rest)
]

unfoldable pub scan : List ℕ → Option (List Frame × List ℕ)
unfolding scan_loop
scan buf = scan_loop (suc (length buf)) buf

-- `if len(buf) > 8192 { buf = buf[:0] }`
abbrev pub hard_resync : List ℕ → List ℕ
hard_resync buf = if ltb 8192 (length buf) then [] else buf

module _ {W : Type 0} ⦃f : Float W⦄ where
  -- The frames of one read, in order.
  unfoldable pub handle_frames : QErrSource W → List Frame → QErrSource W
  unfolding handle
  handle_frames q [] = q
  handle_frames q (g ∷ gs) =
      handle_frames (if class_id g == msg_tim_tp then handle q g.payload else q) gs

  -- What the inner loop found, and the buffer behind the cut.
  abbrev pub after_scan :
      QErrSource W → Option (List Frame × List ℕ) → Option (List ℕ × QErrSource W)
  after_scan q none = none
  after_scan q (some (fs, rem)) = some (hard_resync rem, handle_frames q fs)

  -- One read of the connection: the buffer and the ring behind it.
  unfoldable pub read_chunk : List ℕ → QErrSource W → List ℕ → Option (List ℕ × QErrSource W)
  unfolding scan handle_frames
  read_chunk buf q chunk = after_scan q (scan (buf ++ chunk))
