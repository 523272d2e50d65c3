-- ===== src/Pps/Qerr/Scan/Text.antt =====
-- The scanner finds a frame behind text.
use mathlib.Core.Option
use mathlib.Core.List.{append-nil}
use ts2phc_go.Common.{
  ℕ, zero, suc, ◌+◌, ◌≤◌, ◌<◌, ◌≡◌, ◌≢◌, refl, ap, ◌∙◌, false, ltb, List, [], ◌∷◌, ◌++◌, length,
  take, drop, take-append, drop-append, length-append, All, arith,
}
use ts2phc_go.Ubx.Frame.{Frame, ok, encode, decode, frame_length, sync_a}
use ts2phc_go.Ubx.Frame.Codec.{decode-encode, length-encode, length_bytes}
use ts2phc_go.Pps.Qerr.Scan.{
  Round, stop, again, with_frame, find_sync, synced, cons_frame, scan_loop, scan,
}
use ts2phc_go.Pps.Qerr.Scan.Bound.{Shrinks, Shrinks-trans, synced-Shrinks, find_sync-length}

-- More fuel changes nothing.
fuel_step :
    (n m : ℕ) (buf : List ℕ)
    → ((rest : List ℕ) → length rest < length buf → scan_loop n rest ≡ scan_loop m rest)
    → (r : Round) → synced (find_sync buf) ≡ r
    → Shrinks buf r
    → scan_loop (suc n) buf ≡ scan_loop (suc m) buf
unfolding scan_loop
fuel_step n m buf more (stop rest) e h = rw (scan_loop, e) refl
fuel_step n m buf more (again rest) e h = rw (scan_loop, e) (more rest h)
fuel_step n m buf more (with_frame f rest) e h =
    rw (scan_loop, e) (ap (Option.map (cons_frame f)) (more rest h))

scan_loop-fuel :
    (n m : ℕ) (buf : List ℕ) → length buf < n → length buf < m → scan_loop n buf ≡ scan_loop m buf
scan_loop-fuel zero m buf h k = absurd (omega arith)
scan_loop-fuel (suc n) zero buf h k = absurd (omega arith)
scan_loop-fuel (suc n) (suc m) buf h k =
    fuel_step n m buf (λ rest l. scan_loop-fuel n m rest (omega arith) (omega arith))
      (synced (find_sync buf)) refl
      (Shrinks-trans (find_sync buf) buf (synced (find_sync buf)) (find_sync-length buf)
        (synced-Shrinks (find_sync buf)))

-- A byte that no frame begins with, as every byte of an NMEA sentence is.
abbrev pub IsText : ℕ → Type 0
IsText b = b ≢ sync_a

find_sync-append :
    (text tail : List ℕ)
    → All IsText text
    → find_sync (text ++ (0xb5 ∷ 0x62 ∷ tail)) ≡ 0xb5 ∷ 0x62 ∷ tail
unfolding find_sync
find_sync-append [] tail h = refl
find_sync-append (a ∷ []) tail h = ground (arith, h.0)
find_sync-append (a ∷ b ∷ text) tail h = ground (arith, h.0, find_sync-append (b ∷ text) tail h.1)

find_sync-encode :
    (text : List ℕ) (class id : ℕ) (payload rest : List ℕ)
    → All IsText text
    → find_sync (text ++ (encode class id payload ++ rest)) ≡ encode class id payload ++ rest
unfolding encode
find_sync-encode text class id payload rest h =
    find_sync-append text (drop 2 (encode class id payload) ++ rest) h

module _ (class id : ℕ) (payload rest : List ℕ) (small : length payload ≤ 1024) where
  frame_length-encode : frame_length (encode class id payload ++ rest) ≡ length payload
  unfolding encode
  frame_length-encode = omega (arith, length_bytes payload (omega arith))

  synced-encode :
      synced (encode class id payload ++ rest)
      ≡ with_frame (record { class = class; id = id; payload = payload }) rest
  unfolding synced
  synced-encode =
      let raw = encode class id payload in
      let size = length-encode class id payload in
      let total : 6 + frame_length (raw ++ rest) + 2 ≡ length raw =
        omega (arith, size, frame_length-encode) in
      let front : take (6 + frame_length (raw ++ rest) + 2) (raw ++ rest) ≡ raw =
        rw total (take-append raw rest) in
      let behind : drop (6 + frame_length (raw ++ rest) + 2) (raw ++ rest) ≡ rest =
        rw total (drop-append raw rest) in
      let back : decode raw ≡ ok (record { class = class; id = id; payload = payload }) =
        rw append-nil at (decode-encode class id payload [] (omega arith)) in
      let long : ltb (length (raw ++ rest)) 6 ≡ false =
        ground (arith, size, length-append raw rest) in
      let plausible : ltb 1024 (frame_length (raw ++ rest)) ≡ false =
        ground (arith, frame_length-encode) in
      let whole : ltb (length (raw ++ rest)) (6 + frame_length (raw ++ rest) + 2) ≡ false =
        ground (arith, total, length-append raw rest) in
      rw (long, plausible, whole, front, behind, back) refl

loop_frame :
    (n : ℕ) (buf : List ℕ) (f : Frame) (rest : List ℕ)
    → synced (find_sync buf) ≡ with_frame f rest
    → scan_loop (suc n) buf ≡ Option.map (cons_frame f) (scan_loop n rest)
unfolding scan_loop
loop_frame n buf f rest e = rw (scan_loop, e) refl

-- A frame of at most 1024 bytes of payload is found behind any text, however much of it there is,
-- and the scanner goes on behind the frame.
scan-encode :
    (text : List ℕ) (class id : ℕ) (payload rest : List ℕ)
    → All IsText text
    → length payload ≤ 1024
    → scan (text ++ (encode class id payload ++ rest))
      ≡ Option.map (cons_frame (record { class = class; id = id; payload = payload })) (scan rest)
unfolding scan
scan-encode text class id payload rest h small =
    let f : Frame = record { class = class; id = id; payload = payload } in
    let raw = encode class id payload in
    let buf = text ++ (raw ++ rest) in
    let round : synced (find_sync buf) ≡ with_frame f rest =
      rw (find_sync-encode text class id payload rest h)
        (synced-encode class id payload rest small) in
    let shorter : length rest < length buf = omega (
      arith,
      length-append text (raw ++ rest),
      length-append raw rest,
      length-encode class id payload,
    ) in
    loop_frame (length buf) buf f rest round
    ∙ ap (Option.map (cons_frame f))
        (scan_loop-fuel (length buf) (suc (length rest)) rest shorter (omega arith))
