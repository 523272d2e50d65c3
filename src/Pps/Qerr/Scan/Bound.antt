-- ===== src/Pps/Qerr/Scan/Bound.antt =====
-- The scanner ends, and never keeps more than one unfinished frame.
use ts2phc_go.Common.{
  false, ℕ, zero, suc, ◌+◌, ◌≤◌, ◌<◌, ◌≡◌, refl, ap, ◌∙◌, some, List, [], ◌∷◌, ◌++◌, length, drop,
  take, Bool-cases, inl, inr, length-drop, ltb, arith,
}
use ts2phc_go.Ubx.Frame.{Frame, Decoded, ok, err, decode, frame_length}
use ts2phc_go.Common.Float.{Float}
use ts2phc_go.Pps.Qerr.{QErrSource}
use ts2phc_go.Pps.Qerr.Scan.{
  Round, stop, again, with_frame, find_sync, synced, after_frame, scan_loop, scan, after_scan,
  hard_resync, read_chunk, handle_frames,
}

pub find_sync-length : (buf : List ℕ) → length (find_sync buf) ≤ length buf
unfolding find_sync
find_sync-length [] = omega arith
find_sync-length (a ∷ []) = omega arith
find_sync-length (a ∷ b ∷ rest) = ground (arith, find_sync-length (b ∷ rest))

-- A round stops on less than a frame of the greatest length, and otherwise drops bytes.
abbrev pub Shrinks : List ℕ → Round → Type 0
Shrinks buf (stop rest) = length rest < 1032
Shrinks buf (again rest) = length rest < length buf
Shrinks buf (with_frame f rest) = length rest < length buf

after_frame-Shrinks :
    (buf rest : List ℕ) (o : Decoded) → length rest < length buf → Shrinks buf (after_frame rest o)
after_frame-Shrinks buf rest (ok f) h = h
after_frame-Shrinks buf rest (err e) h = h

pub synced-Shrinks : (buf : List ℕ) → Shrinks buf (synced buf)
unfolding synced
synced-Shrinks buf = elim (Bool-cases (ltb (length buf) 6)) [
  | inl short ↦ rw short (ground (arith, short))
  | inr header ↦ elim (Bool-cases (ltb 1024 (frame_length buf))) [
    | inl implausible ↦ rw (header, implausible) (ground (arith, header, length-drop 2 buf))
    | inr plausible ↦ elim (Bool-cases (ltb (length buf) (6 + frame_length buf + 2))) [
      | inl partial ↦ rw (header, plausible, partial) (ground (arith, plausible, partial))
      | inr whole ↦
          let total = 6 + frame_length buf + 2 in
          rw (header, plausible, whole)
            (after_frame-Shrinks buf (drop total buf) (decode (take total buf))
              (ground (arith, header, length-drop total buf)))
    ]
  ]
]

-- What the loop leaves.
pub record Scans (fuel : ℕ) (buf : List ℕ) : Type 0 where
  pub frames : List Frame
  pub rem : List ℕ
  pub result : scan_loop fuel buf ≡ some (frames, rem)
  pub bounded : length rem < 1032

pub Shrinks-trans : (a b : List ℕ) (r : Round) → length a ≤ length b → Shrinks a r → Shrinks b r
Shrinks-trans a b (stop rest) l h = h
Shrinks-trans a b (again rest) l h = omega arith
Shrinks-trans a b (with_frame f rest) l h = omega arith

scan_step :
    (fuel : ℕ) (buf : List ℕ)
    → ((rest : List ℕ) → length rest < length buf → Scans fuel rest)
    → (r : Round) → synced (find_sync buf) ≡ r
    → Shrinks buf r
    → Scans (suc fuel) buf
unfolding scan_loop
scan_step fuel buf more (stop rest) e h = record {
  frames = [];
  rem = rest;
  result = rw (scan_loop, e) refl;
  bounded = h;
}
scan_step fuel buf more (again rest) e h =
    let s = more rest h in
    record {
      frames = s.frames;
      rem = s.rem;
      result = rw (scan_loop, e) s.result;
      bounded = s.bounded;
    }
scan_step fuel buf more (with_frame f rest) e h =
    let s = more rest h in
    record {
      frames = f ∷ s.frames;
      rem = s.rem;
      result = rw (scan_loop, e, s.result) refl;
      bounded = s.bounded;
    }

scan_loop-Scans : (fuel : ℕ) (buf : List ℕ) → length buf < fuel → Scans fuel buf
scan_loop-Scans zero buf h = absurd (omega arith)
scan_loop-Scans (suc fuel) buf h =
    scan_step fuel buf (λ rest l. scan_loop-Scans fuel rest (omega arith)) (synced (find_sync buf))
      refl
      (Shrinks-trans (find_sync buf) buf (synced (find_sync buf)) (find_sync-length buf)
        (synced-Shrinks (find_sync buf)))

kept : (rem : List ℕ) → ltb 8192 (length rem) ≡ false → hard_resync rem ≡ rem
kept rem h = rw h refl

read_chunk-scan :
    {W : Type 0} ⦃f : Float W⦄ (buf : List ℕ) (q : QErrSource W) (chunk : List ℕ) (fs : List Frame)
    (rem : List ℕ)
    → scan (buf ++ chunk) ≡ some (fs, rem)
    → ltb 8192 (length rem) ≡ false
    → read_chunk buf q chunk ≡ some (rem, handle_frames q fs)
unfolding read_chunk
read_chunk-scan buf q chunk fs rem e small =
    ap (after_scan q) e ∙ ap (λ r. some (r, handle_frames q fs)) (kept rem small)

-- A read always ends, and it leaves fewer bytes in the buffer than the 1032 of the longest frame
-- that is waited for, whatever the stream brings; so the cut at 8192 bytes never happens.
pub read_chunk-bounded :
    {W : Type 0} ⦃f : Float W⦄ (buf : List ℕ) (q : QErrSource W) (chunk : List ℕ)
    → (fs : List Frame) × (rem : List ℕ) × (scan (buf ++ chunk) ≡ some (fs, rem))
      × (read_chunk buf q chunk ≡ some (rem, handle_frames q fs))
      × (length rem < 1032)
unfolding scan
read_chunk-bounded buf q chunk =
    let s = scan_loop-Scans (suc (length (buf ++ chunk))) (buf ++ chunk) (omega arith) in
    let small : ltb 8192 (length s.rem) ≡ false = ground (arith, s.bounded) in
    (
      s.frames,
      s.rem,
      s.result,
      read_chunk-scan buf q chunk s.frames s.rem s.result small,
      s.bounded,
    )
