-- ===== src/Ubxcfg/Noise.antt =====
-- A frame in a stream of other bytes, such as NMEA sentences: what `parseFrames` of
-- cmd/ubxcfg/main.go finds in it.
use mathlib.Core.List.{append-nil}
use ts2phc_go.Common.{
  ℕ, suc, ◌≤◌, ◌<◌, ◌≡◌, refl, false, List, [], ◌∷◌, ◌++◌, length, length-append, drop, take-append,
  drop-append, some, Bool-cases, inl, inr, ltb, ◌==◌, All, arith,
}
use ts2phc_go.Ubx.Frame.{Frame, sync_a, encode, decode, ok}
use ts2phc_go.Ubx.Frame.Codec.{decode-encode, length-encode, length_bytes}
use ts2phc_go.Ubxcfg.{stop, skip, take_frame, out_of_sync, round, total_length, parse_frames}
use ts2phc_go.Ubxcfg.Stream.{Parses, stopped, skipped, taken, parse_loop-Parses}

-- No byte of a frame's start.
abbrev pub IsNoise : ℕ → Type 0
IsNoise b = (b == sync_a) ≡ false

round_noise : (b : ℕ) (rest : List ℕ) → IsNoise b → 8 ≤ length (b ∷ rest) → round (b ∷ rest) ≡ skip
unfolding round
round_noise b rest h l = ground (arith, h)

round_short : (rest : List ℕ) → length rest < 8 → round rest ≡ stop
unfolding round
round_short rest h = ground arith

-- Noise in front of a stream of eight bytes or more is passed over.
Parses-noise :
    (noise rest : List ℕ) {fs : List Frame} {rem : List ℕ}
    → All IsNoise noise
    → 8 ≤ length rest
    → Parses rest fs rem
    → Parses (noise ++ rest) fs rem
Parses-noise [] rest h l p = p
Parses-noise (b ∷ noise) rest h l p =
    skipped (b ∷ (noise ++ rest))
      (round_noise b (noise ++ rest) h.0 (omega (arith, length-append noise rest)))
      (Parses-noise noise rest h.1 l p)

-- In noise alone there is no frame.
Parses-only_noise : (noise : List ℕ) → All IsNoise noise → (rem : List ℕ) × Parses noise [] rem
Parses-only_noise [] h = ([], stopped [] (round_short [] (omega arith)))
Parses-only_noise (b ∷ noise) h = elim (Bool-cases (ltb (length (b ∷ noise)) 8)) [
  | inl short ↦ (b ∷ noise, stopped (b ∷ noise) (round_short (b ∷ noise) (ground (arith, short))))
  | inr long ↦
      let (rem, p) = Parses-only_noise noise h.1 in
      (rem, skipped (b ∷ noise) (round_noise b noise h.0 (ground (arith, long))) p)
]

total_length-encode :
    (class id : ℕ) (payload rest : List ℕ)
    → length payload < 65536
    → total_length (encode class id payload ++ rest) ≡ length (encode class id payload)
total_length-encode class id payload rest h =
    let size = length-encode class id payload in
    rw size (unfold encode in omega (arith, length_bytes payload h))

round-encode :
    (class id : ℕ) (payload rest : List ℕ)
    → length payload < 65536
    → round (encode class id payload ++ rest)
      ≡ take_frame (record { class = class; id = id; payload = payload })
unfolding round
round-encode class id payload rest h =
    let raw = encode class id payload in
    let back : decode raw ≡ ok (record { class = class; id = id; payload = payload }) =
      rw append-nil at (decode-encode class id payload [] h) in
    let sync : out_of_sync (raw ++ rest) ≡ false = unfold encode in refl in
    ground (
      arith,
      back,
      take-append raw rest,
      sync,
      total_length-encode class id payload rest h,
      length-encode class id payload,
      length-append raw rest,
    )

-- The scanner finds a frame between noise, and no other.
pub parse_frames-noise :
    (class id : ℕ) (payload before after : List ℕ)
    → length payload < 65536
    → All IsNoise before
    → All IsNoise after
    → (rem : List ℕ) × (parse_frames (before ++ (encode class id payload ++ after))
        ≡ some (record { class = class; id = id; payload = payload } ∷ [], rem))
unfolding parse_frames
parse_frames-noise class id payload before after h b a =
    let f : Frame = record { class = class; id = id; payload = payload } in
    let raw = encode class id payload in
    let whole = before ++ (raw ++ after) in
    let (rem, p) = Parses-only_noise after a in
    let behind : drop (total_length (raw ++ after)) (raw ++ after) ≡ after =
      rw (total_length-encode class id payload after h) (drop-append raw after) in
    let q : Parses (raw ++ after) (f ∷ []) rem =
      taken (raw ++ after) f (round-encode class id payload after h) (rw behind p) in
    let long : 8 ≤ length (raw ++ after) =
      omega (arith, length-append raw after, length-encode class id payload) in
    (
      rem,
      parse_loop-Parses (suc (length whole)) (Parses-noise before (raw ++ after) b long q)
          (omega arith),
    )
