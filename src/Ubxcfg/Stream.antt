-- ===== src/Ubxcfg/Stream.antt =====
-- The frame scanner of ubxcfg over a stream that arrives in pieces.
use mathlib.Core.Option
use mathlib.Core.Path.{subst₂}
use ts2phc_go.Common.{
  ℕ, zero, suc, ◌≤◌, ◌<◌, ◌≡◌, refl, sym, ap, ◌∙◌, ◌⊎◌, inl, inr, Option, some, List, [], ◌∷◌, ◌++◌,
  length, drop, get_or-append, take-append_le, drop-append_le, length-append, length-drop, arith,
}
use ts2phc_go.Ubx.Frame.{Frame}
use ts2phc_go.Ubxcfg.{
  Round, stop, skip, take_frame, round, total_length, cons_frame, parse_loop, parse_frames,
}

-- A round that does not stop sees at least eight bytes.
round-length : (rest : List ℕ) → (round rest ≡ stop) ⊎ (8 ≤ length rest)
unfolding round
round-length rest = ground arith

round-frame_length :
    (rest : List ℕ) (f : Frame) → round rest ≡ take_frame f → total_length rest ≤ length rest
unfolding round
round-frame_length rest f h = ground arith

-- What a round has seen decides it: more bytes behind do not change a round that does not stop.
module _ (xs ys : List ℕ) where
  total_length-append : 8 ≤ length xs → total_length (xs ++ ys) ≡ total_length xs
  total_length-append h = ground (arith, get_or-append xs ys 4 0, get_or-append xs ys 5 0)

  round-append : 8 ≤ length xs → (round xs ≡ stop) ⊎ (round (xs ++ ys) ≡ round xs)
  unfolding round
  round-append h = ground (
    arith,
    get_or-append xs ys 0 0,
    get_or-append xs ys 1 0,
    total_length-append h,
    length-append xs ys,
    take-append_le (total_length xs) xs ys,
  )

-- The scanner as a relation: the frames that are found in a buffer, and what is left of it.
pub data Parses : List ℕ → List Frame → List ℕ → Type 0 where
  stopped : (rest : List ℕ) → round rest ≡ stop → Parses rest [] rest
  skipped :
      (rest : List ℕ) {fs : List Frame} {rem : List ℕ}
      → round rest ≡ skip
      → Parses (drop 1 rest) fs rem
      → Parses rest fs rem
  taken :
      (rest : List ℕ) (f : Frame) {fs : List Frame} {rem : List ℕ}
      → round rest ≡ take_frame f
      → Parses (drop (total_length rest) rest) fs rem
      → Parses rest (f ∷ fs) rem

-- The loop computes the relation, on fuel above the length of the buffer.
pub parse_loop-Parses :
    (fuel : ℕ) {rest : List ℕ} {fs : List Frame} {rem : List ℕ}
    → Parses rest fs rem
    → length rest < fuel
    → parse_loop fuel rest ≡ some (fs, rem)
unfolding parse_loop
parse_loop-Parses zero p h = absurd (omega arith)
parse_loop-Parses (suc fuel) (stopped rest e) h = rw (e, parse_loop)
parse_loop-Parses (suc fuel) (skipped rest {fs} {rem} e p) h =
    rw (e, parse_loop)
      (parse_loop-Parses fuel p (ground (arith, round-length rest, length-drop 1 rest)))
parse_loop-Parses (suc fuel) (taken rest f {fs} {rem} e p) h =
    rw (e, parse_loop)
      (ap (Option.map (cons_frame f)) (
        parse_loop-Parses fuel p
          (ground (arith, round-length rest, length-drop (total_length rest) rest))))

skip_append :
    (rest ys : List ℕ)
    → round rest ≡ skip
    → (round (rest ++ ys) ≡ skip) × (drop 1 (rest ++ ys) ≡ drop 1 rest ++ ys)
skip_append rest ys e =
    ground (arith, round-length rest, round-append rest ys, drop-append_le 1 rest ys)

take_append :
    (rest ys : List ℕ) (f : Frame)
    → round rest ≡ take_frame f
    → (round (rest ++ ys) ≡ take_frame f)
      × (drop (total_length (rest ++ ys)) (rest ++ ys) ≡ drop (total_length rest) rest ++ ys)
take_append rest ys f e = ground (
  arith,
  round-length rest,
  round-frame_length rest f e,
  round-append rest ys,
  total_length-append rest ys,
  drop-append_le (total_length rest) rest ys,
)

-- A buffer read in two pieces, the second one put behind what the first one left, gives the
-- frames of the whole.
Parses-append :
    {xs : List ℕ} (ys : List ℕ) {fs gs : List Frame} {rem rem' : List ℕ}
    → Parses xs fs rem
    → Parses (rem ++ ys) gs rem'
    → Parses (xs ++ ys) (fs ++ gs) rem'
Parses-append ys (stopped rest e) q = q
Parses-append ys (skipped rest e p) q =
    let moving = skip_append rest ys e in
    skipped (rest ++ ys) moving.0 (rw moving.1 (Parses-append ys p q))
Parses-append ys (taken rest f e p) q =
    let moving = take_append rest ys f e in
    taken (rest ++ ys) f moving.0 (rw moving.1 (Parses-append ys p q))

-- Every buffer is parsed.
Round-cases : (r : Round) → (r ≡ stop) ⊎ (r ≡ skip) ⊎ ((f : Frame) × (r ≡ take_frame f))
Round-cases stop = ground arith
Round-cases skip = ground arith
Round-cases (take_frame f) = inr (inr (f, refl))

Parses-total :
    (fuel : ℕ) (rest : List ℕ)
    → length rest < fuel
    → (fs : List Frame) × (rem : List ℕ) × Parses rest fs rem
Parses-total zero rest h = absurd (omega arith)
Parses-total (suc fuel) rest h = elim (Round-cases (round rest)) [
  | inl e ↦ ([], rest, stopped rest e)
  | inr (inl e) ↦
      let (fs, rem, p) =
        Parses-total fuel (drop 1 rest) (ground (arith, round-length rest, length-drop 1 rest)) in
      (fs, rem, skipped rest e p)
  | inr (inr (f, e)) ↦
      let (fs, rem, p) =
        Parses-total fuel (drop (total_length rest) rest)
          (ground (arith, round-length rest, length-drop (total_length rest) rest)) in
      (f ∷ fs, rem, taken rest f e p)
]

-- The scanner always ends: as many rounds as the buffer has bytes are enough.
pub parse_frames_total :
    (buf : List ℕ) → (fs : List Frame) × (rem : List ℕ) × (parse_frames buf ≡ some (fs, rem))
unfolding parse_frames
parse_frames_total buf =
    let (fs, rem, p) = Parses-total (suc (length buf)) buf (omega arith) in
    (fs, rem, parse_loop-Parses (suc (length buf)) p (omega arith))

same_result :
    (buf : List ℕ) (o : Option (List Frame × List ℕ)) (fs gs : List Frame) (rem rem' : List ℕ)
    → o ≡ some (fs, rem)
    → o ≡ some (gs, rem')
    → Parses buf fs rem
    → Parses buf gs rem'
same_result buf o fs gs rem rem' a b p =
    let e : some (fs, rem) ≡ some (gs, rem') = sym a ∙ b in
    let e₁ : fs ≡ gs = cc e in let e₂ : rem ≡ rem' = cc e in subst₂ (λ l r. Parses buf l r) e₁ e₂ p

-- What the scanner returns is what the relation finds.
pub parse_frames-Parses :
    (buf : List ℕ) (fs : List Frame) (rem : List ℕ)
    → parse_frames buf ≡ some (fs, rem)
    → Parses buf fs rem
unfolding parse_frames
parse_frames-Parses buf fs rem e =
    let (fs', rem', p) = Parses-total (suc (length buf)) buf (omega arith) in
    same_result buf (parse_frames buf) fs' fs rem' rem
      (parse_loop-Parses (suc (length buf)) p (omega arith)) e p

-- What is left over is a buffer on which the scanner waits for more.
remainder_stops :
    {buf : List ℕ} {fs : List Frame} {rem : List ℕ} → Parses buf fs rem → round rem ≡ stop
remainder_stops (stopped rest e) = e
remainder_stops (skipped rest e p) = remainder_stops p
remainder_stops (taken rest f e p) = remainder_stops p

pub parse_frames-rem :
    (buf : List ℕ) {fs : List Frame} {rem : List ℕ}
    → parse_frames buf ≡ some (fs, rem)
    → round rem ≡ stop
parse_frames-rem buf {fs} {rem} e = remainder_stops (parse_frames-Parses buf fs rem e)

pub parse_frames-stop : (buf : List ℕ) → round buf ≡ stop → parse_frames buf ≡ some ([], buf)
unfolding parse_frames
parse_frames-stop buf e = parse_loop-Parses (suc (length buf)) (stopped buf e) (omega arith)

-- How the reads cut the stream does not matter: the frames found in a first piece, and then in its
-- remainder with a second piece behind it, are those found in the two pieces at once, and so is
-- what is left over.
pub parse_frames-append :
    (xs ys : List ℕ) {fs gs : List Frame} {rem rem' : List ℕ}
    → parse_frames xs ≡ some (fs, rem)
    → parse_frames (rem ++ ys) ≡ some (gs, rem')
    → parse_frames (xs ++ ys) ≡ some (fs ++ gs, rem')
unfolding parse_frames
parse_frames-append xs ys {fs} {gs} {rem} {rem'} a b =
    let p = parse_frames-Parses xs fs rem a in
    let q = parse_frames-Parses (rem ++ ys) gs rem' b in
    parse_loop-Parses (suc (length (xs ++ ys))) (Parses-append ys p q) (omega arith)
