-- ===== src/Ubxcfg/Wait.antt =====
-- The wait for an acknowledgement sees the stream, not how the reads cut it.
use mathlib.Core.List.{append_assoc, append-nil}
use mathlib.Core.Path.{subst}
use ts2phc_go.Common.{
  ℕ, ◌≡◌, refl, sym, ap, ◌∙◌, Option, none, some, List, [], ◌∷◌, ◌++◌, map, arith,
}
use ts2phc_go.Ubx.Frame.{Frame}
use ts2phc_go.Ubxcfg.{stop, round, parse_frames}
use ts2phc_go.Ubxcfg.Stream.{
  parse_frames_total, parse_frames-append, parse_frames-rem, parse_frames-stop,
}
use ts2phc_go.Ubxcfg.Ack.{Outcome, timed_out, Read, got, judge_frames, await_ack}

abbrev pub flatten : List (List ℕ) → List ℕ
flatten [] = []
flatten (c ∷ cs) = c ++ flatten cs

-- What the first frame that speaks says; silence is a timeout.
abbrev pub verdict : Option Outcome → Outcome
verdict none = timed_out
verdict (some o) = o

abbrev pub or_else : Option Outcome → Option Outcome → Option Outcome
or_else none o = o
or_else (some p) o = some p

judge_frames-append :
    (cls id : ℕ) (fs gs : List Frame)
    → judge_frames cls id (fs ++ gs) ≡ or_else (judge_frames cls id fs) (judge_frames cls id gs)
unfolding judge_frames
judge_frames-append cls id [] gs = refl
judge_frames-append cls id (f ∷ fs) gs = ground (arith, judge_frames-append cls id fs gs)

pub same_frames :
    (o : Option (List Frame × List ℕ)) (fs gs : List Frame) (rem rem' : List ℕ)
    → o ≡ some (fs, rem)
    → o ≡ some (gs, rem')
    → fs ≡ gs
same_frames o fs gs rem rem' a b = let e : some (fs, rem) ≡ some (gs, rem') = sym a ∙ b in cc e

-- One read: its frames are judged first, then those of the reads behind it.
await_ack-got :
    (cls id b : ℕ) (bs buf : List ℕ) (reads : List Read) (fs gs : List Frame) (rem : List ℕ)
    → parse_frames (buf ++ b ∷ bs) ≡ some (fs, rem)
    → await_ack cls id rem reads ≡ verdict (judge_frames cls id gs)
    → await_ack cls id buf (got (b ∷ bs) ∷ reads) ≡ verdict (judge_frames cls id (fs ++ gs))
unfolding await_ack
await_ack-got cls id b bs buf reads fs gs rem e rest =
    rw (e, await_ack) (ground (arith, judge_frames-append cls id fs gs))

-- Reads that bring the pieces of a stream in order end the wait as the frames of the whole stream
-- say: with the first matching acknowledgement or refusal, or with a timeout if there is none.
pub await_ack-stream :
    (cls id : ℕ) (buf : List ℕ) (chunks : List (List ℕ)) {fs : List Frame} {rem : List ℕ}
    → round buf ≡ stop
    → parse_frames (buf ++ flatten chunks) ≡ some (fs, rem)
    → await_ack cls id buf (map got chunks) ≡ verdict (judge_frames cls id fs)
unfolding await_ack
await_ack-stream cls id buf [] {fs} {rem} h e =
    let quiet : parse_frames (buf ++ []) ≡ some ([], buf) =
      rw (append-nil buf) (parse_frames-stop buf h) in
    ap (λ gs. verdict (judge_frames cls id gs))
      (same_frames (parse_frames (buf ++ [])) [] fs buf rem quiet e)
await_ack-stream cls id buf ([] ∷ cs) h e = await_ack-stream cls id buf cs h e
await_ack-stream cls id buf ((b ∷ bs) ∷ cs) {fs} {rem} h e =
    let (fs₁, rem₁, e₁) = parse_frames_total (buf ++ b ∷ bs) in
    let (fs₂, rem₂, e₂) = parse_frames_total (rem₁ ++ flatten cs) in
    let whole = parse_frames-append (buf ++ b ∷ bs) (flatten cs) e₁ e₂ in
    let split : parse_frames (buf ++ ((b ∷ bs) ++ flatten cs)) ≡ some (fs₁ ++ fs₂, rem₂) =
      subst (λ l. parse_frames l ≡ some (fs₁ ++ fs₂, rem₂)) (append_assoc buf (b ∷ bs) (flatten cs))
        whole in
    let rest = await_ack-stream cls id rem₁ cs (parse_frames-rem (buf ++ b ∷ bs) e₁) e₂ in
    await_ack-got cls id b bs buf (map got cs) fs₁ fs₂ rem₁ e₁ rest
    ∙ ap (λ gs. verdict (judge_frames cls id gs))
        (same_frames (parse_frames (buf ++ flatten ((b ∷ bs) ∷ cs))) (fs₁ ++ fs₂) fs rem₂ rem split
          e)
