-- ===== src/Ubxcfg/Configure/Fetch.antt =====
-- The wait for a frame sees the stream, not how the reads cut it.
use mathlib.Core.List.{append_assoc, append-nil}
use mathlib.Core.Path.{subst}
use ts2phc_go.Common.{ℕ, ◌≡◌, refl, ap, ◌∙◌, Option, none, some, List, [], ◌∷◌, ◌++◌, map, arith}
use ts2phc_go.Ubx.Frame.{Frame}
use ts2phc_go.Ubxcfg.{stop, round, parse_frames}
use ts2phc_go.Ubxcfg.Stream.{
  parse_frames_total, parse_frames-append, parse_frames-rem, parse_frames-stop,
}
use ts2phc_go.Ubxcfg.Ack.{Read, got}
use ts2phc_go.Ubxcfg.Wait.{flatten, same_frames}
use ts2phc_go.Ubxcfg.Configure.{Fetched, found, frame_timeout, find_class, read_frame}

-- What the first frame of the wanted class and id gives; without one, it is a timeout.
abbrev pub fetched : Option Frame → Fetched
fetched none = frame_timeout
fetched (some f) = found f

abbrev first_of : Option Frame → Option Frame → Option Frame
first_of none o = o
first_of (some f) o = some f

find_class-append :
    (wanted : ℕ) (fs gs : List Frame)
    → find_class wanted (fs ++ gs) ≡ first_of (find_class wanted fs) (find_class wanted gs)
unfolding find_class
find_class-append wanted [] gs = refl
find_class-append wanted (f ∷ fs) gs = ground (arith, find_class-append wanted fs gs)

read_frame-got :
    (wanted b : ℕ) (bs buf : List ℕ) (reads : List Read) (fs gs : List Frame) (rem : List ℕ)
    → parse_frames (buf ++ b ∷ bs) ≡ some (fs, rem)
    → read_frame wanted rem reads ≡ fetched (find_class wanted gs)
    → read_frame wanted buf (got (b ∷ bs) ∷ reads) ≡ fetched (find_class wanted (fs ++ gs))
unfolding read_frame
read_frame-got wanted b bs buf reads fs gs rem e rest =
    rw (e, read_frame) (ground (arith, find_class-append wanted fs gs))

-- Reads that bring the pieces of a stream in order end in the first frame of the wanted class and
-- id in the whole stream, or in a timeout if there is none.
pub read_frame-stream :
    (wanted : ℕ) (buf : List ℕ) (chunks : List (List ℕ)) {fs : List Frame} {rem : List ℕ}
    → round buf ≡ stop
    → parse_frames (buf ++ flatten chunks) ≡ some (fs, rem)
    → read_frame wanted buf (map got chunks) ≡ fetched (find_class wanted fs)
unfolding read_frame
read_frame-stream wanted buf [] {fs} {rem} h e =
    let quiet : parse_frames (buf ++ []) ≡ some ([], buf) =
      rw (append-nil buf) (parse_frames-stop buf h) in
    rw (← same_frames (parse_frames (buf ++ [])) [] fs buf rem quiet e) (unfold find_class in refl)
read_frame-stream wanted buf ([] ∷ cs) h e = read_frame-stream wanted buf cs h e
read_frame-stream wanted buf ((b ∷ bs) ∷ cs) {fs} {rem} h e =
    let (fs₁, rem₁, e₁) = parse_frames_total (buf ++ b ∷ bs) in
    let (fs₂, rem₂, e₂) = parse_frames_total (rem₁ ++ flatten cs) in
    let whole = parse_frames-append (buf ++ b ∷ bs) (flatten cs) e₁ e₂ in
    let split : parse_frames (buf ++ ((b ∷ bs) ++ flatten cs)) ≡ some (fs₁ ++ fs₂, rem₂) =
      subst (λ l. parse_frames l ≡ some (fs₁ ++ fs₂, rem₂)) (append_assoc buf (b ∷ bs) (flatten cs))
        whole in
    let rest = read_frame-stream wanted rem₁ cs (parse_frames-rem (buf ++ b ∷ bs) e₁) e₂ in
    read_frame-got wanted b bs buf (map got cs) fs₁ fs₂ rem₁ e₁ rest
    ∙ ap (λ gs. fetched (find_class wanted gs))
        (same_frames (parse_frames (buf ++ flatten ((b ∷ bs) ∷ cs))) (fs₁ ++ fs₂) fs rem₂ rem split
          e)
