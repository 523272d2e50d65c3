-- ===== src/Phc/Extts/Event.antt =====
-- Events as the kernel writes them, and the queue that is drained.
use ts2phc_go.Common.{
  ℕ, suc, ◌+◌, ◌*◌, ◌/◌, ◌%◌, ◌<◌, ◌≡◌, ◌≢◌, ◌⊎◌, inl, inr, refl, ap, ◌∙◌, Bool, true, false,
  Option, none, some, List, [], ◌∷◌, ◌++◌, length, All, ◌==◌, arith,
}
use ts2phc_go.Common.Int.{ℤ}
use ts2phc_go.Common.Word.{IsI64, word64, signed64}
use ts2phc_go.Ubx.Bytes.{put_uint32}
use ts2phc_go.Pps.Sink.{ExttsEvent}
use ts2phc_go.Phc.Extts.{
  event_size, Reading, event_read, read_failed, short_read, read_extts_event, PollAnswer,
  interrupted, poll_failed, readable, quiet, Drained, drained, drain_round, drain_extts,
}

-- The fields of an event fit the kernel's structure.
pub record IsEvent (e : ExttsEvent) : Type 0 where
  pub sec : IsI64 e.sec
  pub nsec : e.nsec < 4294967296
  pub index : e.index < 4294967296
  pub flags : e.flags < 4294967296

-- `struct ptp_extts_event`: the time, a padding word, the channel, the flags and two reserved words.
abbrev pub event_bytes : ExttsEvent → ℕ → ℕ → ℕ → List ℕ
event_bytes e pad rsv rsv' = put_uint32 (word64 e.sec) (
    put_uint32 (word64 e.sec / 4294967296) (
      put_uint32 e.nsec (
        put_uint32 pad
          (put_uint32 e.index (put_uint32 e.flags (put_uint32 rsv (put_uint32 rsv' [])))))))

-- What `uint32_at` reads of a number that `put_uint32` has written.
abbrev word_read : ℕ → ℕ
word_read n =
    n % 256 + 256 * (n / 256 % 256) + 65536 * (n / 65536 % 256) + 16777216 * (n / 16777216 % 256)

word_read_lem : (n : ℕ) → word_read n ≡ n % 4294967296
word_read_lem n = omega arith

small_word : (n : ℕ) → n < 4294967296 → word_read n ≡ n
small_word n h = omega arith

two_words :
    (w : ℕ) → w < 18446744073709551616 → word_read w + 4294967296 * word_read (w / 4294967296) ≡ w
two_words w h = rw (word_read_lem w, word_read_lem (w / 4294967296)) (omega arith)

signed64-word64 : (z : ℤ) → IsI64 z → signed64 (word64 z) ≡ z
signed64-word64 z h = ground arith

int64_put :
    (z : ℤ)
    → IsI64 z
    → signed64 (word_read (word64 z) + 4294967296 * word_read (word64 z / 4294967296)) ≡ z
int64_put z h = ap signed64 (two_words (word64 z) (omega arith)) ∙ signed64-word64 z h

-- An event that the kernel writes is read, whatever its padding and its reserved words hold.
pub read_extts_event-bytes :
    (e : ExttsEvent) (pad rsv rsv' : ℕ)
    → IsEvent e
    → read_extts_event (some (event_bytes e pad rsv rsv')) ≡ event_read e
unfolding read_extts_event
read_extts_event-bytes e pad rsv rsv' h =
    rw
      (
        int64_put e.sec h.sec,
        small_word e.nsec h.nsec,
        small_word e.index h.index,
        small_word e.flags h.flags,
      )
      refl

-- A round that `DrainExtts` goes on from: an interrupted poll, or an event of the whole size.
abbrev pub is_passed : PollAnswer → Bool
is_passed interrupted = true
is_passed (readable (some b)) = length b == event_size
is_passed _ = false

abbrev pub events_in : List PollAnswer → ℕ
events_in [] = 0
events_in (readable b ∷ answers) = suc (events_in answers)
events_in (a ∷ answers) = events_in answers

-- The answers up to the poll that finds no event.
pub record IsEmptied (answers : List PollAnswer) (n : ℕ) : Type 0 where
  pub front : List PollAnswer
  pub rest : List PollAnswer
  pub parts : answers ≡ front ++ (quiet ∷ rest)
  pub passed : All (λ a. is_passed a ≡ true) front
  pub count : n ≡ events_in front

IsEmptied-event :
    (b : Option (List ℕ)) (answers : List PollAnswer) (n : ℕ)
    → is_passed (readable b) ≡ true
    → IsEmptied answers n
    → IsEmptied (readable b ∷ answers) (suc n)
IsEmptied-event b answers n p h = record {
  front = readable b ∷ h.front;
  rest = h.rest;
  parts = ap (λ l. readable b ∷ l) h.parts;
  passed = (p, h.passed);
  count = ap suc h.count;
}

IsEmptied-interrupted :
    (answers : List PollAnswer) (n : ℕ) → IsEmptied answers n → IsEmptied (interrupted ∷ answers) n
IsEmptied-interrupted answers n h = record {
  front = interrupted ∷ h.front;
  rest = h.rest;
  parts = ap (λ l. interrupted ∷ l) h.parts;
  passed = (refl, h.passed);
  count = h.count;
}

read_extts_event-size :
    (b : Option (List ℕ)) (e : ExttsEvent)
    → read_extts_event b ≡ event_read e
    → is_passed (readable b) ≡ true
unfolding read_extts_event
read_extts_event-size none e h = absurd (ground (arith, h))
read_extts_event-size (some b) e h = ground (arith, h)

reading-cases :
    (r : Reading)
    → ((e : ExttsEvent) × (r ≡ event_read e))
      ⊎ ((rest : Drained × ℕ) → (drain_round r rest).0 ≢ drained)
reading-cases (event_read e) = inl (e, refl)
reading-cases read_failed = inr (λ rest h. ground (arith, h))
reading-cases (short_read n) = inr (λ rest h. ground (arith, h))

-- The queue is drained only where a poll has found it empty, and up to there every poll was
-- interrupted or brought a whole event that was then discarded and counted: no failed or short read
-- is passed over.
pub drain_extts-IsEmptied :
    (answers : List PollAnswer)
    → (drain_extts answers).0 ≡ drained
    → IsEmptied answers (drain_extts answers).1
unfolding drain_extts
drain_extts-IsEmptied [] h = absurd (ground (arith, h))
drain_extts-IsEmptied (interrupted ∷ answers) h =
    IsEmptied-interrupted answers (drain_extts answers).1 (drain_extts-IsEmptied answers h)
drain_extts-IsEmptied (poll_failed ∷ answers) h = absurd (ground (arith, h))
drain_extts-IsEmptied (quiet ∷ answers) h = record {
  front = [];
  rest = answers;
  parts = refl;
  passed = tt;
  count = refl;
}
drain_extts-IsEmptied (readable b ∷ answers) h = elim (reading-cases (read_extts_event b)) [
  | inl (e, r) ↦ rw r (
      IsEmptied-event b answers (drain_extts answers).1 (read_extts_event-size b e r)
        (drain_extts-IsEmptied answers (rw r at h)))
  | inr bad ↦ absurd (bad (drain_extts answers) h)
]
