-- ===== src/Pps/Sink/Train.antt =====
-- What the edge filter makes of a train of pulses.
use ts2phc_go.Common.{ℕ, ◌+◌, ◌/◌, ◌≤◌, ◌<◌, ◌≡◌, ◌∙◌, true, false, List, [], ◌∷◌, arith}
use ts2phc_go.Common.Int.{pos, ◌+ℤ◌, ◌-ℤ◌, ◌≤ℤ◌, ltb_ℤ, pos_part, nonneg_part, int_laws}
use ts2phc_go.Common.Word.{i64}
use ts2phc_go.Common.Time.{
  Time, second, sub_time, sub_time_exact, half_duration, add_duration, sub_duration,
}
use ts2phc_go.Pps.Sink.{is_off, Sink, locked, process_double, process_time}

-- A pulse: its rising edge and its width in nanoseconds.
pub record Pulse : Type 0 where
  pub rise : Time
  pub width : ℕ

abbrev pub fall : Pulse → Time
fall p = p.rise +ℤ pos p.width

abbrev pub edges : List Pulse → List Time
edges [] = []
edges (p ∷ ps) = p.rise ∷ fall p ∷ edges ps

-- Each width lies between `lo` and `hi`, and each pulse rises a second after the one before it,
-- give or take `jitter`.
abbrev pub IsTrain : ℕ → ℕ → ℕ → Pulse → List Pulse → Type 0
IsTrain lo hi jitter p [] = Unit {0}
IsTrain lo hi jitter p (q ∷ ps) =
    (lo ≤ q.width)
    × (q.width ≤ hi)
    × (p.rise +ℤ pos second ≤ℤ q.rise +ℤ pos jitter)
    × (q.rise ≤ℤ p.rise +ℤ pos second +ℤ pos jitter)
    × IsTrain lo hi jitter q ps

-- The pulses are shorter than half a second, and what varies stays below the filter's margin.
pub record IsRegular (lo hi jitter : ℕ) : Type 0 where
  pub ordered : lo ≤ hi
  pub short : hi + jitter < 500000000
  pub steady : hi + jitter ≤ lo + 100000000

-- The filter is locked, behind the falling edge of `p`.
pub record IsLockedOn (lo hi : ℕ) (p : Pulse) (s : Sink) : Type 0 where
  pub width : ℕ
  pub mode : s.single_edge ≡ false
  pub state : s.state ≡ locked
  pub period : s.pulse_period ≡ pos second
  pub pulse_width : s.pulse_width ≡ pos width
  pub low : lo ≤ width
  pub high : width ≤ hi
  pub behind : s.last_event ≡ fall p

pub long_gap :
    (p q : Pulse) (lo hi jitter : ℕ)
    → IsRegular lo hi jitter
    → p.width ≤ hi
    → p.rise +ℤ pos second ≤ℤ q.rise +ℤ pos jitter
    → q.rise ≤ℤ p.rise +ℤ pos second +ℤ pos jitter
    → (d : ℕ) × (sub_time q.rise (fall p) ≡ pos d)
      × (d + p.width ≤ second + jitter)
      × (second ≤ d + p.width + jitter)
long_gap p q lo hi jitter r h a b =
    let diff = q.rise -ℤ fall p in
    let (e, z) = nonneg_part diff (omega int_laws) in
    (
      pos_part diff,
      sub_time_exact q.rise (fall p) (omega int_laws) ∙ e,
      omega int_laws,
      omega int_laws,
    )

pub short_gap : (p : Pulse) → p.width < 500000000 → sub_time (fall p) p.rise ≡ pos p.width
short_gap p h = sub_time_exact (fall p) p.rise (omega int_laws) ∙ omega int_laws

-- The tests of the locked filter on a long gap, over the numbers.
long_gap_accepted :
    (lo hi jitter d w actual : ℕ)
    → IsRegular lo hi jitter
    → lo ≤ w
    → w ≤ hi
    → lo ≤ actual
    → actual ≤ hi
    → d + actual ≤ second + jitter
    → second ≤ d + actual + jitter
    → (ltb_ℤ (pos d) (half_duration (pos second)) ≡ false)
      × (is_off (sub_duration (pos d) (sub_duration (pos second) (pos w))) ≡ false)
unfolding i64 ◌-ℤ◌
long_gap_accepted lo hi jitter d w actual r a b c e g k = ground arith

sum_exact :
    (w v : ℕ)
    → w < 500000000
    → v < 500000000
    → half_duration (add_duration (pos w) (pos v)) ≡ pos ((w + v) / 2)
unfolding i64 ◌+ℤ◌
sum_exact w v h k = ground arith

pub rise_step :
    (lo hi jitter : ℕ) (p q : Pulse) (s : Sink)
    → IsRegular lo hi jitter
    → IsLockedOn lo hi p s
    → lo ≤ p.width
    → p.width ≤ hi
    → p.rise +ℤ pos second ≤ℤ q.rise +ℤ pos jitter
    → q.rise ≤ℤ p.rise +ℤ pos second +ℤ pos jitter
    → process_time s q.rise false ≡ (record s { last_event = q.rise }, true)
unfolding process_time process_double
rise_step lo hi jitter p q s r l a b c d =
    let gap = long_gap p q lo hi jitter r b c d in
    let tests =
      long_gap_accepted lo hi jitter gap.0 l.width p.width r l.low l.high a b gap.2 gap.3 in
    ground (arith, gap.1, tests)

pub fall_step :
    (q : Pulse) (s : Sink) (w : ℕ)
    → s.single_edge ≡ false
    → s.state ≡ locked
    → s.pulse_period ≡ pos second
    → s.pulse_width ≡ pos w
    → s.last_event ≡ q.rise
    → w < 500000000
    → q.width < 500000000
    → process_time s (fall q) false
      ≡ (record s { last_event = fall q; pulse_width = pos ((w + q.width) / 2) }, false)
unfolding process_time process_double
fall_step q s w m st pe pw la hw hq = ground (arith, short_gap q hq, sum_exact w q.width hw hq)
