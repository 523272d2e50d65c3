-- ===== src/Common/Time.antt =====
-- Package time, as far as the code uses it. A Time is its number of nanoseconds since the zero
-- Time (1 January of year 1, UTC), so the zero Time is 0; a Duration is an int64 of nanoseconds.
-- Wall and monotonic readings are not told apart.
use ts2phc_go.Common.{ℕ, suc, ◌+◌, ◌-◌, ◌/◌, ◌%◌, ◌≤◌, ◌≡◌, Bool, arith, ltb, leb, if◌then◌else◌}
use ts2phc_go.Common.Int.{
  ℤ, pos, negsuc, abs_ℕ, neg_ℕ, ◌+ℤ◌, ◌-ℤ◌, ◌*ℤ◌, neg_ℤ, ltb_ℤ, eqb_ℤ, ◌≤ℤ◌, ◌<ℤ◌,
}
use ts2phc_go.Common.Word.{IsI64, i64}

abbrev pub Time : Type 0
Time = ℤ

abbrev pub Duration : Type 0
Duration = ℤ

-- `time.Second` and `time.Millisecond`
abbrev pub second : ℕ
second = 1000000000

abbrev pub millisecond : ℕ
millisecond = 1000000

abbrev pub is_zero : Time → Bool
is_zero t = eqb_ℤ t (pos 0)

-- `time.Unix(sec, nsec)`: the Unix epoch is 62135596800 seconds after the zero Time.
abbrev pub unix_time : ℤ → ℕ → Time
unix_time sec nsec = (sec *ℤ pos second) +ℤ pos nsec +ℤ pos 62135596800000000000

-- `t.Sub(u)`, which saturates.
unfoldable pub sub_time : Time → Time → Duration
sub_time t u =
    let d = t -ℤ u in
    if ltb_ℤ d (negsuc 9223372036854775807)
    then negsuc 9223372036854775807
    else if ltb_ℤ (pos 9223372036854775807) d
    then pos 9223372036854775807
    else d

-- `t.Add(d)`
abbrev pub add_time : Time → Duration → Time
add_time t d = t +ℤ d

-- Arithmetic of durations is that of int64.
abbrev pub add_duration : Duration → Duration → Duration
add_duration d e = i64 (d +ℤ e)

abbrev pub sub_duration : Duration → Duration → Duration
sub_duration d e = i64 (d -ℤ e)

abbrev pub neg_duration : Duration → Duration
neg_duration d = i64 (neg_ℤ d)

-- `d / 2`, which truncates towards zero.
abbrev pub half_duration : Duration → Duration
half_duration (pos n) = pos (n / 2)
half_duration (negsuc n) = neg_ℕ (suc n / 2)

-- `d / Second` and `d % Second`, which truncate towards zero.
abbrev pub quot_second : Duration → ℤ
quot_second (pos n) = pos (n / second)
quot_second (negsuc n) = neg_ℕ (suc n / second)

abbrev pub rem_second : Duration → ℤ
rem_second (pos n) = pos (n % second)
rem_second (negsuc n) = neg_ℕ (suc n % second)

-- `t.Unix()`, rounded down, and `t.Unix()*1e9 + int64(t.Nanosecond())`.
abbrev pub floor_second : Duration → ℤ
floor_second (pos n) = pos (n / second)
floor_second (negsuc n) = negsuc (n / second)

abbrev pub unix_seconds : Time → ℤ
unix_seconds t = floor_second (t -ℤ pos 62135596800000000000)

abbrev pub unix_nanos : Time → ℤ
unix_nanos t = i64 (t -ℤ pos 62135596800000000000)

-- The nearest multiple of a second to a magnitude, half away from zero.
abbrev pub round_magnitude : ℕ → ℕ
round_magnitude n =
    if ltb (n % second + n % second) second then n - n % second else n + second - n % second

-- `d.Round(time.Second)`, which saturates.
unfoldable pub round_second : Duration → Duration
round_second (pos n) =
    if leb (round_magnitude n) 9223372036854775807
    then pos (round_magnitude n)
    else pos 9223372036854775807
round_second (negsuc n) =
    if leb (round_magnitude (suc n)) 9223372036854775808
    then neg_ℕ (round_magnitude (suc n))
    else negsuc 9223372036854775807

-- `t.Round(time.Second)`: the nearest second since the zero Time, half up.
unfoldable pub round_time : Time → Time
round_time (pos n) = pos (round_magnitude n)
round_time (negsuc n) =
    let r = second - 1 - n % second in
    if ltb (r + r) second then negsuc (n + r) else neg_ℕ (n - n % second)

pub sub_time-IsI64 : (t u : Time) → IsI64 (sub_time t u)
unfolding sub_time
sub_time-IsI64 t u = ground arith

-- In the range of an int64 the difference is exact.
pub sub_time_exact : (t u : Time) → IsI64 (t -ℤ u) → sub_time t u ≡ t -ℤ u
unfolding sub_time
sub_time_exact t u h = ground arith

-- A saturated difference still bounds the true one from below.
pub le-sub_time : (t u : Time) (d : ℕ) → pos d ≤ℤ sub_time t u → u +ℤ pos d ≤ℤ t
unfolding sub_time ◌-ℤ◌ ◌+ℤ◌
le-sub_time t u d h = ground arith

pub lt-sub_time : (t u : Time) (d : ℕ) → pos d <ℤ sub_time t u → u +ℤ pos d <ℤ t
unfolding sub_time ◌-ℤ◌ ◌+ℤ◌
lt-sub_time t u d h = ground arith

-- Rounding to seconds: a whole number of seconds, at most half a second away.
pub round_second_lem :
    (d : Duration)
    → (abs_ℕ d + second ≤ 9223372036854775807)
    → (abs_ℕ (round_second d) % second ≡ 0)
      × (abs_ℕ (d -ℤ round_second d) + abs_ℕ (d -ℤ round_second d) ≤ second)
unfolding round_second ◌-ℤ◌
round_second_lem (pos n) h = ground arith
round_second_lem (negsuc n) h = ground arith

pub round_second-IsI64 : (d : Duration) → IsI64 (round_second d)
unfolding round_second
round_second-IsI64 (pos n) = ground arith
round_second-IsI64 (negsuc n) = ground arith

-- The rounding error is at most half a second, also where the rounding saturates.
pub sub-round_second :
    (d : Duration) → IsI64 d → abs_ℕ (d -ℤ round_second d) + abs_ℕ (d -ℤ round_second d) ≤ second
unfolding round_second ◌-ℤ◌
sub-round_second (pos n) h = ground arith
sub-round_second (negsuc n) h = ground arith
