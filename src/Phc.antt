-- ===== src/Phc.antt =====
-- Package phc (phc/phc.go): what the daemon asks the kernel to do with a PHC. This file
-- has the numbers that go into a step and a clock's id; Extts has the requests and the event queue,
-- with the answers of the kernel as arguments.
pub mod Step
pub mod Extts
use ts2phc_go.Common.{ℕ, ◌+◌, ◌-◌, ◌*◌, ◌%◌, Bool, true, false, ltb, if◌then◌else◌}
use ts2phc_go.Common.Int.{ℤ, pos, negsuc, neg_ℕ, ◌+ℤ◌, ◌-ℤ◌, ◌*ℤ◌, neg_ℤ, ltb_ℤ}
use ts2phc_go.Common.Word.{i64, signed32}
use ts2phc_go.Common.Time.{second, quot_second, rem_second}

-- `unix.Timeval`, of which `Usec` carries nanoseconds under ADJ_NANO.
pub record Timeval : Type 0 where
  pub sec : ℤ
  pub usec : ℤ

-- `setSignedField`, on a field whose least value is -`half`: the value is clamped to the field.
unfoldable pub set_signed_field : ℕ → ℤ → ℤ
set_signed_field half value =
    if ltb_ℤ value (neg_ℕ half)
    then neg_ℕ half
    else if ltb_ℤ (pos (half - 1)) value
    then pos (half - 1)
    else value

-- `sign*x`, in int64.
unfoldable pub signed_by : Bool → ℤ → ℤ
signed_by negative x = i64 ((if negative then negsuc 0 else pos 1) *ℤ x)

-- The kernel wants the second part not to be negative.
unfoldable pub carry : Timeval → Timeval
carry tv =
    if ltb_ℤ tv.usec (pos 0)
    then record { sec = i64 (tv.sec -ℤ pos 1); usec = i64 (tv.usec +ℤ pos second) }
    else tv

-- The `tx.Time` of `StepTime`, on a machine whose fields have the least value -`half`.
unfoldable pub step_timeval : ℕ → ℤ → Timeval
unfolding set_signed_field signed_by carry
step_timeval half offset =
    let negative = ltb_ℤ offset (pos 0) in
    let step = if negative then i64 (neg_ℤ offset) else offset in
    carry (record {
      sec = set_signed_field half (signed_by negative (quot_second step));
      usec = set_signed_field half (signed_by negative (rem_second step));
    })

-- `ClockID` of a file descriptor, `(^fd << 3) | 3` in int32: the complement of `fd` has the pattern
-- 2 ^ 32 - 1 - fd, and the low three bits are free for the sum.
unfoldable pub clock_id : ℕ → ℤ
clock_id fd = signed32 ((4294967295 - fd) * 8 % 4294967296 + 3)
