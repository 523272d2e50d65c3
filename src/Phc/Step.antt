-- ===== src/Phc/Step.antt =====
-- The two parts of a clock step.
use ts2phc_go.Common.{ℕ, suc, ◌<◌, ◌*◌, ◌+◌, ◌/◌, ◌%◌, ◌≡◌, ◌≤◌, true, false, arith}
use ts2phc_go.Common.Int.{ℤ, pos, negsuc, neg_ℕ, ◌+ℤ◌, ◌-ℤ◌, ◌*ℤ◌, neg_ℤ, ◌≤ℤ◌, ◌<ℤ◌}
use ts2phc_go.Common.Word.{two63, IsI64, i64}
use ts2phc_go.Common.Time.{second}
use ts2phc_go.Phc.{clock_id, Timeval, set_signed_field, step_timeval, signed_by, carry}

set_signed_field_in_range : (z : ℤ) → IsI64 z → set_signed_field two63 z ≡ z
unfolding set_signed_field
set_signed_field_in_range z h = ground arith

signed_by-true : (n : ℕ) → n ≤ 9223372036854775807 → signed_by true (pos n) ≡ neg_ℕ n
unfolding signed_by i64 ◌*ℤ◌
signed_by-true n h = ground arith

signed_by-false : (n : ℕ) → n ≤ 9223372036854775807 → signed_by false (pos n) ≡ pos n
unfolding signed_by i64 ◌*ℤ◌
signed_by-false n h = ground arith

negate_negative : (n : ℕ) → n ≤ 9223372036854775806 → i64 (neg_ℤ (negsuc n)) ≡ pos (suc n)
unfolding i64 neg_ℤ
negate_negative n h = ground arith

IsSplit : ℤ → Timeval → Type 0
IsSplit offset tv =
    (tv.sec *ℤ pos second +ℤ tv.usec ≡ offset) × (pos 0 ≤ℤ tv.usec) × (tv.usec <ℤ pos second)

IsSplit-forward :
    (n : ℕ) → IsSplit (pos n) (record { sec = pos (n / second); usec = pos (n % second) })
unfolding IsSplit ◌*ℤ◌ ◌+ℤ◌
IsSplit-forward n = ground arith

IsSplit-backward :
    (n : ℕ)
    → n ≤ 9223372036854775806
    → IsSplit
        (negsuc n)
        (carry (record { sec = neg_ℕ (suc n / second); usec = neg_ℕ (suc n % second) }))
unfolding IsSplit carry ◌*ℤ◌ ◌+ℤ◌ ◌-ℤ◌ i64
IsSplit-backward n h = ground arith

neg_ℕ-IsI64 : (n : ℕ) → n ≤ 9223372036854775807 → IsI64 (neg_ℕ n)
neg_ℕ-IsI64 n h = ground arith

carry_nonneg :
    (sec : ℤ) (n : ℕ)
    → carry (record { sec = sec; usec = pos n }) ≡ record { sec = sec; usec = pos n }
unfolding carry
carry_nonneg sec n = ground arith

timeval_forward :
    (n : ℕ)
    → n ≤ 9223372036854775807
    → step_timeval two63 (pos n) ≡ record { sec = pos (n / second); usec = pos (n % second) }
unfolding step_timeval
timeval_forward n h = ground (
  arith,
  signed_by-false (n / second) (omega arith),
  signed_by-false (n % second) (omega arith),
  set_signed_field_in_range (pos (n / second)) (omega arith, omega arith),
  set_signed_field_in_range (pos (n % second)) (omega arith, omega arith),
  carry_nonneg (pos (n / second)) (n % second),
)

timeval_backward :
    (n : ℕ)
    → n ≤ 9223372036854775806
    → step_timeval two63 (negsuc n)
      ≡ carry (record { sec = neg_ℕ (suc n / second); usec = neg_ℕ (suc n % second) })
unfolding step_timeval
timeval_backward n h = ground (
  arith,
  negate_negative n h,
  signed_by-true (suc n / second) (omega arith),
  signed_by-true (suc n % second) (omega arith),
  set_signed_field_in_range (neg_ℕ (suc n / second)) (neg_ℕ-IsI64 (suc n / second) (omega arith)),
  set_signed_field_in_range (neg_ℕ (suc n % second)) (neg_ℕ-IsI64 (suc n % second) (omega arith)),
)

-- With 64-bit fields, the seconds and the nanoseconds that `StepTime` hands to the kernel add up to
-- the offset it was given, and the nanoseconds lie from 0 up to a second, for every int64 offset
-- but the least.
pub step_timeval_exact :
    (offset : ℤ)
    → negsuc 9223372036854775806 ≤ℤ offset
    → offset ≤ℤ pos 9223372036854775807
    → ((step_timeval two63 offset).sec *ℤ pos second +ℤ (step_timeval two63 offset).usec ≡ offset)
      × (pos 0 ≤ℤ (step_timeval two63 offset).usec)
      × ((step_timeval two63 offset).usec <ℤ pos second)
unfolding IsSplit
step_timeval_exact (pos n) l h = rw (timeval_forward n (omega arith)) (IsSplit-forward n)
step_timeval_exact (negsuc n) l h =
    rw (timeval_backward n (omega arith)) (IsSplit-backward n (omega arith))

-- The clock of a descriptor below 2 ^ 28 is the kernel's FD_TO_CLOCKID of it, without a wrap.
clock_id_exact : (fd : ℕ) → fd < 268435456 → clock_id fd ≡ negsuc (8 * fd + 4)
unfolding clock_id
clock_id_exact fd h = ground arith
