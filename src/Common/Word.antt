-- ===== src/Common/Word.antt =====
-- Go's fixed-width integers: bytes and words wrap by `%`, int64 by `i64`.
use Prim.Native.Nat.{ℕ, ◌+◌, ◌-◌, ◌%◌, ◌<◌}
use mathlib.Core.Path.{◌≡◌}
use native.Mathlib.Omega.{arith}
use ts2phc_go.Common.Tests.{ltb, if◌then◌else◌}
use ts2phc_go.Common.Int.{ℤ, pos, negsuc, pos_part, neg_part, ◌≤ℤ◌}

abbrev pub u8 : ℕ → ℕ
u8 n = n % 256

abbrev pub u16 : ℕ → ℕ
u16 n = n % 65536

abbrev pub u32 : ℕ → ℕ
u32 n = n % 4294967296

abbrev pub IsByte : ℕ → Type 0
IsByte b = b < 256

-- 2 ^ 63 and 2 ^ 64, written out so that the tactics read them as numerals.
abbrev pub two63 : ℕ
two63 = 9223372036854775808

abbrev pub two64 : ℕ
two64 = 18446744073709551616

abbrev pub IsI64 : ℤ → Type 0
IsI64 z = (negsuc 9223372036854775807 ≤ℤ z) × (z ≤ℤ pos 9223372036854775807)

-- The bit pattern of an integer in 64 bits, and the signed number that a pattern stands for.
abbrev pub word64 : ℤ → ℕ
word64 z = (pos_part z % two64 + (two64 - neg_part z % two64)) % two64

abbrev pub signed64 : ℕ → ℤ
signed64 w = if ltb w two63 then pos w else negsuc (two64 - w - 1)

-- The int64 that an arithmetic result wraps to.
unfoldable pub i64 : ℤ → ℤ
i64 z = signed64 (word64 z)

-- A pattern of `w` bits (`half` is 2 ^ (w - 1)) read as a signed number, as by `int32(x)`.
abbrev pub signed : ℕ → ℕ → ℤ
signed half n = if ltb n half then pos n else negsuc (half + half - n - 1)

abbrev pub signed8 : ℕ → ℤ
signed8 = signed 128

abbrev pub signed16 : ℕ → ℤ
signed16 = signed 32768

abbrev pub signed32 : ℕ → ℤ
signed32 = signed 2147483648

-- In range nothing wraps.
pub i64_of_IsI64 : (z : ℤ) → IsI64 z → i64 z ≡ z
unfolding i64
i64_of_IsI64 z h = ground arith

pub i64-IsI64 : (z : ℤ) → IsI64 (i64 z)
unfolding i64
i64-IsI64 z = ground arith
