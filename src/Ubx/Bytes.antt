-- ===== src/Ubx/Bytes.antt =====
-- Little-endian numbers in a byte slice (encoding/binary), read at an offset and written out.
use ts2phc_go.Common.{ℕ, ◌+◌, ◌-◌, ◌*◌, ◌/◌, ◌%◌, ◌<◌, List, ◌∷◌, get_or}
use ts2phc_go.Common.Int.{ℤ, pos, negsuc}

-- `payload[i]`, of a slice that is long enough.
abbrev pub byte_at : List ℕ → ℕ → ℕ
byte_at payload i = get_or payload i 0

-- `binary.LittleEndian.Uint16(payload[i:i+2])`
abbrev pub uint16_at : List ℕ → ℕ → ℕ
uint16_at payload i = byte_at payload i + 256 * byte_at payload (i + 1)

-- `binary.LittleEndian.Uint32(payload[i:i+4])`
abbrev pub uint32_at : List ℕ → ℕ → ℕ
uint32_at payload i =
    byte_at payload i
    + 256 * byte_at payload (i + 1)
    + 65536 * byte_at payload (i + 2)
    + 16777216 * byte_at payload (i + 3)

-- `PutUint16` and `PutUint32`, in front of what follows.
abbrev pub put_uint16 : ℕ → List ℕ → List ℕ
put_uint16 n rest = n % 256 ∷ n / 256 % 256 ∷ rest

abbrev pub put_uint32 : ℕ → List ℕ → List ℕ
put_uint32 n rest = n % 256 ∷ n / 256 % 256 ∷ n / 65536 % 256 ∷ n / 16777216 % 256 ∷ rest

-- The bit pattern of a signed number in a word of `2 * half` values.
abbrev pub pattern_of : ℕ → ℤ → ℕ
pattern_of half (pos n) = n
pattern_of half (negsuc n) = half + half - n - 1

abbrev pub IsSigned : ℕ → ℤ → Type 0
IsSigned half (pos n) = n < half
IsSigned half (negsuc n) = n < half
