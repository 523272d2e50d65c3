-- ===== src/Ubxcfg/Arguments/Numbers.antt =====
-- The numbers in the arguments: `fmt.Sscanf` with "%d", and the limits of the types.
use ts2phc_go.Common.{
  ℕ, ◌+◌, ◌&&◌, ◌||◌, Option, none, some, List, [], ◌∷◌, ltb, leb, ◌==◌, if◌then◌else◌,
}
use ts2phc_go.Common.Int.{ℤ, pos, negsuc, ltb_ℤ}
use ts2phc_go.Leap.{is_space, is_digit, parse_magnitude, parse_int}

-- The spaces in front, which may not be newlines.
unfoldable pub skip_space : List ℕ → Option (List ℕ)
skip_space [] = some []
skip_space (b ∷ bs) =
    let rest = skip_space bs in if b == 10 then none else if is_space b then rest else some (b ∷ bs)

-- The digits that a text begins with.
unfoldable pub leading_digits : List ℕ → List ℕ
leading_digits [] = []
leading_digits (b ∷ bs) = let rest = leading_digits bs in if is_digit b then b ∷ rest else []

abbrev pub signed_digits : List ℕ → List ℕ
signed_digits [] = []
signed_digits (b ∷ bs) =
    if b == 43 || b == 45 then b ∷ leading_digits bs else leading_digits (b ∷ bs)

-- `fmt.Sscanf(s, "%d", &v)` for an int, an int16 and an uint8; none is an error, which leaves `v`
-- as it is.
unfoldable pub scan_int : List ℕ → Option ℤ
unfolding skip_space leading_digits
scan_int text = elim (skip_space text) [ none ↦ none | some bs ↦ parse_int (signed_digits bs) ]

abbrev pub in_int16 : Option ℤ → Option ℤ
in_int16 none = none
in_int16 (some z) = if ltb_ℤ z (negsuc 32767) || ltb_ℤ (pos 32767) z then none else some z

abbrev pub in_uint8 : Option ℕ → Option ℕ
in_uint8 none = none
in_uint8 (some n) = if ltb n 256 then some n else none

unfoldable pub scan_uint8 : List ℕ → Option ℕ
unfolding skip_space leading_digits
scan_uint8 text = elim (skip_space text) [
  | none ↦ none
  | some bs ↦ in_uint8 (parse_magnitude (leading_digits bs))
]

-- `strings.ToLower`
abbrev pub lower : ℕ → ℕ
lower b = if leb 65 b && leb b 90 then b + 32 else b
