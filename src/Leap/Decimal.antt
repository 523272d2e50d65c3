-- ===== src/Leap/Decimal.antt =====
-- Numbers printed in decimal are read back.
use ts2phc_go.Common.{
  ℕ, zero, suc, ◌+◌, ◌-◌, ◌*◌, ◌/◌, ◌%◌, ◌≤◌, ◌<◌, ◌≡◌, refl, ap, ◌∙◌, inl, inr, some, List, [],
  ◌∷◌, ◌++◌, ltb, if◌then◌else◌, All, All-append, arith, Bool-cases,
}
use ts2phc_go.Common.Int.{ℤ, pos, negsuc}
use ts2phc_go.Common.Word.{IsI64, two63}
use ts2phc_go.Leap.{parse_digits, parse_magnitude, parse_int}

-- The decimal digits of a number, on fuel above the number.
unfoldable pub print_fuel : ℕ → ℕ → List ℕ
print_fuel zero n = []
print_fuel (suc fuel) n =
    let front = print_fuel fuel (n / 10) in
    if ltb n 10 then (48 + n) ∷ [] else front ++ ((48 + n % 10) ∷ [])

abbrev pub print : ℕ → List ℕ
print n = print_fuel (suc n) n

parse_digits-append :
    (acc n d : ℕ) (bs : List ℕ)
    → d < 10
    → parse_digits acc bs ≡ some n
    → parse_digits acc (bs ++ ((48 + d) ∷ [])) ≡ some (n * 10 + d)
unfolding parse_digits
parse_digits-append acc n d [] h e = ground (arith, e)
parse_digits-append acc n d (b ∷ bs) h e =
    ground (arith, e, parse_digits-append (acc * 10 + (b - 48)) n d bs h)

parse_digits-print : (fuel n : ℕ) → n < fuel → parse_digits 0 (print_fuel fuel n) ≡ some n
unfolding print_fuel parse_digits
parse_digits-print zero n h = absurd (omega arith)
parse_digits-print (suc fuel) n h = elim (Bool-cases (ltb n 10)) [
  | inl small ↦ rw small (ground (arith, small))
  | inr large ↦
      let front = parse_digits-print fuel (n / 10) (ground (arith, large)) in
      let last : n / 10 * 10 + n % 10 ≡ n = omega arith in
      let low : n % 10 < 10 = omega arith in
      rw large (
        parse_digits-append 0 (n / 10) (n % 10) (print_fuel fuel (n / 10)) low front ∙ ap some last)
]

abbrev pub IsDigit : ℕ → Type 0
IsDigit b = (48 ≤ b) × (b ≤ 57)

print_fuel-IsDigit : (fuel n : ℕ) → All IsDigit (print_fuel fuel n)
unfolding print_fuel
print_fuel-IsDigit zero n = tt
print_fuel-IsDigit (suc fuel) n = elim (Bool-cases (ltb n 10)) [
  | inl small ↦ rw small ((omega arith, ground (arith, small)), tt)
  | inr large ↦ rw large (
      All-append IsDigit (print_fuel fuel (n / 10)) ((48 + n % 10) ∷ [])
        (print_fuel-IsDigit fuel (n / 10)) ((omega arith, omega arith), tt))
]

append_cons : (xs : List ℕ) (x : ℕ) → (b : ℕ) × (bs : List ℕ) × (xs ++ (x ∷ []) ≡ b ∷ bs)
append_cons [] x = (x, [], refl)
append_cons (y ∷ ys) x = (y, ys ++ (x ∷ []), refl)

print_nonempty : (n : ℕ) → (b : ℕ) × (bs : List ℕ) × (print n ≡ b ∷ bs)
unfolding print_fuel
print_nonempty n = elim (Bool-cases (ltb n 10)) [
  | inl small ↦ (48 + n, [], rw small refl)
  | inr large ↦
      let (b, bs, e) = append_cons (print_fuel n (n / 10)) (48 + n % 10) in (b, bs, rw large e)
]

-- A printed number has a first digit, and digits only.
pub print_cons : (n : ℕ) → (b : ℕ) × (bs : List ℕ) × (print n ≡ b ∷ bs) × IsDigit b × All IsDigit bs
print_cons n =
    let (b, bs, e) = print_nonempty n in
    let all = rw e at (print_fuel-IsDigit (suc n) n) in (b, bs, e, all.0, all.1)

-- What is printed of an int64 that is not negative is read back.
pub parse_int-print : (n : ℕ) → n < two63 → parse_int (print n) ≡ some (pos n)
parse_int-print n h =
    let (b, bs, e, digit, _) = print_cons n in
    let read : parse_digits 0 (b ∷ bs) ≡ some n =
      rw e at (parse_digits-print (suc n) n (omega arith)) in
    rw e (unfold parse_int parse_magnitude in ground (arith, read))

pub parse_magnitude-print : (n : ℕ) → parse_magnitude (print n) ≡ some n
unfolding parse_magnitude
parse_magnitude-print n =
    let (b, bs, e, digit, _) = print_cons n in
    let read : parse_digits 0 (b ∷ bs) ≡ some n =
      rw e at (parse_digits-print (suc n) n (omega arith)) in
    rw e read

-- An integer with its sign, if that is a minus.
unfoldable pub print_int : ℤ → List ℕ
print_int (pos n) = print n
print_int (negsuc n) = 45 ∷ print (suc n)

pub parse_int-minus : (n : ℕ) → n < two63 → parse_int (45 ∷ print (suc n)) ≡ some (negsuc n)
unfolding parse_int
parse_int-minus n h = rw (parse_magnitude-print (suc n)) (ground (arith, h))

-- What is printed of an int64 is read back.
pub parse_int-print_int : (z : ℤ) → IsI64 z → parse_int (print_int z) ≡ some z
unfolding print_int
parse_int-print_int (pos n) h = parse_int-print n (omega arith)
parse_int-print_int (negsuc n) h = parse_int-minus n (omega arith)
