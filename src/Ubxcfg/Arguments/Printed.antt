-- ===== src/Ubxcfg/Arguments/Printed.antt =====
-- Arguments that spell out all options are read as these options.
use ts2phc_go.Common.{ℕ, suc, ◌<◌, ◌≡◌, refl, ap, some, List, [], ◌∷◌, map, All, arith}
use ts2phc_go.Common.Int.{ℤ, pos, negsuc, ◌≤ℤ◌}
use ts2phc_go.Common.Word.{IsI64, two63}
use ts2phc_go.Leap.Decimal.{
  print, print_int, parse_int-minus, IsDigit, print_cons, parse_int-print, parse_magnitude-print,
}
use ts2phc_go.Metrics.{same_text}
use ts2phc_go.Ubxcfg.Arguments.Numbers.{
  skip_space, leading_digits, signed_digits, scan_int, scan_uint8, lower,
}
use ts2phc_go.Ubxcfg.Arguments.{
  Options, default_options, dev_flag, baud_flag, dyn_model_flag, mode_flag, delay_flag, dev_long,
  baud_long, dyn_model_long, mode_long, delay_long, flag_of, set_flag, options, parse_arguments,
}

-- The arguments for these options.
unfoldable pub spelled : Options → List (List ℕ)
spelled o =
    dev_long
    ∷ o.dev
    ∷ baud_long
    ∷ print_int o.baud
    ∷ dyn_model_long
    ∷ print o.dyn_model
    ∷ mode_long
    ∷ o.mode
    ∷ delay_long
    ∷ print_int o.ant_cable_delay_ns
    ∷ []

leading_digits-All : (ds : List ℕ) → All IsDigit ds → leading_digits ds ≡ ds
unfolding leading_digits
leading_digits-All [] h = refl
leading_digits-All (d ∷ ds) h = ground (arith, h, leading_digits-All ds h.1)

leading_digits-print : (n : ℕ) → leading_digits (print n) ≡ print n
leading_digits-print n =
    let (b, bs, e, d, ds) = print_cons n in rw e (leading_digits-All (b ∷ bs) (d, ds))

skip_space-digit : (b : ℕ) (bs : List ℕ) → IsDigit b → skip_space (b ∷ bs) ≡ some (b ∷ bs)
unfolding skip_space
skip_space-digit b bs h = ground (arith, h)

skip_space-print : (n : ℕ) → skip_space (print n) ≡ some (print n)
skip_space-print n = let (b, bs, e, d, ds) = print_cons n in rw e (skip_space-digit b bs d)

signed_digits-print : (n : ℕ) → signed_digits (print n) ≡ print n
signed_digits-print n =
    let (b, bs, e, d, ds) = print_cons n in
    rw e (ground (arith, leading_digits-All (b ∷ bs) (d, ds)))

-- A printed number is read back.
scan_uint8-print : (n : ℕ) → n < 256 → scan_uint8 (print n) ≡ some n
unfolding scan_uint8
scan_uint8-print n h =
    rw (scan_uint8, skip_space-print n, leading_digits-print n, parse_magnitude-print n)
      (ground (arith, h))

scan_int-pos : (n : ℕ) → n < two63 → scan_int (print n) ≡ some (pos n)
unfolding scan_int
scan_int-pos n h = rw (scan_int, skip_space-print n, signed_digits-print n) (parse_int-print n h)

scan_int-negsuc : (n : ℕ) → n < two63 → scan_int (45 ∷ print (suc n)) ≡ some (negsuc n)
unfolding scan_int skip_space
scan_int-negsuc n h = rw (leading_digits-print (suc n)) (parse_int-minus n h)

-- The numbers that the variables can hold.
pub record IsSpelled (o : Options) : Type 0 where
  pub baud : IsI64 o.baud
  pub dyn_model : o.dyn_model < 256
  pub delay : (negsuc 32767 ≤ℤ o.ant_cable_delay_ns) × (o.ant_cable_delay_ns ≤ℤ pos 32767)
  pub mode : map lower o.mode ≡ o.mode

scan_int-print : (z : ℤ) → IsI64 z → scan_int (print_int z) ≡ some z
unfolding print_int
scan_int-print (pos n) h = scan_int-pos n (omega arith)
scan_int-print (negsuc n) h = scan_int-negsuc n (omega arith)

set_dev : (o : Options) (v : List ℕ) → set_flag (flag_of dev_long) v o ≡ record o { dev = v }
unfolding set_flag flag_of same_text
set_dev o v = refl

set_baud :
    (o : Options) (z : ℤ)
    → IsI64 z
    → set_flag (flag_of baud_long) (print_int z) o ≡ record o { baud = z }
unfolding set_flag flag_of same_text
set_baud o z h = rw (scan_int-print z h) refl

set_dyn_model :
    (o : Options) (n : ℕ)
    → n < 256
    → set_flag (flag_of dyn_model_long) (print n) o ≡ record o { dyn_model = n }
unfolding set_flag flag_of same_text
set_dyn_model o n h = rw (scan_uint8-print n h) refl

set_mode :
    (o : Options) (m : List ℕ)
    → map lower m ≡ m
    → set_flag (flag_of mode_long) m o ≡ record o { mode = m }
unfolding set_flag flag_of same_text
set_mode o m h = ap (λ x. record o { mode = x }) h

set_delay :
    (o : Options) (z : ℤ)
    → (negsuc 32767 ≤ℤ z) × (z ≤ℤ pos 32767)
    → set_flag (flag_of delay_long) (print_int z) o ≡ record o { ant_cable_delay_ns = z }
unfolding set_flag flag_of same_text
set_delay o z h = rw (scan_int-print z (omega arith, omega arith)) (ground (arith, h))

long_flags :
    (flag_of dev_long ≡ dev_flag)
    × (flag_of baud_long ≡ baud_flag)
    × (flag_of dyn_model_long ≡ dyn_model_flag)
    × (flag_of mode_long ≡ mode_flag)
    × (flag_of delay_long ≡ delay_flag)
unfolding flag_of same_text
long_flags = (refl, refl, refl, refl, refl)

-- Options whose numbers their variables can hold, and whose mode is in small letters, are read back
-- from the arguments that spell them out, whatever the device is called.
pub parse_arguments-spelled :
    (o : Options) → IsSpelled o → parse_arguments default_options (spelled o) ≡ options o
unfolding parse_arguments spelled
parse_arguments-spelled o h =
    let (f₁, f₂, f₃, f₄, f₅) = long_flags in
    let o₁ : Options = record default_options { dev = o.dev } in
    let o₂ : Options = record o₁ { baud = o.baud } in
    let o₃ : Options = record o₂ { dyn_model = o.dyn_model } in
    let o₄ : Options = record o₃ { mode = o.mode } in
    rw
      (
        set_dev default_options o.dev,
        set_baud o₁ o.baud h.baud,
        set_dyn_model o₂ o.dyn_model h.dyn_model,
        set_mode o₃ o.mode h.mode,
        set_delay o₄ o.ant_cable_delay_ns h.delay,
        f₁,
        f₂,
        f₃,
        f₄,
        f₅,
      )
      refl
