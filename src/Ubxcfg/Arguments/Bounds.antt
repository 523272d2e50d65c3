-- ===== src/Ubxcfg/Arguments/Bounds.antt =====
-- Whatever the arguments are, the options that they give are within their types, and can be spelled
-- out.
use ts2phc_go.Common.{
  ℕ, ◌<◌, ◌≡◌, refl, ap, ◌∙◌, Bool, true, false, Option, none, some, Option-cases, inl, inr, List,
  [], ◌∷◌, map, ◌==◌, if◌then◌else◌, arith,
}
use ts2phc_go.Common.Int.{ℤ, pos, negsuc, ◌≤ℤ◌}
use ts2phc_go.Common.Word.{IsI64}
use ts2phc_go.Leap.{parse_int, parse_magnitude, positive, negative}
use ts2phc_go.Ubxcfg.Arguments.Numbers.{
  skip_space, leading_digits, signed_digits, in_int16, in_uint8, scan_int, scan_uint8, lower,
}
use ts2phc_go.Ubxcfg.Arguments.{
  Options, default_options, Flag, dev_flag, baud_flag, dyn_model_flag, mode_flag, delay_flag,
  help_flag, no_flag, or_int, or_uint8, flag_of, set_flag, Arguments, options, last_argument,
  next_argument, parse_arguments,
}
use ts2phc_go.Ubxcfg.Arguments.Printed.{IsSpelled, spelled, parse_arguments-spelled}

-- A result that is within its type, if there is one.
abbrev Within : {A : Type 0} → (A → Type 0) → Option A → Type 0
Within P none = Unit
Within P (some a) = P a

positive-IsI64 : (o : Option ℕ) → Within IsI64 (positive o)
positive-IsI64 none = tt
positive-IsI64 (some n) = ground arith

negative-IsI64 : (o : Option ℕ) → Within IsI64 (negative o)
negative-IsI64 none = tt
negative-IsI64 (some n) = ground arith

Within-if :
    (c : Bool) (x y : Option ℤ)
    → Within IsI64 x
    → Within IsI64 y
    → Within IsI64 (if c then x else y)
Within-if true x y h k = h
Within-if false x y h k = k

parse_int-IsI64 : (bs : List ℕ) → Within IsI64 (parse_int bs)
unfolding parse_int
parse_int-IsI64 [] = tt
parse_int-IsI64 (b ∷ bs) =
    Within-if (b == 43) (positive (parse_magnitude bs))
      (if b == 45 then negative (parse_magnitude bs) else positive (parse_magnitude (b ∷ bs)))
      (positive-IsI64 (parse_magnitude bs))
      (Within-if (b == 45) (negative (parse_magnitude bs)) (positive (parse_magnitude (b ∷ bs)))
        (negative-IsI64 (parse_magnitude bs)) (positive-IsI64 (parse_magnitude (b ∷ bs))))

scan_int-IsI64 : (text : List ℕ) → Within IsI64 (scan_int text)
unfolding scan_int
scan_int-IsI64 text = elim (Option-cases (skip_space text)) [
  | inl n ↦ rw (scan_int, n) tt
  | inr (bs, e) ↦ rw (scan_int, e) (parse_int-IsI64 (signed_digits bs))
]

or_int-IsI64 : (o : Option ℤ) (old : ℤ) → Within IsI64 o → IsI64 old → IsI64 (or_int o old)
or_int-IsI64 none old h k = k
or_int-IsI64 (some z) old h k = h

abbrev IsI16 : ℤ → Type 0
IsI16 z = (negsuc 32767 ≤ℤ z) × (z ≤ℤ pos 32767)

or_int16-IsI16 : (o : Option ℤ) (old : ℤ) → IsI16 old → IsI16 (or_int (in_int16 o) old)
or_int16-IsI16 none old k = k
or_int16-IsI16 (some z) old k = ground (arith, k)

or_uint8-small :
    (o : Option ℕ) (old : ℕ) → Within (λ n. n < 256) o → old < 256 → or_uint8 o old < 256
or_uint8-small none old h k = k
or_uint8-small (some n) old h k = h

in_uint8-small : (o : Option ℕ) → Within (λ n. n < 256) (in_uint8 o)
in_uint8-small none = tt
in_uint8-small (some n) = ground arith

scan_uint8-small : (text : List ℕ) → Within (λ n. n < 256) (scan_uint8 text)
unfolding scan_uint8
scan_uint8-small text = elim (Option-cases (skip_space text)) [
  | inl n ↦ rw (scan_uint8, n) tt
  | inr (bs, e) ↦ rw (scan_uint8, e) (in_uint8-small (parse_magnitude (leading_digits bs)))
]

lower-lower : (b : ℕ) → lower (lower b) ≡ lower b
lower-lower b = ground arith

map-lower : (bs : List ℕ) → map lower (map lower bs) ≡ map lower bs
map-lower [] = refl
map-lower (b ∷ bs) =
    ap (λ c. c ∷ map lower (map lower bs)) (lower-lower b) ∙ ap (λ l. lower b ∷ l) (map-lower bs)

set_flag-IsSpelled :
    (flag : Flag) (v : List ℕ) (o : Options) → IsSpelled o → IsSpelled (set_flag flag v o)
unfolding set_flag
set_flag-IsSpelled dev_flag v o h = record {
  baud = h.baud;
  dyn_model = h.dyn_model;
  delay = h.delay;
  mode = h.mode;
}
set_flag-IsSpelled baud_flag v o h = record {
  baud = or_int-IsI64 (scan_int v) o.baud (scan_int-IsI64 v) h.baud;
  dyn_model = h.dyn_model;
  delay = h.delay;
  mode = h.mode;
}
set_flag-IsSpelled dyn_model_flag v o h = record {
  baud = h.baud;
  dyn_model = or_uint8-small (scan_uint8 v) o.dyn_model (scan_uint8-small v) h.dyn_model;
  delay = h.delay;
  mode = h.mode;
}
set_flag-IsSpelled mode_flag v o h = record {
  baud = h.baud;
  dyn_model = h.dyn_model;
  delay = h.delay;
  mode = map-lower v;
}
set_flag-IsSpelled delay_flag v o h = record {
  baud = h.baud;
  dyn_model = h.dyn_model;
  delay = or_int16-IsI16 (scan_int v) o.ant_cable_delay_ns h.delay;
  mode = h.mode;
}
set_flag-IsSpelled help_flag v o h = h
set_flag-IsSpelled no_flag v o h = h

-- What the loop makes of options that can be spelled out.
abbrev pub Ends : Arguments → Type 0
Ends (options o) = IsSpelled o
Ends other = Unit

last_argument-Ends : (flag : Flag) (s : List ℕ) → Ends (last_argument flag s)
last_argument-Ends dev_flag s = tt
last_argument-Ends baud_flag s = tt
last_argument-Ends dyn_model_flag s = tt
last_argument-Ends mode_flag s = tt
last_argument-Ends delay_flag s = tt
last_argument-Ends help_flag s = tt
last_argument-Ends no_flag s = tt

next_argument-Ends :
    (flag : Flag) (s : List ℕ) (more : Arguments) → Ends more → Ends (next_argument flag s more)
next_argument-Ends dev_flag s more h = h
next_argument-Ends baud_flag s more h = h
next_argument-Ends dyn_model_flag s more h = h
next_argument-Ends mode_flag s more h = h
next_argument-Ends delay_flag s more h = h
next_argument-Ends help_flag s more h = tt
next_argument-Ends no_flag s more h = tt

pub parse_arguments-Ends :
    (o : Options) (args : List (List ℕ)) → IsSpelled o → Ends (parse_arguments o args)
unfolding parse_arguments
parse_arguments-Ends o [] h = h
parse_arguments-Ends o (s ∷ []) h = last_argument-Ends (flag_of s) s
parse_arguments-Ends o (s ∷ v ∷ args) h =
    next_argument-Ends (flag_of s) s (parse_arguments (set_flag (flag_of s) v o) args)
      (parse_arguments-Ends (set_flag (flag_of s) v o) args (set_flag-IsSpelled (flag_of s) v o h))

pub default_options-IsSpelled : IsSpelled default_options
default_options-IsSpelled = record {
  baud = (omega arith, omega arith);
  dyn_model = omega arith;
  delay = (omega arith, omega arith);
  mode = refl;
}

-- Whatever arguments the loop reads options from, it reads the same options from the arguments that
-- spell all of them out, by the long flags and with the numbers in decimal; and their mode is in small
-- letters.
pub parse_arguments-again :
    (args : List (List ℕ)) (o : Options)
    → parse_arguments default_options args ≡ options o
    → (map lower o.mode ≡ o.mode) × (parse_arguments default_options (spelled o) ≡ options o)
parse_arguments-again args o e =
    let h : IsSpelled o =
      rw e at (parse_arguments-Ends default_options args default_options-IsSpelled) in
    (h.mode, parse_arguments-spelled o h)
