-- ===== src/Ubxcfg/Arguments.antt =====
-- `main` of cmd/ubxcfg/main.go: the flags, the mode and what is then configured. Arguments are lists
-- of ASCII codes. The log is left out, and so is the time-out that the port is given.
pub mod Numbers
pub mod Printed
pub mod Bounds
use ts2phc_go.Common.{
  ℕ, zero, suc, ◌+◌, ◌<◌, Bool, true, false, not, ◌&&◌, ◌||◌, Option, none, some, List, [], ◌∷◌,
  map, ltb, leb, ◌==◌, if◌then◌else◌,
}
use ts2phc_go.Common.Int.{ℤ, pos, negsuc, ltb_ℤ}
use ts2phc_go.Leap.{is_space, is_digit, parse_magnitude, parse_int}
use ts2phc_go.Metrics.{same_text}
use ts2phc_go.Ubxcfg.Configure.{Write, Line, Ran}
use ts2phc_go.Ubxcfg.Configure.Receivers.{configure_m9n, configure_m8n_device}
use ts2phc_go.Ubxcfg.Configure.Detect.{Mode, mode_m9n, mode_m8n, no_mode, detect_receiver_mode}
use ts2phc_go.Ubxcfg.Arguments.Numbers.{
  skip_space, leading_digits, signed_digits, scan_int, in_int16, in_uint8, scan_uint8, lower,
}

-- The variables that the flags set.
pub record Options : Type 0 where
  pub dev : List ℕ
  pub baud : ℤ
  pub mode : List ℕ
  pub dyn_model : ℕ
  pub ant_cable_delay_ns : ℤ

-- "auto", "m8n" and "m9n"
abbrev pub mode_auto : List ℕ
mode_auto = 97 ∷ 117 ∷ 116 ∷ 111 ∷ []

abbrev pub mode_m8n_text : List ℕ
mode_m8n_text = 109 ∷ 56 ∷ 110 ∷ []

abbrev pub mode_m9n_text : List ℕ
mode_m9n_text = 109 ∷ 57 ∷ 110 ∷ []

-- "/dev/ttyACM0" and the numbers.
abbrev pub default_options : Options
default_options = record {
  dev = 47 ∷ 100 ∷ 101 ∷ 118 ∷ 47 ∷ 116 ∷ 116 ∷ 121 ∷ 65 ∷ 67 ∷ 77 ∷ 48 ∷ [];
  baud = pos 115200;
  mode = mode_auto;
  dyn_model = 2;
  ant_cable_delay_ns = pos 38;
}

pub data Flag : Type 0 where
  dev_flag baud_flag dyn_model_flag mode_flag delay_flag help_flag no_flag : Flag

-- "--dev"
abbrev pub dev_long : List ℕ
dev_long = 45 ∷ 45 ∷ 100 ∷ 101 ∷ 118 ∷ []

-- "-d"
abbrev pub dev_short : List ℕ
dev_short = 45 ∷ 100 ∷ []

-- "--baud"
abbrev pub baud_long : List ℕ
baud_long = 45 ∷ 45 ∷ 98 ∷ 97 ∷ 117 ∷ 100 ∷ []

-- "-b"
abbrev pub baud_short : List ℕ
baud_short = 45 ∷ 98 ∷ []

-- "--dynmodel"
abbrev pub dyn_model_long : List ℕ
dyn_model_long = 45 ∷ 45 ∷ 100 ∷ 121 ∷ 110 ∷ 109 ∷ 111 ∷ 100 ∷ 101 ∷ 108 ∷ []

-- "--mode"
abbrev pub mode_long : List ℕ
mode_long = 45 ∷ 45 ∷ 109 ∷ 111 ∷ 100 ∷ 101 ∷ []

-- "--ant-cable-delay-ns"
abbrev pub delay_long : List ℕ
delay_long =
    45 ∷ 45 ∷ 97 ∷ 110 ∷ 116 ∷ 45 ∷ 99 ∷ 97 ∷ 98 ∷ 108 ∷ 101 ∷ 45 ∷ 100 ∷ 101 ∷ 108 ∷ 97 ∷ 121 ∷ 45
    ∷ 110 ∷ 115 ∷ []

-- "--help"
abbrev pub help_long : List ℕ
help_long = 45 ∷ 45 ∷ 104 ∷ 101 ∷ 108 ∷ 112 ∷ []

-- "-h"
abbrev pub help_short : List ℕ
help_short = 45 ∷ 104 ∷ []

-- `switch args[i]`
unfoldable pub flag_of : List ℕ → Flag
flag_of s =
    if same_text s dev_long || same_text s dev_short
    then dev_flag
    else if same_text s baud_long || same_text s baud_short
    then baud_flag
    else if same_text s dyn_model_long
    then dyn_model_flag
    else if same_text s mode_long
    then mode_flag
    else if same_text s delay_long
    then delay_flag
    else if same_text s help_long || same_text s help_short
    then help_flag
    else no_flag

abbrev pub or_int : Option ℤ → ℤ → ℤ
or_int none old = old
or_int (some new) old = new

abbrev pub or_uint8 : Option ℕ → ℕ → ℕ
or_uint8 none old = old
or_uint8 (some new) old = new

-- What a flag does with the argument behind it.
unfoldable pub set_flag : Flag → List ℕ → Options → Options
unfolding scan_int scan_uint8
set_flag dev_flag v o = record o { dev = v }
set_flag baud_flag v o = record o { baud = or_int (scan_int v) o.baud }
set_flag dyn_model_flag v o = record o { dyn_model = or_uint8 (scan_uint8 v) o.dyn_model }
set_flag mode_flag v o = record o { mode = map lower v }
set_flag delay_flag v o = record o {
  ant_cable_delay_ns = or_int (in_int16 (scan_int v)) o.ant_cable_delay_ns;
}
set_flag _ v o = o

-- How the loop ends. A flag without its value reads beyond the arguments, which is a panic.
pub data Arguments : Type 0 where
  options : Options → Arguments
  help_shown missing_value : Arguments
  unknown_flag : List ℕ → Arguments

-- The last argument.
abbrev pub last_argument : Flag → List ℕ → Arguments
last_argument help_flag s = help_shown
last_argument no_flag s = unknown_flag s
last_argument _ s = missing_value

abbrev pub next_argument : Flag → List ℕ → Arguments → Arguments
next_argument help_flag s more = help_shown
next_argument no_flag s more = unknown_flag s
next_argument _ s more = more

-- The loop over `os.Args[1:]`.
unfoldable pub parse_arguments : Options → List (List ℕ) → Arguments
unfolding flag_of set_flag
parse_arguments o [] = options o
parse_arguments o (s ∷ []) = last_argument (flag_of s) s
parse_arguments o (s ∷ v ∷ args) =
    let more = parse_arguments (set_flag (flag_of s) v o) args in next_argument (flag_of s) s more

-- How the program ends.
pub data Ended : Type 0 where
  not_run : Arguments → Ended
  invalid_mode : List ℕ → Ended
  serial_failed : Ended
  detect_failed : List Write → Ended
  configured : Ran → Ended

module _ (line : Line) where
  -- The switch on the mode that was detected.
  abbrev pub configure_as : Mode → ℤ → List Write → Options → Ended
  configure_as mode_m9n baud sent o =
      configured (configure_m9n line baud sent o.dyn_model o.ant_cable_delay_ns)
  configure_as mode_m8n baud sent o =
      configured (configure_m8n_device line sent baud o.dyn_model o.ant_cable_delay_ns)
  configure_as no_mode baud sent o = detect_failed sent

  -- Behind the mode that the flags give.
  unfoldable pub configure_at : ℤ → Options → Ended
  configure_at baud o =
      let (sent, mode) = detect_receiver_mode line baud [] in
      if same_text o.mode mode_m8n_text
      then configure_as mode_m8n baud [] o
      else if not (line.opens [] baud)
      then serial_failed
      else if same_text o.mode mode_auto
      then configure_as mode baud sent o
      else configure_as mode_m9n baud [] o

  unfoldable pub configure_with : Options → Ended
  configure_with o =
      if not (same_text o.mode mode_auto)
        && not (same_text o.mode mode_m8n_text)
        && not (same_text o.mode mode_m9n_text)
      then invalid_mode o.mode
      else configure_at o.baud o

  abbrev pub end_of : Arguments → Ended
  end_of (options o) = configure_with o
  end_of other = not_run other

  -- `main`
  unfoldable pub main : List (List ℕ) → Ended
  unfolding parse_arguments configure_with
  main args = end_of (parse_arguments default_options args)
