-- ===== src/Ubxcfg/Configure/Detect.antt =====
-- Which family of receivers answers, detectReceiverMode of cmd/ubxcfg/main.go. Strings are lists of
-- ASCII codes.
use ts2phc_go.Common.{
  ℕ, ◌-◌, ◌≡◌, refl, ap, Bool, true, false, ◌&&◌, ◌||◌, List, [], ◌∷◌, ◌++◌, map, leb, ◌==◌,
  if◌then◌else◌, arith,
}
use ts2phc_go.Common.Int.{ℤ}
use ts2phc_go.Ubx.Msg.{Parsed, ok, MonVer, parse_mon_ver}
use ts2phc_go.Ubxcfg.Configure.{Write, Line, Fetched, found, written_to, answer_to}
use ts2phc_go.Ubxcfg.Configure.Receivers.{mon_ver_poll, version_answer}

-- `receiverMode`; `none` is an error.
pub data Mode : Type 0 where
  mode_m9n mode_m8n no_mode : Mode

-- `strings.ToUpper`
abbrev pub upper : ℕ → ℕ
upper b = if leb 97 b && leb b 122 then b - 32 else b

-- `strings.Contains(s, "M" + digit)`
abbrev pub starts : ℕ → List ℕ → Bool
starts digit (d ∷ rest) = d == digit
starts digit [] = false

unfoldable pub contains : ℕ → List ℕ → Bool
contains digit [] = false
contains digit (b ∷ rest) = (b == 77 && starts digit rest) || contains digit rest

-- `strings.Join(exts, " ")`
unfoldable pub join : List (List ℕ) → List ℕ
join [] = []
join (s ∷ []) = s
join (s ∷ t ∷ rest) = s ++ (32 ∷ join (t ∷ rest))

unfoldable pub identity_of : MonVer → List ℕ
unfolding join
identity_of mon =
    map upper (mon.sw_version ++ (32 ∷ (mon.hw_version ++ (32 ∷ join mon.extensions))))

-- The switch on the text.
unfoldable pub infer_mode : List ℕ → Mode
unfolding contains
infer_mode s = if contains 57 s then mode_m9n else if contains 56 s then mode_m8n else no_mode

abbrev pub mode_of_parsed : Parsed MonVer → Mode
mode_of_parsed (ok mon) = infer_mode (identity_of mon)
mode_of_parsed other = no_mode

abbrev pub mode_of_answer : Fetched → Mode
mode_of_answer (found f) = mode_of_parsed (parse_mon_ver f.payload)
mode_of_answer other = no_mode

-- `detectReceiverMode`, and the messages written.
unfoldable pub detect_receiver_mode : Line → ℤ → List Write → List Write × Mode
unfolding version_answer infer_mode identity_of
detect_receiver_mode line baud sent =
    let mode = mode_of_answer (version_answer line sent baud) in
    (
      written_to line baud sent mon_ver_poll,
      if (answer_to line baud sent mon_ver_poll).written then mode else no_mode,
    )

-- The family is found wherever the text names it.
contains-append_left :
    (digit : ℕ) (xs ys : List ℕ) → contains digit xs ≡ true → contains digit (xs ++ ys) ≡ true
unfolding contains
contains-append_left digit [] ys h = absurd (ground (arith, h))
contains-append_left digit (x ∷ []) ys h = ground (arith, h)
contains-append_left digit (x ∷ y ∷ xs) ys h =
    ground (arith, h, contains-append_left digit (y ∷ xs) ys)

contains-append_right :
    (digit : ℕ) (xs ys : List ℕ) → contains digit ys ≡ true → contains digit (xs ++ ys) ≡ true
unfolding contains
contains-append_right digit [] ys h = h
contains-append_right digit (x ∷ xs) ys h = ground (arith, contains-append_right digit xs ys h)

upper-append : (xs ys : List ℕ) → map upper (xs ++ ys) ≡ map upper xs ++ map upper ys
upper-append [] ys = refl
upper-append (x ∷ xs) ys = ap (λ l. upper x ∷ l) (upper-append xs ys)

-- A receiver whose hardware version names the M9 family, in small or in capital letters, is taken
-- for an M9N, whatever its other texts say.
infer_mode-hw_version :
    (mon : MonVer)
    → contains 57 (map upper mon.hw_version) ≡ true
    → infer_mode (identity_of mon) ≡ mode_m9n
unfolding infer_mode identity_of
infer_mode-hw_version mon h =
    let rest = 32 ∷ join mon.extensions in
    let named : contains 57 (map upper (mon.sw_version ++ (32 ∷ (mon.hw_version ++ rest)))) ≡ true =
      rw (upper-append mon.sw_version (32 ∷ (mon.hw_version ++ rest))) (
        contains-append_right 57 (map upper mon.sw_version)
          (map upper (32 ∷ (mon.hw_version ++ rest)))
          (contains-append_right 57 (32 ∷ []) (map upper (mon.hw_version ++ rest)) (
            rw (upper-append mon.hw_version rest)
              (contains-append_left 57 (map upper mon.hw_version) (map upper rest) h)))) in
    rw named refl
