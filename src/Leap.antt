-- ===== src/Leap.antt =====
-- The leap second file, loadTAIOffset of main.go, and the choice of the offset in `run`. The lines
-- are lists of ASCII codes, as the scanner of bufio gives them.
pub mod Decimal
pub mod Words
pub mod Table
use ts2phc_go.Common.{
  ℕ, zero, suc, ◌+◌, ◌-◌, ◌*◌, Bool, true, false, not, ◌&&◌, ◌||◌, Option, none, some, List, [],
  ◌∷◌, ◌++◌, length, ltb, leb, ◌==◌, if◌then◌else◌,
}
use ts2phc_go.Common.Int.{ℤ, pos, negsuc, ◌+ℤ◌, neg_ℕ, ltb_ℤ}
use ts2phc_go.Common.Word.{i64, two63}

-- A space of ASCII: tab, newline, vertical tab, form feed, carriage return or blank.
abbrev pub is_space : ℕ → Bool
is_space b = (leb 9 b && leb b 13) || b == 32

-- `strings.TrimSpace`
unfoldable pub trim_left : List ℕ → List ℕ
trim_left [] = []
trim_left (b ∷ bs) = let rest = trim_left bs in if is_space b then rest else b ∷ bs

abbrev pub trim_cons : ℕ → List ℕ → List ℕ
trim_cons b [] = if is_space b then [] else b ∷ []
trim_cons b (c ∷ cs) = b ∷ c ∷ cs

unfoldable pub trim_end : List ℕ → List ℕ
trim_end [] = []
trim_end (b ∷ bs) = trim_cons b (trim_end bs)

abbrev pub trim_space : List ℕ → List ℕ
trim_space line = trim_end (trim_left line)

-- `strings.Fields`: the word so far, and the rest of the line.
abbrev pub word : List ℕ → List (List ℕ) → List (List ℕ)
word [] more = more
word (b ∷ bs) more = (b ∷ bs) ∷ more

unfoldable pub split_words : List ℕ → List ℕ → List (List ℕ)
split_words cur [] = word cur []
split_words cur (b ∷ bs) =
    let next = split_words [] bs in
    let longer = split_words (cur ++ (b ∷ [])) bs in if is_space b then word cur next else longer

unfoldable pub fields : List ℕ → List (List ℕ)
unfolding split_words
fields line = split_words [] line

-- The digits of a number, most significant first, behind what is read already.
abbrev pub is_digit : ℕ → Bool
is_digit b = leb 48 b && leb b 57

unfoldable pub parse_digits : ℕ → List ℕ → Option ℕ
parse_digits acc [] = some acc
parse_digits acc (b ∷ bs) =
    let rest = parse_digits (acc * 10 + (b - 48)) bs in if is_digit b then rest else none

unfoldable pub parse_magnitude : List ℕ → Option ℕ
unfolding parse_digits
parse_magnitude [] = none
parse_magnitude (b ∷ bs) = parse_digits 0 (b ∷ bs)

-- A magnitude out of the range of int64 is an error.
abbrev pub positive : Option ℕ → Option ℤ
positive none = none
positive (some n) = if ltb n two63 then some (pos n) else none

abbrev pub negative : Option ℕ → Option ℤ
negative none = none
negative (some n) = if leb n two63 then some (neg_ℕ n) else none

-- `strconv.ParseInt(s, 10, 64)`, and `strconv.Atoi` on a 64-bit machine.
unfoldable pub parse_int : List ℕ → Option ℤ
unfolding parse_magnitude
parse_int [] = none
parse_int (b ∷ bs) =
    let plus = positive (parse_magnitude bs) in
    let minus = negative (parse_magnitude bs) in
    let bare = positive (parse_magnitude (b ∷ bs)) in
    if b == 43 then plus else if b == 45 then minus else bare

-- `strings.HasPrefix(line, "#")`, which the lines of the prefix "#@" have too.
abbrev pub is_comment : List ℕ → Bool
is_comment [] = false
is_comment (b ∷ bs) = b == 35

abbrev pub is_empty : List ℕ → Bool
is_empty [] = true
is_empty (b ∷ bs) = false

-- The entry of two fields, if it is effective at `now`.
abbrev pub effective : ℤ → Option ℤ → Option ℤ → Option ℤ
effective now none v = none
effective now (some eff) v = if ltb_ℤ now eff then none else v

abbrev pub entry_of_fields : ℤ → List (List ℕ) → Option ℤ
entry_of_fields now (eff ∷ v ∷ more) = effective now (parse_int eff) (parse_int v)
entry_of_fields now _ = none

-- The body of the loop: the offset that a line sets, or `none` for a line that is passed over.
-- A line "#@" with an expiry only writes to the log.
unfoldable pub entry_of : ℤ → List ℕ → Option ℤ
unfolding trim_left trim_end fields parse_int
entry_of now text =
    let line = trim_space text in
    if is_empty line || is_comment line then none else entry_of_fields now (fields line)

abbrev pub update : Option ℤ → Option ℤ → Option ℤ
update last none = last
update last (some v) = some v

-- The loop: the last offset that was found.
unfoldable pub scan : ℤ → Option ℤ → List (List ℕ) → Option ℤ
unfolding entry_of
scan now last [] = last
scan now last (line ∷ lines) = scan now (update last (entry_of now line)) lines

-- What `os.Open` and the scanner give: no file, or its lines and whether the scanner failed.
pub data LeapFile : Type 0 where
  absent : LeapFile
  lines_of : List (List ℕ) → Bool → LeapFile

pub data Loaded : Type 0 where
  open_error read_error no_entries : Loaded
  offset : ℤ → Loaded

-- `ntpEpochOffset`
abbrev pub ntp_epoch_offset : ℕ
ntp_epoch_offset = 2208988800

abbrev pub ntp_of : ℤ → ℤ
ntp_of unix = i64 (unix +ℤ pos ntp_epoch_offset)

abbrev pub loaded : Option ℤ → Loaded
loaded none = no_entries
loaded (some v) = offset v

-- `loadTAIOffset`, at the Unix time of its reading of the clock.
unfoldable pub load_tai_offset : ℤ → LeapFile → Loaded
unfolding scan
load_tai_offset unix absent = open_error
load_tai_offset unix (lines_of lines failed) =
    if failed then read_error else loaded (scan (ntp_of unix) none lines)

abbrev pub or_default : ℤ → Loaded → ℤ
or_default default (offset v) = v
or_default default _ = default

-- `taiOffset` in `run`: what the flag, the configuration or the default gives, unless the flag is
-- not set, a file is named and it loads. `run` then passes it to both sources.
unfoldable pub tai_offset : Bool → Bool → ℤ → ℤ → LeapFile → ℤ
unfolding load_tai_offset
tai_offset changed is_named default unix file =
    if not changed && is_named then or_default default (load_tai_offset unix file) else default
