-- ===== src/Leap/Table.antt =====
-- A leap second table gives the offset of its last entry that is in force.
use ts2phc_go.Common.{
  ℕ, ◌≤◌, ◌≡◌, refl, ap, ◌∙◌, true, false, Option, none, some, List, [], ◌∷◌, ◌++◌, ◌||◌, map,
  length, if◌then◌else◌, All, arith,
}
use ts2phc_go.Common.Int.{ℤ, ltb_ℤ}
use ts2phc_go.Common.Word.{IsI64}
use ts2phc_go.Leap.{
  is_empty, is_comment, trim_space, fields, entry_of, update, scan, lines_of, loaded, ntp_of,
  load_tai_offset, or_default, tai_offset,
}
use ts2phc_go.Leap.Decimal.{print_int, parse_int-print_int}
use ts2phc_go.Leap.Words.{
  IsSpace, IsApart, fields-trim_space, fields-word, trim_space_first, trim_space_blank,
  print_int_cons,
}

-- A line of the file: spaces, a comment behind spaces, or an entry with its two numbers, the spaces in
-- front of each and what stands behind them.
pub data Item : Type 0 where
  blank : List ℕ → Item
  note : List ℕ → List ℕ → Item
  entry : List ℕ → ℤ → List ℕ → ℤ → List ℕ → Item

abbrev pub render : Item → List ℕ
render (blank spaces) = spaces
render (note spaces c) = spaces ++ (35 ∷ c)
render (entry spaces eff gap v more) = spaces ++ (print_int eff ++ (gap ++ (print_int v ++ more)))

-- The numbers are int64, the spaces are spaces, and there is one behind each number at least, or
-- the end of the line.
abbrev pub IsLine : Item → Type 0
IsLine (blank spaces) = All IsSpace spaces
IsLine (note spaces c) = All IsSpace spaces
IsLine (entry spaces eff gap v more) =
    All IsSpace spaces × IsI64 eff × (1 ≤ length gap) × All IsSpace gap × IsI64 v × IsApart more

-- The offset in force at `now`: that of the last entry whose time has come.
abbrev pub later : Option ℤ → Option ℤ → Option ℤ
later none o = o
later (some v) o = some v

unfoldable pub in_force : ℤ → List Item → Option ℤ
in_force now [] = none
in_force now (blank spaces ∷ items) = in_force now items
in_force now (note spaces c ∷ items) = in_force now items
in_force now (entry spaces eff gap v more ∷ items) =
    let own = if ltb_ℤ now eff then none else some v in later (in_force now items) own

IsSpace-IsApart : (gap rest : List ℕ) → 1 ≤ length gap → All IsSpace gap → IsApart (gap ++ rest)
IsSpace-IsApart [] rest l h = absurd (omega arith)
IsSpace-IsApart (b ∷ bs) rest l h = h.0

fields-number :
    (spaces : List ℕ) (z : ℤ) (rest : List ℕ)
    → All IsSpace spaces
    → IsApart rest
    → fields (spaces ++ (print_int z ++ rest)) ≡ print_int z ∷ fields rest
fields-number spaces z rest s a =
    let (b, bs, e, plain, first) = print_int_cons z in rw e (fields-word spaces rest b bs s plain a)

fields-entry :
    (spaces : List ℕ) (eff : ℤ) (gap : List ℕ) (v : ℤ) (more : List ℕ)
    → IsLine (entry spaces eff gap v more)
    → fields (trim_space (render (entry spaces eff gap v more)))
      ≡ print_int eff ∷ print_int v ∷ fields more
fields-entry spaces eff gap v more (s, e, l, g, k, a) =
    fields-trim_space (render (entry spaces eff gap v more))
    ∙ fields-number spaces eff (gap ++ (print_int v ++ more)) s
        (IsSpace-IsApart gap (print_int v ++ more) l g)
    ∙ ap (λ w. print_int eff ∷ w) (fields-number gap v more g a)

entry-passes :
    (spaces : List ℕ) (z : ℤ) (rest : List ℕ)
    → All IsSpace spaces
    → let line = trim_space (spaces ++ (print_int z ++ rest)) in
      (is_empty line || is_comment line) ≡ false
entry-passes spaces z rest s =
    let (b, bs, e, plain, first) = print_int_cons z in
    let (back, t) = trim_space_first spaces b (bs ++ rest) s plain.0 in rw (e, t) first

entry_of-entry :
    (now : ℤ) (spaces : List ℕ) (eff : ℤ) (gap : List ℕ) (v : ℤ) (more : List ℕ)
    → IsLine (entry spaces eff gap v more)
    → entry_of now (render (entry spaces eff gap v more)) ≡ (if ltb_ℤ now eff then none else some v)
unfolding entry_of
entry_of-entry now spaces eff gap v more h =
    rw
      (
        entry-passes spaces eff (gap ++ (print_int v ++ more)) h.0,
        fields-entry spaces eff gap v more h,
        parse_int-print_int eff h.1,
        parse_int-print_int v h.4,
      )
      refl

entry_of-note :
    (now : ℤ) (spaces c : List ℕ)
    → All IsSpace spaces
    → entry_of now (render (note spaces c)) ≡ none
unfolding entry_of
entry_of-note now spaces c h = let (back, t) = trim_space_first spaces 35 c h refl in rw t refl

entry_of-blank : (now : ℤ) (spaces : List ℕ) → All IsSpace spaces → entry_of now spaces ≡ none
unfolding entry_of
entry_of-blank now spaces h = rw (trim_space_blank spaces h) refl

scan_cons :
    (now : ℤ) (last o : Option ℤ) (line : List ℕ) (lines : List (List ℕ))
    → entry_of now line ≡ o
    → scan now last (line ∷ lines) ≡ scan now (update last o) lines
unfolding scan
scan_cons now last o line lines e = ap (λ x. scan now (update last x) lines) e

later-update : (o own last : Option ℤ) → later o (update last own) ≡ later (later o own) last
later-update none none last = refl
later-update none (some w) last = refl
later-update (some v) own last = refl

scan-render :
    (now : ℤ) (items : List Item) (last : Option ℤ)
    → All IsLine items
    → scan now last (map render items) ≡ later (in_force now items) last
unfolding in_force
scan-render now [] last h = unfold scan in refl
scan-render now (blank s ∷ items) last h =
    scan_cons now last none s (map render items) (entry_of-blank now s h.0)
    ∙ scan-render now items last h.1
scan-render now (note s c ∷ items) last h =
    scan_cons now last none (render (note s c)) (map render items) (entry_of-note now s c h.0)
    ∙ scan-render now items last h.1
scan-render now (entry s eff gap v more ∷ items) last h =
    let own : Option ℤ = if ltb_ℤ now eff then none else some v in
    scan_cons now last own (render (entry s eff gap v more)) (map render items)
      (entry_of-entry now s eff gap v more h.0)
    ∙ scan-render now items (update last own) h.1
    ∙ later-update (in_force now items) own last

later_none : (o : Option ℤ) → later o none ≡ o
later_none none = refl
later_none (some v) = refl

-- A file has blank lines, comments that begin with '#', and entries: a time and an offset in decimal
-- that fit int64, any spaces and tabs in front of the time, one or more between the two, and nothing
-- or a space and any text behind them. Of such a file, read to its end, `loadTAIOffset` gives the
-- offset of the last entry whose time has come, whatever entries for later times stand in it, and an
-- error if there is none.
pub load_tai_offset-table :
    (unix : ℤ) (items : List Item)
    → All IsLine items
    → load_tai_offset unix (lines_of (map render items) false)
      ≡ loaded (in_force (ntp_of unix) items)
unfolding load_tai_offset
load_tai_offset-table unix items h =
    ap loaded (scan-render (ntp_of unix) items none h ∙ later_none (in_force (ntp_of unix) items))

default_or : ℤ → Option ℤ → ℤ
default_or default none = default
default_or default (some v) = v

or_default-loaded :
    (default : ℤ) (o : Option ℤ) → or_default default (loaded o) ≡ default_or default o
unfolding default_or
or_default-loaded default none = refl
or_default-loaded default (some v) = refl

-- Without the flag, the offset of the daemon is that of the last entry of its file whose time has
-- come; with no such entry it is the default.
tai_offset-table :
    (default unix : ℤ) (items : List Item)
    → All IsLine items
    → tai_offset false true default unix (lines_of (map render items) false)
      ≡ default_or default (in_force (ntp_of unix) items)
unfolding tai_offset
tai_offset-table default unix items h =
    ap (or_default default) (load_tai_offset-table unix items h)
    ∙ or_default-loaded default (in_force (ntp_of unix) items)
