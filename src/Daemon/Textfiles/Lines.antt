-- ===== src/Daemon/Textfiles/Lines.antt =====
-- The lines of the page are those of the exporter and of the files.
use ts2phc_go.Common.{
  ℕ, ◌≡◌, ◌≢◌, refl, ap, ◌∙◌, Bool, true, false, Bool-cases, inl, inr, Option, none, some, List, [],
  ◌∷◌, ◌++◌, ◌==◌, if◌then◌else◌, arith,
}
use ts2phc_go.Daemon.Textfiles.{
  Entry, lacks_newline, terminated, is_skipped, text_of, append_files, with_textfiles,
}

-- The lines of a text, of which the last one may lack its newline.
abbrev pub last_line : List ℕ → List (List ℕ)
last_line [] = []
last_line (b ∷ bs) = (b ∷ bs) ∷ []

unfoldable pub lines_from : List ℕ → List ℕ → List (List ℕ)
lines_from cur [] = last_line cur
lines_from cur (b ∷ bs) =
    let next = lines_from [] bs in
    let longer = lines_from (cur ++ (b ∷ [])) bs in if b == 10 then cur ∷ next else longer

abbrev pub lines : List ℕ → List (List ℕ)
lines text = lines_from [] text

-- The lines of the files that are not skipped.
unfoldable pub file_lines : List Entry → List (List ℕ)
file_lines [] = []
file_lines (e ∷ entries) =
    let rest = file_lines entries in
    if is_skipped e then rest else (elim e.text [ none ↦ [] | some b ↦ lines b ]) ++ rest

last_line-append : (cur : List ℕ) (b : ℕ) → last_line (cur ++ (b ∷ [])) ≡ (cur ++ (b ∷ [])) ∷ []
last_line-append [] b = refl
last_line-append (c ∷ cur) b = refl

-- A newline at the end of a last line adds no line.
lines_from-newline :
    (cur b : List ℕ) → lacks_newline b ≡ true → lines_from cur (b ++ (10 ∷ [])) ≡ lines_from cur b
unfolding lines_from lacks_newline
lines_from-newline cur [] h = absurd (ground (arith, h))
lines_from-newline cur (b ∷ []) h = ground (arith, h, last_line-append cur b)
lines_from-newline cur (b ∷ c ∷ cs) h =
    ground
      (arith, lines_from-newline [] (c ∷ cs) h, lines_from-newline (cur ++ (b ∷ [])) (c ∷ cs) h)

lines-terminated : (b : List ℕ) → lines (terminated b) ≡ lines b
unfolding terminated
lines-terminated b = elim (Bool-cases (lacks_newline b)) [
  | inl open_end ↦ rw open_end (lines_from-newline [] b open_end)
  | inr closed ↦ rw closed refl
]

newline-closed : (b : List ℕ) → lacks_newline (b ++ (10 ∷ [])) ≡ false
unfolding lacks_newline
newline-closed [] = refl
newline-closed (b ∷ []) = refl
newline-closed (b ∷ c ∷ cs) = newline-closed (c ∷ cs)

terminated-closed : (b : List ℕ) → lacks_newline (terminated b) ≡ false
unfolding terminated
terminated-closed b = elim (Bool-cases (lacks_newline b)) [
  | inl open_end ↦ rw (terminated, open_end) (newline-closed b)
  | inr closed ↦ rw (terminated, closed) closed
]

-- A text that ends its last line is followed by the lines of what is behind it.
lines_from-append :
    (cur b rest : List ℕ)
    → lacks_newline b ≡ false
    → b ≢ []
    → lines_from cur (b ++ rest) ≡ lines_from cur b ++ lines rest
unfolding lines_from lacks_newline
lines_from-append cur [] rest h n = absurd (n refl)
lines_from-append cur (b ∷ []) rest h n = ground (arith, h)
lines_from-append cur (b ∷ c ∷ cs) rest h n = ground (
  arith,
  lines_from-append [] (c ∷ cs) rest h (λ e. absurd cc),
  lines_from-append (cur ++ (b ∷ [])) (c ∷ cs) rest h (λ e. absurd cc),
)

lines-append :
    (b rest : List ℕ) → lacks_newline b ≡ false → lines (b ++ rest) ≡ lines b ++ lines rest
lines-append [] rest h = unfold lines_from in refl
lines-append (b ∷ bs) rest h = lines_from-append [] (b ∷ bs) rest h (λ e. absurd cc)

text_of-closed : (o : Option (List ℕ)) → lacks_newline (text_of o) ≡ false
text_of-closed none = unfold lacks_newline in refl
text_of-closed (some b) = terminated-closed b

lines-text_of :
    (o : Option (List ℕ)) → lines (text_of o) ≡ (elim o [ none ↦ [] | some b ↦ lines b ])
lines-text_of none = unfold lines_from in refl
lines-text_of (some b) = lines-terminated b

lines-append_files : (entries : List Entry) → lines (append_files entries) ≡ file_lines entries
unfolding append_files file_lines
lines-append_files [] = unfold lines_from in refl
lines-append_files (e ∷ entries) = elim (Bool-cases (is_skipped e)) [
  | inl skip ↦ rw skip (lines-append_files entries)
  | inr kept ↦ rw kept (
      lines-append (text_of e.text) (append_files entries) (text_of-closed e.text)
      ∙ ap (λ l. l ++ lines (append_files entries)) (lines-text_of e.text)
      ∙ ap (λ l. (elim e.text [ none ↦ [] | some b ↦ lines b ]) ++ l) (lines-append_files entries))
]

-- If the exporter's page, made without compression, ends its last line, then the page that is
-- served has the exporter's lines and behind them, entry by entry, those of the readable files that
-- are called *.prom, whether or not these end their last lines: no two lines run together.
pub with_textfiles-lines :
    (d : ℕ) (dir : List ℕ) (page : Bool → List ℕ) (entries : List Entry) (encoded : Bool)
    → lacks_newline (page false) ≡ false
    → lines (with_textfiles (d ∷ dir) page (some entries) encoded)
      ≡ lines (page false) ++ file_lines entries
unfolding with_textfiles
with_textfiles-lines d dir page entries encoded h =
    lines-append (page false) (append_files entries) h
    ∙ ap (λ l. lines (page false) ++ l) (lines-append_files entries)
