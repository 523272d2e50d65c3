-- ===== src/Daemon/Textfiles.antt =====
-- `withTextfiles` of main.go: the page of the metrics, with the text files of a directory behind it.
-- Texts are lists of bytes. The exporter and the directory are arguments; log lines are left out.
pub mod Lines
use ts2phc_go.Common.{
  ℕ, ◌-◌, Bool, true, false, not, ◌&&◌, ◌||◌, Option, none, some, List, [], ◌∷◌, ◌++◌, length, drop,
  ltb, ◌==◌, if◌then◌else◌,
}
use ts2phc_go.Metrics.{same_text}

-- An entry of the directory; its text is none where it cannot be read.
pub record Entry : Type 0 where
  pub name : List ℕ
  pub is_dir : Bool
  pub text : Option (List ℕ)

-- ".prom"
abbrev pub prom_suffix : List ℕ
prom_suffix = 46 ∷ 112 ∷ 114 ∷ 111 ∷ 109 ∷ []

-- `strings.HasSuffix`
abbrev pub has_suffix : List ℕ → List ℕ → Bool
has_suffix s suffix =
    not (ltb (length s) (length suffix)) && same_text (drop (length s - length suffix) s) suffix

-- `len(b) > 0 && b[len(b)-1] != '\n'`
unfoldable pub lacks_newline : List ℕ → Bool
lacks_newline [] = false
lacks_newline (b ∷ []) = not (b == 10)
lacks_newline (b ∷ c ∷ cs) = lacks_newline (c ∷ cs)

-- What is written for a file.
unfoldable pub terminated : List ℕ → List ℕ
unfolding lacks_newline
terminated b = if lacks_newline b then b ++ (10 ∷ []) else b

abbrev pub is_skipped : Entry → Bool
is_skipped e = e.is_dir || not (has_suffix e.name prom_suffix)

abbrev pub text_of : Option (List ℕ) → List ℕ
text_of none = []
text_of (some b) = terminated b

-- The loop over the entries.
unfoldable pub append_files : List Entry → List ℕ
unfolding terminated
append_files [] = []
append_files (e ∷ entries) =
    let rest = append_files entries in if is_skipped e then rest else text_of e.text ++ rest

-- The page, by what the exporter gives with and without `Accept-Encoding`, for a request that has
-- the header or not. An unreadable directory is none.
unfoldable pub with_textfiles : List ℕ → (Bool → List ℕ) → Option (List Entry) → Bool → List ℕ
unfolding append_files
with_textfiles [] page entries encoded = page encoded
with_textfiles (d ∷ dir) page none encoded = page false
with_textfiles (d ∷ dir) page (some entries) encoded = page false ++ append_files entries
