-- ===== src/Leap/Words.antt =====
-- What `strings.TrimSpace` and `strings.Fields` make of a line that is built of words and spaces.
use ts2phc_go.Common.{
  ℕ, suc, ◌≡◌, refl, ap, ◌∙◌, true, false, Bool-cases, inl, inr, List, [], ◌∷◌, ◌++◌, All, ◌==◌,
  arith,
}
use mathlib.Core.List.{append_assoc, append-nil}
use ts2phc_go.Common.Int.{ℤ, pos, negsuc}
use ts2phc_go.Leap.{is_space, trim_left, trim_cons, trim_end, trim_space, word, split_words, fields}
use ts2phc_go.Leap.Decimal.{IsDigit, print_cons, print_int}

abbrev pub IsSpace : ℕ → Type 0
IsSpace b = is_space b ≡ true

abbrev pub IsPlain : ℕ → Type 0
IsPlain b = is_space b ≡ false

-- Nothing, or something with a space in front.
abbrev pub IsApart : List ℕ → Type 0
IsApart [] = Unit
IsApart (b ∷ bs) = IsSpace b

-- Trimming does not change the words.
split_words-trim_left : (l : List ℕ) → split_words [] (trim_left l) ≡ split_words [] l
unfolding split_words trim_left
split_words-trim_left [] = refl
split_words-trim_left (b ∷ bs) = elim (Bool-cases (is_space b)) [
  | inl space ↦ rw space (split_words-trim_left bs)
  | inr plain ↦ rw plain (rw (split_words, plain) refl)
]

split_words-trim_cons :
    (cur : List ℕ) (b : ℕ) (bs t : List ℕ)
    → ((c : List ℕ) → split_words c t ≡ split_words c bs)
    → split_words cur (trim_cons b t) ≡ split_words cur (b ∷ bs)
unfolding split_words
split_words-trim_cons cur b bs [] h = elim (Bool-cases (is_space b)) [
  | inl space ↦ rw (space, ← h []) refl
  | inr plain ↦ rw plain (rw (plain, ← h (cur ++ (b ∷ []))) refl)
]
split_words-trim_cons cur b bs (x ∷ xs) h = elim (Bool-cases (is_space b)) [
  | inl space ↦ rw space (ap (word cur) (h []))
  | inr plain ↦ rw plain (h (cur ++ (b ∷ [])))
]

split_words-trim_end : (l cur : List ℕ) → split_words cur (trim_end l) ≡ split_words cur l
unfolding trim_end
split_words-trim_end [] cur = refl
split_words-trim_end (b ∷ bs) cur =
    split_words-trim_cons cur b bs (trim_end bs) (λ c. split_words-trim_end bs c)

pub fields-trim_space : (l : List ℕ) → fields (trim_space l) ≡ fields l
unfolding fields
fields-trim_space l = split_words-trim_end (trim_left l) [] ∙ split_words-trim_left l

-- A word between spaces.
split_words-spaces :
    (spaces rest : List ℕ)
    → All IsSpace spaces
    → split_words [] (spaces ++ rest) ≡ split_words [] rest
unfolding split_words
split_words-spaces [] rest h = refl
split_words-spaces (b ∷ bs) rest h = rw h.0 (split_words-spaces bs rest h.1)

split_words-plain :
    (cur plain rest : List ℕ)
    → All IsPlain plain
    → split_words cur (plain ++ rest) ≡ split_words (cur ++ plain) rest
unfolding split_words
split_words-plain cur [] rest h = rw (append-nil cur) refl
split_words-plain cur (b ∷ bs) rest h = rw h.0 (
    split_words-plain (cur ++ (b ∷ [])) bs rest h.1
    ∙ ap (λ w. split_words w rest) (append_assoc cur (b ∷ []) bs))

split_words-apart :
    (cur rest : List ℕ) → IsApart rest → split_words cur rest ≡ word cur (split_words [] rest)
unfolding split_words
split_words-apart cur [] h = refl
split_words-apart cur (b ∷ bs) h = rw h refl

-- The first word of a line, behind any spaces.
pub fields-word :
    (spaces rest : List ℕ) (b : ℕ) (bs : List ℕ)
    → All IsSpace spaces
    → All IsPlain (b ∷ bs)
    → IsApart rest
    → fields (spaces ++ ((b ∷ bs) ++ rest)) ≡ (b ∷ bs) ∷ fields rest
unfolding fields
fields-word spaces rest b bs s p a =
    split_words-spaces spaces ((b ∷ bs) ++ rest) s
    ∙ split_words-plain [] (b ∷ bs) rest p
    ∙ split_words-apart (b ∷ bs) rest a

trim_left-spaces :
    (spaces rest : List ℕ) → All IsSpace spaces → trim_left (spaces ++ rest) ≡ trim_left rest
unfolding trim_left
trim_left-spaces [] rest h = refl
trim_left-spaces (b ∷ bs) rest h = rw h.0 (trim_left-spaces bs rest h.1)

trim_cons-plain : (b : ℕ) (t : List ℕ) → IsPlain b → (rest : List ℕ) × (trim_cons b t ≡ b ∷ rest)
trim_cons-plain b [] h = ([], rw h refl)
trim_cons-plain b (c ∷ cs) h = (c ∷ cs, refl)

-- Trimming a line goes up to its first byte that is no space.
pub trim_space_first :
    (spaces : List ℕ) (b : ℕ) (bs : List ℕ)
    → All IsSpace spaces
    → IsPlain b
    → (rest : List ℕ) × (trim_space (spaces ++ (b ∷ bs)) ≡ b ∷ rest)
trim_space_first spaces b bs s p =
    let left : trim_left (spaces ++ (b ∷ bs)) ≡ b ∷ bs =
      trim_left-spaces spaces (b ∷ bs) s ∙ (unfold trim_left in rw p refl) in
    let (rest, e) = trim_cons-plain b (trim_end bs) p in (rest, rw left (unfold trim_end in e))

pub trim_space_blank : (spaces : List ℕ) → All IsSpace spaces → trim_space spaces ≡ []
unfolding trim_left
trim_space_blank spaces h =
    let left : trim_left spaces ≡ [] = rw append-nil at (trim_left-spaces spaces [] h) in
    rw left (unfold trim_end in refl)

-- An integer is a word, and no comment begins with it.
All-IsPlain : (ds : List ℕ) → All IsDigit ds → All IsPlain ds
All-IsPlain [] h = tt
All-IsPlain (d ∷ ds) h = (ground (arith, h.0), All-IsPlain ds h.1)

pub print_int_cons :
    (z : ℤ)
    → (b : ℕ) × (bs : List ℕ) × (print_int z ≡ b ∷ bs) × All IsPlain (b ∷ bs) × ((b == 35) ≡ false)
unfolding print_int
print_int_cons (pos n) =
    let (b, bs, e, d, ds) = print_cons n in
    (b, bs, e, All-IsPlain (b ∷ bs) (d, ds), ground (arith, d))
print_int_cons (negsuc n) =
    let (b, bs, e, d, ds) = print_cons (suc n) in
    (45, b ∷ bs, ap (λ l. 45 ∷ l) e, (refl, All-IsPlain (b ∷ bs) (d, ds)), refl)
