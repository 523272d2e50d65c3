-- ===== src/Metrics/Table.antt =====
-- What the table exports behind the updates of a report and the deletions.
use ts2phc_go.Common.{
  ℕ, ◌≡◌, ◌≢◌, refl, sym, ap, ◌∙◌, true, false, Bool-cases, inl, inr, Option-cases, Option, none,
  some, List, [], ◌∷◌, ◌++◌, ◌==◌, if◌then◌else◌, All, arith,
}
use ts2phc_go.Ubx.Msg.{SatInfo}
use ts2phc_go.Metrics.{
  Labels, Values, same_text, same_labels, set_series, delete_series, exported, labels_of, values_of,
  key_of, split_key, has_key, set_all, drop_key, purge,
}

pub same_text_refl : (xs : List ℕ) → same_text xs xs ≡ true
unfolding same_text
same_text_refl [] = refl
same_text_refl (x ∷ xs) = ground (arith, same_text_refl xs)

pub same_text_lem : (xs ys : List ℕ) → same_text xs ys ≡ true → xs ≡ ys
unfolding same_text
same_text_lem [] [] h = refl
same_text_lem [] (y ∷ ys) h = absurd (ground (arith, h))
same_text_lem (x ∷ xs) [] h = absurd (ground (arith, h))
same_text_lem (x ∷ xs) (y ∷ ys) h =
    let e : x ≡ y = ground (arith, h) in
    let t : xs ≡ ys = same_text_lem xs ys (ground (arith, h)) in cc (e, t)

pub same_labels_lem : (l k : Labels) → same_labels l k ≡ true → l ≡ k
same_labels_lem l k h =
    let e = same_text_lem l.gnss k.gnss (ground (arith, h)) in
    let t = same_text_lem l.svid k.svid (ground (arith, h)) in cc (e, t)

pub same_labels_refl : (l : Labels) → same_labels l l ≡ true
same_labels_refl l = ground (arith, same_text_refl l.gnss, same_text_refl l.svid)

-- A label that is `j` is not `k`.
other_labels :
    (l k j : Labels) → same_labels l j ≡ true → same_labels k j ≡ false → same_labels l k ≡ false
other_labels l k j here other = elim (Bool-cases (same_labels l k)) [
  | inr no_match ↦ no_match
  | inl both ↦
      let e : k ≡ j = sym (same_labels_lem l k both) ∙ same_labels_lem l j here in
      let same : same_labels k j ≡ true = rw e (same_labels_refl j) in
      absurd (ground (arith, other, same))
]

exported-set_series :
    (l k : Labels) (v : Values) (table : List (Labels × Values))
    → exported l (set_series k v table) ≡ (if same_labels l k then some v else exported l table)
unfolding exported set_series
exported-set_series l k v [] = refl
exported-set_series l k v ((j, w) ∷ table) = elim (Bool-cases (same_labels k j)) [
  | inl same ↦ rw (same, same_labels_lem k j same) (ground arith)
  | inr other ↦ rw other (elim (Bool-cases (same_labels l j)) [
    | inl here ↦ rw (here, exported) (rw (other_labels l k j here other) refl)
    | inr away ↦ rw away (exported-set_series l k v table)
  ])
]

exported-delete_series :
    (l k : Labels) (table : List (Labels × Values))
    → exported l (delete_series k table) ≡ (if same_labels l k then none else exported l table)
unfolding exported delete_series
exported-delete_series l k [] = ground arith
exported-delete_series l k ((j, w) ∷ table) =
    let more = exported-delete_series l k table in
    elim (Bool-cases (same_labels k j)) [
      | inl same ↦ rw (same, ← same_labels_lem k j same, more) (ground arith)
      | inr other ↦ rw other (elim (Bool-cases (same_labels l j)) [
        | inl here ↦ rw (here, other_labels l k j here other) refl
        | inr away ↦ rw away more
      ])
    ]

-- The values that a report gives last for the labels.
abbrev pub latest : Option Values → Option Values → Option Values
latest none o = o
latest (some v) o = some v

unfoldable pub reported : Labels → List SatInfo → Option Values
reported l [] = none
reported l (sv ∷ svs) =
    latest (reported l svs) (if same_labels l (labels_of sv) then some (values_of sv) else none)

pub exported-set_all :
    (l : Labels) (svs : List SatInfo) (table : List (Labels × Values))
    → exported l (set_all svs table) ≡ latest (reported l svs) (exported l table)
unfolding set_all reported
exported-set_all l [] table = refl
exported-set_all l (sv ∷ svs) table =
    exported-set_all l svs (set_series (labels_of sv) (values_of sv) table)
    ∙ (rw (exported-set_series l (labels_of sv) (values_of sv) table) (ground arith))

-- No slash stands in the first label, so that the key names both.
abbrev pub IsPlain : Labels → Type 0
IsPlain l = All (λ b. b ≢ 47) l.gnss

pub split_key-key_of :
    (gnss svid : List ℕ)
    → All (λ b. b ≢ 47) gnss
    → split_key (gnss ++ (47 ∷ svid)) ≡ some (record { gnss = gnss; svid = svid })
unfolding split_key
split_key-key_of [] svid h = refl
split_key-key_of (b ∷ gnss) svid h = ground (arith, h.0, split_key-key_of gnss svid h.1)

key_of-split_key : (k : List ℕ) (l : Labels) → split_key k ≡ some l → key_of l ≡ k
unfolding split_key
key_of-split_key [] l h = absurd (ground (arith, h))
key_of-split_key (b ∷ bs) l h = elim (Bool-cases (b == 47)) [
  | inl slash ↦ ground (arith, slash, h)
  | inr letter ↦ elim (Option-cases (split_key bs)) [
    | inl e ↦ absurd (ground (arith, letter, e, h))
    | inr (k, e) ↦ ground (arith, letter, e, h, key_of-split_key bs k e)
  ]
]

-- Deleting what is not among the new keys keeps the series that are, and brings nothing back.
dropped :
    (l : Labels) (new : List (List ℕ)) (k : List ℕ) (table : List (Labels × Values))
    → has_key (key_of l) new ≡ true
    → has_key k new ≡ false
    → exported l (drop_key (split_key k) table) ≡ exported l table
dropped l new k table h n = elim (Option-cases (split_key k)) [
  | inl e ↦ rw e refl
  | inr (j, e) ↦ elim (Bool-cases (same_labels l j)) [
    | inl same ↦
        let named : key_of l ≡ k = ap key_of (same_labels_lem l j same) ∙ key_of-split_key k j e in
        let clash : has_key (key_of l) new ≡ false = rw named n in absurd (ground (arith, h, clash))
    | inr other ↦ rw (e, exported-delete_series l j table, other) refl
  ]
]

pub purge-kept :
    (l : Labels) (ks new : List (List ℕ)) (table : List (Labels × Values))
    → has_key (key_of l) new ≡ true
    → exported l (purge ks new table) ≡ exported l table
unfolding purge
purge-kept l [] new table h = refl
purge-kept l (k ∷ ks) new table h = elim (Bool-cases (has_key k new)) [
  | inl there ↦ rw (there, purge) (purge-kept l ks new table h)
  | inr gone ↦
      rw (gone, purge)
        (purge-kept l ks new (drop_key (split_key k) table) h ∙ dropped l new k table h gone)
]

drop_key-none :
    (l : Labels) (o : Option Labels) (table : List (Labels × Values))
    → exported l table ≡ none
    → exported l (drop_key o table) ≡ none
drop_key-none l none table h = h
drop_key-none l (some j) table h = rw (exported-delete_series l j table) (ground (arith, h))

pub purge-none :
    (l : Labels) (ks new : List (List ℕ)) (table : List (Labels × Values))
    → exported l table ≡ none
    → exported l (purge ks new table) ≡ none
unfolding purge
purge-none l [] new table h = h
purge-none l (k ∷ ks) new table h = elim (Bool-cases (has_key k new)) [
  | inl there ↦ rw (there, purge) (purge-none l ks new table h)
  | inr gone ↦
      rw (gone, purge)
        (purge-none l ks new (drop_key (split_key k) table) (drop_key-none l (split_key k) table h))
]

pub purge-gone :
    (l : Labels) (ks new : List (List ℕ)) (table : List (Labels × Values))
    → IsPlain l
    → has_key (key_of l) ks ≡ true
    → has_key (key_of l) new ≡ false
    → exported l (purge ks new table) ≡ none
unfolding purge
purge-gone l [] new table p h n = absurd (unfold has_key in ground (arith, h))
purge-gone l (k ∷ ks) new table p h n = elim (Bool-cases (same_text (key_of l) k)) [
  | inl same ↦
      let e : key_of l ≡ k = same_text_lem (key_of l) k same in
      let gone : has_key k new ≡ false = rw (← e) n in
      let split : split_key k ≡ some l = rw (← e) (split_key-key_of l.gnss l.svid p) in
      rw (gone, purge)
        (purge-none l ks new (drop_key (split_key k) table)
          (rw (split, exported-delete_series l l table, same_labels_refl l) refl))
  | inr other ↦
      let later : has_key (key_of l) ks ≡ true = unfold has_key in ground (arith, h, other) in
      purge-gone l ks new (if has_key k new then table else drop_key (split_key k) table) p later n
]
