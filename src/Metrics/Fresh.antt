-- ===== src/Metrics/Fresh.antt =====
-- The table exports the satellites of the last report, and no others.
use ts2phc_go.Common.{
  ℕ, ◌≡◌, ◌≢◌, refl, sym, ap, ◌∙◌, Bool, true, false, Bool-cases, inl, inr, Option-cases, none,
  some, List, [], ◌∷◌, ◌==◌, if◌then◌else◌, All, arith,
}
use ts2phc_go.Ubx.Msg.{SatInfo}
use ts2phc_go.Leap.Decimal.{print, IsDigit, print_cons}
use ts2phc_go.Metrics.{
  Labels, same_text, same_labels, exported, gps, sbas, galileo, beidou, qzss, glonass, gnss_name,
  labels_of, key_of, split_key, has_key, set_all, keys_of, Satellites, update_nav_sat,
}
use ts2phc_go.Metrics.Table.{
  same_text_refl, same_text_lem, same_labels_lem, same_labels_refl, reported, exported-set_all,
  IsPlain, split_key-key_of, purge-kept, purge-none, purge-gone,
}

-- Every series is known by its key, which names its labels.
pub record IsTracked (m : Satellites) : Type 0 where
  pub plain : (l : Labels) → exported l m.table ≢ none → IsPlain l
  pub seen : (l : Labels) → exported l m.table ≢ none → has_key (key_of l) m.sat_seen ≡ true

digits_plain : (ds : List ℕ) → All IsDigit ds → All (λ b. b ≢ 47) ds
digits_plain [] h = tt
digits_plain (d ∷ ds) h = ((λ e. omega (arith, e, h.0)), digits_plain ds h.1)

print_plain : (n : ℕ) → All (λ b. b ≢ 47) (print n)
print_plain n = let (b, bs, e, d, ds) = print_cons n in rw e (digits_plain (b ∷ bs) (d, ds))

abbrev no_slash : List ℕ → Bool
no_slash [] = true
no_slash (b ∷ bs) = if b == 47 then false else no_slash bs

no_slash_plain : (xs : List ℕ) → no_slash xs ≡ true → All (λ b. b ≢ 47) xs
no_slash_plain [] h = tt
no_slash_plain (b ∷ bs) h = ((λ e. ground (arith, h, e)), no_slash_plain bs (ground (arith, h)))

if_plain :
    (b : Bool) (xs ys : List ℕ)
    → All (λ c. c ≢ 47) xs
    → All (λ c. c ≢ 47) ys
    → All (λ c. c ≢ 47) (if b then xs else ys)
if_plain true xs ys h k = h
if_plain false xs ys h k = k

gnss_name_plain : (id : ℕ) → All (λ b. b ≢ 47) (gnss_name id)
unfolding gnss_name
gnss_name_plain id =
    if_plain (id == 0) gps
      (if id == 1
        then sbas
        else if id == 2
        then galileo
        else if id == 3
        then beidou
        else if id == 5
        then qzss
        else if id == 6
        then glonass
        else print id)
      (no_slash_plain gps refl)
      (if_plain (id == 1) sbas
        (if id == 2
          then galileo
          else if id == 3
          then beidou
          else if id == 5
          then qzss
          else if id == 6
          then glonass
          else print id)
        (no_slash_plain sbas refl)
        (if_plain (id == 2) galileo
          (if id == 3
            then beidou
            else if id == 5
            then qzss
            else if id == 6
            then glonass
            else print id)
          (no_slash_plain galileo refl)
          (if_plain (id == 3) beidou
            (if id == 5 then qzss else if id == 6 then glonass else print id)
            (no_slash_plain beidou refl)
            (if_plain (id == 5) qzss (if id == 6 then glonass else print id)
              (no_slash_plain qzss refl)
              (if_plain (id == 6) glonass (print id) (no_slash_plain glonass refl)
                (print_plain id))))))

reported-labels :
    (l : Labels) (svs : List SatInfo)
    → reported l svs ≢ none
    → IsPlain l × (has_key (key_of l) (keys_of svs) ≡ true)
unfolding reported has_key keys_of
reported-labels l [] h = absurd (h refl)
reported-labels l (sv ∷ svs) h = elim (Bool-cases (same_labels l (labels_of sv))) [
  | inl same ↦
      let e = same_labels_lem l (labels_of sv) same in
      let key : same_text (key_of l) (key_of (labels_of sv)) ≡ true =
        rw e (same_text_refl (key_of (labels_of sv))) in
      let name : l.gnss ≡ gnss_name sv.gnss_id = ap (λ x. x.gnss) e in
      (rw name (gnss_name_plain sv.gnss_id), rw key refl)
  | inr other ↦
      let (plain, key) = reported-labels l svs (λ n. h (rw (n, other) refl)) in
      (plain, ground (arith, key))
]

-- A key of the report belongs to a satellite of the report.
has_key-reported :
    (l : Labels) (svs : List SatInfo)
    → IsPlain l
    → has_key (key_of l) (keys_of svs) ≡ true
    → reported l svs ≢ none
unfolding reported has_key keys_of
has_key-reported l [] p h n = absurd (ground (arith, h))
has_key-reported l (sv ∷ svs) p h n =
    elim (Bool-cases (same_text (key_of l) (key_of (labels_of sv)))) [
      | inl same ↦
          let k = labels_of sv in
          let e : key_of l ≡ key_of k = same_text_lem (key_of l) (key_of k) same in
          let both : some l ≡ some k =
            sym (split_key-key_of l.gnss l.svid p)
            ∙ ap split_key e
            ∙ split_key-key_of k.gnss k.svid (gnss_name_plain sv.gnss_id) in
          let named : l ≡ k = cc (both) in
          let one : same_labels l k ≡ true = rw named (same_labels_refl k) in ground (arith, one, n)
      | inr other ↦ has_key-reported l svs p (ground (arith, h, other)) (ground (arith, n))
    ]

-- Behind an update each label exports what the report gives last for it, and a label that the
-- report does not have exports nothing.
pub exported-update :
    (m : Satellites) (svs : List SatInfo) (l : Labels)
    → IsTracked m
    → exported l (update_nav_sat m svs).table ≡ reported l svs
unfolding update_nav_sat
exported-update m svs l t =
    let set = exported-set_all l svs m.table in
    elim (Option-cases (reported l svs)) [
      | inr (v, e) ↦
          let (_, key) = reported-labels l svs (λ n. ground (arith, e, n)) in
          purge-kept l m.sat_seen (keys_of svs) (set_all svs m.table) key ∙ set ∙ rw e refl
      | inl e ↦ elim (Option-cases (exported l m.table)) [
        | inl n ↦
            purge-none l m.sat_seen (keys_of svs) (set_all svs m.table) (set ∙ rw (e, n) refl)
            ∙ sym e
        | inr (w, k) ↦
            let old : exported l m.table ≢ none = λ n. ground (arith, k, n) in
            elim (Bool-cases (has_key (key_of l) (keys_of svs))) [
              | inl again ↦ absurd (has_key-reported l svs (t.plain l old) again e)
              | inr gone ↦
                  purge-gone l m.sat_seen (keys_of svs) (set_all svs m.table) (t.plain l old)
                    (t.seen l old) gone
                  ∙ sym e
            ]
      ]
    ]

pub update_nav_sat-IsTracked :
    (m : Satellites) (svs : List SatInfo) → IsTracked m → IsTracked (update_nav_sat m svs)
update_nav_sat-IsTracked m svs t =
    let there : (l : Labels)
        → exported l (update_nav_sat m svs).table ≢ none
        → reported l svs ≢ none =
      λ l h n. h (exported-update m svs l t ∙ n) in
    record {
      plain = λ l h. (reported-labels l svs (there l h)).0;
      seen = λ l h. unfold update_nav_sat in (reported-labels l svs (there l h)).1;
    }
