-- ===== src/Metrics.antt =====
-- The satellites that metrics/metrics.go exports, `UpdateNavSAT`. A label is a list of ASCII codes.
-- The four gauges of a satellite have the same labels and are set and deleted together: they are
-- one table here, from labels to the four values.
pub mod Table
pub mod Fresh
pub mod Runs
pub mod Gauges
use ts2phc_go.Common.{
  ℕ, zero, suc, ◌+◌, Bool, true, false, ◌&&◌, Option, none, some, List, [], ◌∷◌, ◌++◌, ◌==◌,
  if◌then◌else◌,
}
use ts2phc_go.Common.Int.{ℤ}
use ts2phc_go.Leap.Decimal.{print}
use ts2phc_go.Ubx.Msg.{SatInfo, sv_used}

unfoldable pub same_text : List ℕ → List ℕ → Bool
same_text [] [] = true
same_text [] (b ∷ bs) = false
same_text (a ∷ xs) [] = false
same_text (a ∷ xs) (b ∷ bs) = (a == b) && same_text xs bs

pub record Labels : Type 0 where
  pub gnss : List ℕ
  pub svid : List ℕ

abbrev pub same_labels : Labels → Labels → Bool
same_labels l k = same_text l.gnss k.gnss && same_text l.svid k.svid

pub record Values : Type 0 where
  pub cno : ℕ
  pub elev : ℤ
  pub azim : ℤ
  pub used : Bool

-- `WithLabelValues(l).Set(v)` and `DeleteLabelValues(l)` of the table, and what it exports for `l`.
unfoldable pub set_series : Labels → Values → List (Labels × Values) → List (Labels × Values)
set_series l v [] = (l, v) ∷ []
set_series l v ((k, w) ∷ table) =
    let rest = set_series l v table in if same_labels l k then (k, v) ∷ table else (k, w) ∷ rest

unfoldable pub delete_series : Labels → List (Labels × Values) → List (Labels × Values)
delete_series l [] = []
delete_series l ((k, w) ∷ table) =
    let rest = delete_series l table in if same_labels l k then rest else (k, w) ∷ rest

unfoldable pub exported : Labels → List (Labels × Values) → Option Values
exported l [] = none
exported l ((k, w) ∷ table) =
    let rest = exported l table in if same_labels l k then some w else rest

-- The names of `gnssNames`.
abbrev pub gps : List ℕ
gps = 103 ∷ 112 ∷ 115 ∷ []

abbrev pub sbas : List ℕ
sbas = 115 ∷ 98 ∷ 97 ∷ 115 ∷ []

abbrev pub galileo : List ℕ
galileo = 103 ∷ 97 ∷ 108 ∷ 105 ∷ 108 ∷ 101 ∷ 111 ∷ []

abbrev pub beidou : List ℕ
beidou = 98 ∷ 101 ∷ 105 ∷ 100 ∷ 111 ∷ 117 ∷ []

abbrev pub qzss : List ℕ
qzss = 113 ∷ 122 ∷ 115 ∷ 115 ∷ []

abbrev pub glonass : List ℕ
glonass = 103 ∷ 108 ∷ 111 ∷ 110 ∷ 97 ∷ 115 ∷ 115 ∷ []

-- `gnssNames`, and the number of a system that it does not have.
unfoldable pub gnss_name : ℕ → List ℕ
gnss_name id =
    if id == 0
    then gps
    else if id == 1
    then sbas
    else if id == 2
    then galileo
    else if id == 3
    then beidou
    else if id == 5
    then qzss
    else if id == 6
    then glonass
    else print id

abbrev pub labels_of : SatInfo → Labels
labels_of sv = record { gnss = gnss_name sv.gnss_id; svid = print sv.sv_id }

abbrev pub values_of : SatInfo → Values
values_of sv = record { cno = sv.cno; elev = sv.elev; azim = sv.azim; used = sv_used sv }

-- `gnss + "/" + svid`, and `strings.SplitN(key, "/", 2)`.
abbrev pub key_of : Labels → List ℕ
key_of l = l.gnss ++ (47 ∷ l.svid)

abbrev pub longer : ℕ → Option Labels → Option Labels
longer b none = none
longer b (some l) = some (record { gnss = b ∷ l.gnss; svid = l.svid })

unfoldable pub split_key : List ℕ → Option Labels
split_key [] = none
split_key (b ∷ bs) =
    let rest = longer b (split_key bs) in
    if b == 47 then some (record { gnss = []; svid = bs }) else rest

unfoldable pub has_key : List ℕ → List (List ℕ) → Bool
has_key k [] = false
has_key k (j ∷ js) = let rest = has_key k js in if same_text k j then true else rest

-- The loop over the report: the table, the keys and the number of satellites that are used.
unfoldable pub set_all : List SatInfo → List (Labels × Values) → List (Labels × Values)
unfolding set_series gnss_name
set_all [] table = table
set_all (sv ∷ svs) table = set_all svs (set_series (labels_of sv) (values_of sv) table)

unfoldable pub keys_of : List SatInfo → List (List ℕ)
unfolding gnss_name
keys_of [] = []
keys_of (sv ∷ svs) = key_of (labels_of sv) ∷ keys_of svs

unfoldable pub used_count : List SatInfo → ℕ
used_count [] = 0
used_count (sv ∷ svs) = let rest = used_count svs in if sv_used sv then suc rest else rest

-- The loop over the keys of the report before, in any order.
abbrev pub drop_key : Option Labels → List (Labels × Values) → List (Labels × Values)
drop_key none table = table
drop_key (some l) table = delete_series l table

unfoldable pub purge :
    List (List ℕ) → List (List ℕ) → List (Labels × Values) → List (Labels × Values)
unfolding split_key delete_series has_key
purge [] new table = table
purge (k ∷ ks) new table =
    purge ks new (if has_key k new then table else drop_key (split_key k) table)

-- The part of `Metrics` that the satellites are kept in.
pub record Satellites : Type 0 where
  pub table : List (Labels × Values)
  pub sat_seen : List (List ℕ)
  pub num_sv : ℕ

unfoldable pub update_nav_sat : Satellites → List SatInfo → Satellites
unfolding set_all keys_of used_count purge
update_nav_sat m svs = record {
  table = purge m.sat_seen (keys_of svs) (set_all svs m.table);
  sat_seen = keys_of svs;
  num_sv = used_count svs;
}
