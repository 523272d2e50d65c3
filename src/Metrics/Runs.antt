-- ===== src/Metrics/Runs.antt =====
-- The satellites behind a run of reports are those of the last one.
use ts2phc_go.Common.{◌≡◌, refl, List, [], ◌∷◌}
use ts2phc_go.Ubx.Msg.{SatInfo}
use ts2phc_go.Metrics.{Labels, exported, used_count, Satellites, update_nav_sat}
use ts2phc_go.Metrics.Table.{reported}
use ts2phc_go.Metrics.Fresh.{exported-update, update_nav_sat-IsTracked, IsTracked}

-- The updates of a run of reports, from the empty table on.
abbrev pub no_satellites : Satellites
no_satellites = record { table = []; sat_seen = []; num_sv = 0 }

unfoldable pub update_all : Satellites → List (List SatInfo) → Satellites
update_all m [] = m
update_all m (svs ∷ reports) = update_all (update_nav_sat m svs) reports

update_all-IsTracked :
    (m : Satellites) (reports : List (List SatInfo))
    → IsTracked m
    → IsTracked (update_all m reports)
unfolding update_all
update_all-IsTracked m [] t = t
update_all-IsTracked m (svs ∷ reports) t =
    update_all-IsTracked (update_nav_sat m svs) reports (update_nav_sat-IsTracked m svs t)

no_satellites-IsTracked : IsTracked no_satellites
unfolding exported
no_satellites-IsTracked = record { plain = λ l h. absurd (h refl); seen = λ l h. absurd (h refl) }

-- After any reports, one more report makes the table export, for each pair of labels, the values
-- that this report gives last for it, and nothing for the satellites that it does not have; the
-- number of used satellites is the report's.
update_nav_sat-fresh :
    (reports : List (List SatInfo)) (svs : List SatInfo) (l : Labels)
    → let m = update_nav_sat (update_all no_satellites reports) svs in
      (exported l m.table ≡ reported l svs) × (m.num_sv ≡ used_count svs)
update_nav_sat-fresh reports svs l =
    let tracked = update_all-IsTracked no_satellites reports no_satellites-IsTracked in
    (
      exported-update (update_all no_satellites reports) svs l tracked,
      unfold update_nav_sat in refl,
    )

-- The last report of a run, which has no satellites where there is none.
unfoldable pub last_of : List SatInfo → List (List SatInfo) → List SatInfo
last_of svs [] = svs
last_of svs (r ∷ reports) = last_of r reports

-- A table that is as the report `svs` left it is behind more reports as the last of them left it.
update_all-last :
    (m : Satellites) (svs : List SatInfo) (reports : List (List SatInfo)) (l : Labels)
    → IsTracked m
    → exported l m.table ≡ reported l svs
    → m.num_sv ≡ used_count svs
    → (exported l (update_all m reports).table ≡ reported l (last_of svs reports))
      × ((update_all m reports).num_sv ≡ used_count (last_of svs reports))
unfolding update_all last_of
update_all-last m svs [] l t e n = (e, n)
update_all-last m svs (r ∷ reports) l t e n =
    update_all-last (update_nav_sat m r) r reports l (update_nav_sat-IsTracked m r t)
      (exported-update m r l t) (unfold update_nav_sat in refl)

pub update_all-fresh :
    (reports : List (List SatInfo)) (l : Labels)
    → let m = update_all no_satellites reports in
      (exported l m.table ≡ reported l (last_of [] reports))
      × (m.num_sv ≡ used_count (last_of [] reports))
update_all-fresh reports l =
    update_all-last no_satellites [] reports l no_satellites-IsTracked
      (unfold exported in unfold reported in refl) (unfold used_count in refl)
