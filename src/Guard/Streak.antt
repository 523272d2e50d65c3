-- ===== src/Guard/Streak.antt =====
-- The violations that the guard counts: how they are spaced, and that they lead to an action.
use ts2phc_go.Common.{
  ℕ, suc, ◌+◌, ◌*◌, ◌≤◌, ◌<◌, ◌≡◌, ◌⊎◌, refl, ◌∙◌, Bool, true, false, List, [], ◌∷◌, ◌==◌,
  if◌then◌else◌, arith, length, All,
}
use ts2phc_go.Common.Int.{pos, ◌+ℤ◌, ◌≤ℤ◌, ◌<ℤ◌, int_laws}
use ts2phc_go.Common.Float.{Float}
use ts2phc_go.Common.Time.{Time, Duration, le-sub_time}
use ts2phc_go.Guard.{
  Guard, Config, new, Action, Tick, step, refuse, error, count_violation, check_pulse, judge, pulse,
  check, tick, run,
}

-- Newest first, each time at least `gap` after the next.
abbrev pub AreSpaced : ℕ → List Time → Type 0
AreSpaced gap [] = Unit {0}
AreSpaced gap (t ∷ []) = Unit {0}
AreSpaced gap (t ∷ u ∷ us) = (u +ℤ pos gap ≤ℤ t) × AreSpaced gap (u ∷ us)

abbrev pub IsNewest : List Time → Time → Type 0
IsNewest [] t = Unit {0}
IsNewest (u ∷ us) t = (t ≡ u) × (pos 0 <ℤ u)

abbrev pub oldest : Time → List Time → Time
oldest t [] = t
oldest t (u ∷ us) = oldest u us

-- Spaced times span at least the gaps between them.
pub AreSpaced-oldest :
    (gap : ℕ) (t : Time) (us : List Time)
    → AreSpaced gap (t ∷ us)
    → oldest t us +ℤ pos (length us * gap) ≤ℤ t
AreSpaced-oldest gap t [] h = omega int_laws
AreSpaced-oldest gap t (u ∷ us) h = omega (int_laws, AreSpaced-oldest gap u us h.1)

-- A step or a refusal: the violations were enough.
abbrev pub acts : Action → Bool
acts step = true
acts refuse = true
acts _ = false

module _ {W : Type 0} ⦃f : Float W⦄ where
  -- The counted violations are those at `times`.
  pub record IsStreak (gap : ℕ) (g : Guard W) (times : List Time) : Type 0 where
    pub spacing : g.cfg.violation_spacing ≡ pos gap
    pub counted : g.violations ≡ length times
    pub newest : IsNewest times g.last_violation
    pub spaced : AreSpaced gap times

  -- The ticks at which the count has risen since it was last zero, newest first.
  abbrev pub rises : Guard W → List Time → Tick → List Time
  rises g times t =
      let g' = (tick g t).0 in
      if g'.violations == 0
      then []
      else if g'.violations == g.violations
      then times
      else t.now ∷ times

  count-IsStreak :
      (gap : ℕ) (g : Guard W) (times : List Time) (now : Time)
      → pos 0 <ℤ now
      → IsStreak gap g times
      → let g' = count_violation g now in
        (g'.cfg ≡ g.cfg)
        × ((g' ≡ g) ⊎ (IsStreak gap g' (now ∷ times) × (g'.violations ≡ g.violations + 1)))
  unfolding count_violation
  count-IsStreak gap g [] now h s = ground arith
  count-IsStreak gap g (u ∷ us) now h s = ground (arith, le-sub_time now g.last_violation gap)

  pub judge_lem :
      (g : Guard W) (now : Time) (err : Duration)
      → let (g', action, e) = judge g now err in
        (g'.cfg ≡ g.cfg)
        × (g'.last_violation ≡ g.last_violation)
        × (((g'.violations ≡ 0) × (g.cfg.violations ≤ g.violations) × (acts action ≡ true))
            ⊎ ((g'.violations ≡ g.violations)
                × (g.violations < g.cfg.violations)
                × (acts action ≡ false)))
        × (g'.bias ≡ g.bias)
        × (g'.bias_n ≡ g.bias_n)
  unfolding judge check_pulse
  judge_lem g now err = ground arith

  check_pulse_lem :
      (g : Guard W) (now : Time) (err : Duration)
      → let (g', action, e) = check_pulse g now err in
        (g'.cfg ≡ g.cfg)
        × (g'.last_violation ≡ g.last_violation)
        × (g'.violations ≡ g.violations)
        × (acts action ≡ false)
  unfolding check_pulse
  check_pulse_lem g now err = ground arith

  -- The outcome of one tick for the count: forgotten, kept, or one more.
  record Outcome (gap : ℕ) (g : Guard W) (times : List Time) (t : Tick) (g' : Guard W)
      (action : Action) : Type 0 where
    same_cfg : g'.cfg ≡ g.cfg
    below : g'.violations < g.cfg.violations
    streak :
        ((g'.violations ≡ 0)
          × (acts action ≡ true
              → AreSpaced gap (t.now ∷ times) × (g.cfg.violations ≤ suc (length times))))
        ⊎ ((g'.violations ≡ g.violations)
            × (g'.last_violation ≡ g.last_violation)
            × (acts action ≡ false))
        ⊎ ((g'.violations ≡ g.violations + 1)
            × IsStreak gap g' (t.now ∷ times)
            × (acts action ≡ false))

  judge-Outcome :
      (gap : ℕ) (g : Guard W) (times : List Time) (t : Tick) (err : Duration)
      → pos 0 <ℤ t.now
      → IsStreak gap g times
      → g.violations < g.cfg.violations
      → let (g', action, e) = judge (count_violation g t.now) t.now err in
        Outcome gap g times t g' action
  judge-Outcome gap g times t err h s b =
      ground
        (arith, count-IsStreak gap g times t.now h s, judge_lem (count_violation g t.now) t.now err)

  tick-Outcome :
      (gap : ℕ) (g : Guard W) (times : List Time) (t : Tick)
      → pos 0 <ℤ t.now
      → IsStreak gap g times
      → g.violations < g.cfg.violations
      → Outcome gap g times t (tick g t).0 (tick g t).1
  unfolding tick check pulse
  tick-Outcome gap g times t h s b =
      let p = if t.ready then pulse g t.now else g in
      let err = error p t.phc t.tai in
      ground (
        arith,
        judge-Outcome gap p times t err h,
        check_pulse_lem p t.now (pos 0),
        check_pulse_lem (record p { violations = 0 }) t.now err,
      )

  tick-IsStreak :
      (gap : ℕ) (g : Guard W) (times : List Time) (t : Tick)
      → IsStreak gap g times
      → Outcome gap g times t (tick g t).0 (tick g t).1
      → IsStreak gap (tick g t).0 (rises g times t)
  tick-IsStreak gap g [] t s o = ground arith
  tick-IsStreak gap g (u ∷ us) t s o = ground arith

  -- The rises of a whole run.
  pub rises_run : Guard W → List Time → List Tick → List Time
  rises_run g times [] = times
  rises_run g times (t ∷ ts) = rises_run (tick g t).0 (rises g times t) ts

  run-IsStreak :
      (gap : ℕ) (g : Guard W) (times : List Time) (ts : List Tick)
      → All (λ t. pos 0 <ℤ t.now) ts
      → IsStreak gap g times
      → g.violations < g.cfg.violations
      → IsStreak gap (run g ts) (rises_run g times ts)
        × ((run g ts).violations < (run g ts).cfg.violations)
        × ((run g ts).cfg ≡ g.cfg)
  unfolding run rises_run
  run-IsStreak gap g times [] h s b = (s, b, refl)
  run-IsStreak gap g times (t ∷ ts) h s b =
      let o = tick-Outcome gap g times t h.0 s b in
      let (s', b', c) =
        run-IsStreak gap (tick g t).0 (rises g times t) ts h.1 (tick-IsStreak gap g times t s o)
          (ground (arith, o)) in
      (s', b', c ∙ o.same_cfg)

  -- A guard that has just started steps or refuses only after the configured number of ticks has
  -- raised the count with no reset between them, this one included. Each of these ticks comes the
  -- configured gap or more behind the one before it, so the oldest lies back by one gap fewer, at
  -- least, than there are such ticks. The gap is not negative, at least one violation is asked for,
  -- and all ticks come after the zero Time.
  pub step_takes_time :
      (gap : ℕ) (cfg : Config W) (start : Time) (ts : List Tick) (t : Tick)
      → cfg.violation_spacing ≡ pos gap
      → 0 < cfg.violations
      → All (λ u. pos 0 <ℤ u.now) ts
      → pos 0 <ℤ t.now
      → acts (tick (run (new cfg start) ts) t).1 ≡ true
      → let times = rises_run (new cfg start) [] ts in
        (cfg.violations ≤ suc (length times))
        × AreSpaced gap (t.now ∷ times)
        × (oldest t.now times +ℤ pos (length times * gap) ≤ℤ t.now)
  unfolding new
  step_takes_time gap cfg start ts t p n hs h a =
      let g = new cfg start in
      let s0 : IsStreak gap g [] = record {
        spacing = p;
        counted = refl;
        newest = tt;
        spaced = tt;
      } in
      let (s, b, c) = run-IsStreak gap g [] ts hs s0 n in
      let o = tick-Outcome gap (run g ts) (rises_run g [] ts) t h s b in
      let enough : AreSpaced gap (t.now ∷ rises_run g [] ts)
          × (cfg.violations ≤ suc (length (rises_run g [] ts))) =
        ground (arith, o) in
      (enough.1, enough.0, AreSpaced-oldest gap t.now (rises_run g [] ts) enough.0)
