-- ===== src/Guard/Rearm.antt =====
-- When the guard demands a re-arm, and how often.
use ts2phc_go.Common.{ℕ, ◌≡◌, ◌≢◌, ◌⊎◌, ap, ◌∙◌, Bool, true, false, ◌&&◌, List, [], ◌∷◌, arith}
use ts2phc_go.Common.Int.{pos, ◌+ℤ◌, ◌<ℤ◌}
use ts2phc_go.Common.Float.{Float}
use ts2phc_go.Common.Time.{Time, Duration, lt-sub_time}
use ts2phc_go.Guard.{Guard, Action, Tick, none, rearm, step, refuse, error, violates, check, tick}

-- Each time is more than `gap` after the one before it.
abbrev pub AreApart : Duration → Time → List Time → Type 0
AreApart gap t [] = Unit {0}
AreApart gap t (u ∷ us) = (t +ℤ gap <ℤ u) × AreApart gap u us

abbrev pub note_rearm : Action → Time → List Time → List Time
note_rearm rearm now us = now ∷ us
note_rearm _ now us = us

AreApart-note :
    (gap : ℕ) (action : Action) (last last' now : Time) (us : List Time)
    → (((action ≡ rearm) × (last +ℤ pos gap <ℤ now) × (last' ≡ now))
        ⊎ ((action ≢ rearm) × (last' ≡ last)))
    → AreApart (pos gap) last' us
    → AreApart (pos gap) last (note_rearm action now us)
AreApart-note gap rearm last last' now us h k = ground arith
AreApart-note gap none last last' now us h k = ground arith
AreApart-note gap step last last' now us h k = ground arith
AreApart-note gap refuse last last' now us h k = ground arith

module _ {W : Type 0} ⦃f : Float W⦄ where
  -- The times at which a run of ticks demands a re-arm.
  pub rearm_times : Guard W → List Tick → List Time
  rearm_times g [] = []
  rearm_times g (t ∷ ts) =
      let (g', action, err) = tick g t in note_rearm action t.now (rearm_times g' ts)

  -- Without two valid readings the guard neither steps nor refuses, keeps the violations that it
  -- has counted, and reports no error.
  check_unverified :
      (g : Guard W) (now phc : Time) (phc_valid : Bool) (tai : Time) (tai_valid : Bool)
      → (phc_valid && tai_valid) ≡ false
      → let (g', action, err) = check g now phc phc_valid tai tai_valid in
        ((action ≡ none) ⊎ (action ≡ rearm))
        × (g'.violations ≡ g.violations)
        × (g'.last_violation ≡ g.last_violation)
        × (err ≡ pos 0)
  unfolding check
  check_unverified g now phc pv tai tv h = ground arith

  -- With two valid readings that agree the guard neither steps nor refuses, and forgets the
  -- violations that it has counted.
  check_healthy :
      (g : Guard W) (now phc tai : Time)
      → violates g (error g phc tai) ≡ false
      → let (g', action, err) = check g now phc true tai true in
        ((action ≡ none) ⊎ (action ≡ rearm)) × (g'.violations ≡ 0) × (err ≡ error g phc tai)
  unfolding check
  check_healthy g now phc tai h = ground arith

  -- One tick: a re-arm comes only behind the timeout, and it alone moves the last re-arm.
  tick-rearm :
      (g : Guard W) (t : Tick) (gap : ℕ)
      → g.cfg.pulse_timeout ≡ pos gap
      → let (g', action, err) = tick g t in
        (g'.cfg ≡ g.cfg)
        × (((action ≡ rearm) × (g.last_rearm +ℤ pos gap <ℤ t.now) × (g'.last_rearm ≡ t.now))
            ⊎ ((action ≢ rearm) × (g'.last_rearm ≡ g.last_rearm)))
  unfolding tick check
  tick-rearm g t gap h = ground (arith, lt-sub_time t.now g.last_rearm gap)

  -- In any run of ticks, each re-arm comes more than the pulse timeout, which is not negative, after
  -- the one before it.
  rearm_times-AreApart :
      (g : Guard W) (ts : List Tick) (gap : ℕ)
      → g.cfg.pulse_timeout ≡ pos gap
      → AreApart (pos gap) g.last_rearm (rearm_times g ts)
  unfolding rearm_times
  rearm_times-AreApart g [] gap h = tt
  rearm_times-AreApart g (t ∷ ts) gap h =
      let (same, moved) = tick-rearm g t gap h in
      AreApart-note gap (tick g t).1 g.last_rearm (tick g t).0.last_rearm t.now
        (rearm_times (tick g t).0 ts) moved
        (rearm_times-AreApart (tick g t).0 ts gap (ap (λ c. c.pulse_timeout) same ∙ h))
