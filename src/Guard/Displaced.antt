-- ===== src/Guard/Displaced.antt =====
-- A clock that stays displaced is acted on, and only a displaced clock is.
use mathlib.Core.List.{Memᴰ}
use ts2phc_go.Common.{
  ℕ, ◌+◌, ◌≤◌, ◌<◌, ◌≡◌, ◌≢◌, ◌⊎◌, inl, inr, refl, ap, ◌∙◌, true, false, List, [], ◌∷◌,
  if◌then◌else◌, arith, length, All,
}
use ts2phc_go.Common.Int.{pos, ltb_ℤ, ◌+ℤ◌, ◌-ℤ◌, ◌≤ℤ◌}
use ts2phc_go.Common.Float.{Float}
use ts2phc_go.Common.Time.{Time, sub_time}
use ts2phc_go.Guard.{
  Guard, Action, Tick, error, threshold, violates, bias_duration, count_violation, pulse, check,
  tick, actions,
}
use ts2phc_go.Guard.Streak.{acts, judge_lem}

-- Each tick is `gap` after the one before it.
abbrev pub AreSpread : ℕ → Time → List Tick → Type 0
AreSpread gap last [] = Unit {0}
AreSpread gap last (t ∷ ts) = (last +ℤ pos gap ≤ℤ t.now) × AreSpread gap t.now ts

late :
    (t u : Time) (gap : ℕ)
    → gap ≤ 9223372036854775807
    → u +ℤ pos gap ≤ℤ t
    → ltb_ℤ (sub_time t u) (pos gap) ≡ false
unfolding sub_time ◌+ℤ◌ ◌-ℤ◌
late t u gap h k = ground arith

module _ {W : Type 0} ⦃f : Float W⦄ where
  -- The judgement of an error reads the configuration and the bias alone.
  same_view :
      (g' g : Guard W) (phc tai : Time)
      → g'.cfg ≡ g.cfg
      → g'.bias ≡ g.bias
      → g'.bias_n ≡ g.bias_n
      → (error g' phc tai ≡ error g phc tai)
        × (violates g' (error g' phc tai) ≡ violates g (error g phc tai))
  unfolding violates threshold error bias_duration
  same_view g' g phc tai p q r = rw (p, q, r) (refl, refl)

  -- The count rises only at a tick whose two readings are valid and whose error is beyond the
  -- threshold.
  rise_violates :
      (g : Guard W) (t : Tick)
      → (tick g t).0.violations ≢ 0
      → (tick g t).0.violations ≢ g.violations
      → (t.phc_valid ≡ true) × (t.tai_valid ≡ true) × (violates g (error g t.phc t.tai) ≡ true)
  unfolding tick check pulse
  rise_violates g t p q =
      ground (arith, same_view (if t.ready then pulse g t.now else g) g t.phc t.tai)

  -- Both readings are valid, and they disagree by more than the threshold.
  pub record IsDisplaced (g : Guard W) (t : Tick) : Type 0 where
    pub phc_ok : t.phc_valid ≡ true
    pub tai_ok : t.tai_valid ≡ true
    pub beyond : violates g (error g t.phc t.tai) ≡ true

  displaced_tick :
      (gap : ℕ) (g : Guard W) (t : Tick)
      → g.cfg.violation_spacing ≡ pos gap
      → gap ≤ 9223372036854775807
      → g.last_violation +ℤ pos gap ≤ℤ t.now
      → IsDisplaced g t
      → let (g', action, err) = tick g t in
        (acts action ≡ true)
        ⊎ ((g'.cfg ≡ g.cfg)
            × (g'.bias ≡ g.bias)
            × (g'.bias_n ≡ g.bias_n)
            × (g'.last_violation ≡ t.now)
            × (g'.violations ≡ g.violations + 1)
            × (g'.violations < g.cfg.violations))
  unfolding tick check count_violation pulse
  displaced_tick gap g t p b l d =
      let q = if t.ready then pulse g t.now else g in
      ground (
        arith,
        late t.now g.last_violation gap b l,
        same_view q g t.phc t.tai,
        judge_lem (count_violation q t.now) t.now (error q t.phc t.tai),
      )

  IsDisplaced-later :
      (g' g : Guard W) (ts : List Tick)
      → g'.cfg ≡ g.cfg
      → g'.bias ≡ g.bias
      → g'.bias_n ≡ g.bias_n
      → All (IsDisplaced g) ts
      → All (IsDisplaced g') ts
  IsDisplaced-later g' g [] p q r h = tt
  IsDisplaced-later g' g (t ∷ ts) p q r h =
      let d = h.0 in
      let same = same_view g' g t.phc t.tai p q r in
      (
        record { phc_ok = d.phc_ok; tai_ok = d.tai_ok; beyond = same.1 ∙ d.beyond },
        IsDisplaced-later g' g ts p q r h.1,
      )

  -- While the clock stays displaced and the ticks are at least the violation spacing apart, as
  -- many ticks as are missing to the configured number of violations lead to a step or a refusal. The
  -- spacing is an int64 that is not negative.
  pub displaced_acts :
      (gap : ℕ) (g : Guard W) (ts : List Tick)
      → g.cfg.violation_spacing ≡ pos gap
      → gap ≤ 9223372036854775807
      → AreSpread gap g.last_violation ts
      → All (IsDisplaced g) ts
      → g.violations < g.cfg.violations
      → g.cfg.violations ≤ g.violations + length ts
      → (action : Action) × Memᴰ action (actions g ts) × (acts action ≡ true)
  unfolding actions
  displaced_acts gap g [] p b l d v n = absurd (omega arith)
  displaced_acts gap g (t ∷ ts) p b l d v n = elim (displaced_tick gap g t p b l.0 d.0) [
    | inl a ↦ ((tick g t).1, Memᴰ.head refl, a)
    | inr k ↦
        let g' = (tick g t).0 in
        let (action, m, a) =
          displaced_acts gap g' ts (ap (λ c. c.violation_spacing) k.0 ∙ p) b (rw (k.3) (l.1))
            (IsDisplaced-later g' g ts k.0 k.1 k.2 d.1) (ground (arith, k)) (ground (arith, k)) in
        (action, Memᴰ.tail m, a)
  ]
