-- ===== src/Guard/Step.antt =====
-- When `Check` demands a step, and what the step does to the error.
use ts2phc_go.Common.{ℕ, ◌+◌, ◌%◌, ◌≤◌, ◌≡◌, ◌⊎◌, not, ◌||◌, Bool, true, false, arith}
use ts2phc_go.Common.Int.{ℤ, pos, negsuc, abs_ℕ, ◌+ℤ◌, ◌-ℤ◌, neg_ℤ, ltb_ℤ, int_laws, -ℤ_parts}
use ts2phc_go.Common.Word.{IsI64, i64, i64_of_IsI64}
use ts2phc_go.Common.Float.{Float}
use ts2phc_go.Common.Time.{
  Time, Duration, second, neg_duration, sub_duration, round_second, round_second-IsI64,
  round_second_lem, sub-round_second,
}
use ts2phc_go.Guard.{
  Guard, Config, abs_duration, step, step_amount, step_trustworthy, error, violates, check,
}

module _ {W : Type 0} ⦃f : Float W⦄ where
  -- A step is demanded only when both readings are valid, the error is beyond the threshold, the
  -- violations that were counted before, and this one, reach the configured number, and the step is
  -- trustworthy.
  pub check-eq-step :
      (g : Guard W) (now phc : Time) (phc_valid : Bool) (tai : Time) (tai_valid : Bool)
      → (check g now phc phc_valid tai tai_valid).1 ≡ step
      → (phc_valid ≡ true)
        × (tai_valid ≡ true)
        × (violates g (error g phc tai) ≡ true)
        × (g.cfg.violations ≤ g.violations + 1)
        × (step_trustworthy g.cfg (error g phc tai) ≡ true)
  unfolding check
  check-eq-step g now phc pv tai tv h = ground arith

-- A negated duration wraps only at the least one.
neg_duration-cases :
    (d : Duration)
    → IsI64 d
    → (neg_duration d ≡ neg_ℤ d) ⊎ ((d ≡ negsuc 9223372036854775807) × (neg_duration d ≡ d))
unfolding i64 neg_ℤ
neg_duration-cases d h = ground arith

sub_duration-round :
    (d : Duration) → IsI64 d → sub_duration d (round_second d) ≡ d -ℤ round_second d
sub_duration-round d h = i64_of_IsI64 (d -ℤ round_second d) (ground (arith, sub-round_second d h))

abs-neg_ℤ : (d : ℤ) → abs_ℕ (neg_ℤ d) ≡ abs_ℕ d
unfolding neg_ℤ
abs-neg_ℤ d = ground arith

-- The two tests of `stepTrustworthy`, read over the integers.
module _ where
  in_bounds :
      (bound : ℕ) (m r : ℤ)
      → m ≡ pos bound
      → bound ≤ 9000000000000000000
      → IsI64 r
      → (ltb_ℤ m (neg_duration r) || ltb_ℤ (neg_duration r) (neg_duration m)) ≡ false
      → (neg_duration r ≡ neg_ℤ r) × (abs_ℕ r ≤ bound)
  unfolding i64 neg_ℤ
  in_bounds bound m r p h i e = ground arith

  within_slack :
      (slack : ℕ) (a frac : ℤ)
      → a ≡ pos slack
      → IsI64 frac
      → abs_ℕ frac ≤ second
      → not (ltb_ℤ a (abs_duration frac)) ≡ true
      → abs_ℕ frac ≤ slack
  unfolding i64 neg_ℤ
  within_slack slack a frac p i h e = ground arith

add-neg_ℤ : (d r : ℤ) → d +ℤ neg_ℤ r ≡ d -ℤ r
add-neg_ℤ d r = omega int_laws

trustworthy_tests :
    {W : Type 0} ⦃f : Float W⦄ (cfg : Config W) (err : Duration)
    → step_trustworthy cfg err ≡ true
    → ((ltb_ℤ cfg.max_step (step_amount err) || ltb_ℤ (step_amount err) (neg_duration cfg.max_step))
        ≡ false)
      × (not (ltb_ℤ cfg.ambiguity (abs_duration (sub_duration err (round_second err)))) ≡ true)
unfolding step_trustworthy
trustworthy_tests cfg err h = ground arith

module _ {W : Type 0} ⦃f : Float W⦄ where
  -- Every step that passes `stepTrustworthy` is a whole number of seconds, at most the step bound,
  -- and leaves an error of at most the ambiguity, for a configuration whose two bounds are not
  -- negative and whose step bound is at most 9 * 10^18 ns.
  pub step_amount_lem :
      (cfg : Config W) (err : Duration) (bound slack : ℕ)
      → cfg.max_step ≡ pos bound
      → cfg.ambiguity ≡ pos slack
      → IsI64 err
      → bound ≤ 9000000000000000000
      → step_trustworthy cfg err ≡ true
      → (abs_ℕ (step_amount err) % second ≡ 0)
        × (abs_ℕ (step_amount err) ≤ bound)
        × (abs_ℕ (err +ℤ step_amount err) ≤ slack)
  unfolding step_trustworthy step_amount
  step_amount_lem cfg err bound slack p q i b h =
      let r = round_second err in
      let tests = trustworthy_tests cfg err h in
      let half = sub-round_second err i in
      let exact = sub_duration-round err i in
      let near =
        within_slack slack cfg.ambiguity (err -ℤ r) q (ground (arith, half)) (ground (arith, half))
          (rw exact at (tests.1)) in
      let far = in_bounds bound cfg.max_step r p b (round_second-IsI64 err) tests.0 in
      let whole = round_second_lem err (ground (arith, far, half, -ℤ_parts err r)) in
      rw far.0 (rw (abs-neg_ℤ r) (whole.0), rw (abs-neg_ℤ r) far.1, rw (add-neg_ℤ err r) near)
