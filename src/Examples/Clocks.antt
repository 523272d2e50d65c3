-- ===== src/Examples/Clocks.antt =====
-- The guard, the loop, the announcements and the steps.
use mathlib.Core.List.{Memᴰ}
use ts2phc_go.Common.{
  ℕ, suc, ◌+◌, ◌*◌, ◌%◌, ◌≤◌, ◌≡◌, refl, true, false, List, [], ◌∷◌, length, All, arith,
}
use ts2phc_go.Common.Int.{ℤ, pos, negsuc, abs_ℕ, ◌+ℤ◌, ◌-ℤ◌, ◌*ℤ◌, ◌≤ℤ◌, ◌<ℤ◌, neg_ℤ}
use ts2phc_go.Common.Time.{second, sub_time, round_second}
use ts2phc_go.Common.Word.{two63, i64}
use ts2phc_go.Examples.Whole.{whole}
use ts2phc_go.Guard.{
  Guard, Tick, Action, step, default_config, new, error, violates, step_trustworthy, step_amount,
  check, tick, run, actions, threshold,
}
use ts2phc_go.Guard.Step.{check-eq-step, step_amount_lem}
use ts2phc_go.Guard.Streak.{acts, AreSpaced, oldest, rises_run, step_takes_time}
use ts2phc_go.Guard.Displaced.{IsDisplaced, AreSpread, displaced_acts}
use ts2phc_go.Phc.{step_timeval}
use ts2phc_go.Phc.Step.{step_timeval_exact}

abbrev fresh : Guard ℤ
fresh = new default_config (pos 1000000000)

-- Four violations counted, the last one long ago.
abbrev warned : Guard ℤ
warned = record fresh { violations = 4; last_violation = pos 2000000000 }

warned_steps :
    (check warned (pos 9000000000) (pos 13000000000) true (pos 10000000000) true).1 ≡ step
unfolding check error violates step_trustworthy step_amount threshold new sub_time ◌-ℤ◌ i64 neg_ℤ
    round_second
warned_steps = refl

check-eq-step_example :
    (true ≡ true)
    × (true ≡ true)
    × (violates warned (error warned (pos 13000000000) (pos 10000000000)) ≡ true)
    × (warned.cfg.violations ≤ warned.violations + 1)
    × (step_trustworthy warned.cfg (error warned (pos 13000000000) (pos 10000000000)) ≡ true)
check-eq-step_example =
    check-eq-step warned (pos 9000000000) (pos 13000000000) true (pos 10000000000) true warned_steps

trusted : step_trustworthy (default_config {W = ℤ}) (pos 3020000000) ≡ true
unfolding step_trustworthy step_amount i64 neg_ℤ round_second ◌-ℤ◌
trusted = refl

step_amount_lem_example :
    (abs_ℕ (step_amount (pos 3020000000)) % second ≡ 0)
    × (abs_ℕ (step_amount (pos 3020000000)) ≤ 500000000000)
    × (abs_ℕ (pos 3020000000 +ℤ step_amount (pos 3020000000)) ≤ 150000000)
step_amount_lem_example =
    step_amount_lem default_config (pos 3020000000) 500000000000 150000000 refl refl (ground arith)
      (omega arith) trusted

-- A tick at `n` seconds without a pulse, with a clock three seconds ahead.
abbrev ahead : ℕ → Tick
ahead n = record {
  now = pos (n * 1000000000);
  ready = false;
  phc = pos (n * 1000000000 + 3000000000);
  phc_valid = true;
  tai = pos (n * 1000000000);
  tai_valid = true;
}

abbrev four_ticks : List Tick
four_ticks = ahead 10 ∷ ahead 11 ∷ ahead 12 ∷ ahead 13 ∷ []

fifth_acts : acts (tick (run fresh four_ticks) (ahead 14)).1 ≡ true
unfolding run tick check error violates step_trustworthy step_amount threshold new sub_time ◌-ℤ◌ i64
    neg_ℤ round_second
fifth_acts = refl

step_takes_time_example :
    let times = rises_run fresh [] four_ticks in
    (5 ≤ suc (length times))
    × AreSpaced 500000000 (pos 14000000000 ∷ times)
    × (oldest (pos 14000000000) times +ℤ pos (length times * 500000000) ≤ℤ pos 14000000000)
step_takes_time_example =
    step_takes_time 500000000 default_config (pos 1000000000) four_ticks (ahead 14) refl
      (omega arith) (ground arith) (ground arith) fifth_acts

is_ahead :
    (n : ℕ)
    → violates fresh (error fresh (ahead n).phc (ahead n).tai) ≡ true
    → IsDisplaced fresh (ahead n)
is_ahead n h = record { phc_ok = refl; tai_ok = refl; beyond = h }

abbrev five_ticks : List Tick
five_ticks = ahead 10 ∷ ahead 11 ∷ ahead 12 ∷ ahead 13 ∷ ahead 14 ∷ []

five_ahead : All (IsDisplaced fresh) five_ticks
unfolding violates error threshold new sub_time ◌-ℤ◌
five_ahead = (
  is_ahead 10 refl,
  (is_ahead 11 refl, (is_ahead 12 refl, (is_ahead 13 refl, (is_ahead 14 refl, tt)))),
)

five_apart : AreSpread 500000000 (pos 0) five_ticks
unfolding ◌+ℤ◌
five_apart = ground arith

displaced_acts_example :
    (action : Action) × Memᴰ action (actions fresh five_ticks) × (acts action ≡ true)
unfolding new
displaced_acts_example =
    displaced_acts 500000000 fresh five_ticks refl (omega arith) five_apart five_ahead (omega arith)
      (omega arith)

step_timeval_exact_example :
    ((step_timeval two63 (negsuc 2499999999)).sec *ℤ pos second
        +ℤ (step_timeval two63 (negsuc 2499999999)).usec
      ≡ negsuc 2499999999)
    × (pos 0 ≤ℤ (step_timeval two63 (negsuc 2499999999)).usec)
    × ((step_timeval two63 (negsuc 2499999999)).usec <ℤ pos second)
step_timeval_exact_example = step_timeval_exact (negsuc 2499999999) (ground arith) (ground arith)
