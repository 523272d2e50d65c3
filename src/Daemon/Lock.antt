-- ===== src/Daemon/Lock.antt =====
-- What a pulse that is announced as locked has done.
use ts2phc_go.Common.{ℕ, ◌≤◌, ◌≡◌, Bool, true, false, List, [], ◌∷◌, if◌then◌else◌, arith}
use ts2phc_go.Common.Int.{ℤ, pos, neg_ℤ}
use ts2phc_go.Common.Word.{i64}
use ts2phc_go.Common.Float.{Float}
use ts2phc_go.Servo.{State, jump, reset, is_locked, sample}
use ts2phc_go.Servo.States.{sample-is_locked}
use ts2phc_go.Daemon.{
  Command, adj_freq, step_time, Clock, Device, is_outlier, obey, discipline_offset,
}

abbrev pub jumps : State → Bool
jumps jump = true
jumps _ = false

-- The steps among the commands.
abbrev pub steps : {W : Type 0} → List (Command W) → List ℤ
steps [] = []
steps (adj_freq freq ∷ cs) = steps cs
steps (step_time offset ∷ cs) = offset ∷ steps cs

module _ {W : Type 0} ⦃f : Float W⦄ where
  -- `lockedSample` is set only by a pulse that has passed the outlier gate, whose frequency, the
  -- negated one of the servo, is the one command sent and was taken by the device, and that leaves
  -- the servo of a target clock locked. The servo has one of its three counts, from 0 to 2.
  pub discipline_offset-locked :
      (d : Device) (c : Clock W) (offset : ℤ) (ts : ℕ)
      → c.servo.count ≤ 2
      → let (c', out, lockd) = discipline_offset d c offset ts in
        lockd ≡ true
        → (is_locked c'.servo ≡ true)
          × (is_outlier c.servo offset ≡ false)
          × (out ≡ adj_freq (f.neg (sample c.servo offset ts (f.literal (pos 10) 1)).1) ∷ [])
          × (d.freq_ok ≡ true)
          × (c.is_target ≡ true)
  unfolding discipline_offset obey
  discipline_offset-locked d c offset ts h l =
      ground (arith, sample-is_locked c.servo offset ts (f.literal (pos 10) 1) h)

  -- If the device does not take the frequency, a pulse that has passed the outlier gate leaves the
  -- servo, which has one of its three counts, unlocked and is not announced as locked, and nothing
  -- steps the clock.
  discipline_offset-failed :
      (d : Device) (c : Clock W) (offset : ℤ) (ts : ℕ)
      → c.servo.count ≤ 2
      → is_outlier c.servo offset ≡ false
      → d.freq_ok ≡ false
      → let (c', out, lockd) = discipline_offset d c offset ts in
        (is_locked c'.servo ≡ false) × (lockd ≡ false) × (steps out ≡ [])
  unfolding discipline_offset obey reset is_locked
  discipline_offset-failed d c offset ts h o e =
      ground (arith, sample-is_locked c.servo offset ts (f.literal (pos 10) 1) h)

  -- A device that takes the frequency is stepped exactly where the servo, given an offset within the
  -- outlier gate, says jump: once, by the negated offset, and the servo then starts over. In every
  -- other state there is no step, and the servo is left as the sample left it.
  discipline_offset-jump :
      (d : Device) (c : Clock W) (offset : ℤ) (ts : ℕ)
      → d.freq_ok ≡ true
      → is_outlier c.servo offset ≡ false
      → let (c', out, lockd) = discipline_offset d c offset ts in
        let (s, freq, state) = sample c.servo offset ts (f.literal (pos 10) 1) in
        (steps out ≡ (if jumps state then i64 (neg_ℤ offset) ∷ [] else []))
        × (c'.servo ≡ (if jumps state then reset s else s))
  unfolding discipline_offset obey
  discipline_offset-jump d c offset ts e o = ground arith
