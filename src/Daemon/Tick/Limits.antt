-- ===== src/Daemon/Tick/Limits.antt =====
-- The frequencies that the loop sends to the PHC, over any number of turns.
use ts2phc_go.Common.{
  ℕ, ◌≡◌, sym, ap, ◌∙◌, Bool, false, inl, inr, List, [], ◌∷◌, All, All-append, arith,
}
use ts2phc_go.Common.Int.{ℤ, pos}
use ts2phc_go.Common.Float.{Float, IsOrdered, IsSigned}
use ts2phc_go.Common.Time.{Duration}
use ts2phc_go.Guard.{Action, tick}
use ts2phc_go.Servo.{PiServo, State, unlocked, jump, locked, locked_stable, Sample, sample, reset}
use ts2phc_go.Servo.Bounds.{IsWithin, sample-IsWithin}
use ts2phc_go.Daemon.{
  Command, adj_freq, step_time, Clock, Device, count_outlier, obey, discipline_offset,
}
use ts2phc_go.Daemon.Tick.{Loop, Turn, guard_tick, polled, obey_guard, take_pulse, turn, commands}
use ts2phc_go.Daemon.Tick.Invariant.{take_pulse-cases}

module _ {W : Type 0} ⦃f : Float W⦄ where
  -- A frequency that is sent does not compare outside [-max, max].
  pub IsBounded : W → Command W → Type 0
  IsBounded max (adj_freq freq) = IsWithin max freq
  IsBounded max (step_time offset) = Unit

  -- A servo for a PHC of this largest frequency, which has asked for a possible one last.
  pub record IsLimited (max : W) (s : PiServo W) : Type 0 where
    pub limit : s.max_frequency ≡ max
    pub last : IsWithin max s.last_freq

  same-IsWithin : (m n x : W) → m ≡ n → IsWithin m x → IsWithin n x
  same-IsWithin m n x e w = rw (sym e) w

  module _ (laws : IsOrdered W) (signs : IsSigned W) (max : W)
      (h : f.lt max (f.neg max) ≡ false) where
    neg-IsWithin : (x : W) → IsWithin max x → IsWithin max (f.neg x)
    neg-IsWithin x w = record {
      above = laws.lt_neg x max ∙ w.below;
      below =
          ap (λ m. f.lt m (f.neg x)) (sym (signs.neg_neg max))
          ∙ laws.lt_neg (f.neg max) x
          ∙ w.above;
    }

    sample-IsLimited :
        (s : PiServo W) (x : Sample W)
        → IsLimited max s
        → let (s', ppb, state) = sample s x.offset x.local_ts x.weight in
          IsLimited max s' × IsWithin max ppb
    sample-IsLimited s x l =
        let (same, now, later) =
          sample-IsWithin laws s x (ap (λ m. f.lt m (f.neg m)) l.limit ∙ h)
            (same-IsWithin max s.max_frequency s.last_freq (sym l.limit) l.last) in
        let (s', ppb, state) = sample s x.offset x.local_ts x.weight in
        let kept : s'.max_frequency ≡ max = same ∙ l.limit in
        (
          record {
            limit = kept;
            last = same-IsWithin s'.max_frequency max s'.last_freq kept later;
          },
          same-IsWithin s.max_frequency max ppb l.limit now,
        )

    obey-IsLimited :
        (d : Device) (c : Clock W) (offset : ℤ) (freq : W) (state : State)
        → IsLimited max c.servo
        → IsWithin max freq
        → let (c', out, lockd) = obey d c offset freq state in
          IsLimited max c'.servo × All (IsBounded max) out
    unfolding obey reset IsBounded
    obey-IsLimited d c offset freq unlocked l w = (l, tt)
    obey-IsLimited d c offset freq jump l w = ground (arith, neg-IsWithin freq w)
    obey-IsLimited d c offset freq locked l w = ground (arith, neg-IsWithin freq w)
    obey-IsLimited d c offset freq locked_stable l w = ground (arith, neg-IsWithin freq w)

    discipline_offset-IsLimited :
        (d : Device) (c : Clock W) (offset : ℤ) (ts : ℕ)
        → IsLimited max c.servo
        → let (c', out, lockd) = discipline_offset d c offset ts in
          IsLimited max c'.servo × All (IsBounded max) out
    unfolding discipline_offset count_outlier reset
    discipline_offset-IsLimited d c offset ts l =
        let x : Sample W = record {
          offset = offset;
          local_ts = ts;
          weight = f.literal (pos 10) 1;
        } in
        let (s, freq, state) = sample c.servo offset ts (f.literal (pos 10) 1) in
        let (kept, now) = sample-IsLimited c.servo x l in
        ground (
          arith,
          l,
          obey-IsLimited d (record c { servo = s; outlier_count = 0 }) offset freq state kept now,
        )

    obey_guard-IsLimited :
        (t : Turn W) (c : Clock W) (action : Action) (err : Duration)
        → IsLimited max c.servo
        → let (c', out, r) = obey_guard t c action err in
          IsLimited max c'.servo × All (IsBounded max) out
    unfolding obey_guard reset IsBounded
    obey_guard-IsLimited t c action err l = ground (arith, l)

    take_pulse-IsLimited :
        (t : Turn W) (c : Clock W) (r : Bool)
        → IsLimited max c.servo
        → let (c', out, lockd) = take_pulse t c r in
          IsLimited max c'.servo × All (IsBounded max) out
    take_pulse-IsLimited t c r l = elim (take_pulse-cases t c r) [
      | inl e ↦ rw e (l, tt)
      | inr p ↦
          rw p.result (
            discipline_offset-IsLimited t.device (record c { is_available = false }) p.offset p.ts
              l)
    ]

    turn-IsLimited :
        (l : Loop W) (t : Turn W)
        → IsLimited max l.clock.servo
        → let (l', out, lockd) = turn l t in IsLimited max l'.clock.servo × All (IsBounded max) out
    unfolding turn
    turn-IsLimited l t k =
        let (g, action, err) = tick l.guard (guard_tick t) in
        let c = polled t l.clock in
        let (c', out, r) = obey_guard t c action err in
        let (c'', out', lockd) = take_pulse t c' r in
        let (k', first) = obey_guard-IsLimited t c action err k in
        let (k'', second) = take_pulse-IsLimited t c' r k' in
        (k'', All-append (IsBounded max) out out' first second)

    -- Whatever polls, readings, pulses and failures come, over any number of turns no frequency
    -- that the PHC is sent compares below the negated largest one or above the largest one, if the servo is
    -- made for this PHC and started from such a frequency; a NaN compares as neither. Floats are ordered as IEEE 754 says,
    -- two changes of sign cancel, and the largest frequency is not below its negation.
    pub commands-IsBounded :
        (l : Loop W) (ts : List (Turn W))
        → IsLimited max l.clock.servo
        → All (IsBounded max) (commands l ts)
    unfolding commands
    commands-IsBounded l [] k = tt
    commands-IsBounded l (t ∷ ts) k =
        let (l', out, lockd) = turn l t in
        let (k', now) = turn-IsLimited l t k in
        All-append (IsBounded max) out (commands l' ts) now (commands-IsBounded l' ts k')
