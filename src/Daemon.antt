-- ===== src/Daemon.antt =====
-- The discipline loop of main.go: what one validated pulse does to a target clock, from the offset
-- to the servo and to the commands that the device gets. Logs are left out; the
-- metrics of a turn are in Tick/Export.
pub mod Outlier
pub mod Lock
pub mod Tick
pub mod Startup
pub mod Textfiles
use ts2phc_go.Common.{
  ℕ, suc, ◌+◌, Bool, true, false, not, ◌&&◌, ◌||◌, Option, none, some, List, [], ◌∷◌, ◌++◌, leb,
  if◌then◌else◌,
}
use ts2phc_go.Common.Int.{ℤ, pos, ◌+ℤ◌, ◌-ℤ◌, ◌*ℤ◌, neg_ℤ, eqb_ℤ}
use ts2phc_go.Common.Word.{i64, word64}
use ts2phc_go.Common.Float.{Float}
use ts2phc_go.Common.Time.{Time, second, unix_seconds, unix_nanos}
use ts2phc_go.Servo.{
  State, unlocked, jump, locked, locked_stable, PiServo, reset, is_locked, abs_offset, sample,
}

-- What the device is told to do, in order.
pub data Command (W : Type 0) : Type 0 where
  adj_freq : W → Command W
  step_time : ℤ → Command W

-- The part of `clockState` and of its sink that the loop reads and writes. `Servo` is held by
-- value: no other clock has it.
pub record Clock (W : Type 0) : Type 0 where
  pub servo : PiServo W
  pub is_target : Bool
  pub is_available : Bool
  pub last_valid_ts : Time
  pub outlier_count : ℕ

-- Whether the device takes each of the two commands. A jump resets the servo whether or not the
-- step is taken.
pub record Device : Type 0 where
  pub freq_ok : Bool
  pub step_ok : Bool

-- `outlierThresholdNS` and `outlierResetCount`
abbrev pub outlier_threshold_ns : ℕ
outlier_threshold_ns = 50000

abbrev pub outlier_reset_count : ℕ
outlier_reset_count = 5

module _ {W : Type 0} ⦃f : Float W⦄ where
  -- The offset of a pulse against its edge, with the receiver's quantization error if there is one
  -- for that second and the sign is not 0.
  unfoldable pub offset_of : Time → Time → ℤ → Option W → ℤ
  offset_of sink_ts source_ts qerr_sign none =
      i64 (unix_nanos sink_ts -ℤ i64 (unix_seconds source_ts *ℤ pos second))
  offset_of sink_ts source_ts qerr_sign (some qerr_ns) =
      let offset = i64 (unix_nanos sink_ts -ℤ i64 (unix_seconds source_ts *ℤ pos second)) in
      if eqb_ℤ qerr_sign (pos 0)
      then offset
      else i64 (offset +ℤ f.to_int (f.mul (f.of_int qerr_sign) (f.round qerr_ns)))

  unfoldable pub is_outlier : PiServo W → ℤ → Bool
  is_outlier s offset =
      is_locked s && f.lt (f.literal (pos outlier_threshold_ns) 0) (abs_offset offset)

  unfoldable pub count_outlier : Clock W → Clock W
  count_outlier c =
      if leb outlier_reset_count (c.outlier_count + 1)
      then record c { servo = reset c.servo; outlier_count = 0 }
      else record c { outlier_count = c.outlier_count + 1 }

  -- `switch state`: the clock, the commands and `lockedSample`.
  unfoldable pub obey : Device → Clock W → ℤ → W → State → Clock W × List (Command W) × Bool
  obey d c offset freq unlocked = (c, [], false)
  obey d c offset freq jump = (
    record c { servo = reset c.servo },
    adj_freq (f.neg freq) ∷ (if d.freq_ok then step_time (i64 (neg_ℤ offset)) ∷ [] else []),
    false,
  )
  obey d c offset freq locked =
      if d.freq_ok
      then (c, adj_freq (f.neg freq) ∷ [], c.is_target)
      else (record c { servo = reset c.servo }, adj_freq (f.neg freq) ∷ [], false)
  obey d c offset freq locked_stable =
      if d.freq_ok
      then (c, adj_freq (f.neg freq) ∷ [], c.is_target)
      else (record c { servo = reset c.servo }, adj_freq (f.neg freq) ∷ [], false)

  -- Behind the offset: the outlier gate, the servo and its verdict. `sink_nanos` is a uint64.
  unfoldable pub discipline_offset : Device → Clock W → ℤ → ℕ → Clock W × List (Command W) × Bool
  discipline_offset d c offset sink_nanos =
      let (s, freq, state) = sample c.servo offset sink_nanos (f.literal (pos 10) 1) in
      if is_outlier c.servo offset
      then (count_outlier c, [], false)
      else obey d (record c { servo = s; outlier_count = 0 }) offset freq state

  -- The body of `for _, c := range clocks`.
  unfoldable pub discipline :
      Device → Clock W → Time → ℤ → Option W → Clock W × List (Command W) × Bool
  discipline d c source_ts qerr_sign qerr =
      if not c.is_target || not c.is_available
      then (c, [], false)
      else discipline_offset d (record c { is_available = false })
          (offset_of c.last_valid_ts source_ts qerr_sign qerr) (word64 (unix_nanos c.last_valid_ts))

  -- Pulse after pulse, by their offsets and time stamps.
  unfoldable pub discipline_all : Device → Clock W → List (ℤ × ℕ) → Clock W × List (Command W)
  discipline_all d c [] = (c, [])
  discipline_all d c ((offset, ts) ∷ ps) =
      let (c', out, lockd) = discipline_offset d c offset ts in
      let (c'', outs) = discipline_all d c' ps in (c'', out ++ outs)
