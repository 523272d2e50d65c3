-- ===== src/Daemon/Tick.antt =====
-- One turn of the discipline loop of main.go: the poll's answer, the guard and what it asks for,
-- and the pulse. The daemon has one sink, which is its one clock. A turn's commands are the steps and
-- the frequencies of the clock. Logs, the drain of the event queue behind a step, the requests that
-- `Rearm` sends (see Pps/Arm) and the events of ptp4l are left out; `gmMon.Update` gets the last component of
-- the result. The metrics that the turn sets are in Export.
pub mod Guarded
pub mod Invariant
pub mod Limits
pub mod Export
use ts2phc_go.Common.{
  ℕ, Bool, true, false, not, ◌&&◌, Option, none, some, List, [], ◌∷◌, ◌++◌, if◌then◌else◌,
}
use ts2phc_go.Common.Int.{ℤ}
use ts2phc_go.Common.Float.{Float}
use ts2phc_go.Common.Time.{Time, Duration, sub_time}
use ts2phc_go.Guard.{Guard, Action, none as no_action, rearm, step, refuse, calibrate, step_amount}
use ts2phc_go.Guard as Guard
use ts2phc_go.Servo.{reset}
use ts2phc_go.Pps.Poll.{Answer, ready, not_ready, poll_error}
use ts2phc_go.Daemon.{Command, step_time, Clock, Device, discipline}

pub record Loop (W : Type 0) : Type 0 where
  pub guard : Guard W
  pub clock : Clock W

-- What the outside gives in one turn: `clock` is the clock as the poll leaves it.
pub record Turn (W : Type 0) : Type 0 where
  pub now : Time
  pub poll : Answer
  pub is_available : Bool
  pub last_valid_ts : Time
  pub phc : Time
  pub phc_valid : Bool
  pub tai : Time
  pub tai_valid : Bool
  pub pps_time : Option Time
  pub qerr_sign : ℤ
  pub qerr : Option W
  pub device : Device
  -- Whether `Rearm` and the guard's `StepTime` go without an error.
  pub rearm_ok : Bool
  pub guard_step_ok : Bool

abbrev pub is_ready : Answer → Bool
is_ready ready = true
is_ready _ = false

module _ {W : Type 0} where
  abbrev pub guard_tick : Turn W → Guard.Tick
  guard_tick t = record {
    now = t.now;
    ready = is_ready t.poll;
    phc = t.phc;
    phc_valid = t.phc_valid;
    tai = t.tai;
    tai_valid = t.tai_valid;
  }

  -- What PollSinks has done to the sink.
  abbrev pub polled : Turn W → Clock W → Clock W
  polled t c = record c { is_available = t.is_available; last_valid_ts = t.last_valid_ts }

module _ {W : Type 0} ⦃f : Float W⦄ where
  -- `switch action`: the clock, the commands and `readyToSync`.
  unfoldable pub obey_guard :
      Turn W → Clock W → Action → Duration → Clock W × List (Command W) × Bool
  obey_guard t c rearm err =
      (if t.rearm_ok then record c { is_available = false } else c, [], is_ready t.poll)
  obey_guard t c step err =
      if t.guard_step_ok
      then (
        record c { servo = reset c.servo; outlier_count = 0; is_available = false },
        step_time (step_amount err) ∷ [],
        false,
      )
      else (c, step_time (step_amount err) ∷ [], is_ready t.poll)
  obey_guard t c _ err = (c, [], is_ready t.poll)

  -- From the test of PollSinks' error to the end of the loop over the clocks.
  unfoldable pub take_pulse : Turn W → Clock W → Bool → Clock W × List (Command W) × Bool
  take_pulse t c ready_to_sync = if not ready_to_sync then (c, [], false) else elim t.pps_time [
    | none ↦ (c, [], false)
    | some source_ts ↦ discipline t.device c source_ts t.qerr_sign t.qerr
  ]

  -- The loop, the commands in order, and `lockedSample`.
  unfoldable pub turn : Loop W → Turn W → Loop W × List (Command W) × Bool
  unfolding take_pulse
  turn l t =
      let (g, action, err) = Guard.tick l.guard (guard_tick t) in
      let (c, out, ready_to_sync) = obey_guard t (polled t l.clock) action err in
      let (c', out', locked_sample) = take_pulse t c ready_to_sync in
      (
        record {
          guard =
              if locked_sample && t.phc_valid && t.tai_valid
              then calibrate g (sub_time t.phc t.tai)
              else g;
          clock = c';
        },
        out ++ out',
        locked_sample,
      )

  unfoldable pub turns : Loop W → List (Turn W) → Loop W
  turns l [] = l
  turns l (t ∷ ts) = turns (turn l t).0 ts

  -- What the device is told over a run of turns.
  unfoldable pub commands : Loop W → List (Turn W) → List (Command W)
  commands l [] = []
  commands l (t ∷ ts) = let (l', out, locked_sample) = turn l t in out ++ commands l' ts
