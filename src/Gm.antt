-- ===== src/Gm.antt =====
-- gmMonitor (main.go): which clock class the daemon announces through ptp4l.
pub mod Honest
use ts2phc_go.Common.{
  ℕ, ◌+◌, ◌-◌, ◌*◌, Bool, true, false, not, ◌&&◌, Option, none, some, ◌==◌, if◌then◌else◌,
}
use ts2phc_go.Common.Int.{ℤ, pos, ◌*ℤ◌, ltb_ℤ}
use ts2phc_go.Common.Word.{i64}
use ts2phc_go.Common.Time.{Time, Duration, second, is_zero, sub_time}
use ts2phc_go.Ubx.Msg.{has_bit}

-- `gmLocked`, `gmHoldover` and `gmFreerun`
pub data GmState : Type 0 where
  locked holdover freerun : GmState

-- `GrandmasterSettings` (pmc/agent.go)
pub record Settings : Type 0 where
  pub clock_class : ℕ
  pub clock_accuracy : ℕ
  pub offset_scaled_log_variance : ℕ
  pub utc_offset : ℤ
  pub time_flags : ℕ
  pub time_source : ℕ

-- `current` is none while it is the empty string. The agent is not here: what it answers is an
-- argument of `update`.
pub record Monitor : Type 0 where
  pub holdover : Duration
  pub startup_grace : Duration
  pub started : Time
  pub last_lock : Time
  pub last_attempt : Time
  pub current : Option GmState

-- `newGMMonitor`
abbrev pub new_monitor : ℤ → Time → Monitor
new_monitor holdover_sec now = record {
  holdover = i64 (holdover_sec *ℤ pos second);
  startup_grace = pos 60000000000;
  started = now;
  last_lock = pos 0;
  last_attempt = pos 0;
  current = none;
}

-- `x |= mask` and `x &^= mask`, for a mask of one bit.
abbrev pub set_bit : ℕ → ℕ → ℕ
set_bit mask x = if has_bit x mask then x else x + mask

abbrev pub clear_bit : ℕ → ℕ → ℕ
clear_bit mask x = if has_bit x mask then x - mask else x

-- `TF_TIME_TRACEABLE | TF_FREQ_TRACEABLE | TF_UTC_OFF_VALID`
abbrev pub set_traceable : ℕ → ℕ
set_traceable x = set_bit 4 (set_bit 32 (set_bit 16 x))

abbrev pub clear_traceable : ℕ → ℕ
clear_traceable x = clear_bit 4 (clear_bit 32 (clear_bit 16 x))

-- The switch of `apply`.
unfoldable pub announce : GmState → Settings → Settings
announce locked gs = record gs {
  clock_class = 6;
  clock_accuracy = 0x21;
  time_source = 0x20;
  time_flags = set_traceable gs.time_flags;
}
announce holdover gs = record gs { clock_class = 7; time_source = 0x20 }
announce freerun gs = record gs {
  clock_class = 248;
  clock_accuracy = 0xFE;
  time_source = 0xA0;
  time_flags = clear_traceable gs.time_flags;
}

-- What the agent answers: the settings that it reads, if it does, and whether it takes new ones.
pub record Agent : Type 0 where
  pub settings : Option Settings
  pub set_ok : Bool

-- `apply`: the settings that were sent, and whether it went without an error.
unfoldable pub apply : Agent → GmState → Option Settings × Bool
unfolding announce
apply a state = elim a.settings [
  | none ↦ (none, false)
  | some gs ↦ (some (announce state gs), a.set_ok)
]

-- The switch of `Update`; none where it returns.
unfoldable pub want : Monitor → Time → Option GmState
want g now =
    if not (is_zero g.last_lock) && ltb_ℤ (sub_time now g.last_lock) (pos 10000000000)
    then some locked
    else if not (is_zero g.last_lock) && ltb_ℤ (sub_time now g.last_lock) g.holdover
    then some holdover
    else if is_zero g.last_lock && ltb_ℤ (sub_time now g.started) g.startup_grace
    then none
    else some freerun

abbrev pub same_state : GmState → GmState → Bool
same_state locked locked = true
same_state holdover holdover = true
same_state freerun freerun = true
same_state _ _ = false

abbrev pub is_current : Option GmState → GmState → Bool
is_current none state = false
is_current (some current) state = same_state current state

-- Behind the switch: nothing to do, too soon, or an attempt.
unfoldable pub pursue : Agent → Monitor → Time → GmState → Monitor × Option Settings
unfolding apply
pursue a g now state =
    let (sent, ok) = apply a state in
    if is_current g.current state
    then (g, none)
    else if ltb_ℤ (sub_time now g.last_attempt) (pos 5000000000)
    then (g, none)
    else (record g { last_attempt = now; current = if ok then some state else g.current }, sent)

abbrev pub note_lock : Monitor → Time → Bool → Monitor
note_lock g now locked_sample = if locked_sample then record g { last_lock = now } else g

-- `Update` at the time `now`: the monitor, and the settings that were sent to ptp4l.
unfoldable pub update : Agent → Monitor → Time → Bool → Monitor × Option Settings
unfolding want pursue
update a g now locked_sample =
    let g' = note_lock g now locked_sample in
    elim (want g' now) [ none ↦ (g', none) | some state ↦ pursue a g' now state ]
