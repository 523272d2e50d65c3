-- ===== src/Gm/Honest.antt =====
-- What is announced follows the age of the last lock.
use ts2phc_go.Common.{ℕ, ◌≡◌, ◌≢◌, Bool, true, some, ◌⊎◌, arith}
use ts2phc_go.Common.Int.{pos, ◌≤ℤ◌, ◌<ℤ◌, ◌+ℤ◌}
use ts2phc_go.Common.Time.{Time, sub_time, le-sub_time}
use ts2phc_go.Gm.{
  GmState, locked, holdover, freerun, Settings, Monitor, Agent, announce, apply, want, is_current,
  pursue, note_lock, update,
}

-- The class that a state stands for.
abbrev pub class_of : GmState → ℕ
class_of locked = 6
class_of holdover = 7
class_of freerun = 248

-- An update that sends settings comes five seconds or more after the last one that tried, and
-- notes that it tried.
update_sent :
    (a : Agent) (g : Monitor) (now : Time) (locked_sample : Bool) (gs : Settings)
    → (update a g now locked_sample).1 ≡ some gs
    → (g.last_attempt +ℤ pos 5000000000 ≤ℤ now)
      × ((update a g now locked_sample).0.last_attempt ≡ now)
unfolding update pursue want
update_sent a g now locked_sample gs e = ground (arith, le-sub_time now g.last_attempt 5000000000)

-- An agent that answers, and an update five seconds or more after the last attempt: what is
-- announced is what the age of the last lock asks for, and if that was not announced before, the
-- settings sent carry its clock class.
update_follows :
    (a : Agent) (g : Monitor) (now : Time) (locked_sample : Bool) (gs : Settings) (state : GmState)
    → a.settings ≡ some gs
    → a.set_ok ≡ true
    → pos 5000000000 ≤ℤ sub_time now g.last_attempt
    → want (note_lock g now locked_sample) now ≡ some state
    → let (g', sent) = update a g now locked_sample in
      (g'.current ≡ some state)
      × ((is_current g.current state ≡ true) ⊎ (sent ≡ some (announce state gs)))
      × ((announce state gs).clock_class ≡ class_of state)
unfolding update pursue apply announce
update_follows a g now locked_sample gs locked r o l w = ground arith
update_follows a g now locked_sample gs holdover r o l w = ground arith
update_follows a g now locked_sample gs freerun r o l w = ground arith

-- Settings that are sent carry clock class 6 only with a lock less than ten seconds old, 7 only with
-- one that is ten seconds old or more but within the holdover time, and else 248, with no lock
-- within either limit.
pub update_honest :
    (a : Agent) (g : Monitor) (now : Time) (locked_sample : Bool) (gs : Settings)
    → (update a g now locked_sample).1 ≡ some gs
    → let g' = (update a g now locked_sample).0 in
      let age = sub_time now g'.last_lock in
      ((gs.clock_class ≡ 6) × (g'.last_lock ≢ pos 0) × (age <ℤ pos 10000000000))
      ⊎ ((gs.clock_class ≡ 7)
          × (g'.last_lock ≢ pos 0)
          × (pos 10000000000 ≤ℤ age)
          × (age <ℤ g.holdover))
      ⊎ ((gs.clock_class ≡ 248)
          × ((g'.last_lock ≡ pos 0) ⊎ ((pos 10000000000 ≤ℤ age) × (g.holdover ≤ℤ age))))
unfolding update pursue want apply announce
update_honest a g now locked_sample gs e = ground arith
