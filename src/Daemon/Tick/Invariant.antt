-- ===== src/Daemon/Tick/Invariant.antt =====
-- What holds over any number of turns, and when a turn does anything to the device.
use ts2phc_go.Common.{
  ℕ, ◌≤◌, ◌<◌, ◌≡◌, ◌≢◌, ◌⊎◌, inl, inr, refl, Bool, true, false, not, ◌&&◌, ◌||◌, Option, none,
  Option-cases, Bool-cases, List, [], ◌∷◌, if◌then◌else◌, arith,
}
use ts2phc_go.Common.Int.{ℤ, pos}
use ts2phc_go.Common.Float.{Float}
use ts2phc_go.Common.Time.{Time, Duration, sub_time, unix_nanos}
use ts2phc_go.Common.Word.{word64}
use ts2phc_go.Guard.{Action, none as no_action, rearm, step, refuse, tick, calibrate}
use ts2phc_go.Servo.{reset, is_locked}
use ts2phc_go.Servo.States.{sample-is_locked}
use ts2phc_go.Pps.Poll.{Answer, ready}
use ts2phc_go.Daemon.{Clock, Device, count_outlier, obey, discipline_offset, discipline, offset_of}
use ts2phc_go.Daemon.Lock.{discipline_offset-locked}
use ts2phc_go.Daemon.Tick.{
  Loop, Turn, guard_tick, polled, is_ready, obey_guard, take_pulse, turn, turns,
}

is_ready-true : (a : Answer) → is_ready a ≡ true → a ≡ ready
is_ready-true a h = ground (arith, h)

changed : {A : Type 0} (b : Bool) (x y : A) → (if b then x else y) ≢ y → b ≡ true
changed true x y h = refl
changed false x y h = absurd (h refl)

module _ {W : Type 0} ⦃f : Float W⦄ where
  -- The servo has one of its three counts, fewer outliers are counted than lead to a reset, and the
  -- clock is a target.
  pub record IsSteady (c : Clock W) : Type 0 where
    pub count : c.servo.count ≤ 2
    pub outliers : c.outlier_count < 5
    pub target : c.is_target ≡ true

  discipline_offset-IsSteady :
      (d : Device) (c : Clock W) (offset : ℤ) (ts : ℕ)
      → IsSteady c
      → IsSteady (discipline_offset d c offset ts).0
  unfolding discipline_offset obey count_outlier reset
  discipline_offset-IsSteady d c offset ts h = ground (
    arith,
    h.count,
    h.outliers,
    h.target,
    sample-is_locked c.servo offset ts (f.literal (pos 10) 1) h.count,
  )

  -- A pulse reaches the servo, or nothing happens.
  pub record Reaches (t : Turn W) (c : Clock W) (r : Bool) : Type 0 where
    pub offset : ℤ
    pub ts : ℕ
    pub result :
        take_pulse t c r ≡ discipline_offset t.device (record c { is_available = false }) offset ts
    go : r ≡ true
    latched : c.is_available ≡ true
    known : t.pps_time ≢ none

  discipline-cases :
      (d : Device) (c : Clock W) (source_ts : Time) (sign : ℤ) (qerr : Option W)
      → (discipline d c source_ts sign qerr ≡ (c, [], false))
        ⊎ ((c.is_available ≡ true)
            × ((offset : ℤ) × (ts : ℕ) × (discipline d c source_ts sign qerr
                  ≡ discipline_offset d (record c { is_available = false }) offset ts)))
  unfolding discipline
  discipline-cases d c source_ts sign qerr =
      elim (Bool-cases (not c.is_target || not c.is_available)) [
        | inl off ↦ inl (rw (off, discipline) refl)
        | inr on ↦ inr (
          ground (arith, on),
          (
            offset_of c.last_valid_ts source_ts sign qerr,
            word64 (unix_nanos c.last_valid_ts),
            rw (on, discipline) refl,
          ),
        )
      ]

  pub take_pulse-cases :
      (t : Turn W) (c : Clock W) (r : Bool) → (take_pulse t c r ≡ (c, [], false)) ⊎ Reaches t c r
  unfolding take_pulse
  take_pulse-cases t c false = inl refl
  take_pulse-cases t c true = elim (Option-cases t.pps_time) [
    | inl n ↦ inl (rw (n, take_pulse) refl)
    | inr (source_ts, k) ↦ elim (discipline-cases t.device c source_ts t.qerr_sign t.qerr) [
      | inl e ↦ inl (rw (k, take_pulse) e)
      | inr (a, (offset, ts, e)) ↦ inr (record {
        offset = offset;
        ts = ts;
        result = rw (k, take_pulse) e;
        go = refl;
        latched = a;
        known = λ n. absurd cc;
      })
    ]
  ]

  obey_guard-IsSteady :
      (t : Turn W) (c : Clock W) (action : Action) (err : Duration)
      → IsSteady c
      → IsSteady (obey_guard t c action err).0
  unfolding obey_guard reset
  obey_guard-IsSteady t c action err h = ground (arith, h.count, h.outliers, h.target)

  take_pulse-IsSteady :
      (t : Turn W) (c : Clock W) (r : Bool) → IsSteady c → IsSteady (take_pulse t c r).0
  take_pulse-IsSteady t c r h = elim (take_pulse-cases t c r) [
    | inl e ↦ rw e h
    | inr p ↦ rw p.result (
        discipline_offset-IsSteady t.device (record c { is_available = false }) p.offset p.ts
          (record { count = h.count; outliers = h.outliers; target = h.target }))
  ]

  turn-IsSteady : (l : Loop W) (t : Turn W) → IsSteady l.clock → IsSteady (turn l t).0.clock
  unfolding turn
  turn-IsSteady l t h =
      let (g, action, err) = tick l.guard (guard_tick t) in
      let c = polled t l.clock in
      let (c', out, ready_to_sync) = obey_guard t c action err in
      take_pulse-IsSteady t c' ready_to_sync (
        obey_guard-IsSteady t c action err
          (record { count = h.count; outliers = h.outliers; target = h.target }))

  -- Over any number of turns, whatever happens in them, the servo keeps to its three counts, never
  -- more than four outliers stay counted, and the clock stays a target.
  pub turns-IsSteady :
      (l : Loop W) (ts : List (Turn W)) → IsSteady l.clock → IsSteady (turns l ts).clock
  unfolding turns
  turns-IsSteady l [] h = h
  turns-IsSteady l (t ∷ ts) h = turns-IsSteady (turn l t).0 ts (turn-IsSteady l t h)

  quiet :
      (t : Turn W) (c : Clock W) (action : Action) (err : Duration)
      → (obey_guard t c action err).1 ≢ []
      → action ≡ step
  unfolding obey_guard
  quiet t c no_action err h = absurd (h refl)
  quiet t c rearm err h = absurd (h refl)
  quiet t c step err h = refl
  quiet t c refuse err h = absurd (h refl)

  obey_guard-ready :
      (t : Turn W) (c : Clock W) (action : Action) (err : Duration)
      → (obey_guard t c action err).2 ≡ true
      → (obey_guard t c action err).0.is_available ≡ true
      → t.pps_time ≢ none
      → (action ≡ step) ⊎ ((t.poll ≡ ready) × (c.is_available ≡ true) × (t.pps_time ≢ none))
  unfolding obey_guard
  obey_guard-ready t c no_action err r a k = inr (is_ready-true t.poll r, a, k)
  obey_guard-ready t c rearm err r a k = inr (is_ready-true t.poll r, ground (arith, a), k)
  obey_guard-ready t c step err r a k = inl refl
  obey_guard-ready t c refuse err r a k = inr (is_ready-true t.poll r, a, k)

  -- The clock is stepped or its frequency is set only in a turn in which the guard demands a step, or
  -- in which the poll is ready, the sink has a validated time stamp and the time of the pulse is
  -- known.
  pub turn-out :
      (l : Loop W) (t : Turn W)
      → (turn l t).1 ≢ []
      → ((tick l.guard (guard_tick t)).1 ≡ step)
        ⊎ ((t.poll ≡ ready) × (t.is_available ≡ true) × (t.pps_time ≢ none))
  unfolding turn
  turn-out l t h =
      let (g, action, err) = tick l.guard (guard_tick t) in
      let c = polled t l.clock in
      let (c', out, r) = obey_guard t c action err in
      elim (take_pulse-cases t c' r) [
        | inl e ↦ inl (quiet t c action err (λ n. h (rw (e, n) refl)))
        | inr p ↦ obey_guard-ready t c action err p.go p.latched p.known
      ]

  take_pulse-is_locked :
      (t : Turn W) (c : Clock W) (r : Bool)
      → IsSteady c
      → (take_pulse t c r).2 ≡ true
      → is_locked (take_pulse t c r).0.servo ≡ true
  take_pulse-is_locked t c r h e = elim (take_pulse-cases t c r) [
    | inl q ↦ absurd (ground (arith, q, e))
    | inr p ↦ rw p.result (
        (discipline_offset-locked t.device (record c { is_available = false }) p.offset p.ts h.count
          (rw p.result at e)).0)
  ]

  -- The guard is calibrated only in a turn with two valid readings that leaves the servo locked: in
  -- any other, it is as its check has left it. The clock keeps to the bounds of its counts.
  turn-calibrates :
      (l : Loop W) (t : Turn W)
      → IsSteady l.clock
      → (turn l t).0.guard ≢ (tick l.guard (guard_tick t)).0
      → (t.phc_valid ≡ true) × (t.tai_valid ≡ true) × (is_locked (turn l t).0.clock.servo ≡ true)
  unfolding turn
  turn-calibrates l t h e =
      let (g, action, err) = tick l.guard (guard_tick t) in
      let c = polled t l.clock in
      let (c', out, r) = obey_guard t c action err in
      let steady =
        obey_guard-IsSteady t c action err
          (record { count = h.count; outliers = h.outliers; target = h.target }) in
      let (c'', out', locked_sample) = take_pulse t c' r in
      let all =
        changed (locked_sample && t.phc_valid && t.tai_valid) (calibrate g (sub_time t.phc t.tai)) g
          e in
      (
        ground (arith, all),
        ground (arith, all),
        take_pulse-is_locked t c' r steady (ground (arith, all)),
      )
