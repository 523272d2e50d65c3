-- ===== src/Pps/Arm/Deaf.antt =====
-- A sink in its single-edge mode, on a device that delivers both edges all the same.
use ts2phc_go.Common.{ℕ, ◌+◌, ◌≤◌, ◌<◌, ◌≡◌, refl, ◌∙◌, true, false, List, [], ◌∷◌, arith}
use ts2phc_go.Common.Int.{pos, ◌-ℤ◌}
use ts2phc_go.Common.Time.{Time, second, sub_time, sub_duration}
use ts2phc_go.Common.Word.{i64}
use ts2phc_go.Pps.Sink.{Sink, locked, is_off, process_single, process_time, accepted}
use ts2phc_go.Pps.Sink.Train.{Pulse, fall, edges, IsTrain, IsRegular, long_gap, short_gap}
use ts2phc_go.Pps.Sink.Lock.{accepted_step}
use ts2phc_go.Pps.Arm.{Device, rearm, ptp_rising_edge}
use ts2phc_go.Pps.Arm.Recover.{first_step, renewed, rearm_rising}

gap_off : (d : ℕ) → d < 900000000 → is_off (sub_duration (pos d) (pos second)) ≡ true
unfolding i64 ◌-ℤ◌
gap_off d h = ground arith

off_step :
    (now : Time) (s : Sink)
    → s.single_edge ≡ true
    → s.state ≡ locked
    → is_off (sub_duration (sub_time now s.last_event) s.pulse_period) ≡ true
    → process_time s now false ≡ (record s { last_event = now }, false)
unfolding process_time process_single
off_step now s m st h = ground (arith, m, st, h)

module _ (lo hi jitter : ℕ) (r : IsRegular lo hi jitter) (long : 100000000 + jitter < lo) where
  fall_off :
      (p : Pulse) (s : Sink)
      → s.single_edge ≡ true
      → s.state ≡ locked
      → s.pulse_period ≡ pos second
      → s.last_event ≡ p.rise
      → p.width ≤ hi
      → process_time s (fall p) false ≡ (record s { last_event = fall p }, false)
  fall_off p s m st pe la h =
      let short : p.width < 500000000 = omega (arith, r.short) in
      off_step (fall p) s m st
        (rw (la, pe, short_gap p short) (gap_off p.width (omega (arith, short))))

  -- Behind a rising edge no edge is taken.
  accepted_deaf :
      (p : Pulse) (ps : List Pulse) (s : Sink)
      → s.single_edge ≡ true
      → s.state ≡ locked
      → s.pulse_period ≡ pos second
      → s.last_event ≡ p.rise
      → lo ≤ p.width
      → p.width ≤ hi
      → IsTrain lo hi jitter p ps
      → accepted s (fall p ∷ edges ps) ≡ []
  accepted_deaf p [] s m st pe la l h t =
      accepted_step s (record s { last_event = fall p }) (fall p) false []
        (fall_off p s m st pe la h)
      ∙ (unfold accepted in refl)
  accepted_deaf p (q ∷ ps) s m st pe la l h t =
      let s₁ = record s { last_event = fall p } in
      let s₂ = record s { last_event = q.rise } in
      let (d, e, high, low) = long_gap p q lo hi jitter r h t.2 t.3 in
      accepted_step s s₁ (fall p) false (edges (q ∷ ps)) (fall_off p s m st pe la h)
      ∙ accepted_step s₁ s₂ q.rise false (fall q ∷ edges ps)
          (off_step q.rise s₁ m st (rw (pe, e) (gap_off d (omega (arith, long, l, high)))))
      ∙ accepted_deaf q ps s₂ m st pe refl t.0 t.1 t.4

  -- After a re-arm that is refused both edges and granted the rising ones, on a device that delivers
  -- both edges all the same, the filter passes on no edge of a regular train whose pulses are longer
  -- than 100 ms and the jitter, and shorter than half a second. The queue of events can be drained,
  -- and the nominal period of the sink is a second.
  pub rearm-deaf :
      (d : Device) (s : Sink) (p : Pulse) (ps : List Pulse)
      → s.pulse_period ≡ pos second
      → d.drain_ok ≡ true
      → d.grants s.orig_polarity ≡ false
      → d.grants ptp_rising_edge ≡ true
      → lo ≤ p.width
      → p.width ≤ hi
      → IsTrain lo hi jitter p ps
      → let (s', requests, ok) = rearm d s in (ok ≡ true) × (accepted s' (edges (p ∷ ps)) ≡ [])
  rearm-deaf d s p ps pe o n g l h t =
      let (e, k) = rearm_rising d s o n g in
      let s₁ = renewed s ptp_rising_edge true in
      let s₂ = record s₁ { last_event = p.rise; state = locked } in
      rw (e, k)
        (
          refl,
          accepted_step s₁ s₂ p.rise false (fall p ∷ edges ps) (first_step p.rise s₁ refl refl)
              ∙ accepted_deaf p ps s₂ refl refl pe refl l h t,
        )
