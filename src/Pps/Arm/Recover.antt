-- ===== src/Pps/Arm/Recover.antt =====
-- A sink that was armed again finds the pulses again, whatever state its filter was in.
use ts2phc_go.Common.{
  ℕ, ◌+◌, ◌≤◌, ◌≡◌, refl, ap, ◌∙◌, Bool, true, false, ◌||◌, List, [], ◌∷◌, map, if◌then◌else◌,
  arith, Bool-cases, inl, inr,
}
use ts2phc_go.Common.Int.{pos, ◌+ℤ◌, ◌-ℤ◌, ◌≤ℤ◌, int_laws, pos_part, nonneg_part}
use ts2phc_go.Common.Time.{Time, second, sub_time, sub_time_exact, sub_duration}
use ts2phc_go.Common.Word.{i64}
use ts2phc_go.Pps.Sink.{Sink, init, locked, is_off, process_single, process_time, accepted}
use ts2phc_go.Pps.Sink.Train.{Pulse, edges, IsTrain, IsRegular}
use ts2phc_go.Pps.Sink.Lock.{accepted_step, accepted-from_rise}
use ts2phc_go.Pps.Arm.{Device, attempts, arm, rearm, ptp_rising_edge}

-- What a device that keeps to the granted edges delivers of a train: both edges of each pulse, or the
-- rising ones.
abbrev pub delivered : Sink → List Pulse → List Time
delivered s ps = if s.single_edge then map (λ p. p.rise) ps else edges ps

-- The single-edge filter on rising edges.
gap_accepted :
    (d jitter : ℕ)
    → jitter ≤ 100000000
    → d ≤ second + jitter
    → second ≤ d + jitter
    → is_off (sub_duration (pos d) (pos second)) ≡ false
unfolding i64 ◌-ℤ◌
gap_accepted d jitter b l h = ground arith

gap_exact :
    (p q : Pulse) (jitter : ℕ)
    → jitter ≤ 100000000
    → p.rise +ℤ pos second ≤ℤ q.rise +ℤ pos jitter
    → q.rise ≤ℤ p.rise +ℤ pos second +ℤ pos jitter
    → is_off (sub_duration (sub_time q.rise p.rise) (pos second)) ≡ false
gap_exact p q jitter b l h =
    let diff = q.rise -ℤ p.rise in
    let (e, z) = nonneg_part diff (omega int_laws) in
    rw (sub_time_exact q.rise p.rise (omega int_laws, omega int_laws), e)
      (gap_accepted (pos_part diff) jitter b (omega int_laws) (omega int_laws))

single_step :
    (p q : Pulse) (s : Sink) (jitter : ℕ)
    → jitter ≤ 100000000
    → s.single_edge ≡ true
    → s.state ≡ locked
    → s.pulse_period ≡ pos second
    → s.last_event ≡ p.rise
    → p.rise +ℤ pos second ≤ℤ q.rise +ℤ pos jitter
    → q.rise ≤ℤ p.rise +ℤ pos second +ℤ pos jitter
    → process_time s q.rise false ≡ (record s { last_event = q.rise }, true)
unfolding process_time process_single
single_step p q s jitter b m st pe la l h = ground (arith, gap_exact p q jitter b l h)

pub first_step :
    (t : Time) (s : Sink)
    → s.single_edge ≡ true
    → s.state ≡ init
    → process_time s t false ≡ (record s { last_event = t; state = locked }, false)
unfolding process_time process_single
first_step t s m st = ground arith

accepted-single :
    (lo hi jitter : ℕ) (p : Pulse) (ps : List Pulse) (s : Sink)
    → jitter ≤ 100000000
    → s.single_edge ≡ true
    → s.state ≡ locked
    → s.pulse_period ≡ pos second
    → s.last_event ≡ p.rise
    → IsTrain lo hi jitter p ps
    → accepted s (map (λ q. q.rise) ps) ≡ map (λ q. q.rise) ps
accepted-single lo hi jitter p [] s b m st pe la h = unfold accepted in refl
accepted-single lo hi jitter p (q ∷ ps) s b m st pe la h =
    let s₁ = record s { last_event = q.rise } in
    accepted_step s s₁ q.rise true (map (λ x. x.rise) ps)
      (single_step p q s jitter b m st pe la h.2 h.3)
    ∙ ap (λ ts. q.rise ∷ ts) (accepted-single lo hi jitter q ps s₁ b m st pe refl h.4)

-- What a re-arm leaves of a sink.
abbrev pub renewed : Sink → ℕ → Bool → Sink
renewed s polarity single = record s {
  polarity = polarity;
  single_edge = single;
  state = init;
  is_available = false;
}

rearm_both :
    (d : Device) (s : Sink)
    → d.drain_ok ≡ true
    → d.grants s.orig_polarity ≡ true
    → ((rearm d s).0 ≡ renewed s s.orig_polarity false) × ((rearm d s).2 ≡ true)
unfolding rearm arm attempts
rearm_both d s o g = ground arith

pub rearm_rising :
    (d : Device) (s : Sink)
    → d.drain_ok ≡ true
    → d.grants s.orig_polarity ≡ false
    → d.grants ptp_rising_edge ≡ true
    → ((rearm d s).0 ≡ renewed s ptp_rising_edge true) × ((rearm d s).2 ≡ true)
unfolding rearm arm attempts
rearm_rising d s o n g = ground arith

-- After a re-arm that is granted both edges or the rising ones, the filter spends the first pulse
-- on locking and then passes on exactly the rising edges of a regular train, whatever state it was
-- left in, if the device delivers the granted edges and no others. The queue of events can be
-- drained, the nominal period of the sink is a second, as `NewSink` sets it, the pulses are shorter
-- than half a second, and their widths and their jitter vary by the margin of 100 ms at most.
pub rearm-accepted :
    (lo hi jitter : ℕ) (d : Device) (s : Sink) (p : Pulse) (ps : List Pulse)
    → IsRegular lo hi jitter
    → jitter ≤ 100000000
    → s.pulse_period ≡ pos second
    → d.drain_ok ≡ true
    → (d.grants s.orig_polarity || d.grants ptp_rising_edge) ≡ true
    → lo ≤ p.width
    → p.width ≤ hi
    → IsTrain lo hi jitter p ps
    → let (s', requests, ok) = rearm d s in
      (ok ≡ true)
      × (s'.is_available ≡ false)
      × (accepted s' (delivered s' (p ∷ ps)) ≡ map (λ q. q.rise) ps)
rearm-accepted lo hi jitter d s p ps r b pe o g l h t =
    elim (Bool-cases (d.grants s.orig_polarity)) [
      | inl both ↦
          let (e, k) = rearm_both d s o both in
          rw (e, k)
            (
              refl,
              refl,
              accepted-from_rise lo hi jitter p ps (renewed s s.orig_polarity false) r
                  (record { mode = refl; state = refl; period = pe }) l h t,
            )
      | inr n ↦
          let (e, k) = rearm_rising d s o n (ground arith) in
          let s₁ = renewed s ptp_rising_edge true in
          let s₂ = record s₁ { last_event = p.rise; state = locked } in
          rw (e, k)
            (
              refl,
              refl,
              accepted_step s₁ s₂ p.rise false (map (λ q. q.rise) ps)
                    (first_step p.rise s₁ refl refl)
                  ∙ accepted-single lo hi jitter p ps s₂ b refl refl pe refl t,
            )
    ]
