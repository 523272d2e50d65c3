-- ===== src/Pps/Sink/Lock.antt =====
-- The edge filter finds the rising edges of a train of pulses, and passes on nothing else.
use ts2phc_go.Common.{
  ℕ, ◌+◌, ◌/◌, ◌≤◌, ◌<◌, ◌≡◌, refl, ap, ◌∙◌, Bool, true, false, List, [], ◌∷◌, map, if◌then◌else◌,
  arith,
}
use ts2phc_go.Common.Int.{pos, ◌+ℤ◌, ◌≤ℤ◌}
use ts2phc_go.Common.Time.{Time, second}
use ts2phc_go.Pps.Sink.{Sink, init, locking, locked, process_double, process_time, accepted}
use ts2phc_go.Pps.Sink.Train.{
  Pulse, fall, edges, IsTrain, IsRegular, IsLockedOn, long_gap, short_gap, rise_step, fall_step,
}

pub accepted_step :
    (s s' : Sink) (t : Time) (valid : Bool) (ts : List Time)
    → process_time s t false ≡ (s', valid)
    → accepted s (t ∷ ts) ≡ (if valid then t ∷ accepted s' ts else accepted s' ts)
unfolding accepted
accepted_step s s' t valid ts e = rw e

-- A locked filter passes on every rising edge of a regular train, in order, and no falling edge.
pub accepted-edges :
    (lo hi jitter : ℕ) (p : Pulse) (ps : List Pulse) (s : Sink)
    → IsRegular lo hi jitter
    → IsLockedOn lo hi p s
    → lo ≤ p.width
    → p.width ≤ hi
    → IsTrain lo hi jitter p ps
    → accepted s (edges ps) ≡ map (λ q. q.rise) ps
accepted-edges lo hi jitter p [] s r l a b h = unfold accepted in refl
accepted-edges lo hi jitter p (q ∷ ps) s r l a b h =
    let s₁ = record s { last_event = q.rise } in
    let w = (l.width + q.width) / 2 in
    let s₂ = record s { last_event = fall q; pulse_width = pos w } in
    let up =
      accepted_step s s₁ q.rise true (fall q ∷ edges ps)
        (rise_step lo hi jitter p q s r l a b h.2 h.3) in
    let down = accepted_step s₁ s₂ (fall q) false (edges ps) (
      fall_step q s₁ l.width l.mode l.state l.period l.pulse_width refl (ground (arith, r, l))
        (ground (arith, r, h))) in
    let l₂ : IsLockedOn lo hi q s₂ = record {
      width = w;
      mode = l.mode;
      state = l.state;
      period = l.period;
      pulse_width = refl;
      low = ground (arith, l, h);
      high = ground (arith, l, h);
      behind = refl;
    } in
    up ∙ ap (λ ts. q.rise ∷ ts) (down ∙ accepted-edges lo hi jitter q ps s₂ r l₂ h.0 h.1 h.4)

-- A sink whose filter begins anew in two-edge mode, as after `NewSink` and `Rearm`.
pub record IsFresh (s : Sink) : Type 0 where
  pub mode : s.single_edge ≡ false
  pub state : s.state ≡ init
  pub period : s.pulse_period ≡ pos second

-- A locking filter locks on the falling edge that ends a short pulse.
lock_step :
    (q : Pulse) (s : Sink)
    → s.single_edge ≡ false
    → s.state ≡ locking
    → s.pulse_period ≡ pos second
    → s.last_event ≡ q.rise
    → q.width < 500000000
    → process_time s (fall q) false
      ≡ (record s { last_event = fall q; pulse_width = pos q.width; state = locked }, false)
unfolding process_time process_double
lock_step q s m st pe la h = ground (arith, short_gap q h)

-- It stays as it is over the long gap between two pulses.
wait_step :
    (lo hi jitter : ℕ) (p q : Pulse) (s : Sink)
    → IsRegular lo hi jitter
    → s.single_edge ≡ false
    → s.state ≡ locking
    → s.pulse_period ≡ pos second
    → s.last_event ≡ fall p
    → p.width ≤ hi
    → p.rise +ℤ pos second ≤ℤ q.rise +ℤ pos jitter
    → q.rise ≤ℤ p.rise +ℤ pos second +ℤ pos jitter
    → process_time s q.rise false ≡ (record s { last_event = q.rise }, false)
unfolding process_time process_double
wait_step lo hi jitter p q s r m st pe la h a b =
    let (d, e, below, above) = long_gap p q lo hi jitter r h a b in ground (arith, e, below, above)

init_step :
    (s : Sink) (t : Time)
    → IsFresh s
    → process_time s t false ≡ (record s { last_event = t; state = locking }, false)
unfolding process_time process_double
init_step s t h = ground arith

-- Behind the pulse on which a locking filter locks, every rising edge is passed on.
locking_train :
    (lo hi jitter : ℕ) (p : Pulse) (ps : List Pulse) (s : Sink)
    → IsRegular lo hi jitter
    → s.single_edge ≡ false
    → s.state ≡ locking
    → s.pulse_period ≡ pos second
    → s.last_event ≡ p.rise
    → lo ≤ p.width
    → p.width ≤ hi
    → IsTrain lo hi jitter p ps
    → accepted s (fall p ∷ edges ps) ≡ map (λ q. q.rise) ps
locking_train lo hi jitter p ps s r m st pe la a b h =
    let s' = record s { last_event = fall p; pulse_width = pos p.width; state = locked } in
    let on : IsLockedOn lo hi p s' = record {
      width = p.width;
      mode = m;
      state = refl;
      period = pe;
      pulse_width = refl;
      low = a;
      high = b;
      behind = refl;
    } in
    accepted_step s s' (fall p) false (edges ps) (lock_step p s m st pe la (ground (arith, r)))
    ∙ accepted-edges lo hi jitter p ps s' r on a b h

-- A filter that begins anew at a rising edge spends that one pulse on locking. From then on it
-- passes on exactly the rising edges of a regular train.
pub accepted-from_rise :
    (lo hi jitter : ℕ) (p : Pulse) (ps : List Pulse) (s : Sink)
    → IsRegular lo hi jitter
    → IsFresh s
    → lo ≤ p.width
    → p.width ≤ hi
    → IsTrain lo hi jitter p ps
    → accepted s (edges (p ∷ ps)) ≡ map (λ q. q.rise) ps
accepted-from_rise lo hi jitter p ps s r fresh a b h =
    let s' = record s { last_event = p.rise; state = locking } in
    accepted_step s s' p.rise false (fall p ∷ edges ps) (init_step s p.rise fresh)
    ∙ locking_train lo hi jitter p ps s' r fresh.mode refl fresh.period refl a b h

-- A filter that begins anew at a falling edge does not take that edge for a start of second: it
-- locks on the next pulse and passes on exactly the rising edges behind that one.
accepted-from_fall :
    (lo hi jitter : ℕ) (p q : Pulse) (ps : List Pulse) (s : Sink)
    → IsRegular lo hi jitter
    → IsFresh s
    → p.width ≤ hi
    → IsTrain lo hi jitter p (q ∷ ps)
    → accepted s (fall p ∷ edges (q ∷ ps)) ≡ map (λ x. x.rise) ps
accepted-from_fall lo hi jitter p q ps s r fresh b h =
    let s₁ = record s { last_event = fall p; state = locking } in
    let s₂ = record s₁ { last_event = q.rise } in
    accepted_step s s₁ (fall p) false (edges (q ∷ ps)) (init_step s (fall p) fresh)
    ∙ (accepted_step s₁ s₂ q.rise false (fall q ∷ edges ps)
          (wait_step lo hi jitter p q s₁ r fresh.mode refl fresh.period refl b h.2 h.3)
        ∙ locking_train lo hi jitter q ps s₂ r fresh.mode refl fresh.period refl h.0 h.1 h.4)
