-- ===== src/Pps/Qerr/Ring.antt =====
-- What a lookup finds in the ring.
use ts2phc_go.Common.{
  ℕ, zero, suc, ◌<◌, ◌≡◌, refl, ap, false, none, some, List, [], ◌∷◌, length, arith,
}
use ts2phc_go.Common.Int.{ℤ}
use ts2phc_go.Common.Float.{Float}
use ts2phc_go.Ubx.Msg.{Parsed, ok, too_short, too_short_for, TimTp, parse_tim_tp, qerr_invalid}
use ts2phc_go.Pps.Qerr.{
  Slot, QErrSource, note_parsed, set_at, find, pulse_second, qerr_ns, note, handle, handle_all,
  lookup, new_qerr_source,
}

-- Eight slots, and the head on one of them.
pub record IsRing {W : Type 0} (q : QErrSource W) : Type 0 where
  pub slots : length q.ring ≡ 8
  pub inside : q.head < 8

length-set_at :
    {W : Type 0} (i : ℕ) (x : Slot W) (xs : List (Slot W)) → length (set_at i x xs) ≡ length xs
unfolding set_at
length-set_at i x [] = refl
length-set_at zero x (y ∷ ys) = refl
length-set_at (suc i) x (y ∷ ys) = ground (arith, length-set_at i x ys)

find-set_at :
    {W : Type 0} (i : ℕ) (x : Slot W) (xs : List (Slot W))
    → i < length xs
    → find x.sec xs ≡ none
    → find x.sec (set_at i x xs) ≡ some x.ns
unfolding set_at find
find-set_at i x [] l h = absurd (omega arith)
find-set_at zero x (y ∷ ys) l h = ground arith
find-set_at (suc i) x (y ∷ ys) l h = ground (arith, find-set_at i x ys)

module _ {W : Type 0} ⦃f : Float W⦄ where
  note-IsRing : (q : QErrSource W) (tp : TimTp) → IsRing q → IsRing (note q tp)
  unfolding note
  note-IsRing q tp r = record {
    slots = ground (
      arith,
      r.slots,
      length-set_at q.head (record { sec = pulse_second q.gps_utc_off tp; ns = qerr_ns tp }) q.ring,
    );
    inside = ground (arith, r.slots, r.inside);
  }

  note_parsed-IsRing : (q : QErrSource W) (o : Parsed TimTp) → IsRing q → IsRing (note_parsed q o)
  note_parsed-IsRing q (ok tp) r = note-IsRing q tp r
  note_parsed-IsRing q (too_short n) r = r
  note_parsed-IsRing q (too_short_for n m) r = r

  handle-IsRing : (q : QErrSource W) (payload : List ℕ) → IsRing q → IsRing (handle q payload)
  unfolding handle
  handle-IsRing q payload r = note_parsed-IsRing q (parse_tim_tp payload) r

  handle_all-IsRing :
      (q : QErrSource W) (payloads : List (List ℕ)) → IsRing q → IsRing (handle_all q payloads)
  unfolding handle_all
  handle_all-IsRing q [] r = r
  handle_all-IsRing q (p ∷ ps) r = handle_all-IsRing (handle q p) ps (handle-IsRing q p r)

  handle-ok :
      (q : QErrSource W) (payload : List ℕ) (tp : TimTp)
      → parse_tim_tp payload ≡ ok tp
      → handle q payload ≡ note q tp
  unfolding handle
  handle-ok q payload tp e = ap (note_parsed q) e

  lookup-note :
      (q : QErrSource W) (tp : TimTp)
      → IsRing q
      → qerr_invalid tp ≡ false
      → lookup q (pulse_second q.gps_utc_off tp) ≡ none
      → lookup (note q tp) (pulse_second q.gps_utc_off tp) ≡ some (qerr_ns tp)
  unfolding lookup note
  lookup-note q tp r v h =
      let slot : Slot W = record { sec = pulse_second q.gps_utc_off tp; ns = qerr_ns tp } in
      ground (arith, r.slots, r.inside, v, find-set_at q.head slot q.ring)

  -- Whatever messages came before, a valid TIM-TP message for a second that the ring has no slot for
  -- is found under that second, with its quantization error.
  pub lookup-handle :
      (tai_offset : ℤ) (payloads : List (List ℕ)) (payload : List ℕ) (tp : TimTp)
      → let q : QErrSource W = handle_all (new_qerr_source tai_offset) payloads in
        parse_tim_tp payload ≡ ok tp
        → qerr_invalid tp ≡ false
        → lookup q (pulse_second q.gps_utc_off tp) ≡ none
        → lookup (handle q payload) (pulse_second q.gps_utc_off tp) ≡ some (qerr_ns tp)
  lookup-handle tai_offset payloads payload tp e v h =
      let start : QErrSource W = new_qerr_source tai_offset in
      let q = handle_all start payloads in
      let r = handle_all-IsRing start payloads (record { slots = refl; inside = omega arith }) in
      rw (handle-ok q payload tp e) (lookup-note q tp r v h)
