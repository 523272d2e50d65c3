-- ===== src/Pps/Qerr.antt =====
-- QErrSource (pps/qerr_source.go): the ring of the receiver's quantization errors. The scanner of
-- the raw stream is a child; the connection, the mutex and the metrics hook are left out.
pub mod Ring
pub mod Scan
use ts2phc_go.Common.{
  ℕ, zero, suc, ◌+◌, ◌*◌, ◌/◌, ◌%◌, Bool, true, false, ◌||◌, Option, none, some, List, [], ◌∷◌,
  length, if◌then◌else◌,
}
use ts2phc_go.Common.Int.{ℤ, pos, ◌-ℤ◌, eqb_ℤ}
use ts2phc_go.Common.Word.{i64}
use ts2phc_go.Common.Float.{Float}
use ts2phc_go.Ubx.Msg.{
  Parsed, ok, too_short, too_short_for, TimTp, parse_tim_tp, qerr_invalid, time_base_utc,
}

pub record Slot (W : Type 0) : Type 0 where
  pub sec : ℤ
  pub ns : W

-- `ring` has eight slots.
pub record QErrSource (W : Type 0) : Type 0 where
  pub gps_utc_off : ℤ
  pub ring : List (Slot W)
  pub head : ℕ

unfoldable pub set_at : {W : Type 0} → ℕ → Slot W → List (Slot W) → List (Slot W)
set_at i x [] = []
set_at zero x (y ∷ ys) = x ∷ ys
set_at (suc i) x (y ∷ ys) = y ∷ set_at i x ys

-- The loop of `Lookup`.
unfoldable pub find : {W : Type 0} → ℤ → List (Slot W) → Option W
find utc_sec [] = none
find utc_sec (x ∷ xs) =
    let rest = find utc_sec xs in if eqb_ℤ x.sec utc_sec then some x.ns else rest

-- The UTC second of a pulse.
unfoldable pub pulse_second : ℤ → TimTp → ℤ
pulse_second gps_utc_off tp =
    let sec = pos (315964800 + tp.week * 604800 + tp.tow_ms / 1000) in
    if time_base_utc tp then sec else i64 (sec -ℤ gps_utc_off)

module _ {W : Type 0} ⦃f : Float W⦄ where
  abbrev pub empty_slot : Slot W
  empty_slot = record { sec = pos 0; ns = f.of_int (pos 0) }

  -- `NewQErrSource`
  abbrev pub new_qerr_source : ℤ → QErrSource W
  new_qerr_source tai_offset = record {
    gps_utc_off = i64 (tai_offset -ℤ pos 19);
    ring =
        empty_slot ∷ empty_slot ∷ empty_slot ∷ empty_slot ∷ empty_slot ∷ empty_slot ∷ empty_slot
        ∷ empty_slot ∷ [];
    head = 0;
  }

  abbrev pub qerr_ns : TimTp → W
  qerr_ns tp = f.div (f.of_int tp.qerr) (f.literal (pos 10000) 1)

  unfoldable pub note : QErrSource W → TimTp → QErrSource W
  unfolding pulse_second set_at
  note q tp = if qerr_invalid tp then q else record q {
    ring = set_at q.head (record { sec = pulse_second q.gps_utc_off tp; ns = qerr_ns tp }) q.ring;
    head = (q.head + 1) % length q.ring;
  }

  abbrev pub note_parsed : QErrSource W → Parsed TimTp → QErrSource W
  note_parsed q (ok tp) = note q tp
  note_parsed q _ = q

  unfoldable pub handle : QErrSource W → List ℕ → QErrSource W
  handle q payload = note_parsed q (parse_tim_tp payload)

  unfoldable pub lookup : QErrSource W → ℤ → Option W
  unfolding find
  lookup q utc_sec = find utc_sec q.ring

  unfoldable pub handle_all : QErrSource W → List (List ℕ) → QErrSource W
  handle_all q [] = q
  handle_all q (payload ∷ payloads) = handle_all (handle q payload) payloads
