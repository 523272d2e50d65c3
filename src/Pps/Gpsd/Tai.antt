-- ===== src/Pps/Gpsd/Tai.antt =====
-- The time that the source gives for a pulse, and its estimate of TAI.
use ts2phc_go.Common.{
  ℕ, ◌%◌, ◌≤◌, ◌≡◌, refl, false, Option, some, List, [], ◌∷◌, length, arith, Option-cases, inl, inr,
}
use ts2phc_go.Common.Int.{
  ℤ, pos, negsuc, pos_part, neg_part, ◌*ℤ◌, ◌+ℤ◌, ◌-ℤ◌, ◌≤ℤ◌, ◌<ℤ◌, ltb_ℤ, int_laws,
}
use ts2phc_go.Common.Word.{IsI64, i64, i64_of_IsI64}
use ts2phc_go.Common.Time.{Time, second, sub_time, sub_time_exact, round_time}
use ts2phc_go.Pps.Gpsd.{
  GpsdTpv, GpsdSource, new_gpsd_source, take_fix, process_tpv, process_all, get_pps_time, tai_now,
  max_tp_age,
}

-- A whole number of seconds.
abbrev pub IsWhole : Time → Type 0
IsWhole t = (pos_part t % second ≡ 0) × (neg_part t % second ≡ 0)

round_time-IsWhole : (t : Time) → IsWhole (round_time t)
unfolding round_time
round_time-IsWhole (pos n) = ground arith
round_time-IsWhole (negsuc n) = ground arith

-- Rounding moves a time by half a second at most.
round_time_near :
    (t : Time) → (round_time t ≤ℤ t +ℤ pos 500000000) × (t <ℤ round_time t +ℤ pos 500000001)
unfolding round_time ◌+ℤ◌
round_time_near (pos n) = ground arith
round_time_near (negsuc n) = ground arith

add-IsWhole : (t d : Time) → IsWhole t → IsWhole d → IsWhole (t +ℤ d)
unfolding ◌+ℤ◌
add-IsWhole (pos m) (pos n) h k = ground arith
add-IsWhole (pos m) (negsuc n) h k = ground arith
add-IsWhole (negsuc m) (pos n) h k = ground arith
add-IsWhole (negsuc m) (negsuc n) h k = ground arith

seconds-IsWhole : (z : ℤ) → IsWhole (z *ℤ pos second)
unfolding ◌*ℤ◌
seconds-IsWhole (pos n) = ground arith
seconds-IsWhole (negsuc n) = ground arith

take_fix_offset : (s : GpsdSource) (now t : Time) → (take_fix s now t).tai_offset ≡ s.tai_offset
unfolding take_fix
take_fix_offset s now t = refl

take_fix-IsWhole :
    (s : GpsdSource) (now t : Time)
    → IsI64 (s.tai_offset *ℤ pos second)
    → IsWhole (take_fix s now t).tp_tai
unfolding take_fix
take_fix-IsWhole s now t h = rw (i64_of_IsI64 (s.tai_offset *ℤ pos second) h) (
    add-IsWhole (round_time t +ℤ pos second) (s.tai_offset *ℤ pos second)
      (add-IsWhole (round_time t) (pos second) (round_time-IsWhole t) (refl, refl))
      (seconds-IsWhole s.tai_offset))

process_tpv-IsWhole :
    {W : Type 0} (parse : List ℕ → Option Time) (s : GpsdSource) (now : Time) (tpv : GpsdTpv W)
    → IsI64 (s.tai_offset *ℤ pos second)
    → IsWhole s.tp_tai
    → IsWhole (process_tpv parse s now tpv).tp_tai
      × ((process_tpv parse s now tpv).tai_offset ≡ s.tai_offset)
unfolding process_tpv
process_tpv-IsWhole parse s now tpv h w = elim (Option-cases (parse tpv.time)) [
  | inl e ↦ ground (arith, e)
  | inr (t, e) ↦ ground (arith, e, take_fix-IsWhole s now t h, take_fix_offset s now t)
]

process_all-IsWhole :
    {W : Type 0} (parse : List ℕ → Option Time) (s : GpsdSource) (tpvs : List (Time × GpsdTpv W))
    → IsI64 (s.tai_offset *ℤ pos second)
    → IsWhole s.tp_tai
    → IsWhole (process_all parse s tpvs).tp_tai
unfolding process_all
process_all-IsWhole parse s [] h w = w
process_all-IsWhole parse s ((now, tpv) ∷ tpvs) h w =
    let (whole, same) = process_tpv-IsWhole parse s now tpv h w in
    process_all-IsWhole parse (process_tpv parse s now tpv) tpvs (rw same h) whole

-- Whatever reports arrive and whatever their times say, the time that a source gives for a pulse is
-- a whole second, if the TAI offset in nanoseconds is an int64.
pub get_pps_time-IsWhole :
    {W : Type 0} (parse : List ℕ → Option Time) (tai_offset_sec : ℤ)
    (tpvs : List (Time × GpsdTpv W)) (now t : Time)
    → IsI64 (tai_offset_sec *ℤ pos second)
    → get_pps_time (process_all parse (new_gpsd_source tai_offset_sec) tpvs) now ≡ some t
    → IsWhole t
unfolding get_pps_time
get_pps_time-IsWhole parse tai_offset_sec tpvs now t h e =
    ground (arith, process_all-IsWhole parse (new_gpsd_source tai_offset_sec) tpvs h (refl, refl))

process_tpv_fix :
    {W : Type 0} (parse : List ℕ → Option Time) (s : GpsdSource) (rx t : Time) (tpv : GpsdTpv W)
    → pos 2 ≤ℤ tpv.mode
    → parse tpv.time ≡ some t
    → 1 ≤ length tpv.time
    → process_tpv parse s rx tpv ≡ take_fix s rx t
unfolding process_tpv
process_tpv_fix parse s rx t tpv m e l = ground arith

elapsed_lem :
    (rx now : Time) → rx ≤ℤ now → now ≤ℤ rx +ℤ pos max_tp_age → sub_time now rx ≡ now -ℤ rx
elapsed_lem rx now a b = sub_time_exact now rx (omega int_laws, omega int_laws)

elapsed_less :
    (rx now : Time)
    → rx ≤ℤ now
    → now ≤ℤ rx +ℤ pos max_tp_age
    → i64 ((now -ℤ rx) -ℤ pos second) ≡ (now -ℤ rx) -ℤ pos second
elapsed_less rx now a b = i64_of_IsI64 ((now -ℤ rx) -ℤ pos second) (omega int_laws, omega int_laws)

tai_lem : (r o d : ℤ) → r +ℤ pos second +ℤ o +ℤ (d -ℤ pos second) ≡ r +ℤ o +ℤ d
tai_lem r o d = omega int_laws

fresh_lem : (d : ℤ) → d ≤ℤ pos max_tp_age → ltb_ℤ (pos max_tp_age) d ≡ false
fresh_lem d h = ground arith

take_fix_now :
    (s : GpsdSource) (rx now t : Time)
    → IsI64 (s.tai_offset *ℤ pos second)
    → rx ≤ℤ now
    → now ≤ℤ rx +ℤ pos max_tp_age
    → let offset = s.tai_offset *ℤ pos second in
      (tai_now (take_fix s rx t) now ≡ some (round_time t +ℤ offset +ℤ (now -ℤ rx)))
      × (get_pps_time (take_fix s rx t) now ≡ some (round_time t +ℤ pos second +ℤ offset))
unfolding tai_now get_pps_time take_fix
take_fix_now s rx now t h a b =
    rw
      (
        elapsed_lem rx now a b,
        fresh_lem (now -ℤ rx) (omega int_laws),
        elapsed_less rx now a b,
        i64_of_IsI64 (s.tai_offset *ℤ pos second) h,
        tai_lem (round_time t) (s.tai_offset *ℤ pos second) (now -ℤ rx),
      )
      (refl, refl)

-- A report with a fix (mode 2 or more) whose time reads as the epoch `t`, received at `rx`, names
-- the pulse a second after the rounded epoch, shifted by the TAI offset, whose nanoseconds are an
-- int64. Until it is two seconds old, the estimate of TAI is the rounded epoch with this shift and
-- with the time since `rx`. The rounded epoch is within half a second of `t`, on either side.
pub tai_now-process_tpv :
    {W : Type 0} (parse : List ℕ → Option Time) (s : GpsdSource) (rx now t : Time) (tpv : GpsdTpv W)
    → pos 2 ≤ℤ tpv.mode
    → parse tpv.time ≡ some t
    → 1 ≤ length tpv.time
    → IsI64 (s.tai_offset *ℤ pos second)
    → rx ≤ℤ now
    → now ≤ℤ rx +ℤ pos max_tp_age
    → let s' = process_tpv parse s rx tpv in
      let offset = s.tai_offset *ℤ pos second in
      (tai_now s' now ≡ some (round_time t +ℤ offset +ℤ (now -ℤ rx)))
      × (get_pps_time s' now ≡ some (round_time t +ℤ pos second +ℤ offset))
      × (round_time t ≤ℤ t +ℤ pos 500000000)
      × (t <ℤ round_time t +ℤ pos 500000001)
tai_now-process_tpv parse s rx now t tpv m e l h a b =
    let (running, naming) = take_fix_now s rx now t h a b in
    let (above, below) = round_time_near t in
    rw (process_tpv_fix parse s rx t tpv m e l) (running, naming, above, below)
