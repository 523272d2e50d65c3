-- ===== src/Ubx/Msg/Layout.antt =====
-- The parsers read each field at its place: the layouts of the u-blox interface description, as
-- lists of bytes, are parsed back into the fields.
use ts2phc_go.Common.{ℕ, ◌+◌, ◌*◌, ◌/◌, ◌%◌, ◌≤◌, ◌<◌, ◌≡◌, List, length, ◌∷◌, arith}
use ts2phc_go.Common.Int.{ℤ, pos, negsuc}
use ts2phc_go.Common.Word.{signed, signed32}
use ts2phc_go.Ubx.Bytes.{put_uint16, put_uint32, pattern_of, IsSigned}
use ts2phc_go.Ubx.Msg.{
  ok, TimTp, parse_tim_tp, NavClock, parse_nav_clock, NavTimeUtc, parse_nav_time_utc, NavPvt,
  parse_nav_pvt,
}

pub signed-pattern_of : (half : ℕ) (z : ℤ) → IsSigned half z → signed half (pattern_of half z) ≡ z
signed-pattern_of half (pos n) h = ground arith
signed-pattern_of half (negsuc n) h = ground arith

abbrev pub bytes_of_uint32 : ℕ → ℕ
bytes_of_uint32 n =
    n % 256 + 256 * (n / 256 % 256) + 65536 * (n / 65536 % 256) + 16777216 * (n / 16777216 % 256)

pub uint32_bytes : (n : ℕ) → n < 4294967296 → bytes_of_uint32 n ≡ n
uint32_bytes n h = omega arith

pub uint16_bytes : (n : ℕ) → n < 65536 → n % 256 + 256 * (n / 256 % 256) ≡ n
uint16_bytes n h = omega arith

pattern32-lt : (z : ℤ) → IsSigned 2147483648 z → pattern_of 2147483648 z < 4294967296
pattern32-lt (pos n) h = omega arith
pattern32-lt (negsuc n) h = omega arith

pub signed32_bytes :
    (z : ℤ) → IsSigned 2147483648 z → signed32 (bytes_of_uint32 (pattern_of 2147483648 z)) ≡ z
signed32_bytes z h =
    rw (uint32_bytes (pattern_of 2147483648 z) (pattern32-lt z h))
      (signed-pattern_of 2147483648 z h)

abbrev pub put_int32 : ℤ → List ℕ → List ℕ
put_int32 z = put_uint32 (pattern_of 2147483648 z)

-- UBX-TIM-TP: towMS, towSubMS, qErr, week, flags, refInfo.
abbrev pub tim_tp_bytes : TimTp → List ℕ → List ℕ
tim_tp_bytes t rest =
    put_uint32 t.tow_ms
      (put_uint32 t.tow_sub_ms (put_int32 t.qerr (put_uint16 t.week (t.flags ∷ t.ref_info ∷ rest))))

pub record IsTimTp (t : TimTp) : Type 0 where
  pub tow_ms : t.tow_ms < 4294967296
  pub tow_sub_ms : t.tow_sub_ms < 4294967296
  pub qerr : IsSigned 2147483648 t.qerr
  pub week : t.week < 65536

-- A TIM-TP payload is parsed into the fields that it was laid out from, whatever follows them.
parse_tim_tp-bytes :
    (t : TimTp) (rest : List ℕ) → IsTimTp t → parse_tim_tp (tim_tp_bytes t rest) ≡ ok t
unfolding parse_tim_tp
parse_tim_tp-bytes t rest h = ground (
  arith,
  uint32_bytes t.tow_ms h.tow_ms,
  uint32_bytes t.tow_sub_ms h.tow_sub_ms,
  signed32_bytes t.qerr h.qerr,
  uint16_bytes t.week h.week,
)

-- UBX-NAV-CLOCK: iTOW, clkB, clkD, tAcc, fAcc.
abbrev pub nav_clock_bytes : NavClock → List ℕ → List ℕ
nav_clock_bytes c rest =
    put_uint32 c.itow
      (put_int32 c.clk_b (put_int32 c.clk_d (put_uint32 c.t_acc (put_uint32 c.f_acc rest))))

pub record IsNavClock (c : NavClock) : Type 0 where
  pub itow : c.itow < 4294967296
  pub clk_b : IsSigned 2147483648 c.clk_b
  pub clk_d : IsSigned 2147483648 c.clk_d
  pub t_acc : c.t_acc < 4294967296
  pub f_acc : c.f_acc < 4294967296

-- A NAV-CLOCK payload is parsed into the fields that it was laid out from, whatever follows them.
parse_nav_clock-bytes :
    (c : NavClock) (rest : List ℕ) → IsNavClock c → parse_nav_clock (nav_clock_bytes c rest) ≡ ok c
unfolding parse_nav_clock
parse_nav_clock-bytes c rest h = ground (
  arith,
  uint32_bytes c.itow h.itow,
  signed32_bytes c.clk_b h.clk_b,
  signed32_bytes c.clk_d h.clk_d,
  uint32_bytes c.t_acc h.t_acc,
  uint32_bytes c.f_acc h.f_acc,
)

-- UBX-NAV-PVT; `rest` is what follows `flags3`.
abbrev pub nav_pvt_bytes : NavPvt → List ℕ → List ℕ
nav_pvt_bytes p rest = put_uint32 p.itow (
    put_uint16 p.year (
      p.month
      ∷ p.day
      ∷ p.hour
      ∷ p.min
      ∷ p.sec
      ∷ p.valid
      ∷ put_uint32 p.t_acc (
          put_int32 p.nano (
            p.fix_type
            ∷ p.flags
            ∷ p.flags2
            ∷ p.num_sv
            ∷ put_int32 p.lon (
                put_int32 p.lat (
                  put_int32 p.height (
                    put_int32 p.h_msl (
                      put_uint32 p.h_acc (
                        put_uint32 p.v_acc (
                          put_int32 p.vel_n (
                            put_int32 p.vel_e (
                              put_int32 p.vel_d (
                                put_int32 p.g_speed (
                                  put_int32 p.head_mot (
                                    put_uint32 p.s_acc (
                                      put_uint32 p.head_acc
                                        (put_uint16 p.pdop (p.flags3 ∷ rest))))))))))))))))))

pub record IsNavPvt (p : NavPvt) : Type 0 where
  pub itow : p.itow < 4294967296
  pub year : p.year < 65536
  pub t_acc : p.t_acc < 4294967296
  pub nano : IsSigned 2147483648 p.nano
  pub lon : IsSigned 2147483648 p.lon
  pub lat : IsSigned 2147483648 p.lat
  pub height : IsSigned 2147483648 p.height
  pub h_msl : IsSigned 2147483648 p.h_msl
  pub h_acc : p.h_acc < 4294967296
  pub v_acc : p.v_acc < 4294967296
  pub vel_n : IsSigned 2147483648 p.vel_n
  pub vel_e : IsSigned 2147483648 p.vel_e
  pub vel_d : IsSigned 2147483648 p.vel_d
  pub g_speed : IsSigned 2147483648 p.g_speed
  pub head_mot : IsSigned 2147483648 p.head_mot
  pub s_acc : p.s_acc < 4294967296
  pub head_acc : p.head_acc < 4294967296
  pub pdop : p.pdop < 65536

-- A NAV-PVT payload is parsed into the fields that it was laid out from, if thirteen bytes or more
-- follow them.
parse_nav_pvt-bytes :
    (p : NavPvt) (rest : List ℕ)
    → IsNavPvt p
    → 13 ≤ length rest
    → parse_nav_pvt (nav_pvt_bytes p rest) ≡ ok p
unfolding parse_nav_pvt
parse_nav_pvt-bytes p rest h long = ground (
  arith,
  uint32_bytes p.itow h.itow,
  uint16_bytes p.year h.year,
  uint32_bytes p.t_acc h.t_acc,
  signed32_bytes p.nano h.nano,
  signed32_bytes p.lon h.lon,
  signed32_bytes p.lat h.lat,
  signed32_bytes p.height h.height,
  signed32_bytes p.h_msl h.h_msl,
  uint32_bytes p.h_acc h.h_acc,
  uint32_bytes p.v_acc h.v_acc,
  signed32_bytes p.vel_n h.vel_n,
  signed32_bytes p.vel_e h.vel_e,
  signed32_bytes p.vel_d h.vel_d,
  signed32_bytes p.g_speed h.g_speed,
  signed32_bytes p.head_mot h.head_mot,
  uint32_bytes p.s_acc h.s_acc,
  uint32_bytes p.head_acc h.head_acc,
  uint16_bytes p.pdop h.pdop,
)

-- UBX-NAV-TIMEUTC: iTOW, tAcc, nano, year, month, day, hour, min, sec, valid.
abbrev pub nav_time_utc_bytes : NavTimeUtc → List ℕ → List ℕ
nav_time_utc_bytes t rest = put_uint32 t.itow (
    put_uint32 t.t_acc (
      put_int32 t.nano
        (put_uint16 t.year (t.month ∷ t.day ∷ t.hour ∷ t.min ∷ t.sec ∷ t.valid ∷ rest))))

pub record IsNavTimeUtc (t : NavTimeUtc) : Type 0 where
  pub itow : t.itow < 4294967296
  pub t_acc : t.t_acc < 4294967296
  pub nano : IsSigned 2147483648 t.nano
  pub year : t.year < 65536

-- A NAV-TIMEUTC payload is parsed into the fields that it was laid out from, whatever follows them.
parse_nav_time_utc-bytes :
    (t : NavTimeUtc) (rest : List ℕ)
    → IsNavTimeUtc t
    → parse_nav_time_utc (nav_time_utc_bytes t rest) ≡ ok t
unfolding parse_nav_time_utc
parse_nav_time_utc-bytes t rest h = ground (
  arith,
  uint32_bytes t.itow h.itow,
  uint32_bytes t.t_acc h.t_acc,
  signed32_bytes t.nano h.nano,
  uint16_bytes t.year h.year,
)
