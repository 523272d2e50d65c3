-- ===== src/Ubx/Msg/Nav.antt =====
-- NAV-PVT, NAV-DOP, NAV-TIMEUTC and NAV-CLOCK of ubx/msg.go, with their parsers.
use Prim.Native.Nat.{bit_and}
use ts2phc_go.Common.{ℕ, Bool, not, List, length, ltb, ◌==◌, if◌then◌else◌}
use ts2phc_go.Common.Int.{ℤ}
use ts2phc_go.Common.Word.{signed32}
use ts2phc_go.Ubx.Bytes.{byte_at, uint16_at, uint32_at}

pub data Parsed {ℓ} (A : Type ℓ) : Type ℓ where
  ok : A → Parsed A
  too_short : ℕ → Parsed A
  too_short_for : ℕ → ℕ → Parsed A

-- `x & mask != 0`
abbrev pub has_bit : ℕ → ℕ → Bool
has_bit x mask = not (bit_and x mask == 0)

pub record NavPvt : Type 0 where
  pub itow : ℕ
  pub year : ℕ
  pub month : ℕ
  pub day : ℕ
  pub hour : ℕ
  pub min : ℕ
  pub sec : ℕ
  pub valid : ℕ
  pub t_acc : ℕ
  pub nano : ℤ
  pub fix_type : ℕ
  pub flags : ℕ
  pub flags2 : ℕ
  pub num_sv : ℕ
  pub lon : ℤ
  pub lat : ℤ
  pub height : ℤ
  pub h_msl : ℤ
  pub h_acc : ℕ
  pub v_acc : ℕ
  pub vel_n : ℤ
  pub vel_e : ℤ
  pub vel_d : ℤ
  pub g_speed : ℤ
  pub head_mot : ℤ
  pub s_acc : ℕ
  pub head_acc : ℕ
  pub pdop : ℕ
  pub flags3 : ℕ

abbrev pub gnss_fix_ok : NavPvt → Bool
gnss_fix_ok p = has_bit p.flags 0x01

unfoldable pub parse_nav_pvt : List ℕ → Parsed NavPvt
parse_nav_pvt payload =
    if ltb (length payload) 92
    then too_short (length payload)
    else ok (record {
      itow = uint32_at payload 0;
      year = uint16_at payload 4;
      month = byte_at payload 6;
      day = byte_at payload 7;
      hour = byte_at payload 8;
      min = byte_at payload 9;
      sec = byte_at payload 10;
      valid = byte_at payload 11;
      t_acc = uint32_at payload 12;
      nano = signed32 (uint32_at payload 16);
      fix_type = byte_at payload 20;
      flags = byte_at payload 21;
      flags2 = byte_at payload 22;
      num_sv = byte_at payload 23;
      lon = signed32 (uint32_at payload 24);
      lat = signed32 (uint32_at payload 28);
      height = signed32 (uint32_at payload 32);
      h_msl = signed32 (uint32_at payload 36);
      h_acc = uint32_at payload 40;
      v_acc = uint32_at payload 44;
      vel_n = signed32 (uint32_at payload 48);
      vel_e = signed32 (uint32_at payload 52);
      vel_d = signed32 (uint32_at payload 56);
      g_speed = signed32 (uint32_at payload 60);
      head_mot = signed32 (uint32_at payload 64);
      s_acc = uint32_at payload 68;
      head_acc = uint32_at payload 72;
      pdop = uint16_at payload 76;
      flags3 = byte_at payload 78;
    })

pub record NavDop : Type 0 where
  pub itow : ℕ
  pub gdop : ℕ
  pub pdop : ℕ
  pub tdop : ℕ
  pub vdop : ℕ
  pub hdop : ℕ
  pub ndop : ℕ
  pub edop : ℕ

unfoldable pub parse_nav_dop : List ℕ → Parsed NavDop
parse_nav_dop payload =
    if ltb (length payload) 18
    then too_short (length payload)
    else ok (record {
      itow = uint32_at payload 0;
      gdop = uint16_at payload 4;
      pdop = uint16_at payload 6;
      tdop = uint16_at payload 8;
      vdop = uint16_at payload 10;
      hdop = uint16_at payload 12;
      ndop = uint16_at payload 14;
      edop = uint16_at payload 16;
    })

pub record NavTimeUtc : Type 0 where
  pub itow : ℕ
  pub t_acc : ℕ
  pub nano : ℤ
  pub year : ℕ
  pub month : ℕ
  pub day : ℕ
  pub hour : ℕ
  pub min : ℕ
  pub sec : ℕ
  pub valid : ℕ

abbrev pub valid_tow : NavTimeUtc → Bool
valid_tow t = has_bit t.valid 0x01

abbrev pub valid_wkn : NavTimeUtc → Bool
valid_wkn t = has_bit t.valid 0x02

abbrev pub valid_utc : NavTimeUtc → Bool
valid_utc t = has_bit t.valid 0x04

unfoldable pub parse_nav_time_utc : List ℕ → Parsed NavTimeUtc
parse_nav_time_utc payload =
    if ltb (length payload) 20
    then too_short (length payload)
    else ok (record {
      itow = uint32_at payload 0;
      t_acc = uint32_at payload 4;
      nano = signed32 (uint32_at payload 8);
      year = uint16_at payload 12;
      month = byte_at payload 14;
      day = byte_at payload 15;
      hour = byte_at payload 16;
      min = byte_at payload 17;
      sec = byte_at payload 18;
      valid = byte_at payload 19;
    })

pub record NavClock : Type 0 where
  pub itow : ℕ
  pub clk_b : ℤ
  pub clk_d : ℤ
  pub t_acc : ℕ
  pub f_acc : ℕ

unfoldable pub parse_nav_clock : List ℕ → Parsed NavClock
parse_nav_clock payload =
    if ltb (length payload) 20
    then too_short (length payload)
    else ok (record {
      itow = uint32_at payload 0;
      clk_b = signed32 (uint32_at payload 4);
      clk_d = signed32 (uint32_at payload 8);
      t_acc = uint32_at payload 12;
      f_acc = uint32_at payload 16;
    })
