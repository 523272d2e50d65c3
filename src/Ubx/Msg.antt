-- ===== src/Ubx/Msg.antt =====
-- The messages of ubx/msg.go, with their parsers; the messages of the navigation solution
-- are in Nav, the accessors that convert to floats in Units. A payload that is too short is an error
-- that names its length.
pub mod Nav
pub mod Layout
pub mod Sat
pub mod Units
use Prim.Native.Nat.{bit_and}
use ts2phc_go.Common.{
  ℕ, zero, suc, ◌+◌, ◌*◌, ◌/◌, Bool, not, List, [], ◌∷◌, length, drop, take, ltb, ◌==◌,
  if◌then◌else◌,
}
use ts2phc_go.Common.Int.{ℤ, pos, ◌*ℤ◌}
use ts2phc_go.Common.Word.{i64, signed8, signed16, signed32}
use ts2phc_go.Common.Time.{Time, add_time, add_duration}
use ts2phc_go.Ubx.Bytes.{byte_at, uint16_at, uint32_at}
unfoldable pub use ts2phc_go.Ubx.Msg.Nav.*

pub record TimTp : Type 0 where
  pub tow_ms : ℕ
  pub tow_sub_ms : ℕ
  pub qerr : ℤ
  pub week : ℕ
  pub flags : ℕ
  pub ref_info : ℕ

unfoldable pub parse_tim_tp : List ℕ → Parsed TimTp
parse_tim_tp payload =
    if ltb (length payload) 16
    then too_short (length payload)
    else ok (record {
      tow_ms = uint32_at payload 0;
      tow_sub_ms = uint32_at payload 4;
      qerr = signed32 (uint32_at payload 8);
      week = uint16_at payload 12;
      flags = byte_at payload 14;
      ref_info = byte_at payload 15;
    })

abbrev pub time_base_utc : TimTp → Bool
time_base_utc t = has_bit t.flags 0x01

abbrev pub utc_available : TimTp → Bool
utc_available t = has_bit t.flags 0x02

abbrev pub raim : TimTp → ℕ
raim t = bit_and (t.flags / 4) 0x03

abbrev pub qerr_invalid : TimTp → Bool
qerr_invalid t = has_bit t.flags 0x10

abbrev pub tp_not_locked : TimTp → Bool
tp_not_locked t = has_bit t.flags 0x20

-- 6 January 1980, in nanoseconds since the zero Time.
abbrev pub gps_epoch : Time
gps_epoch = pos 62451561600000000000

-- `ToTAI`. The products are those of int64.
unfoldable pub to_tai : TimTp → ℤ → Time
to_tai t utc_tai_offset_sec =
    let week_dur = i64 (pos (t.week * 604800000000000)) in
    let tow_dur = i64 (pos (t.tow_ms * 1000000)) in
    let base = add_time gps_epoch (add_duration week_dur tow_dur) in
    if time_base_utc t
    then add_time base (i64 (utc_tai_offset_sec *ℤ pos 1000000000))
    else add_time base (pos 19000000000)

-- A byte in front of a text that has no zero bytes at its end.
abbrev pub trim_cons : ℕ → List ℕ → List ℕ
trim_cons c [] = if c == 0 then [] else c ∷ []
trim_cons c (d ∷ ds) = c ∷ d ∷ ds

-- `strings.TrimRight(s, "\x00")`
unfoldable pub trim_right : List ℕ → List ℕ
trim_right [] = []
trim_right (c ∷ cs) = trim_cons c (trim_right cs)

pub record Ack : Type 0 where
  pub cls_id : ℕ
  pub msg_id : ℕ

unfoldable pub parse_ack : List ℕ → Parsed Ack
parse_ack payload =
    if ltb (length payload) 2
    then too_short (length payload)
    else ok (record { cls_id = byte_at payload 0; msg_id = byte_at payload 1 })

pub record SatInfo : Type 0 where
  pub gnss_id : ℕ
  pub sv_id : ℕ
  pub cno : ℕ
  pub elev : ℤ
  pub azim : ℤ
  pub pr_res : ℤ
  pub flags : ℕ

abbrev pub quality_ind : SatInfo → ℕ
quality_ind s = bit_and s.flags 0x07

abbrev pub sv_used : SatInfo → Bool
sv_used s = has_bit s.flags 0x08

abbrev pub health : SatInfo → ℕ
health s = bit_and (s.flags / 16) 0x03

pub record NavSat : Type 0 where
  pub itow : ℕ
  pub num_svs : ℕ
  pub svs : List SatInfo

-- The satellite at the front of `payload[off:]`.
abbrev pub sat_at : List ℕ → SatInfo
sat_at rest = record {
  gnss_id = byte_at rest 0;
  sv_id = byte_at rest 1;
  cno = byte_at rest 2;
  elev = signed8 (byte_at rest 3);
  azim = signed16 (uint16_at rest 4);
  pr_res = signed16 (uint16_at rest 6);
  flags = uint32_at rest 8;
}

-- The loop: `rest` is `payload[8+i*12:]`, the number is `numSvs - i`.
unfoldable pub parse_svs : ℕ → List ℕ → List SatInfo
parse_svs zero rest = []
parse_svs (suc n) rest = sat_at rest ∷ parse_svs n (drop 12 rest)

unfoldable pub parse_nav_sat : List ℕ → Parsed NavSat
unfolding parse_svs
parse_nav_sat payload =
    let num_svs = byte_at payload 5 in
    if ltb (length payload) 8
    then too_short (length payload)
    else if ltb (length payload) (8 + num_svs * 12)
    then too_short_for num_svs (length payload)
    else ok (record {
      itow = uint32_at payload 0;
      num_svs = num_svs;
      svs = parse_svs num_svs (drop 8 payload);
    })

pub record MonVer : Type 0 where
  pub sw_version : List ℕ
  pub hw_version : List ℕ
  pub extensions : List (List ℕ)

-- The loop over `rest`: the fuel is the length of the payload, and each round takes 30 bytes.
unfoldable pub parse_extensions : ℕ → List ℕ → List (List ℕ)
unfolding trim_right
parse_extensions zero rest = []
parse_extensions (suc fuel) rest =
    let more = parse_extensions fuel (drop 30 rest) in
    if ltb (length rest) 30 then [] else trim_right (take 30 rest) ∷ more

unfoldable pub parse_mon_ver : List ℕ → Parsed MonVer
unfolding parse_extensions trim_right
parse_mon_ver payload =
    if ltb (length payload) 40
    then too_short (length payload)
    else ok (record {
      sw_version = trim_right (take 30 payload);
      hw_version = trim_right (take 10 (drop 30 payload));
      extensions = parse_extensions (length payload) (drop 40 payload);
    })
