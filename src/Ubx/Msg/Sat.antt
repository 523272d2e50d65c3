-- ===== src/Ubx/Msg/Sat.antt =====
-- NAV-SAT and MON-VER: payloads of variable length.
use ts2phc_go.Common.{ℕ, ◌+◌, ◌*◌, ◌<◌, ◌≡◌, refl, List, [], ◌∷◌, length, arith, All}
use ts2phc_go.Common.Int.{ℤ, pos, negsuc}
use ts2phc_go.Ubx.Bytes.{put_uint16, put_uint32, pattern_of, IsSigned}
use ts2phc_go.Ubx.Msg.{ok, SatInfo, NavSat, sat_at, parse_svs, parse_nav_sat}
use ts2phc_go.Ubx.Msg.Layout.{uint32_bytes, uint16_bytes, signed-pattern_of}

-- One satellite: gnssId, svId, cno, elev, azim, prRes, flags.
abbrev pub sat_bytes : SatInfo → List ℕ → List ℕ
sat_bytes s rest =
    s.gnss_id
    ∷ s.sv_id
    ∷ s.cno
    ∷ pattern_of 128 s.elev
    ∷ put_uint16 (pattern_of 32768 s.azim)
        (put_uint16 (pattern_of 32768 s.pr_res) (put_uint32 s.flags rest))

abbrev pub sats_bytes : List SatInfo → List ℕ → List ℕ
sats_bytes [] rest = rest
sats_bytes (s ∷ ss) rest = sat_bytes s (sats_bytes ss rest)

pub record IsSatInfo (s : SatInfo) : Type 0 where
  pub elev : IsSigned 128 s.elev
  pub azim : IsSigned 32768 s.azim
  pub pr_res : IsSigned 32768 s.pr_res
  pub flags : s.flags < 4294967296

pattern16-lt : (z : ℤ) → IsSigned 32768 z → pattern_of 32768 z < 65536
pattern16-lt (pos n) h = omega arith
pattern16-lt (negsuc n) h = omega arith

sat_at-bytes : (s : SatInfo) (rest : List ℕ) → IsSatInfo s → sat_at (sat_bytes s rest) ≡ s
sat_at-bytes s rest h = ground (
  arith,
  uint16_bytes (pattern_of 32768 s.azim) (pattern16-lt s.azim h.azim),
  uint16_bytes (pattern_of 32768 s.pr_res) (pattern16-lt s.pr_res h.pr_res),
  uint32_bytes s.flags h.flags,
  signed-pattern_of 128 s.elev h.elev,
  signed-pattern_of 32768 s.azim h.azim,
  signed-pattern_of 32768 s.pr_res h.pr_res,
)

parse_svs-bytes :
    (ss : List SatInfo) (rest : List ℕ)
    → All IsSatInfo ss
    → parse_svs (length ss) (sats_bytes ss rest) ≡ ss
unfolding parse_svs
parse_svs-bytes [] rest h = refl
parse_svs-bytes (s ∷ ss) rest h =
    rw (sat_at-bytes s (sats_bytes ss rest) h.0, parse_svs-bytes ss rest h.1)

length-sats_bytes :
    (ss : List SatInfo) (rest : List ℕ) → length (sats_bytes ss rest) ≡ length ss * 12 + length rest
length-sats_bytes [] rest = omega arith
length-sats_bytes (s ∷ ss) rest = omega (arith, length-sats_bytes ss rest)

-- UBX-NAV-SAT: iTOW, version, numSvs, two reserved bytes, then the satellites.
abbrev pub nav_sat_bytes : NavSat → ℕ → ℕ → ℕ → List ℕ → List ℕ
nav_sat_bytes n version r₁ r₂ rest =
    put_uint32 n.itow (version ∷ n.num_svs ∷ r₁ ∷ r₂ ∷ sats_bytes n.svs rest)

-- A NAV-SAT payload is parsed into the satellites that it was laid out from, all of them and in
-- order.
parse_nav_sat-bytes :
    (n : NavSat) (version r₁ r₂ : ℕ) (rest : List ℕ)
    → n.itow < 4294967296
    → n.num_svs ≡ length n.svs
    → All IsSatInfo n.svs
    → parse_nav_sat (nav_sat_bytes n version r₁ r₂ rest) ≡ ok n
unfolding parse_nav_sat
parse_nav_sat-bytes n version r₁ r₂ rest h e all =
    ground
      (arith, uint32_bytes n.itow h, length-sats_bytes n.svs rest, parse_svs-bytes n.svs rest all)
