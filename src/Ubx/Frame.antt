-- ===== src/Ubx/Frame.antt =====
-- UBX wire frames, ubx/frame.go. A byte slice is a list of numbers; a byte is below 256.
pub mod Codec
pub mod Damage
use ts2phc_go.Common.{
  ℕ, ◌+◌, ◌*◌, ◌/◌, Bool, not, ◌||◌, List, [], ◌∷◌, ◌++◌, length, get_or, take, drop, ltb, ◌==◌,
  if◌then◌else◌,
}
use ts2phc_go.Common.Word.{u8, u16}

abbrev pub sync_a : ℕ
sync_a = 0xb5

abbrev pub sync_b : ℕ
sync_b = 0x62

abbrev pub header_len : ℕ
header_len = 6

abbrev pub checksum_len : ℕ
checksum_len = 2

-- `Frame`: a class, an id and a payload.
pub record Frame : Type 0 where
  pub class : ℕ
  pub id : ℕ
  pub payload : List ℕ

-- The errors of `Decode`; `short_need` is the wrapped `ErrShortFrame` with its two numbers.
pub data DecodeError : Type 0 where
  short_frame bad_checksum bad_sync : DecodeError
  short_need : ℕ → ℕ → DecodeError

pub data Decoded : Type 0 where
  ok : Frame → Decoded
  err : DecodeError → Decoded

-- `uint16(f.Class)<<8 | uint16(f.ID)`: the two bytes do not overlap, so `|` is a sum.
abbrev pub class_id : Frame → ℕ
class_id f = f.class * 256 + f.id

-- `a += v; b += a` in uint8.
abbrev pub feed : ℕ × ℕ → ℕ → ℕ × ℕ
feed (a, b) v = (u8 (a + v), u8 (b + u8 (a + v)))

unfoldable pub feed_all : ℕ × ℕ → List ℕ → ℕ × ℕ
feed_all s [] = s
feed_all s (v ∷ vs) = feed_all (feed s v) vs

-- The low and the high byte of `uint16(len(payload))`.
abbrev pub len_lo : List ℕ → ℕ
len_lo payload = u8 (u16 (length payload))

abbrev pub len_hi : List ℕ → ℕ
len_hi payload = u8 (u16 (length payload) / 256)

unfoldable pub checksum : ℕ → ℕ → List ℕ → ℕ × ℕ
checksum class id payload =
    feed_all (feed (feed (feed (feed (0, 0) class) id) (len_lo payload)) (len_hi payload)) payload

unfoldable pub encode : ℕ → ℕ → List ℕ → List ℕ
encode class id payload =
    let (ck_a, ck_b) = checksum class id payload in
    sync_a ∷ sync_b ∷ class ∷ id ∷ len_lo payload ∷ len_hi payload ∷ payload ++ (ck_a ∷ ck_b ∷ [])

-- `f.Bytes()`
abbrev pub bytes : Frame → List ℕ
bytes f = encode f.class f.id f.payload

-- `EncodePoll`
unfoldable pub encode_poll : ℕ → ℕ → List ℕ
encode_poll class id = encode class id []

-- The 16-bit little-endian length of `raw[4:6]`.
abbrev pub frame_length : List ℕ → ℕ
frame_length raw = get_or raw 4 0 + 256 * get_or raw 5 0

-- `rest` is `raw[HeaderLen:]`, so the checksum stands at `rest[length]` and `rest[length+1]`.
unfoldable pub decode_body : List ℕ → List ℕ → Decoded
decode_body raw rest =
    let class = get_or raw 2 0 in
    let id = get_or raw 3 0 in
    let len = frame_length raw in
    let payload = take len rest in
    let ck = drop len rest in
    let (ck_a, ck_b) = checksum class id payload in
    if not (get_or ck 0 0 == ck_a) || not (get_or ck 1 0 == ck_b)
    then err bad_checksum
    else ok (record { class = class; id = id; payload = payload })

unfoldable pub decode : List ℕ → Decoded
unfolding decode_body
decode raw =
    let total = header_len + frame_length raw + checksum_len in
    if ltb (length raw) (header_len + checksum_len)
    then err short_frame
    else if not (get_or raw 0 0 == sync_a) || not (get_or raw 1 0 == sync_b)
    then err bad_sync
    else if ltb (length raw) total
    then err (short_need total (length raw))
    else decode_body raw (drop header_len raw)
