-- ===== src/Ubx/Cfg/Valset.antt =====
-- A receiver that reads a VALSET frame finds the items that were put into it.
use ts2phc_go.Common.{
  ℕ, zero, suc, ◌+◌, ◌*◌, ◌/◌, ◌<◌, ◌≡◌, ◌==◌, if◌then◌else◌, refl, Option, none, some, List, [],
  ◌∷◌, length, take, drop, take-append, drop-append, All, arith,
}
use ts2phc_go.Ubx.Frame.{decode, ok}
use ts2phc_go.Ubx.Frame.Codec.{decode-encode}
use ts2phc_go.Ubx.Cfg.{CfgItem, class_cfg, id_cfg_valset, item_bytes, valset_payload, encode_valset}
use ts2phc_go.Ubx.Msg.Layout.{uint32_bytes}
use mathlib.Core.Option
use mathlib.Core.List.{append-nil}

-- The size in bytes that the interface description gives a value by bits 28 to 31 of its key:
-- 1 and 2 are one byte, 3 is two, 4 is four and 5 is eight.
abbrev pub size_code : ℕ → ℕ
size_code c =
    if c == 1
    then 1
    else if c == 2
    then 1
    else if c == 3
    then 2
    else if c == 4
    then 4
    else if c == 5
    then 8
    else 0

abbrev pub value_size : ℕ → ℕ
value_size key = size_code (key / 268435456)

-- The value has the size that its key says, and the key is a uint32.
pub record IsSized (it : CfgItem) : Type 0 where
  pub key : it.key < 4294967296
  pub size : length it.val ≡ value_size it.key

-- How a receiver reads the items: a key, then as many bytes as the key says.
pub read_items : ℕ → List ℕ → Option (List CfgItem)
read_items zero bs = none
read_items (suc fuel) [] = some []
read_items (suc fuel) (a ∷ b ∷ c ∷ d ∷ rest) =
    let key = a + 256 * b + 65536 * c + 16777216 * d in
    let more = read_items fuel (drop (value_size key) rest) in
    Option.map (λ items. record { key = key; val = take (value_size key) rest } ∷ items) more
read_items (suc fuel) _ = none

read_items-item_bytes :
    (items : List CfgItem) (fuel : ℕ)
    → length items < fuel
    → All IsSized items
    → read_items fuel (item_bytes items) ≡ some items
unfolding read_items item_bytes
read_items-item_bytes items zero h all = absurd (omega arith)
read_items-item_bytes [] (suc fuel) h all = refl
read_items-item_bytes (it ∷ items) (suc fuel) h all =
    let k = uint32_bytes it.key all.0.key in
    rw (
      k,
      ← all.0.size,
      take-append it.val (item_bytes items),
      drop-append it.val (item_bytes items),
      read_items-item_bytes items fuel (omega arith) all.1,
    )

-- A VALSET frame decodes to a payload of version 0, the layers and two reserved bytes, whose rest
-- a receiver reads back as exactly the items that were put in, if they fit one frame.
pub valset-read :
    (layers : ℕ) (items : List CfgItem)
    → All IsSized items
    → length (item_bytes items) < 65532
    → (decode (encode_valset layers items)
        ≡ ok (record {
          class = class_cfg;
          id = id_cfg_valset;
          payload = 0 ∷ layers ∷ 0 ∷ 0 ∷ item_bytes items;
        }))
      × (read_items (suc (length items)) (item_bytes items) ≡ some items)
unfolding encode_valset
valset-read layers items all h =
    let payload = valset_payload layers items in
    (
      rw append-nil at (decode-encode class_cfg id_cfg_valset payload [] (omega arith)),
      read_items-item_bytes items (suc (length items)) (omega arith) all,
    )
