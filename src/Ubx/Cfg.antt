-- ===== src/Ubx/Cfg.antt =====
-- Configuration frames, ubx/cfg.go.
pub mod Valset
use ts2phc_go.Common.{ℕ, Bool, List, [], ◌∷◌, ◌++◌, replicate, set, if◌then◌else◌}
use ts2phc_go.Common.Int.{ℤ}
use ts2phc_go.Ubx.Bytes.{put_uint16, put_uint32, pattern_of}
use ts2phc_go.Ubx.Frame.{encode}

abbrev pub class_cfg : ℕ
class_cfg = 0x06

abbrev pub id_cfg_cfg : ℕ
id_cfg_cfg = 0x09

abbrev pub id_cfg_nav5 : ℕ
id_cfg_nav5 = 0x24

abbrev pub id_cfg_valset : ℕ
id_cfg_valset = 0x8a

abbrev pub id_cfg_valget : ℕ
id_cfg_valget = 0x8b

pub record CfgItem : Type 0 where
  pub key : ℕ
  pub val : List ℕ

abbrev pub cfg_u1 : ℕ → ℕ → CfgItem
cfg_u1 key val = record { key = key; val = val ∷ [] }

abbrev pub cfg_u2 : ℕ → ℕ → CfgItem
cfg_u2 key val = record { key = key; val = put_uint16 val [] }

abbrev pub cfg_i2 : ℕ → ℤ → CfgItem
cfg_i2 key val = record { key = key; val = put_uint16 (pattern_of 32768 val) [] }

abbrev pub cfg_l : ℕ → Bool → CfgItem
cfg_l key val = record { key = key; val = (if val then 1 else 0) ∷ [] }

-- The loop over the items, which appends the key and the value of each.
unfoldable pub item_bytes : List CfgItem → List ℕ
item_bytes [] = []
item_bytes (it ∷ items) = put_uint32 it.key (it.val ++ item_bytes items)

abbrev pub valset_payload : ℕ → List CfgItem → List ℕ
valset_payload layers items = 0 ∷ layers ∷ 0 ∷ 0 ∷ item_bytes items

-- `EncodeValset`
unfoldable pub encode_valset : ℕ → List CfgItem → List ℕ
encode_valset layers items = encode class_cfg id_cfg_valset (valset_payload layers items)

unfoldable pub key_bytes : List ℕ → List ℕ
key_bytes [] = []
key_bytes (k ∷ ks) = put_uint32 k (key_bytes ks)

-- `EncodeValget`
unfoldable pub encode_valget : ℕ → List ℕ → List ℕ
encode_valget layer keys = encode class_cfg id_cfg_valget (0 ∷ layer ∷ 0 ∷ 0 ∷ key_bytes keys)

-- `EncodeCfgNav5DynModel`: 36 bytes, the mask 1 in the first two, the model in the third.
unfoldable pub encode_cfg_nav5_dyn_model : ℕ → List ℕ
encode_cfg_nav5_dyn_model dyn_model =
    encode class_cfg id_cfg_nav5 (put_uint16 1 (dyn_model ∷ replicate 33 0))

-- `EncodeCfgCfgSave`: clear mask, save mask, load mask and device mask.
unfoldable pub encode_cfg_cfg_save : ℕ → ℕ → List ℕ
encode_cfg_cfg_save save_mask device_mask =
    encode class_cfg id_cfg_cfg
      (put_uint32 0 (put_uint32 save_mask (put_uint32 0 (device_mask ∷ []))))
