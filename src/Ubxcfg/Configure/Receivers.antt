-- ===== src/Ubxcfg/Configure/Receivers.antt =====
-- The two receiver families: what `configureM9N`, `configureM8N` and `configureM8NDevice` write,
-- the detection of the family and of the baud rate.
use ts2phc_go.Common.{
  ℕ, ◌+◌, ◌*◌, Bool, true, false, not, Option, none, some, List, [], ◌∷◌, length, ltb,
  if◌then◌else◌,
}
use ts2phc_go.Common.Int.{ℤ, pos, eqb_ℤ}
use ts2phc_go.Ubx.Bytes.{put_uint16, pattern_of}
use ts2phc_go.Ubx.Frame.{encode, encode_poll}
use ts2phc_go.Ubx.Cfg.{
  CfgItem, class_cfg, id_cfg_cfg, id_cfg_nav5, id_cfg_valset, cfg_u1, cfg_i2, cfg_l, encode_valset,
  encode_cfg_nav5_dyn_model, encode_cfg_cfg_save,
}
use ts2phc_go.Ubxcfg.Ack.{prepend_unique}
use ts2phc_go.Ubxcfg.Configure.{
  id_cfg_tp5, id_cfg_gnss, class_mon, id_mon_ver, Write, Line, Fetched, found, read_frame,
  write_failed, no_baud, not_open, poll_failed, too_short, Ran, and_then, Command, written_to,
  answer_to, send_and_await_ack, send_all, m8n_nmea_toggles,
}

-- `m8nCfgPrt115200`
abbrev pub m8n_cfg_prt115200 : List ℕ
m8n_cfg_prt115200 =
    0xb5 ∷ 0x62 ∷ 0x06 ∷ 0x00 ∷ 0x14 ∷ 0x00 ∷ 0x01 ∷ 0x00 ∷ 0x00 ∷ 0x00 ∷ 0xc0 ∷ 0x08 ∷ 0x00 ∷ 0x00
    ∷ 0x00 ∷ 0xc2 ∷ 0x01 ∷ 0x00 ∷ 0x07 ∷ 0x00 ∷ 0x03 ∷ 0x00 ∷ 0x00 ∷ 0x00 ∷ 0x00 ∷ 0x00 ∷ 0xb0
    ∷ 0x7e ∷ []

-- `m8nCfgGnssGalileoOnQzssOff`
abbrev pub m8n_cfg_gnss_galileo_on_qzss_off : List ℕ
m8n_cfg_gnss_galileo_on_qzss_off =
    0xb5 ∷ 0x62 ∷ 0x06 ∷ 0x3e ∷ 0x3c ∷ 0x00 ∷ 0x00 ∷ 0x20 ∷ 0x20 ∷ 0x07 ∷ 0x00 ∷ 0x08 ∷ 0x10 ∷ 0x00
    ∷ 0x01 ∷ 0x00 ∷ 0x01 ∷ 0x01 ∷ 0x01 ∷ 0x01 ∷ 0x03 ∷ 0x00 ∷ 0x01 ∷ 0x00 ∷ 0x01 ∷ 0x01 ∷ 0x02
    ∷ 0x04 ∷ 0x08 ∷ 0x00 ∷ 0x01 ∷ 0x00 ∷ 0x01 ∷ 0x01 ∷ 0x03 ∷ 0x08 ∷ 0x10 ∷ 0x00 ∷ 0x00 ∷ 0x00
    ∷ 0x01 ∷ 0x01 ∷ 0x04 ∷ 0x00 ∷ 0x08 ∷ 0x00 ∷ 0x00 ∷ 0x00 ∷ 0x01 ∷ 0x03 ∷ 0x05 ∷ 0x00 ∷ 0x03
    ∷ 0x00 ∷ 0x00 ∷ 0x00 ∷ 0x01 ∷ 0x05 ∷ 0x06 ∷ 0x08 ∷ 0x0e ∷ 0x00 ∷ 0x01 ∷ 0x00 ∷ 0x01 ∷ 0x01
    ∷ 0x55 ∷ 0x47 ∷ []

abbrev pub m8n_probe_bauds : List ℤ
m8n_probe_bauds = pos 115200 ∷ pos 9600 ∷ pos 38400 ∷ pos 57600 ∷ pos 19200 ∷ pos 4800 ∷ []

-- The items of `configureM9N`, in order.
abbrev pub m9n_items : ℕ → ℤ → List CfgItem
m9n_items dyn_model delay =
    cfg_u1 0x20110021 dyn_model
    ∷ cfg_i2 0x30050001 delay
    ∷ cfg_u1 0x20910009 1
    ∷ cfg_u1 0x2091003b 1
    ∷ cfg_u1 0x2091005e 1
    ∷ cfg_u1 0x20910068 1
    ∷ cfg_u1 0x20910018 5
    ∷ cfg_u1 0x20910180 1
    ∷ cfg_u1 0x20910348 5
    ∷ cfg_l 0x10780001 true
    ∷ cfg_l 0x10780002 true
    ∷ cfg_l 0x10770001 true
    ∷ cfg_l 0x10770002 true
    ∷ []

-- `LayerRAM|LayerBBR|LayerFlash`
abbrev pub all_layers : ℕ
all_layers = 1 + 2 + 4

abbrev pub valset_command : ℕ → ℤ → Command
valset_command dyn_model delay = record {
  msg = encode_valset all_layers (m9n_items dyn_model delay);
  class = class_cfg;
  id = id_cfg_valset;
}

abbrev pub gnss_command : Command
gnss_command = record {
  msg = m8n_cfg_gnss_galileo_on_qzss_off;
  class = class_cfg;
  id = id_cfg_gnss;
}

abbrev pub tp5_poll : List ℕ
tp5_poll = encode class_cfg id_cfg_tp5 (0 ∷ [])

-- `payload` with `PutUint16(payload[4:6], uint16(antCableDelayNs))`
unfoldable pub with_delay : ℤ → List ℕ → List ℕ
with_delay delay (a ∷ b ∷ c ∷ d ∷ e ∷ f ∷ rest) =
    a ∷ b ∷ c ∷ d ∷ put_uint16 (pattern_of 32768 delay) rest
with_delay delay payload = payload

abbrev pub tp5_command : ℤ → List ℕ → Command
tp5_command delay payload = record {
  msg = encode class_cfg id_cfg_tp5 (with_delay delay payload);
  class = class_cfg;
  id = id_cfg_tp5;
}

abbrev pub nav5_command : ℕ → Command
nav5_command dyn_model = record {
  msg = encode_cfg_nav5_dyn_model dyn_model;
  class = class_cfg;
  id = id_cfg_nav5;
}

-- All sections, to the battery-backed memory and to the flash.
abbrev pub save_command : Command
save_command = record {
  msg = encode_cfg_cfg_save 0xffff (1 + 2);
  class = class_cfg;
  id = id_cfg_cfg;
}

abbrev pub mon_ver_poll : List ℕ
mon_ver_poll = encode_poll class_mon id_mon_ver

abbrev pub answered : Fetched → Bool
answered (found f) = true
answered other = false

module _ (line : Line) where
  unfoldable pub configure_m9n : ℤ → List Write → ℕ → ℤ → Ran
  unfolding send_and_await_ack
  configure_m9n baud sent dyn_model delay =
      send_and_await_ack line baud sent (valset_command dyn_model delay)

  -- What `applyM8NAntCableDelay` does with the frame that answers the poll.
  abbrev pub patch_tp5 : ℤ → List Write → ℤ → Fetched → Ran
  patch_tp5 baud sent delay (found f) =
      if ltb (length f.payload) 32
      then record { sent = sent; error = some (too_short (length f.payload)) }
      else send_and_await_ack line baud sent (tp5_command delay f.payload)
  patch_tp5 baud sent delay other = record { sent = sent; error = some (poll_failed other) }

  abbrev pub tp5_answer : ℤ → List Write → Fetched
  tp5_answer baud sent =
      read_frame (class_cfg * 256 + id_cfg_tp5) [] (answer_to line baud sent tp5_poll).reads

  unfoldable pub apply_m8n_ant_cable_delay : ℤ → List Write → ℤ → Ran
  unfolding send_and_await_ack read_frame with_delay
  apply_m8n_ant_cable_delay baud sent delay =
      let sent' = written_to line baud sent tp5_poll in
      if not (answer_to line baud sent tp5_poll).written
      then record { sent = sent'; error = some write_failed }
      else patch_tp5 baud sent' delay (tp5_answer baud sent)

  unfoldable pub configure_m8n : ℤ → List Write → ℕ → ℤ → Ran
  unfolding send_and_await_ack send_all apply_m8n_ant_cable_delay
  configure_m8n baud sent dyn_model delay =
      and_then (send_and_await_ack line baud sent gnss_command) (λ s₁.
        and_then (send_all line baud s₁ m8n_nmea_toggles) (λ s₂.
          and_then (apply_m8n_ant_cable_delay baud s₂ delay) (λ s₃.
            and_then (send_and_await_ack line baud s₃ (nav5_command dyn_model))
              (λ s₄. send_and_await_ack line baud s₄ save_command))))

  -- The frame that answers a MON-VER poll; an error of the write is ignored.
  unfoldable pub version_answer : List Write → ℤ → Fetched
  unfolding read_frame
  version_answer sent baud =
      read_frame (class_mon * 256 + id_mon_ver) [] (answer_to line baud sent mon_ver_poll).reads

  -- `probeBaud`: the first rate at which the receiver answers, and the messages written.
  unfoldable pub probe_baud : List Write → List ℤ → List Write × Option ℤ
  unfolding version_answer
  probe_baud sent [] = (sent, none)
  probe_baud sent (baud ∷ bauds) =
      let skipped = probe_baud sent bauds in
      let silent = probe_baud (written_to line baud sent mon_ver_poll) bauds in
      if not (line.opens sent baud)
      then skipped
      else if answered (version_answer sent baud)
      then (written_to line baud sent mon_ver_poll, some baud)
      else silent

  -- The last part of `configureM8NDevice`, behind the change of the rate.
  abbrev pub configure_at_115200 : List Write → ℕ → ℤ → Ran
  configure_at_115200 sent dyn_model delay =
      if line.opens sent (pos 115200)
      then configure_m8n (pos 115200) sent dyn_model delay
      else record { sent = sent; error = some not_open }

  -- The change of the rate to 115200.
  abbrev pub upgrade_baud : List Write → ℤ → Ran
  upgrade_baud sent baud =
      if not (line.opens sent baud) then record { sent = sent; error = some not_open } else record {
        sent = written_to line baud sent m8n_cfg_prt115200;
        error =
            if (answer_to line baud sent m8n_cfg_prt115200).written
            then none
            else some write_failed;
      }

  abbrev pub configure_from : List Write → Option ℤ → ℕ → ℤ → Ran
  configure_from sent none dyn_model delay = record { sent = sent; error = some no_baud }
  configure_from sent (some baud) dyn_model delay =
      if eqb_ℤ baud (pos 115200)
      then configure_at_115200 sent dyn_model delay
      else and_then (upgrade_baud sent baud) (λ s. configure_at_115200 s dyn_model delay)

  unfoldable pub configure_m8n_device : List Write → ℤ → ℕ → ℤ → Ran
  unfolding probe_baud configure_m8n prepend_unique
  configure_m8n_device sent baud dyn_model delay =
      let probed = probe_baud sent (prepend_unique baud m8n_probe_bauds) in
      configure_from probed.0 probed.1 dyn_model delay
