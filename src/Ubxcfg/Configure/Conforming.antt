-- ===== src/Ubxcfg/Configure/Conforming.antt =====
-- A receiver that answers as the protocol says gets its whole configuration.
use ts2phc_go.Common.{
  ℕ, ◌+◌, ◌*◌, ◌≤◌, ◌<◌, ◌≡◌, refl, ap, ◌∙◌, true, false, ltb, ==_refl, none, some, List, [], ◌∷◌,
  ◌++◌, map, length, take, drop, All, replicate, arith,
}
use ts2phc_go.Common.Int.{ℤ}
use ts2phc_go.Ubx.Bytes.{put_uint16, put_uint32}
use ts2phc_go.Ubx.Frame.{Frame, checksum, feed_all, encode}
use ts2phc_go.Ubx.Msg.{parse_ack}
use ts2phc_go.Ubx.Cfg.{
  class_cfg, id_cfg_cfg, id_cfg_nav5, encode_cfg_nav5_dyn_model, encode_cfg_cfg_save,
}
use ts2phc_go.Ubxcfg.{stop, round, parse_frames}
use ts2phc_go.Ubxcfg.Ack.{got, acked, judge_frame, judge_frames}
use ts2phc_go.Ubxcfg.Noise.{IsNoise, parse_frames-noise}
use ts2phc_go.Ubxcfg.Wait.{flatten, verdict, await_ack-stream}
use ts2phc_go.Ubxcfg.Configure.{
  Write, Line, found, find_class, Ran, and_then, Command, answer_to, written_to, send_and_await_ack,
  send_all, id_cfg_msg, id_cfg_tp5, id_cfg_gnss, toggle, m8n_nmea_toggles,
}
use ts2phc_go.Ubxcfg.Configure.Receivers.{
  m8n_cfg_gnss_galileo_on_qzss_off, gnss_command, tp5_poll, tp5_answer, with_delay, nav5_command,
  save_command, apply_m8n_ant_cable_delay, configure_m8n,
}
use ts2phc_go.Ubxcfg.Configure.Runs.{IsConfirmed, send_and_await_ack-none}
use ts2phc_go.Ubxcfg.Configure.Plan.{last_two, behind_profile}
use ts2phc_go.Ubxcfg.Configure.Fetch.{fetched, read_frame-stream}

abbrev ack_frame : ℕ → ℕ → Frame
ack_frame class id = record { class = 0x05; id = 0x01; payload = class ∷ id ∷ [] }

judge_frames-ack : (class id : ℕ) → judge_frames class id (ack_frame class id ∷ []) ≡ some acked
unfolding judge_frames judge_frame parse_ack
judge_frames-ack class id = ground (arith, ==_refl class, ==_refl id)

abbrev tp5_frame : List ℕ → Frame
tp5_frame payload = record { class = class_cfg; id = id_cfg_tp5; payload = payload }

find_class-tp5 :
    (payload : List ℕ)
    → find_class (class_cfg * 256 + id_cfg_tp5) (tp5_frame payload ∷ []) ≡ some (tp5_frame payload)
unfolding find_class
find_class-tp5 payload = refl

with_delay-length :
    (delay : ℤ) (payload : List ℕ) → 32 ≤ length payload → 2 ≤ length (with_delay delay payload)
unfolding with_delay
with_delay-length delay (a ∷ b ∷ c ∷ d ∷ e ∷ f ∷ rest) h = omega arith
with_delay-length delay _ h = absurd (omega arith)

-- The payload of the constant `m8nCfgGnssGalileoOnQzssOff`, which is a frame.
abbrev gnss_payload : List ℕ
gnss_payload = take 60 (drop 6 m8n_cfg_gnss_galileo_on_qzss_off)

gnss_frame : encode class_cfg id_cfg_gnss gnss_payload ≡ m8n_cfg_gnss_galileo_on_qzss_off
unfolding encode checksum feed_all
gnss_frame = refl

module _ (line : Line) (baud : ℤ) where
  -- What the line brings behind a message is the given bytes, with noise in front and behind, in any
  -- pieces.
  pub record Brings (sent : List Write) (msg bytes : List ℕ) : Type 0 where
    pub taken : (answer_to line baud sent msg).written ≡ true
    pub chunks : List (List ℕ)
    pub reads : (answer_to line baud sent msg).reads ≡ map got chunks
    pub before : List ℕ
    pub before_noise : All IsNoise before
    pub after : List ℕ
    pub after_noise : All IsNoise after
    pub stream : flatten chunks ≡ before ++ (bytes ++ after)

  -- A receiver acknowledges a configuration message of two bytes or more, and answers the poll
  -- of its time pulse with at least 32 bytes of it.
  pub record IsConforming : Type 0 where
    pub acks :
        (sent : List Write) (id : ℕ) (payload : List ℕ)
        → 2 ≤ length payload
        → Brings sent (encode class_cfg id payload) (encode 0x05 0x01 (class_cfg ∷ id ∷ []))
    pub reports :
        (sent : List Write)
        → (payload : List ℕ) × (32 ≤ length payload)
          × (length payload < 65536)
          × Brings sent tp5_poll (encode class_cfg id_cfg_tp5 payload)

  Brings-IsConfirmed :
      (sent : List Write) (c : Command)
      → Brings sent c.msg (encode 0x05 0x01 (c.class ∷ c.id ∷ []))
      → IsConfirmed line baud sent c
  Brings-IsConfirmed sent c h =
      let quiet : round [] ≡ stop = unfold round in refl in
      let (rem, whole) =
        parse_frames-noise 0x05 0x01 (c.class ∷ c.id ∷ []) h.before h.after (omega arith)
          h.before_noise h.after_noise in
      let acknowledged : parse_frames (flatten h.chunks) ≡ some (ack_frame c.class c.id ∷ [], rem) =
        rw h.stream whole in
      let ended = await_ack-stream c.class c.id [] h.chunks quiet acknowledged in
      record {
        taken = h.taken;
        confirmed = rw h.reads (ended ∙ ap verdict (judge_frames-ack c.class c.id));
      }

  and_then-both :
      (r : Ran) (k : List Write → Ran)
      → r.error ≡ none
      → ((s : List Write) → (k s).error ≡ none)
      → (and_then r k).error ≡ none
  and_then-both r k e h = rw e (h r.sent)

  abbrev IsAnswered : Command → Type 0
  IsAnswered c = (s : List Write) → (send_and_await_ack line baud s c).error ≡ none

  send_all-none :
      (cs : List Command) (sent : List Write)
      → All IsAnswered cs
      → (send_all line baud sent cs).error ≡ none
  unfolding send_all
  send_all-none [] sent h = refl
  send_all-none (c ∷ cs) sent h =
      and_then-both (send_and_await_ack line baud sent c) (λ s. send_all line baud s cs) (h.0 sent)
        (λ s. send_all-none cs s h.1)

  IsConforming-IsAnswered :
      (id : ℕ) (payload : List ℕ)
      → IsConforming
      → 2 ≤ length payload
      → IsAnswered (record { msg = encode class_cfg id payload; class = class_cfg; id = id })
  IsConforming-IsAnswered id payload h l s =
      let c : Command = record { msg = encode class_cfg id payload; class = class_cfg; id = id } in
      send_and_await_ack-none line baud s c (Brings-IsConfirmed s c (h.acks s id payload l))

  apply_m8n_ant_cable_delay-none :
      (s : List Write) (delay : ℤ)
      → IsConforming
      → (apply_m8n_ant_cable_delay line baud s delay).error ≡ none
  unfolding apply_m8n_ant_cable_delay
  apply_m8n_ant_cable_delay-none s delay h =
      let (payload, long, fits, b) = h.reports s in
      let quiet : round [] ≡ stop = unfold round in refl in
      let (rem, whole) =
        parse_frames-noise class_cfg id_cfg_tp5 payload b.before b.after fits b.before_noise
          b.after_noise in
      let reported : parse_frames (flatten b.chunks) ≡ some (tp5_frame payload ∷ [], rem) =
        rw b.stream whole in
      let fetch : tp5_answer line baud s ≡ found (tp5_frame payload) = rw b.reads (
        read_frame-stream (class_cfg * 256 + id_cfg_tp5) [] b.chunks quiet reported
        ∙ ap fetched (find_class-tp5 payload)) in
      let large : ltb (length payload) 32 ≡ false = ground arith in
      rw (b.taken, fetch, large)
        (IsConforming-IsAnswered id_cfg_tp5 (with_delay delay payload) h
          (with_delay-length delay payload long) (written_to line baud s tp5_poll))

  gnss-IsAnswered : IsConforming → IsAnswered gnss_command
  gnss-IsAnswered h =
      rw gnss_frame at (IsConforming-IsAnswered id_cfg_gnss gnss_payload h (omega arith))

  toggles-IsAnswered : IsConforming → All IsAnswered m8n_nmea_toggles
  toggles-IsAnswered h =
      let one : (msg_id rate : ℕ) → IsAnswered (toggle msg_id rate) = λ msg_id rate.
        IsConforming-IsAnswered id_cfg_msg
          (0xf0 ∷ msg_id ∷ rate ∷ rate ∷ rate ∷ rate ∷ rate ∷ 0 ∷ []) h (omega arith) in
      (
        one 0x00 1,
        (one 0x04 1, (one 0x08 1, (one 0x01 0, (one 0x02 0, (one 0x03 0, (one 0x05 0, tt)))))),
      )

  nav5-IsAnswered : (dyn_model : ℕ) → IsConforming → IsAnswered (nav5_command dyn_model)
  nav5-IsAnswered dyn_model h =
      unfold encode_cfg_nav5_dyn_model in
      IsConforming-IsAnswered id_cfg_nav5 (put_uint16 1 (dyn_model ∷ replicate 33 0)) h
        (omega arith)

  save-IsAnswered : IsConforming → IsAnswered save_command
  save-IsAnswered h =
      unfold encode_cfg_cfg_save in
      IsConforming-IsAnswered id_cfg_cfg (put_uint32 0 (put_uint32 0xffff (put_uint32 0 (3 ∷ []))))
        h (omega arith)

  -- If each configuration message is taken and, before its deadline, the line brings the frame that
  -- acknowledges it, and behind each poll of the time pulse a frame with 32 to 65535 bytes of it, the
  -- configuration comes to its end without an error. In front of such a frame and behind it there may
  -- be any bytes but 0xb5, as of NMEA sentences, and the reads may cut the stream anywhere; there is
  -- no other UBX frame, and no read fails.
  pub configure_m8n-done :
      (sent : List Write) (dyn_model : ℕ) (delay : ℤ)
      → IsConforming
      → (configure_m8n line baud sent dyn_model delay).error ≡ none
  unfolding configure_m8n
  configure_m8n-done sent dyn_model delay h =
      let save = λ (s : List Write). send_and_await_ack line baud s save_command in
      let tail = behind_profile line baud dyn_model delay in
      let toggles = λ (s : List Write). and_then (send_all line baud s m8n_nmea_toggles) tail in
      and_then-both (send_and_await_ack line baud sent gnss_command) toggles
        (gnss-IsAnswered h sent)
        (λ s₁.
          and_then-both (send_all line baud s₁ m8n_nmea_toggles) tail
            (send_all-none m8n_nmea_toggles s₁ (toggles-IsAnswered h))
            (λ s₂.
              and_then-both (apply_m8n_ant_cable_delay line baud s₂ delay)
                (last_two line baud dyn_model) (apply_m8n_ant_cable_delay-none s₂ delay h)
                (λ s₃.
                  and_then-both (send_and_await_ack line baud s₃ (nav5_command dyn_model)) save
                    (nav5-IsAnswered dyn_model h s₃) (save-IsAnswered h))))
