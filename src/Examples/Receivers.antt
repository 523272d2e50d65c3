-- ===== src/Examples/Receivers.antt =====
-- The configuration of a receiver over a serial line.
use ts2phc_go.Common.{
  ℕ, ◌≡◌, ◌∙◌, refl, true, false, none, some, List, [], ◌∷◌, ◌++◌, length, get_or, ◌==◌, not, ◌||◌,
  ◌&&◌, if◌then◌else◌, replicate, append_nil, arith,
}
use ts2phc_go.Common.Int.{ℤ, pos, eqb_ℤ, negsuc}
use ts2phc_go.Ubx.Frame.{encode, decode, ok}
use ts2phc_go.Ubx.Frame.Codec.{length-encode}
use ts2phc_go.Ubx.Cfg.{class_cfg, id_cfg_valset, item_bytes}
use ts2phc_go.Ubx.Cfg.Valset.{read_items}
use ts2phc_go.Ubxcfg.Ack.{got, failed}
use ts2phc_go.Ubxcfg.Configure.{Line, written_to, id_cfg_tp5}
use ts2phc_go.Ubxcfg.Configure.Receivers.{
  tp5_poll, m9n_items, valset_command, configure_m9n, configure_m8n,
}
use ts2phc_go.Ubxcfg.Configure.Runs.{Follows, IsConfirmed}
use ts2phc_go.Ubxcfg.Configure.Plan.{Applied, configure_m8n-Applied}
use ts2phc_go.Ubxcfg.Configure.Content.{configure_m9n-read}
use ts2phc_go.Ubxcfg.Configure.Conforming.{IsConforming, configure_m8n-done}

-- A receiver that knows the polls by their lengths, 9 bytes and 8, answers them, and acknowledges
-- every other message.
abbrev report : List ℕ
report = replicate 32 7

abbrev answer_bytes : List ℕ → List ℕ
answer_bytes msg =
    if length msg == 9
    then encode class_cfg id_cfg_tp5 report
    else if length msg == 8
    then encode 0x0a 0x04 (replicate 40 0)
    else encode 0x05 0x01 (class_cfg ∷ get_or msg 3 0 ∷ [])

-- It speaks between the ends of two sentences.
abbrev sentence : List ℕ
sentence = 42 ∷ 53 ∷ 67 ∷ 13 ∷ 10 ∷ []

abbrev spoken : List ℕ → List ℕ
spoken msg = sentence ++ (answer_bytes msg ++ sentence)

-- Its port opens at 9600 baud and, once something was written, at 115200 baud.
abbrev receiver : Line
receiver = record {
  opens = λ sent baud. eqb_ℤ baud (pos 9600) || (eqb_ℤ baud (pos 115200) && not (length sent == 0));
  answer = λ sent w. record { written = true; reads = got (spoken w.msg) ∷ [] };
}

receiver-IsConforming : (baud : ℤ) → IsConforming receiver baud
receiver-IsConforming baud = record {
  acks = λ sent id payload h.
      let size : (length (encode class_cfg id payload) == 9) ≡ false =
        ground (arith, length-encode class_cfg id payload) in
      let size' : (length (encode class_cfg id payload) == 8) ≡ false =
        ground (arith, length-encode class_cfg id payload) in
      let named : get_or (encode class_cfg id payload) 3 0 ≡ id = unfold encode in refl in
      record {
        taken = refl;
        chunks = spoken (encode class_cfg id payload) ∷ [];
        reads = refl;
        before = sentence;
        before_noise = ground arith;
        after = sentence;
        after_noise = ground arith;
        stream = append_nil (spoken (encode class_cfg id payload)) ∙ rw (size, size', named) refl;
      };
  reports = λ sent. (
    report,
    omega arith,
    omega arith,
    record {
      taken = refl;
      chunks = spoken tp5_poll ∷ [];
      reads = refl;
      before = sentence;
      before_noise = ground arith;
      after = sentence;
      after_noise = ground arith;
      stream = append_nil (spoken tp5_poll) ∙ (unfold encode in refl);
    },
  );
}

configure_m8n-done_example : (configure_m8n receiver (pos 115200) [] 2 (pos 38)).error ≡ none
configure_m8n-done_example =
    configure_m8n-done receiver (pos 115200) [] 2 (pos 38) (receiver-IsConforming (pos 115200))

-- A line that fails in the second message.
abbrev broken : Line
broken = record {
  opens = λ sent baud. true;
  answer = λ sent w. record {
    written = true;
    reads = if length sent == 1 then failed ∷ [] else got (answer_bytes w.msg) ∷ [];
  };
}

configure_m8n-Applied_example :
    Applied broken (pos 9600) [] 2 (pos 38) (configure_m8n broken (pos 9600) [] 2 (pos 38))
configure_m8n-Applied_example = configure_m8n-Applied broken (pos 9600) [] 2 (pos 38)

configure_m9n-read_example :
    let c = valset_command 2 (negsuc 4) in
    let items = m9n_items 2 (negsuc 4) in
    let r = configure_m9n receiver (pos 115200) [] 2 (negsuc 4) in
    Follows receiver (pos 115200) [] (c ∷ []) r
    × (IsConfirmed receiver (pos 115200) [] c → r.error ≡ none)
    × (r.sent ≡ written_to receiver (pos 115200) [] c.msg)
    × (decode c.msg
        ≡ ok (record {
          class = class_cfg;
          id = id_cfg_valset;
          payload = 0 ∷ 7 ∷ 0 ∷ 0 ∷ item_bytes items;
        }))
    × (read_items 14 (item_bytes items) ≡ some items)
configure_m9n-read_example = configure_m9n-read receiver (pos 115200) [] 2 (negsuc 4)
