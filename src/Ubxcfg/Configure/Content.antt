-- ===== src/Ubxcfg/Configure/Content.antt =====
-- What the receiver reads in the messages of the configuration.
use ts2phc_go.Common.{
  ℕ, zero, suc, ◌+◌, ◌*◌, ◌/◌, ◌%◌, ◌≤◌, ◌≡◌, ◌≢◌, refl, none, Bool, true, ◌&&◌, ◌==◌, ltb, some,
  List, [], ◌∷◌, length, get_or, All, arith,
}
use ts2phc_go.Common.Int.{ℤ, pos, negsuc}
use ts2phc_go.Common.Word.{signed16}
use ts2phc_go.Ubx.Bytes.{put_uint16, uint16_at, pattern_of, IsSigned}
use ts2phc_go.Ubx.Frame.{decode, ok}
use ts2phc_go.Ubx.Cfg.{CfgItem, class_cfg, id_cfg_valset, item_bytes}
use ts2phc_go.Ubx.Cfg.Valset.{IsSized, value_size, read_items, valset-read}
use ts2phc_go.Ubxcfg.Configure.{Write, Line, written_to, send_and_await_ack}
use ts2phc_go.Ubxcfg.Configure.Receivers.{
  m9n_items, all_layers, valset_command, configure_m9n, with_delay,
}
use ts2phc_go.Ubxcfg.Configure.Runs.{
  Follows, IsConfirmed, send_and_await_ack-none, send_and_await_ack-Follows,
}

abbrev is_sized : CfgItem → Bool
is_sized it = ltb it.key 4294967296 && (length it.val == value_size it.key)

abbrev all_sized : List CfgItem → Bool
all_sized [] = true
all_sized (it ∷ items) = is_sized it && all_sized items

all_sized-IsSized : (items : List CfgItem) → all_sized items ≡ true → All IsSized items
all_sized-IsSized [] h = tt
all_sized-IsSized (it ∷ items) h = (
  record { key = ground (arith, h); size = ground (arith, h) },
  all_sized-IsSized items (ground (arith, h)),
)

m9n_items-IsSized : (dyn_model : ℕ) (delay : ℤ) → All IsSized (m9n_items dyn_model delay)
m9n_items-IsSized dyn_model delay = all_sized-IsSized (m9n_items dyn_model delay) refl

m9n_items-length :
    (dyn_model : ℕ) (delay : ℤ) → length (item_bytes (m9n_items dyn_model delay)) ≡ 66
unfolding item_bytes
m9n_items-length dyn_model delay = refl

-- However the line behaves, an M9N is written one message, a VALSET for all three layers in which the
-- receiver reads back the thirteen items. If the line takes it and the wait ends in its
-- acknowledgement, there is no error; and if there is no error, it was taken and acknowledged.
pub configure_m9n-read :
    (line : Line) (baud : ℤ) (sent : List Write) (dyn_model : ℕ) (delay : ℤ)
    → let c = valset_command dyn_model delay in
      let items = m9n_items dyn_model delay in
      let r = configure_m9n line baud sent dyn_model delay in
      Follows line baud sent (c ∷ []) r
      × (IsConfirmed line baud sent c → r.error ≡ none)
      × (r.sent ≡ written_to line baud sent c.msg)
      × (decode c.msg
          ≡ ok (record {
            class = class_cfg;
            id = id_cfg_valset;
            payload = 0 ∷ 7 ∷ 0 ∷ 0 ∷ item_bytes items;
          }))
      × (read_items 14 (item_bytes items) ≡ some items)
unfolding configure_m9n
configure_m9n-read line baud sent dyn_model delay =
    let read =
      valset-read all_layers (m9n_items dyn_model delay) (m9n_items-IsSized dyn_model delay)
        (omega (arith, m9n_items-length dyn_model delay)) in
    let c = valset_command dyn_model delay in
    (
      send_and_await_ack-Follows line baud sent c,
      send_and_await_ack-none line baud sent c,
      (unfold send_and_await_ack in refl),
      read.0,
      read.1,
    )

signed16_of_pattern :
    (delay : ℤ)
    → IsSigned 32768 delay
    → signed16 (pattern_of 32768 delay % 256 + 256 * (pattern_of 32768 delay / 256 % 256)) ≡ delay
signed16_of_pattern (pos n) h = ground arith
signed16_of_pattern (negsuc n) h = ground arith

behind_patch :
    (a b c d e f n : ℕ) (rest : List ℕ) (i v : ℕ)
    → i ≢ 4
    → i ≢ 5
    → get_or (a ∷ b ∷ c ∷ d ∷ put_uint16 n rest) i v ≡ get_or (a ∷ b ∷ c ∷ d ∷ e ∷ f ∷ rest) i v
behind_patch a b c d e f n rest zero v p q = refl
behind_patch a b c d e f n rest (suc zero) v p q = refl
behind_patch a b c d e f n rest (suc (suc zero)) v p q = refl
behind_patch a b c d e f n rest (suc (suc (suc zero))) v p q = refl
behind_patch a b c d e f n rest (suc (suc (suc (suc zero)))) v p q = absurd (p refl)
behind_patch a b c d e f n rest (suc (suc (suc (suc (suc zero))))) v p q = absurd (q refl)
behind_patch a b c d e f n rest (suc (suc (suc (suc (suc (suc i)))))) v p q = refl

-- The patched time pulse carries the delay as a signed 16-bit number in the bytes 4 and 5, and is
-- the receiver's own everywhere else, its length included.
pub with_delay-read :
    (delay : ℤ) (payload : List ℕ)
    → IsSigned 32768 delay
    → 6 ≤ length payload
    → (signed16 (uint16_at (with_delay delay payload) 4) ≡ delay)
      × (length (with_delay delay payload) ≡ length payload)
      × ((i d : ℕ) → i ≢ 4 → i ≢ 5 → get_or (with_delay delay payload) i d ≡ get_or payload i d)
unfolding with_delay
with_delay-read delay [] h l = absurd (omega arith)
with_delay-read delay (a ∷ []) h l = absurd (omega arith)
with_delay-read delay (a ∷ b ∷ []) h l = absurd (omega arith)
with_delay-read delay (a ∷ b ∷ c ∷ []) h l = absurd (omega arith)
with_delay-read delay (a ∷ b ∷ c ∷ d ∷ []) h l = absurd (omega arith)
with_delay-read delay (a ∷ b ∷ c ∷ d ∷ e ∷ []) h l = absurd (omega arith)
with_delay-read delay (a ∷ b ∷ c ∷ d ∷ e ∷ f ∷ rest) h l =
    (signed16_of_pattern delay h, refl, behind_patch a b c d e f (pattern_of 32768 delay) rest)
