-- ===== src/Pmc/Settings.antt =====
-- The grandmaster settings on the wire, and what the monitor's announcement becomes there.
use ts2phc_go.Common.{
  ℕ, ◌%◌, ◌<◌, ◌≡◌, refl, ap, Bool, true, false, ◌&&◌, Option, none, some, List, [], ◌∷◌, ◌++◌,
  length, get_or, drop, arith,
}
use ts2phc_go.Common.Int.{ℤ, pos, negsuc}
use ts2phc_go.Ubx.Bytes.{pattern_of, IsSigned}
use ts2phc_go.Ubx.Msg.Layout.{signed-pattern_of}
use ts2phc_go.Gm.{GmState, Settings, announce, apply}
use ts2phc_go.Gm as Gm
use ts2phc_go.Pmc.{
  Agent, is_data, action_set, mid_grandmaster_settings_np, recv_response, settings_bytes,
  read_settings, get_grandmaster_settings, set_grandmaster_settings,
}
use ts2phc_go.Pmc.Message.{send_request-layout, reply_body, recv_response-reply}

pub record IsSettings (gs : Settings) : Type 0 where
  pub variance : gs.offset_scaled_log_variance < 65536
  pub offset : IsSigned 32768 gs.utc_offset

pattern16-lt : (z : ℤ) → IsSigned 32768 z → pattern_of 32768 z < 65536
pattern16-lt (pos n) h = omega arith
pattern16-lt (negsuc n) h = omega arith

read_settings-bytes : (gs : Settings) → IsSettings gs → read_settings (settings_bytes gs) ≡ some gs
unfolding read_settings settings_bytes
read_settings-bytes gs h = ground (
  arith,
  h.variance,
  pattern16-lt gs.utc_offset h.offset,
  signed-pattern_of 32768 gs.utc_offset h.offset,
)

announce-IsSettings :
    (state : GmState) (gs : Settings) → IsSettings gs → IsSettings (announce state gs)
unfolding announce
announce-IsSettings state gs h = ground (arith, h.variance, h.offset)

-- What the socket does in one `apply`: whether the two writes go out, and the two answers.
pub record Socket : Type 0 where
  pub get_ok : Bool
  pub got : Option (List ℕ)
  pub set_ok : Bool
  pub acked : Option (List ℕ)

abbrev pub settings_read : Agent → Socket → Option Settings
settings_read a c = (get_grandmaster_settings a c.get_ok c.got).2

-- `apply` of main.go over the socket: the agent, the datagrams in order, and whether it went
-- without an error.
abbrev pub set_announced :
    Agent → Socket → GmState → List ℕ → Option Settings → Agent × List (List ℕ) × Bool
set_announced a c state request none = (a, request ∷ [], false)
set_announced a c state request (some gs) =
    let (a', message, ok) = set_grandmaster_settings a (announce state gs) c.set_ok c.acked in
    (a', request ∷ message ∷ [], ok)

unfoldable pub wire_apply : Agent → Socket → GmState → Agent × List (List ℕ) × Bool
wire_apply a c state =
    let (a', request, settings) = get_grandmaster_settings a c.get_ok c.got in
    set_announced a' c state request settings

-- What the monitor sees of the agent and the socket.
abbrev pub agent_of : Agent → Socket → Gm.Agent
agent_of a c = record {
  settings = settings_read a c;
  set_ok = c.set_ok && is_data (recv_response mid_grandmaster_settings_np c.acked);
}

-- What the second datagram, if there is one, tells ptp4l.
abbrev pub announced : List (List ℕ) → Option Settings
announced (request ∷ message ∷ []) = read_settings (drop 54 message)
announced _ = none

abbrev pub AreInRange : Option Settings → Type 0
AreInRange none = true ≡ true
AreInRange (some gs) = IsSettings gs

set_message :
    (a : Agent) (gs : Settings) (ok : Bool) (answer : Option (List ℕ))
    → IsSettings gs
    → read_settings (drop 54 (set_grandmaster_settings a gs ok answer).1) ≡ some gs
unfolding set_grandmaster_settings
set_message a gs ok answer h =
    let layout =
      send_request-layout a mid_grandmaster_settings_np action_set (settings_bytes gs) (omega arith)
        (unfold settings_bytes in omega arith) in
    rw (layout.4) (read_settings-bytes gs h)

set_succeeds :
    (a : Agent) (gs : Settings) (ok : Bool) (answer : Option (List ℕ))
    → (set_grandmaster_settings a gs ok answer).2
      ≡ (ok && is_data (recv_response mid_grandmaster_settings_np answer))
unfolding set_grandmaster_settings
set_succeeds a gs true answer = refl
set_succeeds a gs false answer = refl

set_announced-refines :
    (a : Agent) (c : Socket) (state : GmState) (request : List ℕ) (settings : Option Settings)
    → AreInRange settings
    → let (_, sent, ok) = set_announced a c state request settings in
      let g : Gm.Agent = record {
        settings = settings;
        set_ok = c.set_ok && is_data (recv_response mid_grandmaster_settings_np c.acked);
      } in
      (announced sent, ok) ≡ apply g state
unfolding apply
set_announced-refines a c state request none h = refl
set_announced-refines a c state request (some gs) h =
    rw (set_message a (announce state gs) c.set_ok c.acked (announce-IsSettings state gs h)) (
      ap (λ b. (some (announce state gs), b)) (set_succeeds a (announce state gs) c.set_ok c.acked))

-- The monitor's view of the agent is right: over the socket, the settings that ptp4l is told, read
-- back from the bytes of the message, and the error are those of `apply` on what ptp4l answered, if
-- the settings that it answered are in the range of their fields.
pub wire_apply-refines :
    (a : Agent) (c : Socket) (state : GmState)
    → AreInRange (settings_read a c)
    → let (_, sent, ok) = wire_apply a c state in (announced sent, ok) ≡ apply (agent_of a c) state
unfolding wire_apply
wire_apply-refines a c state h =
    let (a', request, settings) = get_grandmaster_settings a c.get_ok c.got in
    set_announced-refines a' c state request settings h

-- A reply that carries settings in the range of their fields is read as these settings.
pub get-reply :
    (a : Agent) (prefix : List ℕ) (hops boundary reserved kind : ℕ) (gs : Settings)
    → length prefix ≡ 44
    → get_or prefix 0 0 % 16 ≡ 0xD
    → IsSettings gs
    → (get_grandmaster_settings a true (
        some (
          prefix
          ++ reply_body hops boundary reserved kind mid_grandmaster_settings_np
              (settings_bytes gs)))).2
      ≡ some gs
unfolding get_grandmaster_settings
get-reply a prefix hops boundary reserved kind gs l m h =
    rw
      (recv_response-reply prefix l hops boundary reserved kind mid_grandmaster_settings_np
        (settings_bytes gs) m (omega arith) (unfold settings_bytes in omega arith))
      (read_settings-bytes gs h)
