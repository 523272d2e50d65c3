-- ===== src/Pmc.antt =====
-- The client of ptp4l's management socket (pmc/agent.go): the messages byte by byte. The socket is
-- an argument: whether a write goes out, and the datagram that a read returns before its deadline.
pub mod Message
pub mod Settings
pub mod Start
use ts2phc_go.Common.{
  ℕ, ◌+◌, ◌-◌, ◌*◌, ◌/◌, ◌%◌, Bool, true, false, not, Option, none, some, List, [], ◌∷◌, ◌++◌,
  length, get_or, take, drop, replicate, ltb, leb, ◌==◌, if◌then◌else◌,
}
use ts2phc_go.Common.Int.{ℤ, pos, negsuc}
use ts2phc_go.Common.Word.{u16, signed16}
use ts2phc_go.Ubx.Bytes.{pattern_of}
use ts2phc_go.Gm as Gm

abbrev pub mid_default_data_set : ℕ
mid_default_data_set = 0x2000

abbrev pub mid_port_data_set : ℕ
mid_port_data_set = 0x2004

abbrev pub mid_grandmaster_settings_np : ℕ
mid_grandmaster_settings_np = 0xC001

abbrev pub mid_subscribe_events_np : ℕ
mid_subscribe_events_np = 0xC003

-- `GET`, `SET` and `RESPONSE`
abbrev pub action_get : ℕ
action_get = 0

abbrev pub action_set : ℕ
action_set = 1

abbrev pub action_response : ℕ
action_response = 2

-- `DefaultDS`, with the arrays as lists of bytes.
pub record DefaultDs : Type 0 where
  pub two_step_flag : ℕ
  pub clock_identity : List ℕ
  pub number_ports : ℕ
  pub clock_quality : List ℕ
  pub priority1 : ℕ
  pub priority2 : ℕ
  pub clock_domain : ℕ
  pub slave_only : ℕ

-- The parts of `Agent` that its methods use: the port number of its identity, whose clock identity
-- is zero, the sequence number and the data set.
pub record Agent : Type 0 where
  pub port_number : ℕ
  pub seq_id : ℕ
  pub dds : DefaultDs

-- `PutUint16`, big-endian, in front of what follows.
abbrev pub put_be16 : ℕ → List ℕ → List ℕ
put_be16 n rest = n / 256 % 256 ∷ n % 256 ∷ rest

-- `binary.Read` of a uint16 that starts at byte `i`: 0 where the message ends before it does.
abbrev pub be16_at : List ℕ → ℕ → ℕ
be16_at buf i = if ltb (length buf) (i + 2) then 0 else 256 * get_or buf i 0 + get_or buf (i + 1) 0

-- The header, from the type to the log interval.
abbrev pub header : ℕ → ℕ → ℕ → List ℕ → List ℕ
header message_length port_number seq_id rest =
    0x0D
    ∷ 0x12
    ∷ put_be16 message_length
        (replicate 24 0 ++ put_be16 port_number (put_be16 seq_id (0 ∷ 0x7F ∷ rest)))

-- `sendRequest`: the agent and the datagram.
unfoldable pub send_request : Agent → ℕ → ℕ → List ℕ → Agent × List ℕ
send_request a mgt_id action payload =
    let seq = u16 (a.seq_id + 1) in
    (
      record a { seq_id = seq },
      header (u16 (48 + 6 + length payload)) a.port_number seq (
          replicate 10 0xFF
          ++ (0
              ∷ 0
              ∷ action
              ∷ 0
              ∷ put_be16 1 (put_be16 (u16 (2 + length payload)) (put_be16 mgt_id payload)))),
    )

pub data Received : Type 0 where
  data_of : List ℕ → Received
  read_error short_header not_management : Received
  unexpected_id unexpected_action : ℕ → Received

-- `data := make([]byte, tlv.Length-2); reader.Read(data)`. The length is a uint16; what the message
-- lacks stays zero.
unfoldable pub tlv_data : List ℕ → List ℕ
tlv_data buf =
    let n = u16 (be16_at buf 50 + 65534) in
    let rest = drop 54 buf in take n rest ++ replicate (n - length rest) 0

-- The tests of `recvResponse` on the bytes that were read.
unfoldable pub check_response : ℕ → List ℕ → Received
unfolding tlv_data
check_response expected_id buf =
    if ltb (length buf) 34
    then short_header
    else if not (get_or buf 0 0 % 16 == 0xD)
    then not_management
    else if not (be16_at buf 52 == expected_id)
    then unexpected_id (be16_at buf 52)
    else if not (get_or buf 46 0 == action_response)
    then unexpected_action (get_or buf 46 0)
    else data_of (tlv_data buf)

-- `recvResponse`. The buffer has 1024 bytes.
unfoldable pub recv_response : ℕ → Option (List ℕ) → Received
unfolding check_response
recv_response expected_id none = read_error
recv_response expected_id (some datagram) = check_response expected_id (take 1024 datagram)

-- A big-endian `GrandmasterSettings`.
unfoldable pub settings_bytes : Gm.Settings → List ℕ
settings_bytes gs =
    gs.clock_class
    ∷ gs.clock_accuracy
    ∷ put_be16 gs.offset_scaled_log_variance
        (put_be16 (pattern_of 32768 gs.utc_offset) (gs.time_flags ∷ gs.time_source ∷ []))

unfoldable pub read_settings : List ℕ → Option Gm.Settings
read_settings bs =
    if ltb (length bs) 8
    then none
    else some (record {
      clock_class = get_or bs 0 0;
      clock_accuracy = get_or bs 1 0;
      offset_scaled_log_variance = be16_at bs 2;
      utc_offset = signed16 (be16_at bs 4);
      time_flags = get_or bs 6 0;
      time_source = get_or bs 7 0;
    })

abbrev pub settings_of : Received → Option Gm.Settings
settings_of (data_of bs) = read_settings bs
settings_of _ = none

-- `GetGrandmasterSettings`: the agent, the datagram, and the settings unless there is an error.
unfoldable pub get_grandmaster_settings :
    Agent → Bool → Option (List ℕ) → Agent × List ℕ × Option Gm.Settings
unfolding send_request recv_response read_settings
get_grandmaster_settings a write_ok answer =
    let (a', request) = send_request a mid_grandmaster_settings_np action_get (replicate 8 0) in
    (
      a',
      request,
      if write_ok then settings_of (recv_response mid_grandmaster_settings_np answer) else none,
    )

abbrev pub is_data : Received → Bool
is_data (data_of bs) = true
is_data _ = false

-- `SetGrandmasterSettings`: `true` where it returns no error.
unfoldable pub set_grandmaster_settings :
    Agent → Gm.Settings → Bool → Option (List ℕ) → Agent × List ℕ × Bool
unfolding send_request recv_response settings_bytes
set_grandmaster_settings a gs write_ok answer =
    let (a', request) = send_request a mid_grandmaster_settings_np action_set (settings_bytes gs) in
    (
      a',
      request,
      if write_ok then is_data (recv_response mid_grandmaster_settings_np answer) else false,
    )

-- `binary.Read` of a `DefaultDS`, which leaves it as it is where bytes are missing.
unfoldable pub read_dds : List ℕ → DefaultDs → DefaultDs
read_dds bs dds = if ltb (length bs) 19 then dds else record {
  two_step_flag = get_or bs 0 0;
  clock_identity = take 8 (drop 1 bs);
  number_ports = be16_at bs 9;
  clock_quality = take 4 (drop 11 bs);
  priority1 = get_or bs 15 0;
  priority2 = get_or bs 16 0;
  clock_domain = get_or bs 17 0;
  slave_only = get_or bs 18 0;
}

abbrev pub note_dds : Agent → Received → Agent × Bool
note_dds a (data_of bs) = (record a { dds = read_dds bs a.dds }, true)
note_dds a _ = (a, false)

-- `QueryDDS`: `true` where it returns no error.
unfoldable pub query_dds : Agent → Bool → Option (List ℕ) → Agent × List ℕ × Bool
unfolding send_request recv_response read_dds
query_dds a write_ok answer =
    let (a', request) = send_request a mid_default_data_set action_get [] in
    let (a'', ok) = note_dds a' (recv_response mid_default_data_set answer) in
    if write_ok then (a'', request, ok) else (a', request, false)

-- `GetNumberPorts`
abbrev pub get_number_ports : Agent → ℕ
get_number_ports a = a.dds.number_ports

-- `Subscribe`
unfoldable pub subscribe : Agent → Agent × List ℕ
unfolding send_request
subscribe a = send_request a mid_subscribe_events_np action_set (100 ∷ 0 ∷ 1 ∷ 0 ∷ [])

-- `PollEvents`: the port and its state.
unfoldable pub port_event : List ℕ → Option (ℕ × ℕ)
unfolding tlv_data
port_event buf =
    let bs = tlv_data buf in
    if not (be16_at buf 52 == mid_port_data_set)
    then none
    else if ltb (length bs) 11
    then none
    else some (be16_at bs 8, get_or bs 10 0)

unfoldable pub poll_events : Option (List ℕ) → Option (ℕ × ℕ)
unfolding port_event
poll_events none = none
poll_events (some datagram) = port_event (take 1024 datagram)
