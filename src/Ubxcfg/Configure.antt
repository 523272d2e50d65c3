-- ===== src/Ubxcfg/Configure.antt =====
-- Configuring a receiver over the serial line: each message is written and its acknowledgement
-- awaited. What the line does is a parameter, since the serial library and the receiver are
-- outside the repository.
pub mod Receivers
pub mod Detect
pub mod Runs
pub mod Plan
pub mod Content
pub mod Fetch
pub mod Probe
pub mod Conforming
use ts2phc_go.Common.{
  ℕ, zero, suc, ◌+◌, ◌*◌, ◌<◌, Bool, true, false, not, Option, none, some, List, [], ◌∷◌, ◌++◌,
  length, drop, ltb, ◌==◌, if◌then◌else◌,
}
use ts2phc_go.Common.Int.{ℤ}
use ts2phc_go.Ubx.Bytes.{put_uint16, pattern_of}
use ts2phc_go.Ubx.Frame.{Frame, class_id, encode, encode_poll}
use ts2phc_go.Ubx.Cfg.{
  CfgItem, class_cfg, id_cfg_cfg, id_cfg_nav5, id_cfg_valset, cfg_u1, cfg_i2, cfg_l, encode_valset,
  encode_cfg_nav5_dyn_model, encode_cfg_cfg_save,
}
use ts2phc_go.Ubxcfg.{parse_frames}
use ts2phc_go.Ubxcfg.Ack.{Outcome, acked, Read, got, failed, await_ack, prepend_unique}

abbrev pub id_cfg_msg : ℕ
id_cfg_msg = 0x01

abbrev pub id_cfg_tp5 : ℕ
id_cfg_tp5 = 0x31

abbrev pub id_cfg_gnss : ℕ
id_cfg_gnss = 0x3e

abbrev pub class_mon : ℕ
class_mon = 0x0a

abbrev pub id_mon_ver : ℕ
id_mon_ver = 0x04

-- A message on the line: the baud rate that the port is open at, and the bytes.
pub record Write : Type 0 where
  pub baud : ℤ
  pub msg : List ℕ

-- What `port.Write` answers, and the reads that return before the deadline behind it.
pub record Answer : Type 0 where
  pub written : Bool
  pub reads : List Read

-- The line: after the writes so far, whether the port opens at a rate and what a write brings.
pub record Line : Type 0 where
  pub opens : List Write → ℤ → Bool
  pub answer : List Write → Write → Answer

-- What `readFrameByClassID` found: `lost` is no Go value, see `stuck`.
pub data Fetched : Type 0 where
  found : Frame → Fetched
  frame_timeout fetch_error lost : Fetched

unfoldable pub find_class : ℕ → List Frame → Option Frame
find_class wanted [] = none
find_class wanted (f ∷ fs) =
    let rest = find_class wanted fs in if class_id f == wanted then some f else rest

-- `readFrameByClassID`, over the reads that return before the deadline.
unfoldable pub read_frame : ℕ → List ℕ → List Read → Fetched
unfolding find_class
read_frame wanted buf [] = frame_timeout
read_frame wanted buf (failed ∷ reads) = fetch_error
read_frame wanted buf (got [] ∷ reads) = read_frame wanted buf reads
read_frame wanted buf (got (b ∷ bs) ∷ reads) = elim (parse_frames (buf ++ b ∷ bs)) [
  | none ↦ lost
  | some (fs, rem) ↦ elim (find_class wanted fs) [
    | some f ↦ found f
    | none ↦ read_frame wanted rem reads
  ]
]

-- The errors that end a configuration.
pub data Failure : Type 0 where
  write_failed no_baud not_open : Failure
  ack_failed : Outcome → Failure
  poll_failed : Fetched → Failure
  too_short : ℕ → Failure

-- The messages written so far, and the error if there was one.
pub record Ran : Type 0 where
  pub sent : List Write
  pub error : Option Failure

-- `if err := ...; err != nil { return err }`
abbrev pub and_then : Ran → (List Write → Ran) → Ran
and_then r next = elim r.error [ none ↦ next r.sent | some e ↦ r ]

abbrev pub ack_error : Outcome → Option Failure
ack_error acked = none
ack_error o = some (ack_failed o)

-- A message, with the class and the id that its acknowledgement names.
pub record Command : Type 0 where
  pub msg : List ℕ
  pub class : ℕ
  pub id : ℕ

module _ (line : Line) (baud : ℤ) where
  abbrev pub written_to : List Write → List ℕ → List Write
  written_to sent msg = sent ++ (record { baud = baud; msg = msg } ∷ [])

  abbrev pub answer_to : List Write → List ℕ → Answer
  answer_to sent msg = line.answer sent (record { baud = baud; msg = msg })

  -- `sendAndAwaitAck`
  unfoldable pub send_and_await_ack : List Write → Command → Ran
  send_and_await_ack sent c =
      let a = answer_to sent c.msg in
      record {
        sent = written_to sent c.msg;
        error =
            if not a.written
            then some write_failed
            else ack_error (await_ack c.class c.id [] a.reads);
      }

  -- The loop of `applyM8NNMEAToggles`: the commands in order, up to the first that fails.
  unfoldable pub send_all : List Write → List Command → Ran
  unfolding send_and_await_ack
  send_all sent [] = record { sent = sent; error = none }
  send_all sent (c ∷ cs) = and_then (send_and_await_ack sent c) (λ s. send_all s cs)

-- `encodeM8NCfgMsgRate`
abbrev pub encode_m8n_cfg_msg_rate : ℕ → ℕ → ℕ → List ℕ
encode_m8n_cfg_msg_rate msg_class msg_id rate =
    encode class_cfg id_cfg_msg (msg_class ∷ msg_id ∷ rate ∷ rate ∷ rate ∷ rate ∷ rate ∷ 0 ∷ [])

abbrev pub toggle : ℕ → ℕ → Command
toggle msg_id rate = record {
  msg = encode_m8n_cfg_msg_rate 0xf0 msg_id rate;
  class = class_cfg;
  id = id_cfg_msg;
}

-- `m8nNMEAToggles`: GGA, RMC and ZDA on, GLL, GSA, GSV and VTG off.
abbrev pub m8n_nmea_toggles : List Command
m8n_nmea_toggles =
    toggle 0x00 1
    ∷ toggle 0x04 1
    ∷ toggle 0x08 1
    ∷ toggle 0x01 0
    ∷ toggle 0x02 0
    ∷ toggle 0x03 0
    ∷ toggle 0x05 0
    ∷ []
