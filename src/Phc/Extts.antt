-- ===== src/Phc/Extts.antt =====
-- The external time stamps of a PHC and its frequency (phc/phc.go). What the kernel answers to an
-- ioctl, to poll(2) and to read(2) is an argument; what is asked of it is returned.
pub mod Event
pub mod Request
use Prim.Native.Nat.{bit_or}
use ts2phc_go.Common.{
  ℕ, suc, ◌+◌, ◌*◌, ◌/◌, ◌%◌, Bool, true, false, not, Option, none, some, List, [], ◌∷◌, ◌++◌,
  length, ◌==◌, if◌then◌else◌,
}
use ts2phc_go.Common.Int.{ℤ, pos}
use ts2phc_go.Common.Float.{Float}
use ts2phc_go.Common.Word.{two63, signed64}
use ts2phc_go.Ubx.Bytes.{uint32_at}
use ts2phc_go.Phc.{set_signed_field}
use ts2phc_go.Pps.Sink.{ExttsEvent}

-- The numbers of the ioctls and of the flags.
abbrev pub ptp_extts_request : ℕ
ptp_extts_request = 0x40103d02

abbrev pub ptp_extts_request2 : ℕ
ptp_extts_request2 = 0x40103d0a

abbrev pub ptp_enable_feature : ℕ
ptp_enable_feature = 1

abbrev pub ptp_strict_flags : ℕ
ptp_strict_flags = 8

-- `ExttsRequest`, with the number of the ioctl that it is sent by.
pub record ExttsRequest : Type 0 where
  pub number : ℕ
  pub index : ℕ
  pub flags : ℕ

-- The request by the new number and, if the kernel refuses it, by the old one.
unfoldable pub send_extts : (ExttsRequest → Bool) → ℕ → ℕ → List ExttsRequest × Bool
send_extts accepts index flags =
    let v2 : ExttsRequest = record { number = ptp_extts_request2; index = index; flags = flags } in
    let v1 : ExttsRequest = record { number = ptp_extts_request; index = index; flags = flags } in
    if accepts v2 then (v2 ∷ [], true) else (v2 ∷ v1 ∷ [], accepts v1)

-- `RequestExtts` and `DisableExtts`: the requests, and whether one is accepted.
unfoldable pub request_extts : (ExttsRequest → Bool) → ℕ → ℕ → List ExttsRequest × Bool
unfolding send_extts
request_extts accepts index flags = send_extts accepts index (bit_or flags ptp_enable_feature)

unfoldable pub disable_extts : (ExttsRequest → Bool) → ℕ → List ExttsRequest × Bool
unfolding send_extts
disable_extts accepts index = send_extts accepts index 0

-- `unsafe.Sizeof(event)`: 16 bytes of `ClockTime`, two words and two reserved ones.
abbrev pub event_size : ℕ
event_size = 32

-- An int64 of a little-endian machine.
abbrev pub int64_at : List ℕ → ℕ → ℤ
int64_at b i = signed64 (uint32_at b i + 4294967296 * uint32_at b (i + 4))

pub data Reading : Type 0 where
  event_read : ExttsEvent → Reading
  read_failed : Reading
  short_read : ℕ → Reading

-- `ReadExttsEvent`, of the bytes that read(2) gives; none is an error.
unfoldable pub read_extts_event : Option (List ℕ) → Reading
read_extts_event none = read_failed
read_extts_event (some b) =
    if not (length b == event_size)
    then short_read (length b)
    else event_read (record {
      sec = int64_at b 0;
      nsec = uint32_at b 8;
      index = uint32_at b 16;
      flags = uint32_at b 20;
    })

-- One round of `DrainExtts`: EINTR, another error, no event, or an event and the read behind it.
pub data PollAnswer : Type 0 where
  interrupted poll_failed quiet : PollAnswer
  readable : Option (List ℕ) → PollAnswer

-- How the loop ends; `waiting` is no Go value: the answers are used up.
pub data Drained : Type 0 where
  drained poll_drain_failed waiting : Drained
  read_drain_failed : Reading → Drained

abbrev pub count_event : Drained × ℕ → Drained × ℕ
count_event (end, n) = (end, suc n)

abbrev pub drain_round : Reading → Drained × ℕ → Drained × ℕ
drain_round (event_read e) rest = count_event rest
drain_round other rest = (read_drain_failed other, 0)

-- `DrainExtts`, and the number of events that it discards.
unfoldable pub drain_extts : List PollAnswer → Drained × ℕ
unfolding read_extts_event
drain_extts [] = (waiting, 0)
drain_extts (interrupted ∷ answers) = drain_extts answers
drain_extts (poll_failed ∷ answers) = (poll_drain_failed, 0)
drain_extts (quiet ∷ answers) = (drained, 0)
drain_extts (readable b ∷ answers) = drain_round (read_extts_event b) (drain_extts answers)

module _ {W : Type 0} ⦃f : Float W⦄ where
  -- `tx.Freq` of `AdjFreq`, in a field whose least value is -`half`, and what `GetFreq` makes of it.
  unfoldable pub adj_freq_field : ℕ → W → ℤ
  adj_freq_field half ppb = set_signed_field half (f.to_int (f.mul ppb (f.literal (pos 65536) 3)))

  abbrev pub get_freq : ℤ → W
  get_freq freq = f.div (f.of_int freq) (f.literal (pos 65536) 3)
