-- ===== src/Pps/Arm.antt =====
-- `Arm` and `Rearm` of a PPS sink (pps/sink.go). What the device answers to each request is an
-- argument; what it is asked for is returned, in order. Logging is left out.
pub mod Recover
pub mod Deaf
use ts2phc_go.Common.{ℕ, Bool, true, false, List, [], ◌∷◌, ◌++◌, if◌then◌else◌}
use ts2phc_go.Pps.Sink.{Sink, init}

-- `PTP_RISING_EDGE` and `PTP_FALLING_EDGE` (phc/phc.go)
abbrev pub ptp_rising_edge : ℕ
ptp_rising_edge = 2

abbrev pub ptp_falling_edge : ℕ
ptp_falling_edge = 4

-- The requests of a sink to its device.
pub data Request : Type 0 where
  set_pin_func : Request
  disable_extts : ℕ → Request
  clear_mask : Request
  enable_mask : ℕ → Request
  drain : Request
  request_extts : ℕ → ℕ → Request

-- Which of the requests the device grants. `grants flags` is for `RequestExtts` with these flags.
pub record Device : Type 0 where
  pub clear_ok : Bool
  pub drain_ok : Bool
  pub grants : ℕ → Bool

-- The three attempts at the end of `Arm`.
unfoldable pub attempts : Device → Sink → Sink × List Request × Bool
attempts d s =
    let both = request_extts s.channel s.polarity in
    let rising = request_extts s.channel ptp_rising_edge in
    let falling = request_extts s.channel ptp_falling_edge in
    if d.grants s.polarity
    then (s, both ∷ [], true)
    else if d.grants ptp_rising_edge
    then (record s { polarity = ptp_rising_edge; single_edge = true }, both ∷ rising ∷ [], true)
    else if d.grants ptp_falling_edge
    then (
      record s { polarity = ptp_falling_edge; single_edge = true },
      both ∷ rising ∷ falling ∷ [],
      true,
    )
    else (s, both ∷ rising ∷ falling ∷ [], false)

-- `Arm`: the sink, the requests, and whether it went without an error.
unfoldable pub arm : Device → Sink → Sink × List Request × Bool
unfolding attempts
arm d s =
    let (s', tries, ok) = attempts d s in
    let mask = if d.clear_ok then enable_mask s.channel ∷ drain ∷ [] else drain ∷ [] in
    if d.drain_ok
    then (s', disable_extts s.channel ∷ clear_mask ∷ mask ++ tries, ok)
    else (s, disable_extts s.channel ∷ clear_mask ∷ mask, false)

-- `Rearm`. A pin function that cannot be set is only logged.
unfoldable pub rearm : Device → Sink → Sink × List Request × Bool
rearm d s =
    let (s', requests, ok) = arm d (record s { polarity = s.orig_polarity; single_edge = false }) in
    if ok
    then (record s' { state = init; is_available = false }, set_pin_func ∷ requests, true)
    else (s', set_pin_func ∷ requests, false)
