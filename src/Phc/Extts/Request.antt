-- ===== src/Phc/Extts/Request.antt =====
-- The requests of an armed sink as the kernel gets them.
use ts2phc_go.Common.{ℕ, ◌≡◌, Bool, false, List, [], ◌∷◌, ◌++◌, All, arith}
use ts2phc_go.Ubx.Msg.{has_bit}
use ts2phc_go.Pps.Sink.{Sink}
use ts2phc_go.Pps.Arm as Arm
use ts2phc_go.Pps.Arm.{arm, rearm, attempts}
use ts2phc_go.Phc.Extts.{ExttsRequest, ptp_strict_flags, send_extts, request_extts, disable_extts}

-- The device of a sink, over a kernel that accepts these requests on the sink's channel.
abbrev pub device_of : (ExttsRequest → Bool) → ℕ → Bool → Bool → Arm.Device
device_of accepts channel clear_ok drain_ok = record {
  clear_ok = clear_ok;
  drain_ok = drain_ok;
  grants = λ flags. (request_extts accepts channel flags).1;
}

-- The ioctls behind the requests.
unfoldable pub ioctls : (ExttsRequest → Bool) → List Arm.Request → List ExttsRequest
ioctls accepts [] = []
ioctls accepts (Arm.disable_extts channel ∷ rs) =
    (disable_extts accepts channel).0 ++ ioctls accepts rs
ioctls accepts (Arm.request_extts channel flags ∷ rs) =
    (request_extts accepts channel flags).0 ++ ioctls accepts rs
ioctls accepts (r ∷ rs) = ioctls accepts rs

abbrev pub IsLenient : ExttsRequest → Type 0
IsLenient r = has_bit r.flags ptp_strict_flags ≡ false

-- Whatever the kernel accepts, a sink that was made for both edges, as the daemon's is, asks for
-- time stamps without the strict flags whenever it is armed again, in both forms of the request.
rearm-IsLenient :
    (accepts : ExttsRequest → Bool) (clear_ok drain_ok : Bool) (s : Sink)
    → s.orig_polarity ≡ 6
    → All IsLenient (ioctls accepts (rearm (device_of accepts s.channel clear_ok drain_ok) s).1)
unfolding rearm arm attempts ioctls request_extts disable_extts send_extts
rearm-IsLenient accepts clear_ok drain_ok s h = ground (arith, h)
