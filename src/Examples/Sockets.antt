-- ===== src/Examples/Sockets.antt =====
-- The messages to ptp4l, the leap second file and the configuration of a receiver.
use ts2phc_go.Common.{
  ℕ, ◌≡◌, refl, true, false, none, some, List, [], ◌∷◌, ◌++◌, map, All, length, replicate, arith,
}
use ts2phc_go.Common.Int.{ℤ, pos, ◌+ℤ◌}
use ts2phc_go.Common.Word.{i64}
use ts2phc_go.Gm as Gm
use ts2phc_go.Gm.{Settings, apply}
use ts2phc_go.Pmc.{Agent, mid_grandmaster_settings_np, settings_bytes}
use ts2phc_go.Pmc.Message.{reply_body}
use ts2phc_go.Pmc.Settings.{
  Socket, IsSettings, wire_apply, agent_of, announced, AreInRange, settings_read,
  wire_apply-refines, get-reply,
}
use ts2phc_go.Common.{◌<◌}
use ts2phc_go.Ubx.Frame.{Frame}
use ts2phc_go.Examples.Whole.{whole}
use ts2phc_go.Pps.Qerr.{QErrSource, new_qerr_source}
use ts2phc_go.Pps.Qerr.Scan.{scan, read_chunk, handle_frames}
use ts2phc_go.Pps.Qerr.Scan.Bound.{read_chunk-bounded}
use ts2phc_go.Leap.{lines_of, offset, load_tai_offset}
use ts2phc_go.Leap.Table.{Item, blank, note, entry, IsLine, in_force, render, load_tai_offset-table}

abbrev socket_agent : Agent
socket_agent = record {
  port_number = 4711;
  seq_id = 65535;
  dds = record {
    two_step_flag = 0;
    clock_identity = [];
    number_ports = 1;
    clock_quality = [];
    priority1 = 128;
    priority2 = 128;
    clock_domain = 0;
    slave_only = 0;
  };
}

abbrev reply_header : List ℕ
reply_header = 0x0D ∷ replicate 43 7

abbrev wire_settings : Settings
wire_settings = record {
  clock_class = 248;
  clock_accuracy = 254;
  offset_scaled_log_variance = 65535;
  utc_offset = pos 37;
  time_flags = 8;
  time_source = 160;
}

abbrev answered_socket : Socket
answered_socket = record {
  get_ok = true;
  got = some (
      reply_header
      ++ reply_body 1 1 0 1 mid_grandmaster_settings_np (settings_bytes wire_settings));
  set_ok = true;
  acked = none;
}

wire_settings-IsSettings : IsSettings wire_settings
wire_settings-IsSettings = record { variance = omega arith; offset = omega arith }

answered : settings_read socket_agent answered_socket ≡ some wire_settings
answered =
    get-reply socket_agent reply_header 1 1 0 1 wire_settings refl (omega arith)
      wire_settings-IsSettings

answered-AreInRange : AreInRange (settings_read socket_agent answered_socket)
answered-AreInRange = rw answered wire_settings-IsSettings

wire_apply-refines_example :
    let (_, sent, ok) = wire_apply socket_agent answered_socket Gm.locked in
    (announced sent, ok) ≡ apply (agent_of socket_agent answered_socket) Gm.locked
wire_apply-refines_example =
    wire_apply-refines socket_agent answered_socket Gm.locked answered-AreInRange

-- Two entries of the year 2015 and 2017 in columns of tabs and spaces, and one that is announced for a
-- later time.
abbrev leap_items : List Item
leap_items =
    note [] (64 ∷ 9 ∷ [])
    ∷ blank (32 ∷ [])
    ∷ entry [] (pos 3644697600) (9 ∷ []) (pos 36) (9 ∷ 35 ∷ [])
    ∷ entry (32 ∷ []) (pos 3692217600) (32 ∷ 32 ∷ []) (pos 37) []
    ∷ entry [] (pos 4000000000) (9 ∷ []) (pos 38) []
    ∷ []

leap_items-IsLine : All IsLine leap_items
leap_items-IsLine = ground arith

load_tai_offset-table_example :
    load_tai_offset (pos 1700000000) (lines_of (map render leap_items) false) ≡ offset (pos 37)
unfolding in_force i64 ◌+ℤ◌
load_tai_offset-table_example = load_tai_offset-table (pos 1700000000) leap_items leap_items-IsLine

-- An NMEA sentence's first bytes, and a frame with one byte behind it.
abbrev sentence : List ℕ
sentence = 36 ∷ 71 ∷ 80 ∷ []

read_chunk-bounded_example :
    let q : QErrSource ℤ = new_qerr_source (pos 37) in
    (fs : List Frame) × (rem : List ℕ) × (scan ([] ++ sentence) ≡ some (fs, rem))
    × (read_chunk [] q sentence ≡ some (rem, handle_frames q fs))
    × (length rem < 1032)
read_chunk-bounded_example = read_chunk-bounded [] (new_qerr_source {W = ℤ} (pos 37)) sentence
