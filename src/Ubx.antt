-- ===== src/Ubx.antt =====
-- Package ubx: the u-blox binary protocol (ubx/frame.go, ubx/msg.go, ubx/cfg.go).
pub mod Frame
pub mod Bytes
pub mod Msg
pub mod Cfg
