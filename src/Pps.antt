-- ===== src/Pps.antt =====
-- Package pps: the PPS sink with its edge filter (pps/sink.go).
pub mod Sink
pub mod Arm
pub mod Poll
pub mod Gpsd
pub mod Qerr
