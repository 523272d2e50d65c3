-- ===== src/Examples.antt =====
-- The theorems at concrete inputs, and the arithmetic that they are tried with.
pub mod Whole
mod Frames
mod Clocks
mod Servos
mod Pulses
mod Sockets
mod Receivers
mod Loops
mod Starts
mod Reports
mod Tools
