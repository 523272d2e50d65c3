-- ===== src/Lib.antt =====
-- ts2phc-go: a daemon that disciplines a network card's hardware clock (PHC) by a GPS receiver's
-- pulse, and a tool that configures the receiver.
--
-- The parts. A receiver marks each second by a pulse, which the kernel time-stamps by the PHC
-- (pps/sink.go filters the edges), and names the second by gpsd's reports (pps/gpsd_source.go). The
-- loop of main.go takes the difference, corrects it by the receiver's quantization error
-- (pps/qerr_source.go), drops outliers, feeds a PI servo (servo/pi.go) and sends frequencies and
-- steps to the PHC (phc/phc.go). On every tick a guard (guard/guard.go) compares the PHC with
-- GPS-derived TAI and re-arms, steps or refuses. A monitor in main.go announces the clock class
-- through ptp4l. ubx/ encodes and decodes the receiver's frames and messages, cmd/ubxcfg/main.go
-- configures it.
--
-- The files.
--   Common: signed integers, int64 and bytes with their wrap-around, package time, lists, and floats
--     as an interface of the operations that the code calls.
--   Ubx/Frame, Ubx/Msg, Ubx/Cfg: ubx/frame.go (`Encode`, `Decode`, `Checksum`), ubx/msg.go (the
--     `Parse…` functions) and ubx/cfg.go (`EncodeValset` and its like). Frames are lists of bytes. Ubx/Msg/Units has the accessors of
--     ubx/msg.go that convert to floats.
--   Guard: guard/guard.go. A method that changes the guard returns the new record; `check` is `Check`.
--   Servo: servo/pi.go. `sample` is `Sample`, with its switch in `sample_count`, and
--     Servo/Config has the constructor and the limits.
--   Pps/Sink, Pps/Arm, Pps/Poll: `ProcessEvent`, `Arm` and `Rearm` of pps/sink.go, `PollSinks` of
--     pps/poll.go. Pps/Gpsd, Pps/Qerr: `processTPV`, `GetPPSTime` and `TAINow` of
--     pps/gpsd_source.go, `handle` and `Lookup` of pps/qerr_source.go, whose scanner is Pps/Qerr/Scan.
--     Pps/Gpsd/Run: `Run` of GpsdSource, over the lines of its connections, with the JSON decoder as
--     an argument. Pps/Gpsd/Adapter: `OnTPV` and `OnSKY` of pps/gpsd_metrics.go.
--   Phc: the numbers of `StepTime` and `ClockID` in phc/phc.go. Phc/Extts: `RequestExtts`,
--     `DisableExtts`, `ReadExttsEvent`, `DrainExtts`, and the scaling of `AdjFreq` and `GetFreq`.
--   Daemon: the discipline loop of main.go; `discipline` is what one pulse does to the clock, and
--     Daemon/Tick is a whole turn with the guard, Daemon/Tick/Export the metrics that it sets.
--     Daemon/Startup: `NewSink` and the start of `run`. Daemon/Textfiles: `withTextfiles`.
--     Leap: `loadTAIOffset` of main.go.
--   Gm, Pmc: `gmMonitor` of main.go and the messages of pmc/agent.go under it; `wire_apply` joins
--     the two. Pmc/Start: the agent and the monitor that `run` starts with.
--   Ubxcfg: cmd/ubxcfg/main.go, `parseFrames` and `awaitAck`; Ubxcfg/Configure has the sequences of
--     `configureM9N` and `configureM8N` and the search for the rate of the line;
--     Ubxcfg/Arguments has `main`, its flags and what it then calls.
--   Metrics: `UpdateNavSAT` of metrics/metrics.go, with the gauge vectors as one table.
--     Metrics/Gauges: the other gauges and the methods that set them.
--   Examples: the theorems at concrete inputs, with whole numbers for floats.
--
-- Representation. A `time.Time` is its nanoseconds since the zero Time; wall and monotonic readings
-- are not told apart. A Duration is an integer that wraps as int64 does. A float64 is any type with
-- the operations of `Float`; where a theorem needs the order of floats it takes it as `IsOrdered`, and where it needs
-- signs as `IsSigned`; conversions to small integers, which depend on the machine, are `Casts`.
-- Struct fields keep their Go names. Logging is left out.
--
-- Fuel. `parse_loop` and `scan_loop` run on fuel, one more than the buffer has bytes; each round but
-- the last one drops a byte or more, so it never runs out. Other loops recur on the list that they
-- consume: the reads, polls or answers that come before a deadline are such a list.
--
-- Not modelled: sockets, ioctls, poll(2), the serial port, the daemon's command line (cobra, viper),
-- JSON and the parsing of times, Prometheus. What they answer is an argument of the definitions that
-- use it: a serial line is what it answers to each write, a management socket the datagram that is
-- read, a poll the rounds that return before its deadline, an exporter the page that it writes. Of
-- the metrics the names and the help texts are left out. The closing of the management
-- socket and the calls of a PHC that are one system call each have no definition here.
pub mod Common
pub mod Ubx
pub mod Guard
pub mod Servo
pub mod Pps
pub mod Ubxcfg
pub mod Phc
pub mod Gm
pub mod Pmc
pub mod Leap
pub mod Metrics
pub mod Daemon
pub mod Examples
