-- ===== src/Lib.antt =====
-- lanscope: a model of the LAN discovery agent, with its XDP program, in antt.
--
-- The XDP program (lanscope-ebpf/src/main.rs) counts the packets of each flow in a kernel map and
-- sends discovery frames over a ring buffer. The agent reads both (lanscope/src/capture), decodes a
-- frame into observations (lanscope/src/decode), folds them into a registry of devices
-- (lanscope/src/registry), names the type of the device by rules (lanscope/src/fingerprint), runs
-- anomaly detectors on devices and flows (lanscope/src/anomaly), and hands devices and alerts to a
-- store, to the metrics and to a dashboard. lanscope/src/app.rs wires all of it together.
--
-- Base is what the other modules share: the Boolean tests, lists under native lengths, equality as
-- an interface, association lists for `HashMap`, UTF-8 and ASCII texts, numerals, masks of bytes,
-- and the floats as a parameter.
-- Common models lanscope-common/src: lib.rs (`MacAddr`), flow.rs (Common/Flow) and event.rs
-- (Common/Event).
-- Error models lanscope/src/error.rs. Netfmt models lanscope/src/netfmt.rs: `fmt_mac`, `parse_mac`,
-- `fmt_ipv4`, and `fmt_ts` on a calendar that is a parameter.
-- Fingerprint models lanscope/src/fingerprint: oui.rs (Oui), engine.rs (Engine) and rules.rs
-- (Rules, with the whole table of rules).
-- Decode models lanscope/src/decode: mod.rs (Decode, Decode/Defs), dhcp.rs (Dhcp), dns.rs (Dns),
-- mdns.rs (Mdns) and ssdp.rs (Ssdp). A `while` loop is a round that says where the next begins, and
-- a recursion on fuel; the fuel is the length of the buffer, and each round moves on, so more
-- changes nothing.
-- Registry models lanscope/src/registry/mod.rs: `Device`, `DeviceRegistry` and its methods. Keys is
-- about the MAC addresses it has, Size about how many, and Refines about the map that it stands
-- for.
-- Alert and Features model lanscope/src/alert.rs and features.rs.
-- Anomaly models lanscope/src/anomaly: heuristics.rs (NewDevice, PortScan, VolumeSpike), onnx.rs
-- (Onnx, on a runtime that is a parameter) and mod.rs (Engine). The trait `Detector` is a data type
-- with a constructor for each implementation.
-- Tui models lanscope/src/tui/mod.rs: `Dashboard` and the selection, the loop of `run_blocking` as
-- rounds of events (Loop), the same on a terminal that is set up and restored (Terminal), the texts
-- that are drawn (Content), and the widgets of a frame in their areas (Render). The libraries
-- `crossterm` and `ratatui` are parameters.
-- Storage is the trait of lanscope/src/storage/mod.rs, as a record that App takes as a parameter.
-- Storage/Sqlite models the statements of lanscope/src/storage/sqlite.rs on two tables;
-- `serde_json` is a parameter. No statement fails there; Storage/Sqlite/Failing is the same with
-- statements of which any may fail, and Storage/Sqlite/Open is `open` and `migrate` on what the
-- file system yields.
-- App models lanscope/src/app.rs: `handle_event` and what it calls, `flush_all`, `publish_devices`
-- and `seed_registry` (App), `capture_loop` (App/Loop), `run` and `build_anomaly_engine` (App/Run),
-- `dispatch` and the read-only commands with the lines they print (App/Commands); and
-- lanscope/src/config.rs with `resolve_config` (App/Config), with the commands of
-- lanscope/src/cli.rs as data. The calls of lanscope/src/exporter.rs are a list of metrics, which a
-- recorder counts (App/Exporter).
-- Restart, Flush, Synced and Seeded are about the registry beside the tables of the store: what
-- a flush leaves, what stays in step, and what a restart finds. Kept is the induction over the
-- handlers that they share, for any store; App/Loop/Simulated compares two runs of the loop
-- whose stores and dashboards differ; Beside puts the steps of the loop and the rounds of the
-- interface, which share the dashboard, in any order.
-- Kernel models lanscope-ebpf/src/main.rs: Packet is what it reads of a packet, Counters the
-- counters with their wrap-around, Kernel the maps and the handlers. Wire, Table and Frames are about
-- frames that are given byte by byte and the entries of the flow table. The maps, the ring buffer and
-- `bpf_xdp_load_bytes` are a parameter. One run of the program is one step; another processor that
-- writes the same entry in between is not modelled.
-- Capture models lanscope/src/capture: the synthetic frames of mock.rs (Capture) and its task
-- (Portable), ebpf.rs (Ebpf, with Attach for `EbpfBackend::new` and Loop for its task), and
-- `select_backend` of mod.rs (Select). What the library `aya` yields is a parameter. The two
-- passes of `drain_flows` take the map as it is when it is read and as it is when keys are
-- removed.
-- Traffic follows the first frame of a host from the program of the kernel to the loop of the
-- application (Hosts); Kernel/Discovery is about what userspace decodes of one packet.
-- Tooling models what surrounds the agent: xtask/src/main.rs (Xtask), lanscope/build.rs (Build), and
-- lanscope/src/main.rs with the parts of app.rs that log and listen for a signal (Main). Running a
-- command is a parameter.
-- Tests runs the theorems at concrete inputs.
--
-- Conventions. A `String` is the list of its UTF-8 bytes. A time of the clock is a number of
-- seconds since 1970, and `now - start > window` is written as `start + window < now`. A map is an
-- association list, whose order stands for the order of iteration that the program does not know; a
-- set is a list in which nothing stands twice. A method that changes an object returns the object.
-- Counters of 64 and 32 bits keep their saturation or their wrap-around. Confidences, which are
-- floats with two decimal places, are hundredths. Padding bytes of the shared structs, which are
-- zero and never read, are left out, and so are messages that are only logged.
--
-- Not modelled: lanscope/src/lib.rs, which lists modules; the parsing of arguments, which is the
-- library `clap`; colours and borders in lanscope/src/tui/mod.rs; what is logged, and the scheduling of
-- tasks: a loop is a run over the branches that it takes, in any order.
pub mod Base
pub mod Common
pub mod Netfmt
pub mod Fingerprint
pub mod Decode
pub mod Registry
pub mod Alert
pub mod Anomaly
pub mod Features
pub mod Tui
pub mod Storage
pub mod App
pub mod Kernel
pub mod Error
pub mod Capture
pub mod Tests
pub mod Traffic
pub mod Tooling
