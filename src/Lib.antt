-- ===== src/Lib.antt =====
-- enody: the host library for spectrally tunable lighting devices.
--
-- A host talks to a device by messages (src/message.rs): a command goes out, and events that name
-- the command's identifier as their context come back. On USB a message is a frame of escaped
-- bytes (src/serialization.rs), on WiFi a length and a payload (src/wifi.rs). A `RemoteRuntime`
-- (src/runtime.rs) owns a connection and routes its events to the commands that wait for them.
-- Handles of hosts, fixtures, sources and emitters (src/host.rs, src/fixture.rs, src/source.rs,
-- src/emitter.rs) issue commands through it. WiFi discovery (src/wifi.rs) connects advertised
-- devices whose token is saved (src/token_store.rs); USB discovery (src/usb/mod.rs) connects
-- what is plugged in.
--
-- Files:
--   Common, Strings     shared types and tests, `Result`, lists; what is used of `str`
--   Error, Measurement  `Error` and the `f32` of src/lib.rs; an f32 is its bit pattern
--   Message             the records, commands and events of src/message.rs and src/spectral.rs, a
--                       module for each resource, and the derived comparisons
--   Version             `Version` of src/message.rs: `from_str`, `display`, `cmp`
--   Framing             src/serialization.rs: `frame_bytes`, `unframe_bytes`, `push_byte`,
--                       `push_bytes`; RoundTrip, Stream, Invariant and Memory hold the proofs
--   Runtime             src/runtime.rs: `dispatch` is the body of `message_dispatch_task`,
--                       `register`, `await_response` and `finish` are the parts of
--                       `execute_command_with_timeout_until`. System has the interleavings of
--                       commands and the task as a step relation, Routing and Reachable its
--                       invariant; Execute composes the parts for one command
--                       Lifecycle has `connect`, `disconnect` and the sends over a connection
--   Client              the calls of src/host.rs, src/fixture.rs, src/source.rs, src/emitter.rs
--                       and the settings and tokens of src/runtime.rs, over the record
--                       `RemoteRuntime` of operations and laws; Connection fills that record by
--                       Runtime.Execute. Discovery, Spectrum and Transitions hold the proofs
--   TokenStore          src/token_store.rs over the record `Platform`: environment variables,
--                       files and JSON with their laws. Tokens and Saved hold the proofs
--   Environment, Usb    the events of src/environment.rs; `handle_device_arrived` and
--                       `handle_device_left` of src/usb/mod.rs, with their proofs in Usb/Keys.
--                       Usb/Enumerate is `UsbEnvironment::new`, Usb/Discovery its start and stop
--                       of discovery over the interface `UsbBackend`, Usb/Lifecycle their proofs.
--                       Usb/Rusb and Usb/Polling are the backends of src/usb/rusb.rs and
--                       src/usb/serialport.rs, Usb/Polling/Followed about an observer of the
--                       events. Usb/Receive and Usb/Reception are the read loops over
--                       Framing, Usb/SerialPort and Usb/Written the writes of a serial port,
--                       Usb/Connection the connection that a device keeps
--   Wifi                Frames: `read_frame`, `write_frame`; Protocol: requests, responses and the
--                       interface of the Noise library; Session: `WifiConnection` with
--                       `authenticate`, `send_message` and `read_task`, and Session/Delivery its
--                       proofs; Pairing: `generate_token_from_endpoint`; Device:
--                       `WifiDiscoveredDevice` and `token_for_discovered_device`; Reconcile: a round
--                       of discovery, with its proofs in Reconcile/Hosts and Reconcile/Stays;
--                       Mdns: `collect_mdns_devices` over the records of a packet;
--                       Environment: `WifiEnvironment`, its construction and exclusions, and
--                       Environment/Rounds its task in steps, between which Environment/Actions
--                       lets other calls come; Apart, Begun, Guarded, Steps and Kept are about
--                       exclusions, Uninterrupted about the steps and Reconcile; Pairing/Granted
--                       is about the token (src/wifi.rs)
--   Update              of src/update.rs: `attached_raw` and the padding in `flash_payloads`; Select:
--                       the choice of version and target; Download: the payloads with their checks;
--                       Flow: `preferred_port`, `flash_payloads`, `verify_updated_host` and
--                       `update_remote_host`, with Flow/Updated its proofs
--   CommandLine         Prompts: the questions of src/main.rs; Verify: the check of a new WiFi token by
--                       `verify_wifi_token_from_discovered_device` over the answers of the
--                       connections, with `from_endpoint` of src/wifi.rs
--   Examples, Sessions, Packets
--                       in each component, tests and theorems at concrete inputs
--
-- Conventions: numbers are natural numbers, with a wrap-around or a saturation written where the
-- code has one. A byte is a number that is not bounded by its type. Text is a list of bytes. An
-- identifier is the number of a UUID, and a fresh one is an argument or comes from the state. A
-- response channel is a number, its queue a list, and the store of channels a function; receivers,
-- senders and the task act in steps of their own. A `Duration` counts nanoseconds.
--
-- Bounds: a response channel holds 16 events, the channel of unmatched messages and that of a
-- connection 64, a `no_std` frame 512 bytes, a spectrum 401 samples, a WiFi payload 2072 bytes. Fuel
-- occurs twice: `spectral_data` gives `sample_batches` one more than the count of samples, and each
-- round moves the offset on unless the 32-bit sum wraps; `read_task` gives its loop one more than the
-- bytes of the stream, and each frame takes two bytes at least.
--
-- Not modelled: third-party encodings, the Noise protocol, the flashing library and the firmware
-- server, which are parameters; the operating system's sockets, USB transfers and serial ports,
-- whose answers are arguments; two senders that write to one WiFi connection at once;
-- the mDNS sockets and queries and the parsing of packets; the
-- `Drop` of an environment; the commands of src/main.rs that list, monitor and light devices, which
-- call the other parts and print. Log lines and prompts that the code prints do not touch the
-- modelled state and are dropped.
mod Common
pub mod Strings
pub mod Error
pub mod Framing
pub mod Version
pub mod Measurement
pub mod Message
pub mod Runtime
pub mod Client
pub mod TokenStore
pub mod Environment
pub mod Usb
pub mod Wifi
pub mod Update
pub mod CommandLine
