-- ===== src/Usb/Sessions.antt =====
-- Connections, enumerations and discoveries of src/usb on concrete devices, and the theorems there.
use enody_rs.Common.{
  ◌≡◌, ◌≤◌, ℕ, refl, codes, Text, Bytes, true, false, List, [], ◌∷◌, All, Option, none, some,
  Result, ok, err, arith, ltb, length, text_eq,
}
use enody_rs.Error.{Error}
use enody_rs.Framing.{
  frame_bytes, new, push_byte, push_bytes, escaped_bytes, unescape_bytes, unframe_bytes,
}
use enody_rs.Framing.Codec.{buffer_try_from}
use enody_rs.Usb.{UsbDevice}
use enody_rs.Usb.Receive.{feed, try_send}
use enody_rs.Usb.Reception.{Turn, round, recv, opened, message_rx, delivered, message_rx-delivers}
use enody_rs.Usb.SerialPort.{Port, Read, open_connection, drain}
use enody_rs.Usb.Written.{send, serve, run, run-written}
use enody_rs.Usb.Polling.{
  SerialPortInfo, SerialPortDevice, SerialPortBackend, init, port_map, poll_all, usb_port, Tick,
  changes, port_map_from, insert, connection_key, attached_ports,
}
use enody_rs.Usb.Polling.Followed.{Room, follow_all, has_key, latest, discovery-followed}
use enody_rs.Usb.Polling.Backend.{serial_backend}
use enody_rs.Usb.Enumerate
use enody_rs.Usb.Discovery.{UsbEnvironment, consumed, start_discovery, stop_discovery}
use enody_rs.Usb.Lifecycle.{StartEnds, Stopped, start_discovery-Ends, stop-start}

-- A message is a number, and its encoding is that byte.
abbrev decode : Bytes → Option ℕ
decode [] = none
decode (b ∷ bytes) = some b

abbrev encode : ℕ → Option Bytes
encode m = some (m ∷ [])

-- Two messages in three reads, one of which fails, with a reception between them.
abbrev reads : List Turn
reads =
    round (ok (2 ∷ 5 ∷ [])) false
    ∷ round (err (Error.usb [])) false
    ∷ round (ok (3 ∷ 2 ∷ 16 ∷ [])) false
    ∷ recv
    ∷ round (ok (3 ∷ 3 ∷ [])) true
    ∷ []

message_rx-delivers_example : delivered decode (message_rx decode opened reads).0 ≡ 5 ∷ 3 ∷ []
unfolding new frame_bytes escaped_bytes push_bytes push_byte unframe_bytes unescape_bytes feed
    try_send
message_rx-delivers_example =
    let none_queued : 0 ≤ 64 = omega arith in
    let one_queued : 1 ≤ 64 = omega arith in
    message_rx-delivers decode reads [] ((5 ∷ []) ∷ (3 ∷ []) ∷ []) refl refl
      (none_queued, (none_queued, (one_queued, one_queued)))

-- The port takes everything.
abbrev willing : Port
willing = record {
  write_all = λ written payload. none;
  flush = λ written payload. none;
  read = Read.timed_out;
}

run-written_example :
    push_bytes new
      (run decode encode
        (open_connection decode encode)
        (send 7 ∷ send 2 ∷ serve willing false ∷ [])).written
    ≡ (new, (7 ∷ []) ∷ (2 ∷ []) ∷ [])
unfolding drain buffer_try_from
run-written_example =
    run-written decode encode (send 7 ∷ send 2 ∷ serve willing false ∷ []) refl refl

abbrev plugged : Text → SerialPortInfo
plugged name = record {
  port_name = name;
  port_type = usb_port (record { vid = 0x303A; pid = 0x1001; serial_number = some (codes "A1") });
}

abbrev lamp : SerialPortDevice
lamp = record { port_name = codes "ttyACM0"; serial_number = some (codes "A1") }

-- The channel is empty at each round.
abbrev ticks : List Tick
ticks =
    (record { enumerated = err (Error.usb []); has_room = λ n. ltb n 16 })
    ∷ (record { enumerated = ok (plugged (codes "ttyACM1") ∷ []); has_room = λ n. ltb n 16 })
    ∷ []

two_events :
    length
      (changes (port_map (lamp ∷ [])) (port_map (attached_ports (plugged (codes "ttyACM1") ∷ []))))
    ≡ 2
unfolding changes port_map port_map_from insert connection_key attached_ports text_eq
two_events = refl

ticks-Room : Room (port_map (lamp ∷ [])) ticks
ticks-Room = (tt, (λ n lt. ground (arith, two_events), tt))

discovery-followed_example :
    follow_all
      (has_key (lamp ∷ []))
      (poll_all (port_map (lamp ∷ [])) ticks).1
      (codes "serialport:ttyACM1:A1")
    ≡ has_key (latest (lamp ∷ []) ticks) (codes "serialport:ttyACM1:A1")
discovery-followed_example =
    discovery-followed (lamp ∷ []) ticks (codes "serialport:ttyACM1:A1") ticks-Room

abbrev panel : Text → Text → UsbDevice
panel key serial = record {
  connection_key = key;
  serial_closed = some serial;
  serial_connected = some serial;
  connect = ok tt;
  connect_runtime = ok tt;
}

-- The second backend sees the device of the first one again.
abbrev seen_by : List (Result (List UsbDevice) Error)
seen_by =
    ok (panel (codes "rusb:1") (codes "A1") ∷ [])
    ∷ ok (panel (codes "serial:1") (codes "A1") ∷ panel (codes "serial:2") (codes "B2") ∷ [])
    ∷ []

-- Of two serial backends one cannot list its ports, for the number of its environment; the receiver
-- is a number.
abbrev idle : UsbEnvironment SerialPortBackend ℕ
idle = record { backends = init ∷ init ∷ []; device_event_rx = some 9; event_handler_task = none }

abbrev nameless : Error → Text
nameless e = []

start_discovery-Ends_example :
    StartEnds
      (serial_backend (err Error.permission) true)
      nameless
      9
      (start_discovery (serial_backend (err Error.permission) true) nameless idle)
unfolding serial_backend
start_discovery-Ends_example =
    start_discovery-Ends (serial_backend (err Error.permission) true) nameless idle 9
      ((refl, (refl, tt)), refl, refl)

abbrev discovering : UsbEnvironment SerialPortBackend ℕ
discovering = record {
  backends = (record { poll_task = some [] }) ∷ [];
  device_event_rx = none;
  event_handler_task = some 9;
}

stop-start_example :
    let usb = serial_backend (ok []) true in
    All (Stopped usb) (stop_discovery usb nameless discovering).0.backends
    × (start_discovery usb nameless (stop_discovery usb nameless discovering).0
        ≡ ((stop_discovery usb nameless discovering).0, err consumed))
unfolding serial_backend
stop-start_example =
    stop-start (serial_backend (ok []) true) nameless discovering 9 ((refl, tt), refl, refl)
