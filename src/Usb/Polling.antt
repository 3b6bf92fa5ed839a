-- ===== src/Usb/Polling.antt =====
-- The discovery of src/usb/serialport.rs: rounds that compare the ports of the system with those
-- known before. The system's enumeration is an argument. A hash map is a list of entries with
-- different keys; its order, which the code leaves open, is that of insertion.
pub mod Followed
pub mod Backend
use enody_rs.Common.{
  ℕ, zero, suc, Bool, true, false, not, Text, text_eq, codes, List, [], ◌∷◌, ◌++◌, map, retain, any,
  Option, none, some, Result, ok, err, if◌then◌else◌,
}
use enody_rs.Error.{Error}
use enody_rs.Usb.Identifier.{is_supported, UsbDeviceEvent, connected, disconnected}

pub record UsbPortInfo : Type 0 where
  pub vid : ℕ
  pub pid : ℕ
  pub serial_number : Option Text

pub data SerialPortType : Type 0 where
  usb_port : UsbPortInfo → SerialPortType
  other_port : SerialPortType

pub record SerialPortInfo : Type 0 where
  pub port_name : Text
  pub port_type : SerialPortType

-- `SerialPortDevice` before it is connected; its identifier is left out.
pub record SerialPortDevice : Type 0 where
  pub port_name : Text
  pub serial_number : Option Text

abbrev pub unwrap_or_default : Option Text → Text
unwrap_or_default none = []
unwrap_or_default (some text) = text

unfoldable pub connection_key : SerialPortDevice → Text
connection_key device =
    codes "serialport:"
    ++ (device.port_name ++ (codes ":" ++ unwrap_or_default device.serial_number))

abbrev pub matching : Text → SerialPortType → List SerialPortDevice → List SerialPortDevice
matching port_name other_port rest = rest
matching port_name (usb_port info) rest =
    if is_supported info.vid info.pid
    then (record { port_name = port_name; serial_number = info.serial_number }) ∷ rest
    else rest

-- The ports of supported products, out of all ports.
unfoldable pub attached_ports : List SerialPortInfo → List SerialPortDevice
attached_ports [] = []
attached_ports (port ∷ ports) = matching port.port_name port.port_type (attached_ports ports)

pub record Entry : Type 0 where
  pub key : Text
  pub device : SerialPortDevice

abbrev pub contains_key : List Entry → Text → Bool
contains_key entries key = any (λ e. text_eq e.key key) entries

-- `insert` puts a new value in place of the one with the same key.
unfoldable pub insert : List Entry → Text → SerialPortDevice → List Entry
insert [] key device = (record { key = key; device = device }) ∷ []
insert (e ∷ entries) key device =
    let rest = insert entries key device in
    if text_eq e.key key then (record e { device = device }) ∷ entries else e ∷ rest

unfoldable pub port_map_from : List Entry → List SerialPortDevice → List Entry
port_map_from entries [] = entries
port_map_from entries (port ∷ ports) =
    port_map_from (insert entries (connection_key port) port) ports

unfoldable pub port_map : List SerialPortDevice → List Entry
port_map ports = port_map_from [] ports

-- What a round offers to the channel of events.
unfoldable pub changes : List Entry → List Entry → List (UsbDeviceEvent SerialPortDevice)
changes known current =
    map (λ e. connected e.device) (retain (λ e. not (contains_key known e.key)) current)
    ++ map (λ e. disconnected e.device) (retain (λ e. not (contains_key current e.key)) known)

-- The `try_send`s of a round: an event for which the channel has no room is dropped.
unfoldable pub try_send_all :
    (ℕ → Bool) → List (UsbDeviceEvent SerialPortDevice) → List (UsbDeviceEvent SerialPortDevice)
try_send_all has_room [] = []
try_send_all has_room (event ∷ events) =
    let rest = try_send_all (λ n. has_room (suc n)) events in
    if has_room zero then event ∷ rest else rest

-- What a round of the task finds: the ports of the system, and at each of its `try_send`s, counted
-- from zero, whether the channel has room.
pub record Tick : Type 0 where
  pub enumerated : Result (List SerialPortInfo) Error
  pub has_room : ℕ → Bool

-- The ports known behind a round, and the events that it puts into the channel; a round whose
-- enumeration fails is skipped. The ports are known whether or not their events had room.
abbrev pub poll :
    List Entry
    → (ℕ → Bool)
    → Result (List SerialPortInfo) Error
    → List Entry × List (UsbDeviceEvent SerialPortDevice)
poll known has_room (err e) = (known, [])
poll known has_room (ok ports) =
    let current = port_map (attached_ports ports) in
    (current, try_send_all has_room (changes known current))

unfoldable pub poll_all :
    List Entry → List Tick → List Entry × List (UsbDeviceEvent SerialPortDevice)
poll_all known [] = (known, [])
poll_all known (tick ∷ ticks) =
    let (current, events) = poll known tick.has_room tick.enumerated in
    let (last, later) = poll_all current ticks in (last, events ++ later)

-- The polling task's known ports while it runs.
pub record SerialPortBackend : Type 0 where
  pub poll_task : Option (List Entry)

abbrev pub init : SerialPortBackend
init = record { poll_task = none }

abbrev pub attached : Result (List SerialPortInfo) Error → Result (List SerialPortDevice) Error
attached (err e) = err e
attached (ok ports) = ok (attached_ports ports)

abbrev pub start_with :
    Result (List SerialPortDevice) Error → SerialPortBackend × Result (Unit {0}) Error
start_with (err e) = (init, err e)
start_with (ok ports) = (record { poll_task = some (port_map ports) }, ok tt)

abbrev pub start_unless :
    Result (List SerialPortInfo) Error
    → Option (List Entry)
    → SerialPortBackend × Result (Unit {0}) Error
start_unless enumerated (some known) = (record { poll_task = some known }, ok tt)
start_unless enumerated none = start_with (attached enumerated)

unfoldable pub start_discovery :
    SerialPortBackend
    → Result (List SerialPortInfo) Error
    → SerialPortBackend × Result (Unit {0}) Error
start_discovery backend enumerated = start_unless enumerated backend.poll_task

abbrev pub not_stopped : Error
not_stopped = Error.debug (codes "serial discovery polling task did not stop within timeout")

abbrev pub stop_result : Option (List Entry) → Bool → Result (Unit {0}) Error
stop_result none finishes = ok tt
stop_result (some known) finishes = if finishes then ok tt else err not_stopped

-- The flag says whether the task finishes before the deadline.
unfoldable pub stop_discovery :
    SerialPortBackend → Bool → SerialPortBackend × Result (Unit {0}) Error
stop_discovery backend finishes = (init, stop_result backend.poll_task finishes)
