-- ===== src/Usb.antt =====
-- `UsbEnvironment` of src/usb/mod.rs: the runtimes it keeps connected, and what it does when a
-- device arrives or leaves. A device is a trait object: what its methods give is in its record. A
-- `RemoteRuntime` that wraps a device is that device.
pub mod Keys
pub mod Receive
pub mod Reception
pub mod Connection
pub mod Identifier
pub mod Discovery
pub mod Rusb
pub mod Lifecycle
pub mod Enumerate
pub mod Polling
pub mod SerialPort
pub mod Written
mod Examples
mod Sessions
use enody_rs.Common.{
  Bool, true, false, not, ◌&&◌, ◌||◌, Text, text_eq, List, [], ◌∷◌, ◌++◌, any, Option, none, some,
  Result, ok, err, if◌then◌else◌,
}
use enody_rs.Error.{Error}
use enody_rs.Environment.{EnvironmentRuntimeEvent, arrived, left}

-- `serial_number` before a connection and in one, and what `connect` gives for the device and for
-- the runtime that wraps it.
pub record UsbDevice : Type 0 where
  pub connection_key : Text
  pub serial_closed : Option Text
  pub serial_connected : Option Text
  pub connect : Result (Unit {0}) Error
  pub connect_runtime : Result (Unit {0}) Error

pub record ConnectedRuntime : Type 0 where
  pub runtime : UsbDevice
  pub connection_key : Text
  pub serial_number : Option Text

abbrev pub same_serial : Option Text → Option Text → Bool
same_serial none connected = false
same_serial (some sn) none = false
same_serial (some sn) (some s) = text_eq s sn

unfoldable pub connected_contains_key : List ConnectedRuntime → Text → Option Text → Bool
connected_contains_key connected_runtimes connection_key serial_number =
    any (λ c. text_eq c.connection_key connection_key || same_serial serial_number c.serial_number)
      connected_runtimes

-- The serial number, fetched in a connection where it is not known before; no result where that
-- connection fails.
abbrev pub fetch_serial : UsbDevice → Option Text → Result (Option Text) Error
fetch_serial device (some sn) = ok (some sn)
fetch_serial device none = elim device.connect [ ok _ ↦ ok device.serial_connected | err e ↦ err e ]

abbrev pub establish :
    List ConnectedRuntime
    → UsbDevice
    → Option Text
    → Result (Unit {0}) Error
    → List ConnectedRuntime × Option (EnvironmentRuntimeEvent UsbDevice)
establish connected device serial_number (err e) = (connected, none)
establish connected device serial_number (ok _) = (
  connected
      ++ (record {
        runtime = device;
        connection_key = device.connection_key;
        serial_number = serial_number;
      })
        ∷ [],
  some (arrived device),
)

abbrev pub arrive_with :
    List ConnectedRuntime
    → UsbDevice
    → Result (Option Text) Error
    → List ConnectedRuntime × Option (EnvironmentRuntimeEvent UsbDevice)
arrive_with connected device (err e) = (connected, none)
arrive_with connected device (ok serial_number) =
    let new_runtime = establish connected device serial_number device.connect_runtime in
    if connected_contains_key connected device.connection_key serial_number
    then (connected, none)
    else new_runtime

-- A duplicate that was connected for its serial number is disconnected, which leaves the list as it
-- is.
unfoldable pub handle_device_arrived :
    List ConnectedRuntime
    → UsbDevice
    → List ConnectedRuntime × Option (EnvironmentRuntimeEvent UsbDevice)
handle_device_arrived connected device =
    arrive_with connected device (fetch_serial device device.serial_closed)

abbrev pub put_back :
    ConnectedRuntime
    → List ConnectedRuntime × Option UsbDevice
    → List ConnectedRuntime × Option UsbDevice
put_back c (rest, removed) = (c ∷ rest, removed)

-- `position` and `remove`: the first runtime with the key.
unfoldable pub remove_key : List ConnectedRuntime → Text → List ConnectedRuntime × Option UsbDevice
remove_key [] connection_key = ([], none)
remove_key (c ∷ cs) connection_key =
    let later = put_back c (remove_key cs connection_key) in
    if text_eq c.connection_key connection_key then (cs, some c.runtime) else later

abbrev pub left_event : Option UsbDevice → Option (EnvironmentRuntimeEvent UsbDevice)
left_event none = none
left_event (some runtime) = some (left runtime)

-- The runtime is disconnected if it still is connected, which leaves the list as it is.
unfoldable pub handle_device_left :
    List ConnectedRuntime
    → UsbDevice
    → List ConnectedRuntime × Option (EnvironmentRuntimeEvent UsbDevice)
handle_device_left connected device =
    let (rest, removed) = remove_key connected device.connection_key in (rest, left_event removed)
