-- ===== src/Usb/Examples.antt =====
-- Arrivals and departures of concrete devices, and the theorems of src/usb/mod.rs there.
use enody_rs.Common.{◌≡◌, refl, codes, text_eq, [], ◌∷◌, none, some, ok}
use enody_rs.Environment.{left}
use enody_rs.Usb.{
  UsbDevice, ConnectedRuntime, connected_contains_key, handle_device_arrived, handle_device_left,
}
use enody_rs.Usb.Keys.{Unclashing, handlers-Unclashing, arrived-left}

-- A device whose serial number is known in a connection only.
abbrev panel : UsbDevice
panel = record {
  connection_key = codes "usb:1";
  serial_closed = none;
  serial_connected = some (codes "A1");
  connect = ok tt;
  connect_runtime = ok tt;
}

-- The same product at another port.
abbrev panel_again : UsbDevice
panel_again = record panel { connection_key = codes "tty:3" }

abbrev panel_connected : ConnectedRuntime
panel_connected = record {
  runtime = panel;
  connection_key = codes "usb:1";
  serial_number = some (codes "A1");
}

handlers-Unclashing_example :
    Unclashing [] (handle_device_arrived (panel_connected ∷ []) panel_again).0
    × Unclashing [] (handle_device_left (panel_connected ∷ []) panel_again).0
handlers-Unclashing_example = handlers-Unclashing (panel_connected ∷ []) panel_again (refl, tt)

arrived-left_example :
    handle_device_left (handle_device_arrived [] panel).0 panel ≡ ([], some (left panel))
unfolding handle_device_arrived connected_contains_key
arrived-left_example = arrived-left [] panel refl

-- The duplicate is not reported.
duplicate : (handle_device_arrived (panel_connected ∷ []) panel_again).1 ≡ none
unfolding handle_device_arrived connected_contains_key text_eq
duplicate = refl
