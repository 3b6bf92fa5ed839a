-- ===== src/Usb/Enumerate.antt =====
-- `UsbEnvironment::new` of src/usb/mod.rs: the devices that the backends see at the start are
-- connected, one for each serial number. A tokio runtime is there.
use enody_rs.Common.{
  Bool, false, Text, text_eq, List, [], ◌∷◌, ◌++◌, any, Option, none, some, Result, ok, err,
  if◌then◌else◌, ◌≡◌,
}
use enody_rs.Error.{Error}
use enody_rs.Usb.{UsbDevice, ConnectedRuntime, fetch_serial, establish}

-- The serial numbers that were seen, and the runtimes that were connected.
pub record Enumeration : Type 0 where
  pub attached_serials : List Text
  pub connected_runtimes : List ConnectedRuntime

abbrev pub has_text : List Text → Text → Bool
has_text texts t = any (λ s. text_eq s t) texts

abbrev pub connect_runtime : Enumeration → UsbDevice → Option Text → Enumeration
connect_runtime seen device serial_number = record seen {
  connected_runtimes =
      (establish seen.connected_runtimes device serial_number device.connect_runtime).0;
}

-- What `fetch_serial` gave is looked up among the serial numbers seen, and put there.
abbrev pub visit_with : Enumeration → UsbDevice → Result (Option Text) Error → Enumeration
visit_with seen device (err e) = seen
visit_with seen device (ok none) = connect_runtime seen device none
visit_with seen device (ok (some sn)) =
    if has_text seen.attached_serials sn
    then seen
    else connect_runtime (record seen { attached_serials = seen.attached_serials ++ sn ∷ [] })
        device (some sn)

unfoldable pub visit_all : Enumeration → List UsbDevice → Enumeration
visit_all seen [] = seen
visit_all seen (device ∷ devices) =
    visit_all (visit_with seen device (fetch_serial device device.serial_closed)) devices

-- The devices of the backends in their order; a backend whose enumeration fails has none.
abbrev pub all_devices : List (Result (List UsbDevice) Error) → List UsbDevice
all_devices [] = []
all_devices (err e ∷ backends) = all_devices backends
all_devices (ok devices ∷ backends) = devices ++ all_devices backends

unfoldable pub new : List (Result (List UsbDevice) Error) → List ConnectedRuntime
new backends =
    (visit_all (record { attached_serials = []; connected_runtimes = [] })
      (all_devices backends)).connected_runtimes

abbrev pub keep_serial : Option Text → List Text → List Text
keep_serial none rest = rest
keep_serial (some sn) rest = sn ∷ rest

abbrev pub serials : List ConnectedRuntime → List Text
serials [] = []
serials (c ∷ cs) = keep_serial c.serial_number (serials cs)

-- No text occurs twice.
abbrev pub DistinctTexts : List Text → Type 0
DistinctTexts [] = Unit
DistinctTexts (t ∷ ts) = (has_text ts t ≡ false) × DistinctTexts ts

-- The device gives the serial number `t`.
abbrev pub is_serial : Result (Option Text) Error → Text → Bool
is_serial (err e) t = false
is_serial (ok none) t = false
is_serial (ok (some sn)) t = text_eq sn t

abbrev pub gives : List UsbDevice → Text → Bool
gives devices t = any (λ d. is_serial (fetch_serial d d.serial_closed) t) devices

-- The serial numbers of the runtimes are the ones seen, each once.
abbrev Tracks : Enumeration → Type 0
Tracks seen =
    (serials seen.connected_runtimes ≡ seen.attached_serials) × DistinctTexts seen.attached_serials
