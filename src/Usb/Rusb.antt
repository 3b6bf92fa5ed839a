-- ===== src/Usb/Rusb.antt =====
-- The backend of src/usb/rusb.rs. What libusb answers is an argument; a registration is a handle of
-- libusb, and its events are those of the hot-plug handler.
use enody_rs.Common.{
  ℕ, Bool, true, false, Text, codes, List, [], ◌∷◌, ◌++◌, any, Option, none, some, Result, ok, err,
  if◌then◌else◌, ◌≡◌, refl,
}
use enody_rs.Error.{Error}
use enody_rs.Strings.Numbers.{decimal}
use enody_rs.Usb.Discovery.{UsbBackend}
use enody_rs.Usb.Identifier.{UsbIdentifier, identifier_eq, all_identifiers}

-- A device on the bus, and its descriptor's vendor and product where that can be read.
pub record BusDevice : Type 0 where
  pub bus_number : ℕ
  pub address : ℕ
  pub descriptor : Option (ℕ × ℕ)

-- `UsbIdentifier::from(descriptor)`
abbrev pub from_descriptor : ℕ × ℕ → UsbIdentifier
from_descriptor (vendor_id, product_id) = record {
  name = codes "Unknown";
  vendor_id = vendor_id;
  product_id = product_id;
}

abbrev pub unwrap_or_zeros : Option (ℕ × ℕ) → ℕ × ℕ
unwrap_or_zeros none = (0, 0)
unwrap_or_zeros (some ids) = ids

unfoldable pub connection_key : BusDevice → Text
connection_key device =
    let ids = unwrap_or_zeros device.descriptor in
    codes "rusb:"
    ++ (decimal ids.0
        ++ (codes ":"
            ++ (decimal ids.1
                ++ (codes ":"
                    ++ (decimal device.bus_number ++ (codes ":" ++ decimal device.address))))))

abbrev pub is_product : Option (ℕ × ℕ) → Bool
is_product none = false
is_product (some ids) =
    any (λ identifier. identifier_eq (from_descriptor ids) identifier) all_identifiers

abbrev pub matching_devices : List BusDevice → List BusDevice
matching_devices [] = []
matching_devices (device ∷ devices) =
    if is_product device.descriptor
    then device ∷ matching_devices devices
    else matching_devices devices

abbrev pub attached : Result (List BusDevice) Error → Result (List BusDevice) Error
attached (err e) = err e
attached (ok devices) = ok (matching_devices devices)

pub record RusbBackend (Registration : Type 0) : Type 0 where
  pub hotplug_monitor_task : Bool
  pub hotplug_registrations : List Registration

abbrev pub not_stopped : Error
not_stopped = Error.debug (codes "rusb hotplug monitor task did not stop within timeout")

abbrev pub stop_result : Bool → Bool → Result (Unit {0}) Error
stop_result false finishes = ok tt
stop_result true finishes = if finishes then ok tt else err not_stopped

module _ {Registration : Type 0} where
  abbrev pub init : RusbBackend Registration
  init = record { hotplug_monitor_task = false; hotplug_registrations = [] }

  -- `register` of a product's handler, with `?`.
  abbrev pub push_registration :
      List Registration
      → Result Registration Error
      → List Registration × Option Error
      → List Registration × Option Error
  push_registration registrations (err e) later = (registrations, some e)
  push_registration registrations (ok registration) later = later

  abbrev pub value_or : List Registration → Result Registration Error → List Registration
  value_or registrations (err e) = registrations
  value_or registrations (ok registration) = registrations ++ registration ∷ []

  abbrev pub register_all :
      (UsbIdentifier → Result Registration Error)
      → List Registration
      → List UsbIdentifier
      → List Registration × Option Error
  register_all register registrations [] = (registrations, none)
  register_all register registrations (identifier ∷ identifiers) =
      push_registration registrations (register identifier)
        (register_all register (value_or registrations (register identifier)) identifiers)

  abbrev pub monitor :
      List Registration × Option Error → RusbBackend Registration × Result (Unit {0}) Error
  monitor (registrations, some e) =
      (record { hotplug_monitor_task = false; hotplug_registrations = registrations }, err e)
  monitor (registrations, none) =
      (record { hotplug_monitor_task = true; hotplug_registrations = registrations }, ok tt)

  abbrev pub start_unless :
      (UsbIdentifier → Result Registration Error)
      → Bool
      → List Registration
      → RusbBackend Registration × Result (Unit {0}) Error
  start_unless register true registrations =
      (record { hotplug_monitor_task = true; hotplug_registrations = registrations }, ok tt)
  start_unless register false registrations =
      monitor (register_all register registrations all_identifiers)

  unfoldable pub start_discovery :
      (UsbIdentifier → Result Registration Error)
      → RusbBackend Registration
      → RusbBackend Registration × Result (Unit {0}) Error
  start_discovery register backend =
      start_unless register backend.hotplug_monitor_task backend.hotplug_registrations

  -- The flag says whether the task finishes before the deadline. The registrations are kept.
  unfoldable pub stop_discovery :
      Bool → RusbBackend Registration → RusbBackend Registration × Result (Unit {0}) Error
  stop_discovery finishes backend = (
    record backend { hotplug_monitor_task = false },
    stop_result backend.hotplug_monitor_task finishes,
  )

  monitor-runs :
      (r : List Registration × Option Error)
      → (monitor r).1 ≡ ok tt
      → (monitor r).0.hotplug_monitor_task ≡ true
  monitor-runs (registrations, some e) h = cc
  monitor-runs (registrations, none) h = refl

  monitor-fails :
      (r : List Registration × Option Error) (e : Error)
      → (monitor r).1 ≡ err e
      → (monitor r).0.hotplug_monitor_task ≡ false
  monitor-fails (registrations, some e') e h = refl
  monitor-fails (registrations, none) e h = cc

module _ {Registration : Type 0} (register : UsbIdentifier → Result Registration Error) where
  pub start-runs :
      (running : Bool) (registrations : List Registration)
      → (start_unless register running registrations).1 ≡ ok tt
      → (start_unless register running registrations).0.hotplug_monitor_task ≡ true
  start-runs true registrations h = refl
  start-runs false registrations h =
      monitor-runs (register_all register registrations all_identifiers) h

  pub start-fails :
      (running : Bool) (registrations : List Registration) (e : Error)
      → (start_unless register running registrations).1 ≡ err e
      → (start_unless register running registrations).0.hotplug_monitor_task ≡ false
  start-fails true registrations e h = absurd cc
  start-fails false registrations e h =
      monitor-fails (register_all register registrations all_identifiers) e h

  -- The backend as the environment uses it, for one answer of each registration and one ending of
  -- the task.
  unfoldable pub rusb_backend : Bool → UsbBackend (RusbBackend Registration)
  unfolding start_discovery stop_discovery
  rusb_backend finishes = record {
    start_discovery = start_discovery register;
    stop_discovery = stop_discovery finishes;
    is_running = λ b. b.hotplug_monitor_task;
    start_runs = λ b h. start-runs b.hotplug_monitor_task b.hotplug_registrations h;
    start_fails = λ b e h. start-fails b.hotplug_monitor_task b.hotplug_registrations e h;
    stop_stops = λ b. refl;
  }
