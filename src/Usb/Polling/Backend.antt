-- ===== src/Usb/Polling/Backend.antt =====
-- The backend of src/usb/serialport.rs as `UsbEnvironment` uses it.
use enody_rs.Common.{Bool, true, false, List, Option, none, some, Result, ok, err, ◌≡◌, refl}
use enody_rs.Error.{Error}
use enody_rs.Usb.Discovery.{UsbBackend}
use enody_rs.Usb.Polling.{
  SerialPortInfo, SerialPortDevice, SerialPortBackend, attached, Entry, start_with, start_unless,
  start_discovery, stop_discovery,
}

abbrev pub is_polling : SerialPortBackend → Bool
is_polling backend = elim backend.poll_task [ some _ ↦ true | none ↦ false ]

start_with-runs :
    (r : Result (List SerialPortDevice) Error)
    → (start_with r).1 ≡ ok tt
    → is_polling (start_with r).0 ≡ true
start_with-runs (ok ports) h = refl
start_with-runs (err e) h = absurd cc

start_with-fails :
    (r : Result (List SerialPortDevice) Error) (e : Error)
    → (start_with r).1 ≡ err e
    → is_polling (start_with r).0 ≡ false
start_with-fails (ok ports) e h = absurd cc
start_with-fails (err e') e h = refl

module _ (enumerated : Result (List SerialPortInfo) Error) where
  pub start-runs :
      (task : Option (List Entry))
      → (start_unless enumerated task).1 ≡ ok tt
      → is_polling (start_unless enumerated task).0 ≡ true
  start-runs (some known) h = refl
  start-runs none h = start_with-runs (attached enumerated) h

  pub start-fails :
      (task : Option (List Entry)) (e : Error)
      → (start_unless enumerated task).1 ≡ err e
      → is_polling (start_unless enumerated task).0 ≡ false
  start-fails (some known) e h = absurd cc
  start-fails none e h = start_with-fails (attached enumerated) e h

  -- For one answer of the enumeration and one ending of the task.
  unfoldable pub serial_backend : Bool → UsbBackend SerialPortBackend
  unfolding start_discovery stop_discovery
  serial_backend finishes = record {
    start_discovery = λ backend. start_discovery backend enumerated;
    stop_discovery = λ backend. stop_discovery backend finishes;
    is_running = is_polling;
    start_runs = λ b h. start-runs b.poll_task h;
    start_fails = λ b e h. start-fails b.poll_task e h;
    stop_stops = λ b. refl;
  }
