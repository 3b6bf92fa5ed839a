-- ===== src/Usb/Discovery.antt =====
-- Starting and stopping discovery in `UsbEnvironment` (src/usb/mod.rs), over the backends, which
-- are trait objects. Running devices and their events are in the parent module.
use enody_rs.Common.{
  ℕ, Bool, true, false, Text, codes, List, [], ◌∷◌, ◌++◌, map, length, Option, none, some, Result,
  ok, err, ◌≡◌,
}
use enody_rs.Error.{Error}
use enody_rs.Environment.{EnvironmentRuntimeEvent}
use enody_rs.Strings.Numbers.{decimal}
use enody_rs.Usb.{UsbDevice, ConnectedRuntime, handle_device_arrived, handle_device_left}
use enody_rs.Usb.Identifier.{UsbDeviceEvent, connected, disconnected}

-- A backend, and what the environment relies on: starting either leaves it running or fails and
-- leaves it as a stopped one, and stopping, whether it fails or not, leaves it stopped.
pub record UsbBackend (B : Type 0) : Type 0 where
  pub start_discovery : B → B × Result (Unit {0}) Error
  pub stop_discovery : B → B × Result (Unit {0}) Error
  pub is_running : B → Bool
  pub start_runs : (b : B) → (start_discovery b).1 ≡ ok tt → is_running (start_discovery b).0 ≡ true
  pub start_fails :
      (b : B) (e : Error) → (start_discovery b).1 ≡ err e → is_running (start_discovery b).0 ≡ false
  pub stop_stops : (b : B) → is_running (stop_discovery b).0 ≡ false

-- The receiver of device events is in the environment or in the task.
pub record UsbEnvironment (B Rx : Type 0) : Type 0 where
  pub backends : List B
  pub device_event_rx : Option Rx
  pub event_handler_task : Option Rx

abbrev pub consumed : Error
consumed = Error.debug (codes "device event channel already consumed")

abbrev pub not_running : Error
not_running = Error.debug (codes "discovery is not running; call start_discovery first")

abbrev pub stream_closed : Error
stream_closed = Error.debug (codes "runtime event stream closed unexpectedly")

abbrev pub first_of : Option Error → Result (Unit {0}) Error → Option Error
first_of (some e) outcome = some e
first_of none (err e) = some e
first_of none (ok _) = none

abbrev pub finish_with : Option Error → Result (Unit {0}) Error
finish_with none = ok tt
finish_with (some e) = err e

-- The message of a start that failed; `describe` is the derived text of an error.
abbrev pub failed_start : (Error → Text) → ℕ → Error → Error
failed_start describe backend_index e = Error.debug (
    codes "failed to start discovery for backend "
    ++ (decimal backend_index ++ (codes ": " ++ describe e)))

module _ {B : Type 0} (usb : UsbBackend B) where
  abbrev pub stop_each : List B → List B
  stop_each backends = map (λ b. (usb.stop_discovery b).0) backends

  abbrev pub first_error : Option Error → List B → Option Error
  first_error found [] = found
  first_error found (b ∷ rest) = first_error (first_of found (usb.stop_discovery b).1) rest

module _ {B : Type 0} (usb : UsbBackend B) (describe : Error → Text) where
  abbrev pub start_next :
      List B
      → B × Result (Unit {0}) Error
      → List B
      → List B × Result (Unit {0}) Error
      → List B × Result (Unit {0}) Error
  start_next started (b, ok _) rest later = later
  start_next started (b, err e) rest later =
      (stop_each usb started ++ b ∷ rest, err (failed_start describe (length started) e))

  -- The loop over the backends, behind those that were started: where one fails these are stopped.
  unfoldable pub start_backends : List B → List B → List B × Result (Unit {0}) Error
  start_backends started [] = (started, ok tt)
  start_backends started (b ∷ rest) =
      let tried = usb.start_discovery b in
      start_next started tried rest (start_backends (started ++ tried.0 ∷ []) rest)

module _ {B Rx : Type 0} (usb : UsbBackend B) (describe : Error → Text) where
  abbrev pub start_done :
      UsbEnvironment B Rx
      → Rx
      → List B × Result (Unit {0}) Error
      → UsbEnvironment B Rx × Result (Unit {0}) Error
  start_done env event_rx (backends, ok _) = (
    record { backends = backends; device_event_rx = none; event_handler_task = some event_rx },
    ok tt,
  )
  start_done env event_rx (backends, err e) =
      (record env { backends = backends; device_event_rx = some event_rx }, err e)

  abbrev pub start_with :
      UsbEnvironment B Rx → Option Rx → UsbEnvironment B Rx × Result (Unit {0}) Error
  start_with env none = (env, err consumed)
  start_with env (some event_rx) =
      start_done env event_rx (start_backends usb describe [] env.backends)

  abbrev pub start_unless :
      UsbEnvironment B Rx → Option Rx → UsbEnvironment B Rx × Result (Unit {0}) Error
  start_unless env (some task) = (env, ok tt)
  start_unless env none = start_with env env.device_event_rx

  unfoldable pub start_discovery :
      UsbEnvironment B Rx → UsbEnvironment B Rx × Result (Unit {0}) Error
  start_discovery env = start_unless env env.event_handler_task

  -- The task is aborted, and its receiver with it.
  unfoldable pub stop_discovery :
      UsbEnvironment B Rx → UsbEnvironment B Rx × Result (Unit {0}) Error
  stop_discovery env = (
    record env { backends = stop_each usb env.backends; event_handler_task = none },
    finish_with (first_error usb none env.backends),
  )

  -- `next_runtime_event`, with what the channel of runtime events gives.
  abbrev pub next_runtime_event : {E : Type 0} → UsbEnvironment B Rx → Option E → Result E Error
  next_runtime_event env received = elim env.event_handler_task [
    | none ↦ err not_running
    | some _ ↦ elim received [ some event ↦ ok event | none ↦ err stream_closed ]
  ]

abbrev pub handle_event :
    List ConnectedRuntime
    → UsbDeviceEvent UsbDevice
    → List ConnectedRuntime × Option (EnvironmentRuntimeEvent UsbDevice)
handle_event runtimes (connected device) = handle_device_arrived runtimes device
handle_event runtimes (disconnected device) = handle_device_left runtimes device

abbrev pub keep_event :
    Option (EnvironmentRuntimeEvent UsbDevice)
    → List (EnvironmentRuntimeEvent UsbDevice)
    → List (EnvironmentRuntimeEvent UsbDevice)
keep_event none rest = rest
keep_event (some event) rest = event ∷ rest

-- The events of the task, while the environment is there to receive them.
unfoldable pub handle_events :
    List ConnectedRuntime
    → List (UsbDeviceEvent UsbDevice)
    → List ConnectedRuntime × List (EnvironmentRuntimeEvent UsbDevice)
handle_events runtimes [] = (runtimes, [])
handle_events runtimes (event ∷ events) =
    let (after, reported) = handle_event runtimes event in
    let (last, later) = handle_events after events in (last, keep_event reported later)
