-- ===== src/Wifi/Environment.antt =====
-- `WifiEnvironment` of src/wifi.rs: its construction and exclusions; Rounds has the task.
pub mod Rounds
pub mod Uninterrupted
pub mod Apart
pub mod Begun
pub mod Actions
pub mod Guarded
pub mod Steps
pub mod Kept
use enody_rs.Common.{
  ℕ, Bool, true, false, not, ◌||◌, ◌==◌, ltb, codes, List, [], ◌∷◌, ◌++◌, length, retain, Option,
  none, some, Result, ok, err, if◌then◌else◌,
}
use enody_rs.Error.{Error}
use enody_rs.Message.Topology.{Identifier}
use enody_rs.Message.Runtime.{Token}
use enody_rs.Environment.{EnvironmentRuntimeEvent, left}
use enody_rs.Wifi.Device.{WifiDiscoveredDevice, token_for_discovered_device, is_some}
use enody_rs.Wifi.Reconcile.{ConnectedWifiRuntime, has, runtime_from_discovered_device}

abbrev pub wifi_runtime_event_channel_size : ℕ
wifi_runtime_event_channel_size = 16

-- The variables of the discovery task in a round: its clone of the excluded hosts, the devices that
-- are left, the one that it connects to, the hosts seen and the events so far.
pub record Running (Runtime : Type 0) : Type 0 where
  pub excluded_host_ids : List Identifier
  pub devices : List WifiDiscoveredDevice
  pub connecting : Option (Identifier × WifiDiscoveredDevice)
  pub seen_host_ids : List Identifier
  pub events : List (EnvironmentRuntimeEvent Runtime)

-- Tokens and the timeout do not change; the events are those in the channel, and the round is that
-- which the task is in.
pub record WifiEnvironment (Runtime : Type 0) : Type 0 where
  pub excluded_host_ids : List Identifier
  pub connected_runtimes : List (ConnectedWifiRuntime Runtime)
  pub discovery_task : Bool
  pub round : Option (Running Runtime)
  pub runtime_events : List (EnvironmentRuntimeEvent Runtime)

-- The runtimes that the construction has connected, and the hosts seen.
pub record Initial (Runtime : Type 0) : Type 0 where
  pub connected : List (ConnectedWifiRuntime Runtime)
  pub seen_host_ids : List Identifier

module _ {Runtime : Type 0} (runtime_host_id : Runtime → Identifier) where
  -- `position` and `remove`.
  unfoldable pub remove_connected_runtime :
      List (ConnectedWifiRuntime Runtime)
      → Identifier
      → List (ConnectedWifiRuntime Runtime) × Option Runtime
  remove_connected_runtime [] host_id = ([], none)
  remove_connected_runtime (c ∷ cs) host_id =
      let (rest, removed) = remove_connected_runtime cs host_id in
      if runtime_host_id c.runtime == host_id then (cs, some c.runtime) else (c ∷ rest, removed)

  -- The event of an exclusion is dropped where the channel is full.
  abbrev pub try_left :
      List (EnvironmentRuntimeEvent Runtime)
      → Option Runtime
      → List (EnvironmentRuntimeEvent Runtime)
  try_left events none = events
  try_left events (some runtime) =
      if ltb (length events) wifi_runtime_event_channel_size
      then events ++ left runtime ∷ []
      else events

  unfoldable pub exclude_host_id : WifiEnvironment Runtime → Identifier → WifiEnvironment Runtime
  exclude_host_id env host_id =
      let (rest, removed) = remove_connected_runtime env.connected_runtimes host_id in
      if has env.excluded_host_ids host_id then env else record env {
        excluded_host_ids = host_id ∷ env.excluded_host_ids;
        connected_runtimes = rest;
        runtime_events = try_left env.runtime_events removed;
      }

  unfoldable pub remove_excluded_host_id :
      WifiEnvironment Runtime → Identifier → WifiEnvironment Runtime
  remove_excluded_host_id env host_id = record env {
    excluded_host_ids = retain (λ id. not (id == host_id)) env.excluded_host_ids;
  }

abbrev pub start_discovery : {Runtime : Type 0} → WifiEnvironment Runtime → WifiEnvironment Runtime
start_discovery env = record env { discovery_task = true }

-- The task is aborted where it waits, and a round that it is in goes no further.
abbrev pub stop_discovery : {Runtime : Type 0} → WifiEnvironment Runtime → WifiEnvironment Runtime
stop_discovery env = record env { discovery_task = false; round = none }

abbrev pub not_running : Error
not_running = Error.debug (codes "discovery is not running; call start_discovery first")

abbrev pub stream_closed : Error
stream_closed = Error.debug (codes "runtime event stream closed unexpectedly")

-- `next_runtime_event`, with what the channel gives.
abbrev pub next_runtime_event :
    {Runtime E : Type 0} → WifiEnvironment Runtime → Option E → Result E Error
next_runtime_event env received =
    if env.discovery_task
    then elim received [ some event ↦ ok event | none ↦ err stream_closed ]
    else err not_running

module _ {Runtime : Type 0} (runtime_host_id : Runtime → Identifier)
    (tokens : Identifier → Option Token)
    (attempt : Token → WifiDiscoveredDevice → Option Runtime) where
  abbrev pub push : Initial Runtime → Option Runtime → Initial Runtime
  push initial none = initial
  push initial (some runtime) = record initial {
    connected = initial.connected ++ (record { runtime = runtime; missed_discoveries = 0 }) ∷ [];
  }

  abbrev pub visit :
      List Identifier → Initial Runtime → Option Identifier → WifiDiscoveredDevice → Initial Runtime
  visit excluded initial none device = initial
  visit excluded initial (some host_id) device =
      let seen = record initial { seen_host_ids = host_id ∷ initial.seen_host_ids } in
      let pushed =
        push seen
          (runtime_from_discovered_device runtime_host_id tokens excluded attempt host_id device) in
      if has excluded host_id
        || (not (is_some (token_for_discovered_device tokens device))
            || has initial.seen_host_ids host_id)
      then initial
      else pushed

  unfoldable pub visit_all :
      List Identifier → Initial Runtime → List WifiDiscoveredDevice → Initial Runtime
  visit_all excluded initial [] = initial
  visit_all excluded initial (device ∷ devices) =
      visit_all excluded (visit excluded initial device.host_id device) devices

  -- `with_timeout_and_excluded_host_ids`, with the devices of a discovery that succeeds; without
  -- tokens there is none, and then no device would be connected.
  unfoldable pub new : List Identifier → List WifiDiscoveredDevice → WifiEnvironment Runtime
  new excluded devices = record {
    excluded_host_ids = excluded;
    connected_runtimes =
        (visit_all excluded (record { connected = []; seen_host_ids = [] }) devices).connected;
    discovery_task = false;
    round = none;
    runtime_events = [];
  }
