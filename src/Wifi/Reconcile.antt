-- ===== src/Wifi/Reconcile.antt =====
-- `reconcile_discovered_devices` of src/wifi.rs, the round of WiFi discovery that connects new
-- devices and lets missing ones go. `runtime_from_discovered_device` talks to the network behind
-- its guards: what a connection attempt gives is a parameter. A runtime is what `Runtime` and
-- `runtime_host_id` say of it. `is_connected` and `disconnect` of a missing runtime act on the
-- network alone. Here no other call comes between the steps of a round; Environment/Rounds has the
-- steps.
pub mod Hosts
pub mod Stays
use enody_rs.Common.{
  ℕ, ◌+◌, min, Bool, true, false, not, ◌||◌, ◌==◌, leb, List, [], ◌∷◌, ◌++◌, map, any, Option, none,
  some, if◌then◌else◌, length, ◌&&◌,
}
use enody_rs.Message.Topology.{Identifier}
use enody_rs.Message.Runtime.{Token}
use enody_rs.Environment.{EnvironmentRuntimeEvent, arrived, left}
use enody_rs.Wifi.Device.{WifiDiscoveredDevice, token_for_discovered_device, is_some, endpoint}

abbrev pub wifi_discovery_misses_before_left : ℕ
wifi_discovery_misses_before_left = 3

pub record ConnectedWifiRuntime (Runtime : Type 0) : Type 0 where
  pub runtime : Runtime
  pub missed_discoveries : ℕ

abbrev pub has : List Identifier → Identifier → Bool
has ids id = any (λ x. x == id) ids

pub record Round (Runtime : Type 0) : Type 0 where
  pub connected : List (ConnectedWifiRuntime Runtime)
  pub seen_host_ids : List Identifier
  pub events : List (EnvironmentRuntimeEvent Runtime)

-- `missed_discoveries.saturating_add(1)` of a `u8`.
abbrev pub one_more_miss :
    {Runtime : Type 0} → ConnectedWifiRuntime Runtime → ConnectedWifiRuntime Runtime
one_more_miss c = record c { missed_discoveries = min (c.missed_discoveries + 1) 255 }

module _ {Runtime : Type 0} (runtime_host_id : Runtime → Identifier) where
  abbrev pub is_connected_to : List (ConnectedWifiRuntime Runtime) → Identifier → Bool
  is_connected_to connected host_id = any (λ c. runtime_host_id c.runtime == host_id) connected

  -- `missed_discoveries = 0` on the first runtime of the host.
  unfoldable pub reset_missed :
      List (ConnectedWifiRuntime Runtime) → Identifier → List (ConnectedWifiRuntime Runtime)
  reset_missed [] host_id = []
  reset_missed (c ∷ cs) host_id =
      let rest = reset_missed cs host_id in
      if runtime_host_id c.runtime == host_id
      then (record { runtime = c.runtime; missed_discoveries = 0 }) ∷ cs
      else c ∷ rest

  abbrev pub arrive : Round Runtime → Identifier → Option Runtime → Round Runtime
  arrive round host_id none = round
  arrive round host_id (some runtime) =
      if is_connected_to round.connected host_id then round else record round {
        connected = round.connected ++ (record { runtime = runtime; missed_discoveries = 0 }) ∷ [];
        events = round.events ++ arrived runtime ∷ [];
      }

  -- The loop over the connected runtimes: those that stay, and those that are missing.
  unfoldable pub sweep :
      List Identifier
      → List (ConnectedWifiRuntime Runtime)
      → List (ConnectedWifiRuntime Runtime) × List Runtime
  sweep seen [] = ([], [])
  sweep seen (c ∷ cs) =
      let rest = sweep seen cs in
      if has seen (runtime_host_id c.runtime)
      then ((record { runtime = c.runtime; missed_discoveries = 0 }) ∷ rest.0, rest.1)
      else if leb wifi_discovery_misses_before_left (one_more_miss c).missed_discoveries
      then (rest.0, c.runtime ∷ rest.1)
      else (one_more_miss c ∷ rest.0, rest.1)

module _ {Runtime : Type 0} (runtime_host_id : Runtime → Identifier)
    (tokens : Identifier → Option Token) (excluded_host_ids : List Identifier)
    (attempt : Token → WifiDiscoveredDevice → Option Runtime) where
  -- `WifiConnection::runtime_from_discovered_device` and `connect`: a device without an endpoint
  -- and a key that is not 32 bytes long are refused before the connection is tried.
  abbrev pub attempt_with : Option Token → WifiDiscoveredDevice → Option Runtime
  attempt_with none device = none
  attempt_with (some token) device =
      if is_some (endpoint device) && length token.key_data == 32
      then attempt token device
      else none

  -- Behind the host identifier that its caller checked.
  unfoldable pub runtime_from_discovered_device : Identifier → WifiDiscoveredDevice → Option Runtime
  runtime_from_discovered_device host_id device =
      if has excluded_host_ids host_id
      then none
      else attempt_with (token_for_discovered_device tokens device) device

  -- The loop's body behind the guards, with the host in the set of those seen.
  abbrev pub meet : Round Runtime → Identifier → WifiDiscoveredDevice → Round Runtime
  meet round host_id device =
      let met = record round { connected = reset_missed runtime_host_id round.connected host_id } in
      let fresh =
        arrive runtime_host_id round host_id (runtime_from_discovered_device host_id device) in
      if is_connected_to runtime_host_id round.connected host_id then met else fresh

  abbrev pub see : Round Runtime → Option Identifier → WifiDiscoveredDevice → Round Runtime
  see round none device = round
  see round (some host_id) device =
      let seen = record round { seen_host_ids = host_id ∷ round.seen_host_ids } in
      if has excluded_host_ids host_id
        || (not (is_some (token_for_discovered_device tokens device))
            || has round.seen_host_ids host_id)
      then round
      else meet seen host_id device

  unfoldable pub see_all : Round Runtime → List WifiDiscoveredDevice → Round Runtime
  see_all round [] = round
  see_all round (device ∷ devices) = see_all (see round device.host_id device) devices

  unfoldable pub reconcile_discovered_devices :
      List (ConnectedWifiRuntime Runtime)
      → List WifiDiscoveredDevice
      → List (ConnectedWifiRuntime Runtime) × List (EnvironmentRuntimeEvent Runtime)
  reconcile_discovered_devices connected devices =
      let round =
        see_all (record { connected = connected; seen_host_ids = []; events = [] }) devices in
      let (kept, missing) = sweep runtime_host_id round.seen_host_ids round.connected in
      (kept, round.events ++ map left missing)
