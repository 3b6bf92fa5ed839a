-- ===== src/Wifi/Environment/Rounds.antt =====
-- The discovery task of src/wifi.rs in steps: `start_discovery` with `reconcile_discovered_devices`,
-- which awaits a connection to each new device, where other calls may come between.
use enody_rs.Common.{
  not, ◌||◌, List, [], ◌∷◌, ◌++◌, map, Option, none, some, Result, ok, err, if◌then◌else◌,
}
use enody_rs.Error.{Error}
use enody_rs.Message.Topology.{Identifier}
use enody_rs.Message.Runtime.{Token}
use enody_rs.Environment.{left}
use enody_rs.Wifi.Device.{WifiDiscoveredDevice, token_for_discovered_device, is_some}
use enody_rs.Wifi.Reconcile.{
  Round, has, runtime_from_discovered_device, is_connected_to, reset_missed, arrive, sweep,
}
use enody_rs.Wifi.Environment.{WifiEnvironment, Running}

module _ {Runtime : Type 0} where
  abbrev pub clone_exclusions :
      WifiEnvironment Runtime → Result (List WifiDiscoveredDevice) Error → WifiEnvironment Runtime
  clone_exclusions env (err e) = env
  clone_exclusions env (ok devices) = record env {
    round = some (record {
      excluded_host_ids = env.excluded_host_ids;
      devices = devices;
      connecting = none;
      seen_host_ids = [];
      events = [];
    });
  }

  -- A round begins behind the one before, with what `discover` gives, if the task runs.
  unfoldable pub begin_round :
      WifiEnvironment Runtime → Result (List WifiDiscoveredDevice) Error → WifiEnvironment Runtime
  begin_round env discovered =
      if not env.discovery_task || is_some env.round then env else clone_exclusions env discovered

module _ {Runtime : Type 0} (runtime_host_id : Runtime → Identifier)
    (tokens : Identifier → Option Token)
    (attempt : Token → WifiDiscoveredDevice → Option Runtime) where
  abbrev pub skip :
      WifiEnvironment Runtime
      → Running Runtime
      → List WifiDiscoveredDevice
      → WifiEnvironment Runtime
  skip env running devices = record env { round = some (record running { devices = devices }) }

  -- A host that is connected is met; to another one the task begins to connect.
  abbrev pub meet_or_connect :
      WifiEnvironment Runtime
      → Running Runtime
      → List WifiDiscoveredDevice
      → Identifier
      → WifiDiscoveredDevice
      → WifiEnvironment Runtime
  meet_or_connect env running devices host_id device =
      let seen = record running {
        devices = devices;
        seen_host_ids = host_id ∷ running.seen_host_ids;
      } in
      if is_connected_to runtime_host_id env.connected_runtimes host_id
      then record env {
        connected_runtimes = reset_missed runtime_host_id env.connected_runtimes host_id;
        round = some seen;
      }
      else record env { round = some (record seen { connecting = some (host_id, device) }) }

  -- The guards of the loop, up to where the task waits.
  abbrev pub next_device :
      WifiEnvironment Runtime
      → Running Runtime
      → List WifiDiscoveredDevice
      → Option Identifier
      → WifiDiscoveredDevice
      → WifiEnvironment Runtime
  next_device env running devices none device = skip env running devices
  next_device env running devices (some host_id) device =
      if has running.excluded_host_ids host_id
        || (not (is_some (token_for_discovered_device tokens device))
            || has running.seen_host_ids host_id)
      then skip env running devices
      else meet_or_connect env running devices host_id device

  -- The connection succeeds or fails; the host may be connected by now.
  abbrev pub connected :
      WifiEnvironment Runtime
      → Running Runtime
      → Identifier
      → WifiDiscoveredDevice
      → WifiEnvironment Runtime
  connected env running host_id device =
      let before : Round Runtime = record {
        connected = env.connected_runtimes;
        seen_host_ids = running.seen_host_ids;
        events = running.events;
      } in
      let after = arrive runtime_host_id before host_id (
        runtime_from_discovered_device runtime_host_id tokens running.excluded_host_ids attempt
          host_id device) in
      record env {
        connected_runtimes = after.connected;
        round = some (record running { connecting = none; events = after.events });
      }

  -- Missing runtimes leave, and the events go to the channel.
  abbrev pub finish : WifiEnvironment Runtime → Running Runtime → WifiEnvironment Runtime
  finish env running =
      let (kept, missing) = sweep runtime_host_id running.seen_host_ids env.connected_runtimes in
      record env {
        connected_runtimes = kept;
        round = none;
        runtime_events = env.runtime_events ++ (running.events ++ map left missing);
      }

  abbrev pub advance_running :
      WifiEnvironment Runtime
      → Running Runtime
      → Option (Identifier × WifiDiscoveredDevice)
      → List WifiDiscoveredDevice
      → WifiEnvironment Runtime
  advance_running env running (some (host_id, device)) devices =
      connected env running host_id device
  advance_running env running none [] = finish env running
  advance_running env running none (device ∷ devices) =
      next_device env running devices device.host_id device

  abbrev pub advance_round :
      WifiEnvironment Runtime → Option (Running Runtime) → WifiEnvironment Runtime
  advance_round env none = env
  advance_round env (some running) = advance_running env running running.connecting running.devices

  -- A step of the round that the task is in.
  unfoldable pub advance : WifiEnvironment Runtime → WifiEnvironment Runtime
  advance env = advance_round env env.round
