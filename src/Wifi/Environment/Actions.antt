-- ===== src/Wifi/Environment/Actions.antt =====
-- A `WifiEnvironment` of src/wifi.rs over time, with calls that come between the steps of a round.
use enody_rs.Common.{not, ◌||◌, ◌==◌, List, [], ◌∷◌, retain, Option, Result, if◌then◌else◌}
use enody_rs.Error.{Error}
use enody_rs.Message.Topology.{Identifier}
use enody_rs.Message.Runtime.{Token}
use enody_rs.Wifi.Device.{WifiDiscoveredDevice, is_some}
use enody_rs.Wifi.Reconcile.{has}
use enody_rs.Wifi.Reconcile.Hosts.{Distinct, hosts}
use enody_rs.Wifi.Environment.{
  WifiEnvironment, exclude_host_id, remove_excluded_host_id, start_discovery, stop_discovery,
}
use enody_rs.Wifi.Environment.Rounds.{begin_round, advance}
use enody_rs.Wifi.Environment.Apart.{Apart}

-- What the owner of an environment does, and the steps of its task.
pub data Action : Type 0 where
  start : Action
  stop : Action
  exclude : Identifier → Action
  readmit : Identifier → Action
  discovered : Result (List WifiDiscoveredDevice) Error → Action
  continued : Action

-- The exclusions that hold: of those that `exclude_host_id` adds, the ones that come while the task
-- is in no round. A host that is readmitted is none.
abbrev pub held_after :
    {Runtime : Type 0} → List Identifier → WifiEnvironment Runtime → Action → List Identifier
held_after held env start = held
held_after held env stop = held
held_after held env (exclude host_id) =
    if has env.excluded_host_ids host_id || is_some env.round then held else host_id ∷ held
held_after held env (readmit host_id) = retain (λ id. not (id == host_id)) held
held_after held env (discovered devices) = held
held_after held env continued = held

module _ {Runtime : Type 0} (runtime_host_id : Runtime → Identifier)
    (tokens : Identifier → Option Token)
    (attempt : Token → WifiDiscoveredDevice → Option Runtime) where
  abbrev pub act : WifiEnvironment Runtime → Action → WifiEnvironment Runtime
  act env start = start_discovery env
  act env stop = stop_discovery env
  act env (exclude host_id) = exclude_host_id runtime_host_id env host_id
  act env (readmit host_id) = remove_excluded_host_id runtime_host_id env host_id
  act env (discovered devices) = begin_round env devices
  act env continued = advance runtime_host_id tokens attempt env

  abbrev pub act_all : WifiEnvironment Runtime → List Action → WifiEnvironment Runtime
  act_all env [] = env
  act_all env (action ∷ actions) = act_all (act env action) actions

  abbrev pub held_all : List Identifier → WifiEnvironment Runtime → List Action → List Identifier
  held_all held env [] = held
  held_all held env (action ∷ actions) =
      held_all (held_after held env action) (act env action) actions

-- Each host is connected once, and none of the given ones.
abbrev pub Keeps :
    {Runtime : Type 0} → (Runtime → Identifier) → List Identifier → WifiEnvironment Runtime → Type 0
Keeps runtime_host_id held env =
    Distinct (hosts runtime_host_id env.connected_runtimes)
    × Apart held (hosts runtime_host_id env.connected_runtimes)
