-- ===== src/Wifi/Environment/Kept.antt =====
-- The hosts that a `WifiEnvironment` of src/wifi.rs connects, over time.
use enody_rs.Common.{◌≡◌, List, [], ◌∷◌, Option, some}
use enody_rs.Message.Topology.{Identifier}
use enody_rs.Message.Runtime.{Token}
use enody_rs.Wifi.Device.{WifiDiscoveredDevice}
use enody_rs.Wifi.Environment.{WifiEnvironment, new}
use enody_rs.Wifi.Environment.Begun.{new-Separate}
use enody_rs.Wifi.Environment.Actions.{
  Action, start, stop, exclude, readmit, discovered, continued, held_after, act, act_all, held_all,
  Keeps,
}
use enody_rs.Wifi.Environment.Guarded.{Guarded, begin-Guarded, exclude-Guarded, readmit-Guarded}
use enody_rs.Wifi.Environment.Steps.{advance-Guarded}

module _ {Runtime : Type 0} (runtime_host_id : Runtime → Identifier)
    (tokens : Identifier → Option Token) (attempt : Token → WifiDiscoveredDevice → Option Runtime)
    (keyed : (id : Identifier) (t : Token) → tokens id ≡ some t → t.host_id ≡ id)
    (identified : (t : Token) (device : WifiDiscoveredDevice) (r : Runtime)
      → attempt t device ≡ some r
      → runtime_host_id r ≡ t.host_id) where
  act-Guarded :
      (held : List Identifier) (env : WifiEnvironment Runtime) (action : Action)
      → Guarded runtime_host_id tokens attempt keyed identified held env
      → Guarded runtime_host_id tokens attempt keyed identified
          (held_after held env action)
          (act runtime_host_id tokens attempt env action)
  act-Guarded held env start h = h
  act-Guarded held env stop h = (h.0, h.1, tt)
  act-Guarded held env (exclude host_id) h =
      exclude-Guarded runtime_host_id tokens attempt keyed identified held env host_id h
  act-Guarded held env (readmit host_id) h =
      readmit-Guarded runtime_host_id tokens attempt keyed identified held env host_id h
  act-Guarded held env (discovered devices) h =
      begin-Guarded runtime_host_id tokens attempt keyed identified held env devices h
  act-Guarded held env continued h =
      advance-Guarded runtime_host_id tokens attempt keyed identified held env h

  act_all-Guarded :
      (held : List Identifier) (env : WifiEnvironment Runtime) (actions : List Action)
      → Guarded runtime_host_id tokens attempt keyed identified held env
      → Guarded runtime_host_id tokens attempt keyed identified
          (held_all runtime_host_id tokens attempt held env actions)
          (act_all runtime_host_id tokens attempt env actions)
  act_all-Guarded held env [] h = h
  act_all-Guarded held env (action ∷ actions) h =
      act_all-Guarded (held_after held env action) (act runtime_host_id tokens attempt env action)
        actions (act-Guarded held env action h)

  -- An environment that is constructed with any exclusions and devices, and then started, stopped,
  -- told to exclude and readmit hosts, and discovering devices, where any of these calls may come
  -- while a round awaits a connection, connects each host at most once, and none that was excluded at
  -- the construction or while no round was in progress, and not readmitted since; where each token is
  -- stored under its own host and a connection attempt gives a runtime of its token's host.
  pub environment-Keeps :
      (excluded : List Identifier) (devices : List WifiDiscoveredDevice) (actions : List Action)
      → let env = new runtime_host_id tokens attempt excluded devices in
        Keeps runtime_host_id
          (held_all runtime_host_id tokens attempt excluded env actions)
          (act_all runtime_host_id tokens attempt env actions)
  unfolding new
  environment-Keeps excluded devices actions =
      let env = new runtime_host_id tokens attempt excluded devices in
      (act_all-Guarded excluded env actions (
        new-Separate runtime_host_id tokens attempt keyed identified excluded devices,
        λ id e. e,
        tt,
      )).0
