-- ===== src/Wifi/Examples.antt =====
-- Runs of src/wifi.rs on concrete frames and devices, and its theorems there.
use enody_rs.Common.{
  ◌≡◌, ◌↔◌, ◌<◌, refl, ◌==◌, if◌then◌else◌, Bytes, List, [], ◌∷◌, ◌++◌, All, Option, none, some, ok,
  arith, text_eq, text_eq, zero, suc, codes, ℕ, true,
}
use enody_rs.Message.Topology.{Identifier}
use enody_rs.Message.Runtime.{Token}
use enody_rs.Strings.Parts.{trim_end_matches}
use enody_rs.Wifi.Frames.{read_frame, write_frame, read-write_frame}
use enody_rs.Wifi.Device.{
  WifiDiscoveredDevice, default_device, wifi_protocol, wifi_auth, token_for_discovered_device,
  Accepts, token_for-Accepts, endpoint,
}
use enody_rs.Wifi.Environment.{new, visit_all, exclude_host_id, remove_connected_runtime}
use enody_rs.Wifi.Environment.Rounds.{begin_round, advance}
use enody_rs.Wifi.Environment.Actions.{
  Action, start, exclude, readmit, discovered, continued, act_all, held_all, Keeps,
}
use enody_rs.Wifi.Environment.Kept.{environment-Keeps}
use enody_rs.Environment.{arrived, left}
use enody_rs.Wifi.Reconcile.{
  ConnectedWifiRuntime, runtime_from_discovered_device, reconcile_discovered_devices, see_all,
  sweep, reset_missed, wifi_discovery_misses_before_left, has,
}
use enody_rs.Wifi.Reconcile.Stays.{reconcile-stays}
use enody_rs.Wifi.Reconcile.Hosts.{Distinct, hosts, reconcile-Distinct}

-- Frames that are bytes already.
abbrev raw : Bytes → Option Bytes
raw bytes = some bytes

read-write_frame_example :
    (bytes : Bytes) × (write_frame raw raw (7 ∷ 8 ∷ []) ≡ ok bytes)
    × (read_frame raw raw (bytes ++ 1 ∷ 2 ∷ []) ≡ ok (7 ∷ 8 ∷ [], 1 ∷ 2 ∷ []))
read-write_frame_example =
    read-write_frame raw raw (7 ∷ 8 ∷ []) (7 ∷ 8 ∷ []) (1 ∷ 2 ∷ []) refl refl (omega arith)
      (omega arith)

abbrev zeros : ℕ → Bytes
zeros zero = []
zeros (suc n) = 0 ∷ zeros n

abbrev token_of_5 : Token
token_of_5 = record { host_id = 5; key_id = []; key_data = zeros 32 }

abbrev saved : Identifier → Option Token
saved id = if id == 5 then some token_of_5 else none

abbrev device_5 : WifiDiscoveredDevice
device_5 = record default_device {
  host = codes "lamp.local.";
  host_id = some 5;
  protocol = some wifi_protocol;
  auth = some wifi_auth;
}

token_for-Accepts_example :
    (token_for_discovered_device saved device_5 ≡ some token_of_5)
    ↔ Accepts saved device_5 token_of_5
token_for-Accepts_example = token_for-Accepts saved device_5 token_of_5

-- A runtime is its host here, and every attempt succeeds.
abbrev own_host : Identifier → Identifier
own_host id = id

abbrev connect : Token → WifiDiscoveredDevice → Option Identifier
connect token device = some token.host_id

saved-keyed : (id : Identifier) (t : Token) → saved id ≡ some t → t.host_id ≡ id
saved-keyed id t h = ground arith

abbrev missed_twice : List (ConnectedWifiRuntime Identifier)
missed_twice = (record { runtime = 9; missed_discoveries = 2 }) ∷ []

reconcile-Distinct_example :
    let kept =
      (reconcile_discovered_devices own_host saved [] connect missed_twice
        (device_5 ∷ device_5 ∷ [])).0 in
    Distinct (hosts own_host kept)
    × All (λ c. c.missed_discoveries < wifi_discovery_misses_before_left) kept
reconcile-Distinct_example =
    reconcile-Distinct own_host saved [] connect saved-keyed (λ t device r h. ground arith)
      missed_twice (device_5 ∷ device_5 ∷ []) (refl, tt)

-- The new device arrives once, and the one that is missed a third time leaves.
arrives_and_leaves :
    (reconcile_discovered_devices own_host saved [] connect missed_twice
      (device_5 ∷ device_5 ∷ [])).1
    ≡ arrived 5 ∷ left 9 ∷ []
unfolding text_eq trim_end_matches endpoint reconcile_discovered_devices see_all sweep reset_missed
    runtime_from_discovered_device token_for_discovered_device
arrives_and_leaves = refl

abbrev nearly_missing : List (ConnectedWifiRuntime Identifier)
nearly_missing = (record { runtime = 5; missed_discoveries = 2 }) ∷ []

reconcile-stays_example :
    has
      (hosts own_host
        (reconcile_discovered_devices own_host saved [] connect nearly_missing (device_5 ∷ [])).0)
      5
    ≡ true
unfolding token_for_discovered_device text_eq
reconcile-stays_example =
    reconcile-stays own_host saved [] connect nearly_missing (device_5 ∷ []) 5 refl refl

-- The host is excluded before a round, and readmitted in it.
abbrev calls : List Action
calls =
    start
    ∷ exclude 5
    ∷ discovered (ok (device_5 ∷ []))
    ∷ readmit 5
    ∷ continued
    ∷ continued
    ∷ discovered (ok (device_5 ∷ []))
    ∷ continued
    ∷ continued
    ∷ []

environment-Keeps_example :
    let env = new own_host saved connect [] (device_5 ∷ device_5 ∷ []) in
    Keeps own_host
      (held_all own_host saved connect [] env calls)
      (act_all own_host saved connect env calls)
environment-Keeps_example =
    environment-Keeps own_host saved connect saved-keyed (λ t device r h. ground arith) []
      (device_5 ∷ device_5 ∷ []) calls

-- A host that is excluded while a round connects to it is connected all the same.
abbrev too_late : List Action
too_late = start ∷ discovered (ok (device_5 ∷ [])) ∷ continued ∷ exclude 5 ∷ continued ∷ []

late_exclusion :
    let env = act_all own_host saved connect (new own_host saved connect [] []) too_late in
    ◌≡◌ {A = List Identifier × List Identifier}
      (hosts own_host env.connected_runtimes, env.excluded_host_ids)
      (5 ∷ [], 5 ∷ [])
unfolding new visit_all begin_round advance exclude_host_id remove_connected_runtime
    runtime_from_discovered_device token_for_discovered_device text_eq trim_end_matches endpoint
late_exclusion = refl
