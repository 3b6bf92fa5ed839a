-- ===== src/Wifi/Environment/Uninterrupted.antt =====
-- A round of src/wifi.rs that no other call interrupts.
use enody_rs.Common.{
  ℕ, zero, suc, ◌≡◌, refl, ap, sym, ◌∙◌, subst, true, not, ◌||◌, Bool-cases, inl, inr, List, [],
  ◌∷◌, ◌++◌, Option, none, some, if◌then◌else◌, ok,
}
use enody_rs.Message.Topology.{Identifier}
use enody_rs.Message.Runtime.{Token}
use enody_rs.Wifi.Device.{WifiDiscoveredDevice, token_for_discovered_device, is_some}
use enody_rs.Wifi.Reconcile.{
  Round, has, runtime_from_discovered_device, is_connected_to, arrive, meet, see, see_all,
  reconcile_discovered_devices,
}
use enody_rs.Wifi.Environment.{WifiEnvironment, Running}
use enody_rs.Wifi.Environment.Rounds.{
  advance, begin_round, clone_exclusions, next_device, meet_or_connect,
}

module _ {Runtime : Type 0} (runtime_host_id : Runtime → Identifier)
    (tokens : Identifier → Option Token)
    (attempt : Token → WifiDiscoveredDevice → Option Runtime) where
  abbrev pub advance_by : ℕ → WifiEnvironment Runtime → WifiEnvironment Runtime
  advance_by zero env = env
  advance_by (suc n) env = advance_by n (advance runtime_host_id tokens attempt env)

  -- Some steps lead from one state to the other.
  abbrev pub Leads : WifiEnvironment Runtime → WifiEnvironment Runtime → Type 0
  Leads env env' = (n : ℕ) × (advance_by n env ≡ env')

  Leads-step :
      (env env' : WifiEnvironment Runtime)
      → Leads (advance runtime_host_id tokens attempt env) env'
      → Leads env env'
  Leads-step env env' (n, e) = (suc n, e)

  Leads-then :
      (n : ℕ) (env between env' : WifiEnvironment Runtime)
      → advance_by n env ≡ between
      → Leads between env'
      → Leads env env'
  Leads-then zero env between env' e (m, later) = (m, ap (advance_by m) e ∙ later)
  Leads-then (suc n) env between env' e later =
      Leads-step env env'
        (Leads-then n (advance runtime_host_id tokens attempt env) between env' e later)

  -- The task in a round with a clone of exclusions, ahead of some devices.
  abbrev ahead :
      WifiEnvironment Runtime
      → List Identifier
      → Round Runtime
      → List WifiDiscoveredDevice
      → WifiEnvironment Runtime
  ahead env excluded round devices = record env {
    connected_runtimes = round.connected;
    round = some (record {
      excluded_host_ids = excluded;
      devices = devices;
      connecting = none;
      seen_host_ids = round.seen_host_ids;
      events = round.events;
    });
  }

  arrive-seen :
      (round : Round Runtime) (id : Identifier) (o : Option Runtime)
      → (arrive runtime_host_id round id o).seen_host_ids ≡ round.seen_host_ids
  arrive-seen round id none = refl
  arrive-seen round id (some r) =
      elim (Bool-cases (is_connected_to runtime_host_id round.connected id)) [
        | inl e ↦ rw e refl
        | inr e ↦ rw e refl
      ]

  module _ (env : WifiEnvironment Runtime) (excluded : List Identifier) where
    abbrev running :
        Round Runtime
        → List WifiDiscoveredDevice
        → Option (Identifier × WifiDiscoveredDevice)
        → Running Runtime
    running round devices connecting = record {
      excluded_host_ids = excluded;
      devices = devices;
      connecting = connecting;
      seen_host_ids = round.seen_host_ids;
      events = round.events;
    }

    -- The awaited connection.
    connect-Leads :
        (round : Round Runtime) (id : Identifier) (device : WifiDiscoveredDevice)
        (devices : List WifiDiscoveredDevice)
        → Leads
            (record env {
              connected_runtimes = round.connected;
              round = some (running round devices (some (id, device)));
            })
            (ahead env excluded
              (arrive runtime_host_id round id
                (runtime_from_discovered_device runtime_host_id tokens excluded attempt id device))
              devices)
    unfolding advance
    connect-Leads round id device devices =
        let after =
          arrive runtime_host_id round id
            (runtime_from_discovered_device runtime_host_id tokens excluded attempt id device) in
        (
          1,
          ap (λ seen. ahead env excluded (record after { seen_host_ids = seen }) devices)
              (sym (
                arrive-seen round id (
                  runtime_from_discovered_device runtime_host_id tokens excluded attempt id
                    device))),
        )

    meet-Leads :
        (round : Round Runtime) (id : Identifier) (device : WifiDiscoveredDevice)
        (before devices : List WifiDiscoveredDevice)
        → let seen : Round Runtime = record round { seen_host_ids = id ∷ round.seen_host_ids } in
          Leads
            (meet_or_connect runtime_host_id tokens attempt
              (ahead env excluded round before)
              (running round before none)
              devices
              id
              device)
            (ahead env excluded
              (meet runtime_host_id tokens excluded attempt seen id device)
              devices)
    meet-Leads round id device before devices =
        elim (Bool-cases (is_connected_to runtime_host_id round.connected id)) [
          | inl there ↦ (0, rw there refl)
          | inr new_host ↦ rw new_host (
              connect-Leads (record round { seen_host_ids = id ∷ round.seen_host_ids }) id device
                devices)
        ]

    next-Leads :
        (round : Round Runtime) (o : Option Identifier) (device : WifiDiscoveredDevice)
        (before devices : List WifiDiscoveredDevice)
        → Leads
            (next_device runtime_host_id tokens attempt
              (ahead env excluded round before)
              (running round before none)
              devices
              o
              device)
            (ahead env excluded
              (see runtime_host_id tokens excluded attempt round o device)
              devices)
    next-Leads round none device before devices = (0, refl)
    next-Leads round (some id) device before devices =
        elim (Bool-cases (
          has excluded id
          || (not (is_some (token_for_discovered_device tokens device))
              || has round.seen_host_ids id))) [
                | inl e ↦ rw e (0, refl)
                | inr e ↦ rw e (meet-Leads round id device before devices)
              ]

    see_all-Leads :
        (round : Round Runtime) (devices : List WifiDiscoveredDevice)
        → Leads
            (ahead env excluded round devices)
            (ahead env excluded (see_all runtime_host_id tokens excluded attempt round devices) [])
    unfolding see_all advance
    see_all-Leads round [] = (0, refl)
    see_all-Leads round (device ∷ devices) =
        let one : Round Runtime =
          see runtime_host_id tokens excluded attempt round device.host_id device in
        let (n, e) = next-Leads round device.host_id device (device ∷ devices) devices in
        Leads-then (suc n) (ahead env excluded round (device ∷ devices))
          (ahead env excluded one devices)
          (ahead env excluded (see_all runtime_host_id tokens excluded attempt one devices) []) e
          (see_all-Leads one devices)

  abbrev pub reconciled :
      WifiEnvironment Runtime → List WifiDiscoveredDevice → WifiEnvironment Runtime
  reconciled env devices =
      let (kept, events) =
        reconcile_discovered_devices runtime_host_id tokens env.excluded_host_ids attempt
          env.connected_runtimes devices in
      record env {
        connected_runtimes = kept;
        round = none;
        runtime_events = env.runtime_events ++ events;
      }

  -- A round that a task in no round begins, and that no other call interrupts, comes to the end that
  -- `reconcile_discovered_devices` gives as a whole.
  pub round-reconciles :
      (env : WifiEnvironment Runtime) (devices : List WifiDiscoveredDevice)
      → env.discovery_task ≡ true
      → env.round ≡ none
      → Leads (begin_round env (ok devices)) (reconciled env devices)
  unfolding begin_round advance reconcile_discovered_devices
  round-reconciles env devices runs idle =
      let start : Round Runtime = record {
        connected = env.connected_runtimes;
        seen_host_ids = [];
        events = [];
      } in
      let (n, e) = see_all-Leads env env.excluded_host_ids start devices in
      subst
        (λ b. Leads (if b then env else clone_exclusions env (ok devices)) (reconciled env devices))
        (sym (ap (λ b. not b || is_some env.round) runs ∙ ap is_some idle))
        (Leads-then n (ahead env env.excluded_host_ids start devices)
          (ahead env env.excluded_host_ids
            (see_all runtime_host_id tokens env.excluded_host_ids attempt start devices) [])
          (reconciled env devices) e (1, refl))
