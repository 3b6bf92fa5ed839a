-- ===== src/Wifi/Environment/Steps.antt =====
-- Exclusions of src/wifi.rs that hold: what the steps of a round keep of them.
use enody_rs.Common.{
  ◌≡◌, refl, sym, subst, false, not, ◌||◌, Bool-cases, inl, inr, List, [], ◌∷◌, Option, none, some,
  arith,
}
use enody_rs.Message.Topology.{Identifier}
use enody_rs.Message.Runtime.{Token}
use enody_rs.Wifi.Device.{WifiDiscoveredDevice, token_for_discovered_device, is_some}
use enody_rs.Wifi.Reconcile.{Round, has, runtime_from_discovered_device, is_connected_to}
use enody_rs.Wifi.Reconcile.Hosts.{
  Distinct, hosts-reset_missed, arrive-Distinct, sweep-Distinct, runtime-host,
}
use enody_rs.Wifi.Environment.{WifiEnvironment, Running}
use enody_rs.Wifi.Environment.Rounds.{
  meet_or_connect, next_device, connected, advance_running, advance_round, advance,
}
use enody_rs.Wifi.Environment.Apart.{Apart, arrive-Apart, sweep-Apart}
use enody_rs.Wifi.Environment.Actions.{Keeps}
use enody_rs.Wifi.Environment.Guarded.{Awaits, Covered, InRound, Guarded, either}

module _ {Runtime : Type 0} (runtime_host_id : Runtime → Identifier)
    (tokens : Identifier → Option Token) (attempt : Token → WifiDiscoveredDevice → Option Runtime)
    (keyed : (id : Identifier) (t : Token) → tokens id ≡ some t → t.host_id ≡ id)
    (identified : (t : Token) (device : WifiDiscoveredDevice) (r : Runtime)
      → attempt t device ≡ some r
      → runtime_host_id r ≡ t.host_id) where
  -- A round that is behind its guards.
  meet-Guarded :
      (held : List Identifier) (env : WifiEnvironment Runtime) (running : Running Runtime)
      (devices : List WifiDiscoveredDevice) (host_id : Identifier) (device : WifiDiscoveredDevice)
      → Keeps runtime_host_id held env
      → Covered runtime_host_id tokens attempt keyed identified held env.excluded_host_ids
      → InRound runtime_host_id tokens attempt keyed identified held (some running)
      → has running.excluded_host_ids host_id ≡ false
      → device.host_id ≡ some host_id
      → Guarded runtime_host_id tokens attempt keyed identified held
          (meet_or_connect runtime_host_id tokens attempt env running devices host_id device)
  meet-Guarded held env running devices host_id device keeps covered (in_clone, awaits) free named =
      let same = hosts-reset_missed runtime_host_id env.connected_runtimes host_id in
      either runtime_host_id tokens attempt keyed identified
        (Guarded runtime_host_id tokens attempt keyed identified held)
        (is_connected_to runtime_host_id env.connected_runtimes host_id) _ _
        (λ _. (
          (subst Distinct (sym same) keeps.0, subst (Apart held) (sym same) keeps.1),
          covered,
          (in_clone, awaits),
        ))
        (λ _. (keeps, covered, (in_clone, (free, named))))

  next-Guarded :
      (held : List Identifier) (env : WifiEnvironment Runtime) (running : Running Runtime)
      (devices : List WifiDiscoveredDevice) (o : Option Identifier) (device : WifiDiscoveredDevice)
      → device.host_id ≡ o
      → Keeps runtime_host_id held env
      → Covered runtime_host_id tokens attempt keyed identified held env.excluded_host_ids
      → InRound runtime_host_id tokens attempt keyed identified held (some running)
      → Guarded runtime_host_id tokens attempt keyed identified held
          (next_device runtime_host_id tokens attempt env running devices o device)
  next-Guarded held env running devices none device named keeps covered in_round =
      (keeps, covered, in_round)
  next-Guarded held env running devices (some host_id) device named keeps covered in_round =
      either runtime_host_id tokens attempt keyed identified
        (Guarded runtime_host_id tokens attempt keyed identified held)
        (has running.excluded_host_ids host_id
          || (not (is_some (token_for_discovered_device tokens device))
              || has running.seen_host_ids host_id))
        _ _ (λ _. (keeps, covered, in_round))
        (λ passed.
          meet-Guarded held env running devices host_id device keeps covered in_round (ground arith)
            named)

  connected-Guarded :
      (held : List Identifier) (env : WifiEnvironment Runtime) (running : Running Runtime)
      (host_id : Identifier) (device : WifiDiscoveredDevice)
      → Keeps runtime_host_id held env
      → Covered runtime_host_id tokens attempt keyed identified held env.excluded_host_ids
      → InRound runtime_host_id tokens attempt keyed identified held (some running)
      → has running.excluded_host_ids host_id ≡ false
      → device.host_id ≡ some host_id
      → Guarded runtime_host_id tokens attempt keyed identified held
          (connected runtime_host_id tokens attempt env running host_id device)
  connected-Guarded held env running host_id device keeps covered (in_clone, _) free named =
      let before : Round Runtime = record {
        connected = env.connected_runtimes;
        seen_host_ids = running.seen_host_ids;
        events = running.events;
      } in
      let attempted =
        runtime_from_discovered_device runtime_host_id tokens running.excluded_host_ids attempt
          host_id device in
      let own : (r : Runtime) → attempted ≡ some r → runtime_host_id r ≡ host_id = λ r h.
        runtime-host runtime_host_id tokens running.excluded_host_ids attempt keyed identified
          device host_id r named h in
      let not_held : has held host_id ≡ false = elim (Bool-cases (has held host_id)) [
        | inl e ↦ let there = in_clone host_id e in absurd cc
        | inr e ↦ e
      ] in
      (
        (
          arrive-Distinct runtime_host_id before host_id attempted own keeps.0,
          arrive-Apart runtime_host_id tokens attempt keyed identified held before host_id attempted
              own not_held keeps.1,
        ),
        covered,
        (in_clone, tt),
      )

  running-Guarded :
      (held : List Identifier) (env : WifiEnvironment Runtime) (running : Running Runtime)
      (connecting : Option (Identifier × WifiDiscoveredDevice))
      (devices : List WifiDiscoveredDevice)
      → Keeps runtime_host_id held env
      → Covered runtime_host_id tokens attempt keyed identified held env.excluded_host_ids
      → InRound runtime_host_id tokens attempt keyed identified held (some running)
      → Awaits runtime_host_id tokens attempt keyed identified running.excluded_host_ids connecting
      → Guarded runtime_host_id tokens attempt keyed identified held
          (advance_running runtime_host_id tokens attempt env running connecting devices)
  running-Guarded held env running (some (host_id, device)) devices keeps covered in_round awaits =
      connected-Guarded held env running host_id device keeps covered in_round awaits.0 awaits.1
  running-Guarded held env running none [] keeps covered in_round awaits = (
    (
      sweep-Distinct runtime_host_id running.seen_host_ids env.connected_runtimes keeps.0,
      sweep-Apart runtime_host_id tokens attempt keyed identified held running.seen_host_ids
          env.connected_runtimes keeps.1,
    ),
    covered,
    tt,
  )
  running-Guarded held env running none (device ∷ devices) keeps covered in_round awaits =
      next-Guarded held env running devices device.host_id device refl keeps covered in_round

  pub advance-Guarded :
      (held : List Identifier) (env : WifiEnvironment Runtime)
      → Guarded runtime_host_id tokens attempt keyed identified held env
      → Guarded runtime_host_id tokens attempt keyed identified held
          (advance runtime_host_id tokens attempt env)
  unfolding advance
  advance-Guarded held env (keeps, covered, in_round) = in_some env.round refl
    where
      in_some :
          (round : Option (Running Runtime))
          → env.round ≡ round
          → Guarded runtime_host_id tokens attempt keyed identified held
              (advance_round runtime_host_id tokens attempt env round)
      in_some none e = (keeps, covered, in_round)
      in_some (some running) e =
          let now =
            subst (InRound runtime_host_id tokens attempt keyed identified held) e in_round in
          running-Guarded held env running running.connecting running.devices keeps covered now
            now.1
