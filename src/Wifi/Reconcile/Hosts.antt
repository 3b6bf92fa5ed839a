-- ===== src/Wifi/Reconcile/Hosts.antt =====
-- The runtimes that are connected after a round of `reconcile_discovered_devices` (src/wifi.rs).
use enody_rs.Common.{
  ◌<◌, ◌≡◌, refl, ap, sym, ◌∙◌, subst, Text, false, not, ◌||◌, ◌==◌, leb, Bool-cases, inl, inr,
  List, [], ◌∷◌, ◌++◌, All, map, Option, none, some, if◌then◌else◌, arith, length, ◌&&◌,
}
use enody_rs.Message.Topology.{Identifier}
use enody_rs.Message.Runtime.{Token}
use enody_rs.Wifi.Device.{
  WifiDiscoveredDevice, token_for_discovered_device, is_some, stored_for, token_for_host, endpoint,
}
use enody_rs.Wifi.Reconcile.{
  ConnectedWifiRuntime, Round, has, runtime_from_discovered_device, attempt_with, is_connected_to,
  reset_missed, arrive, meet, see, see_all, one_more_miss, sweep, reconcile_discovered_devices,
  wifi_discovery_misses_before_left,
}

-- No identifier comes twice.
abbrev pub Distinct : List Identifier → Type 0
Distinct [] = Unit
Distinct (x ∷ xs) = (has xs x ≡ false) × Distinct xs

pub has-append :
    (xs : List Identifier) (y id : Identifier) → has (xs ++ y ∷ []) id ≡ (has xs id || y == id)
has-append [] y id = ground arith
has-append (x ∷ xs) y id = ground (arith, has-append xs y id)

pub Distinct-append :
    (xs : List Identifier) (y : Identifier)
    → Distinct xs
    → has xs y ≡ false
    → Distinct (xs ++ y ∷ [])
Distinct-append [] y d h = (refl, tt)
Distinct-append (x ∷ xs) y (absent, d) h =
    let later : has xs y ≡ false = ground arith in
    let other : (y == x) ≡ false = ground arith in
    (has-append xs y x ∙ (rw (absent, other) refl), Distinct-append xs y d later)

stored_for-some :
    (stored : Option Token) (protocol auth : Option Text) (token : Token)
    → stored_for stored protocol auth ≡ some token
    → stored ≡ some token
stored_for-some none protocol auth token h = absurd cc
stored_for-some (some t) protocol auth token h = ground arith

-- A token that a device is given is that of its host.
token_for-tokens :
    (tokens : Identifier → Option Token) (device : WifiDiscoveredDevice) (host_id : Identifier)
    (token : Token)
    → device.host_id ≡ some host_id
    → token_for_discovered_device tokens device ≡ some token
    → tokens host_id ≡ some token
unfolding token_for_discovered_device
token_for-tokens tokens device host_id token h found =
    stored_for-some (tokens host_id) device.protocol device.auth token
      (ap (λ o. token_for_host tokens o device.protocol device.auth) (sym h) ∙ found)

module _ {Runtime : Type 0} (runtime_host_id : Runtime → Identifier) where
  abbrev pub hosts : List (ConnectedWifiRuntime Runtime) → List Identifier
  hosts = map (λ c. runtime_host_id c.runtime)

  pub has-hosts :
      (cs : List (ConnectedWifiRuntime Runtime)) (id : Identifier)
      → has (hosts cs) id ≡ is_connected_to runtime_host_id cs id
  has-hosts [] id = refl
  has-hosts (c ∷ cs) id = ap (λ b. runtime_host_id c.runtime == id || b) (has-hosts cs id)

  pub hosts-reset_missed :
      (cs : List (ConnectedWifiRuntime Runtime)) (id : Identifier)
      → hosts (reset_missed runtime_host_id cs id) ≡ hosts cs
  unfolding reset_missed
  hosts-reset_missed [] id = refl
  hosts-reset_missed (c ∷ cs) id = elim (Bool-cases (runtime_host_id c.runtime == id)) [
    | inl e ↦ rw e refl
    | inr e ↦ rw e (ap (λ xs. runtime_host_id c.runtime ∷ xs) (hosts-reset_missed cs id))
  ]

  pub hosts-append :
      (cs ds : List (ConnectedWifiRuntime Runtime)) → hosts (cs ++ ds) ≡ hosts cs ++ hosts ds
  hosts-append [] ds = refl
  hosts-append (c ∷ cs) ds = ap (λ xs. runtime_host_id c.runtime ∷ xs) (hosts-append cs ds)

  pub arrive-Distinct :
      (round : Round Runtime) (host_id : Identifier) (o : Option Runtime)
      → ((r : Runtime) → o ≡ some r → runtime_host_id r ≡ host_id)
      → Distinct (hosts round.connected)
      → Distinct (hosts (arrive runtime_host_id round host_id o).connected)
  arrive-Distinct round host_id none own d = d
  arrive-Distinct round host_id (some r) own d =
      elim (Bool-cases (is_connected_to runtime_host_id round.connected host_id)) [
        | inl e ↦ rw e d
        | inr e ↦
            let absent : has (hosts round.connected) (runtime_host_id r) ≡ false =
              ap (has (hosts round.connected)) (own r refl)
              ∙ has-hosts round.connected host_id
              ∙ e in
            rw e (
              subst Distinct (sym (hosts-append round.connected _))
                (Distinct-append (hosts round.connected) (runtime_host_id r) d absent))
      ]

  -- The counter of a runtime that stays, after a round.
  sweep-missed :
      (seen : List Identifier) (cs : List (ConnectedWifiRuntime Runtime))
      → All
          (λ c. c.missed_discoveries < wifi_discovery_misses_before_left)
          (sweep runtime_host_id seen cs).0
  unfolding sweep
  sweep-missed seen [] = tt
  sweep-missed seen (c ∷ cs) = elim (Bool-cases (has seen (runtime_host_id c.runtime))) [
    | inl e ↦ rw e (omega arith, sweep-missed seen cs)
    | inr e ↦
        elim (Bool-cases
          (leb wifi_discovery_misses_before_left (one_more_miss c).missed_discoveries)) [
            | inl l ↦ rw e (rw l (sweep-missed seen cs))
            | inr l ↦ rw e (rw l (ground arith, sweep-missed seen cs))
          ]
  ]

  pub sweep-absent :
      (seen : List Identifier) (cs : List (ConnectedWifiRuntime Runtime)) (id : Identifier)
      → has (hosts cs) id ≡ false
      → has (hosts (sweep runtime_host_id seen cs).0) id ≡ false
  unfolding sweep
  sweep-absent seen [] id h = refl
  sweep-absent seen (c ∷ cs) id h = ground (arith, sweep-absent seen cs id)

  pub sweep-Distinct :
      (seen : List Identifier) (cs : List (ConnectedWifiRuntime Runtime))
      → Distinct (hosts cs)
      → Distinct (hosts (sweep runtime_host_id seen cs).0)
  unfolding sweep
  sweep-Distinct seen [] d = tt
  sweep-Distinct seen (c ∷ cs) (absent, d) =
      let later = sweep-Distinct seen cs d in
      let not_there = sweep-absent seen cs (runtime_host_id c.runtime) absent in
      elim (Bool-cases (has seen (runtime_host_id c.runtime))) [
        | inl e ↦ rw e (not_there, later)
        | inr e ↦
            elim (Bool-cases
              (leb wifi_discovery_misses_before_left (one_more_miss c).missed_discoveries)) [
                | inl l ↦ rw e (rw l later)
                | inr l ↦ rw e (rw l (not_there, later))
              ]
      ]

module _ {Runtime : Type 0} (runtime_host_id : Runtime → Identifier)
    (tokens : Identifier → Option Token) (excluded_host_ids : List Identifier)
    (attempt : Token → WifiDiscoveredDevice → Option Runtime)
    (keyed : (id : Identifier) (t : Token) → tokens id ≡ some t → t.host_id ≡ id)
    (identified : (t : Token) (device : WifiDiscoveredDevice) (r : Runtime)
      → attempt t device ≡ some r
      → runtime_host_id r ≡ t.host_id) where
  attempt-host :
      (o : Option Token) (device : WifiDiscoveredDevice) (id : Identifier) (r : Runtime)
      → ((t : Token) → o ≡ some t → t.host_id ≡ id)
      → attempt_with runtime_host_id tokens excluded_host_ids attempt o device ≡ some r
      → runtime_host_id r ≡ id
  attempt-host none device id r own h = absurd cc
  attempt-host (some t) device id r own h =
      elim (Bool-cases (is_some (endpoint device) && length t.key_data == 32)) [
        | inl e ↦ identified t device r (ground arith) ∙ own t refl
        | inr e ↦ absurd (ground arith)
      ]

  pub runtime-host :
      (device : WifiDiscoveredDevice) (id : Identifier) (r : Runtime)
      → device.host_id ≡ some id
      → runtime_from_discovered_device runtime_host_id tokens excluded_host_ids attempt id device
        ≡ some r
      → runtime_host_id r ≡ id
  unfolding runtime_from_discovered_device
  runtime-host device id r named h = elim (Bool-cases (has excluded_host_ids id)) [
    | inl e ↦ absurd (ground arith)
    | inr e ↦
        attempt-host (token_for_discovered_device tokens device) device id r
          (λ t found. keyed id t (token_for-tokens tokens device id t named found)) (ground arith)
  ]

  meet-Distinct :
      (round : Round Runtime) (device : WifiDiscoveredDevice) (id : Identifier)
      → device.host_id ≡ some id
      → Distinct (hosts runtime_host_id round.connected)
      → Distinct (
          hosts runtime_host_id
            (meet runtime_host_id tokens excluded_host_ids attempt round id device).connected)
  meet-Distinct round device id named d =
      let attempted =
        runtime_from_discovered_device runtime_host_id tokens excluded_host_ids attempt id device in
      let fresh = arrive runtime_host_id round id attempted in
      let met : Round Runtime = record round {
        connected = reset_missed runtime_host_id round.connected id;
      } in
      elim (Bool-cases (is_connected_to runtime_host_id round.connected id)) [
        | inl e ↦
            rw e (subst Distinct (sym (hosts-reset_missed runtime_host_id round.connected id)) d)
        | inr e ↦
            subst (λ b. Distinct (hosts runtime_host_id (if b then met else fresh).connected))
              (sym e)
              (arrive-Distinct runtime_host_id round id attempted
                (λ r h. runtime-host device id r named h) d)
      ]

  see-Distinct :
      (round : Round Runtime) (device : WifiDiscoveredDevice) (o : Option Identifier)
      → device.host_id ≡ o
      → Distinct (hosts runtime_host_id round.connected)
      → Distinct (
          hosts runtime_host_id
            (see runtime_host_id tokens excluded_host_ids attempt round o device).connected)
  see-Distinct round device none named d = d
  see-Distinct round device (some id) named d =
      let skipped =
        has excluded_host_ids id
        || (not (is_some (token_for_discovered_device tokens device))
            || has round.seen_host_ids id) in
      let seen : Round Runtime = record round { seen_host_ids = id ∷ round.seen_host_ids } in
      let met = meet runtime_host_id tokens excluded_host_ids attempt seen id device in
      elim (Bool-cases skipped) [
        | inl e ↦
            subst (λ b. Distinct (hosts runtime_host_id (if b then round else met).connected))
              (sym e) d
        | inr e ↦
            subst (λ b. Distinct (hosts runtime_host_id (if b then round else met).connected))
              (sym e) (meet-Distinct seen device id named d)
      ]

  see_all-Distinct :
      (round : Round Runtime) (devices : List WifiDiscoveredDevice)
      → Distinct (hosts runtime_host_id round.connected)
      → Distinct (
          hosts runtime_host_id
            (see_all runtime_host_id tokens excluded_host_ids attempt round devices).connected)
  unfolding see_all
  see_all-Distinct round [] d = d
  see_all-Distinct round (device ∷ devices) d =
      see_all-Distinct
        (see runtime_host_id tokens excluded_host_ids attempt round device.host_id device) devices
        (see-Distinct round device device.host_id refl d)

  -- A round keeps at most one runtime for each host, and lets none stay that has been missed three
  -- times, where each token is stored under its own host and a connection attempt gives a runtime
  -- of its token's host.
  pub reconcile-Distinct :
      (connected : List (ConnectedWifiRuntime Runtime)) (devices : List WifiDiscoveredDevice)
      → Distinct (hosts runtime_host_id connected)
      → let kept =
          (reconcile_discovered_devices runtime_host_id tokens excluded_host_ids attempt connected
            devices).0 in
        Distinct (hosts runtime_host_id kept)
        × All (λ c. c.missed_discoveries < wifi_discovery_misses_before_left) kept
  unfolding reconcile_discovered_devices
  reconcile-Distinct connected devices d =
      let round =
        see_all runtime_host_id tokens excluded_host_ids attempt
          (record { connected = connected; seen_host_ids = []; events = [] }) devices in
      (
        sweep-Distinct runtime_host_id round.seen_host_ids round.connected
            (see_all-Distinct _ devices d),
        sweep-missed runtime_host_id round.seen_host_ids round.connected,
      )
