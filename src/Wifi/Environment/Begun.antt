-- ===== src/Wifi/Environment/Begun.antt =====
-- The environment that the construction of src/wifi.rs gives.
use enody_rs.Common.{
  ◌≡◌, refl, ap, sym, ◌∙◌, subst, Bool, false, not, ◌&&◌, ◌||◌, ◌==◌, Bool-cases, inl, inr, List,
  [], ◌∷◌, Option, none, some, if◌then◌else◌, arith,
}
use enody_rs.Message.Topology.{Identifier}
use enody_rs.Message.Runtime.{Token}
use enody_rs.Wifi.Device.{WifiDiscoveredDevice, token_for_discovered_device, is_some}
use enody_rs.Wifi.Reconcile.{ConnectedWifiRuntime, has, runtime_from_discovered_device}
use enody_rs.Wifi.Reconcile.Hosts.{
  Distinct, Distinct-append, has-append, hosts, hosts-append, runtime-host,
}
use enody_rs.Wifi.Environment.{Initial, push, visit, visit_all, new}
use enody_rs.Wifi.Environment.Apart.{Apart, Separate, push-Apart}

module _ {Runtime : Type 0} (runtime_host_id : Runtime → Identifier)
    (tokens : Identifier → Option Token) (attempt : Token → WifiDiscoveredDevice → Option Runtime)
    (keyed : (id : Identifier) (t : Token) → tokens id ≡ some t → t.host_id ≡ id)
    (identified : (t : Token) (device : WifiDiscoveredDevice) (r : Runtime)
      → attempt t device ≡ some r
      → runtime_host_id r ≡ t.host_id)
    (excluded : List Identifier) where
  -- The hosts connected are among those seen.
  abbrev Seen : Initial Runtime → Type 0
  Seen initial =
      (id : Identifier)
      → (has (hosts runtime_host_id initial.connected) id && not (has initial.seen_host_ids id))
        ≡ false

  abbrev Begun : Initial Runtime → Type 0
  Begun initial =
      Distinct (hosts runtime_host_id initial.connected)
      × Apart excluded (hosts runtime_host_id initial.connected)
      × Seen initial

  push-Begun :
      (initial : Initial Runtime) (host_id : Identifier) (o : Option Runtime)
      → ((r : Runtime) → o ≡ some r → runtime_host_id r ≡ host_id)
      → has excluded host_id ≡ false
      → has initial.seen_host_ids host_id ≡ false
      → Begun initial
      → Begun (
          push runtime_host_id tokens attempt
            (record initial { seen_host_ids = host_id ∷ initial.seen_host_ids })
            o)
  push-Begun initial host_id none own free unseen (d, apart, seen) =
      (d, apart, λ id. let before = seen id in ground (arith, Bool-cases (host_id == id)))
  push-Begun initial host_id (some r) own free unseen (d, apart, seen) =
      let host = own r refl in
      let c : ConnectedWifiRuntime Runtime = record { runtime = r; missed_discoveries = 0 } in
      let here = seen host_id in
      let absent : has (hosts runtime_host_id initial.connected) host_id ≡ false = ground arith in
      let joined = hosts-append runtime_host_id initial.connected (c ∷ []) in
      (
        subst Distinct (sym joined) (
            Distinct-append (hosts runtime_host_id initial.connected) (runtime_host_id r) d
              (ap (has (hosts runtime_host_id initial.connected)) host ∙ absent)),
        push-Apart runtime_host_id tokens attempt keyed identified excluded initial.connected c
            (subst (λ x. has excluded x ≡ false) (sym host) free) apart,
        λ id.
            let before = seen id in
            let one_more =
              ap (λ hs. has hs id) joined
              ∙ has-append (hosts runtime_host_id initial.connected) (runtime_host_id r) id in
            let same = ap (λ h. h == id) host in ground (arith, Bool-cases (host_id == id)),
      )

  visit-Begun :
      (initial : Initial Runtime) (device : WifiDiscoveredDevice) (o : Option Identifier)
      → device.host_id ≡ o
      → Begun initial
      → Begun (visit runtime_host_id tokens attempt excluded initial o device)
  visit-Begun initial device none named h = h
  visit-Begun initial device (some id) named h =
      let without = not (is_some (token_for_discovered_device tokens device)) in
      let seen : Initial Runtime = record initial { seen_host_ids = id ∷ initial.seen_host_ids } in
      let connecting =
        runtime_from_discovered_device runtime_host_id tokens excluded attempt id device in
      let pushed = push runtime_host_id tokens attempt seen connecting in
      let goal : Bool → Type 0 = λ b. Begun (if b then initial else pushed) in
      elim (Bool-cases (has excluded id || (without || has initial.seen_host_ids id))) [
        | inl e ↦ subst goal (sym e) h
        | inr e ↦
            let free : has excluded id ≡ false = ground arith in
            let unseen : has initial.seen_host_ids id ≡ false =
              ground (arith, Bool-cases without) in
            subst goal (sym e) (
              push-Begun initial id connecting
                (λ r e'.
                  runtime-host runtime_host_id tokens excluded attempt keyed identified device id r
                    named e')
                free unseen h)
      ]

  visit_all-Begun :
      (initial : Initial Runtime) (devices : List WifiDiscoveredDevice)
      → Begun initial
      → Begun (visit_all runtime_host_id tokens attempt excluded initial devices)
  unfolding visit_all
  visit_all-Begun initial [] h = h
  visit_all-Begun initial (device ∷ devices) h =
      visit_all-Begun (visit runtime_host_id tokens attempt excluded initial device.host_id device)
        devices (visit-Begun initial device device.host_id refl h)

  pub new-Separate :
      (devices : List WifiDiscoveredDevice)
      → Separate runtime_host_id (new runtime_host_id tokens attempt excluded devices)
  unfolding new
  new-Separate devices =
      let start : Initial Runtime = record { connected = []; seen_host_ids = [] } in
      let none_there : (id : Identifier) → (has excluded id && false) ≡ false =
        λ id. ground (arith, Bool-cases (has excluded id)) in
      let begun = visit_all-Begun start devices (tt, none_there, λ id. refl) in (begun.0, begun.1)
