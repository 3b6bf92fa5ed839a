-- ===== src/Wifi/Reconcile/Stays.antt =====
-- The hosts that stay connected in a round of `reconcile_discovered_devices` (src/wifi.rs).
use enody_rs.Common.{
  ◌≡◌, refl, ap, sym, ◌∙◌, subst, Bool, true, false, not, ◌&&◌, ◌||◌, ◌==◌, ==_iff, Bool-cases, inl,
  inr, List, [], ◌∷◌, any, Option, none, some, if◌then◌else◌, arith,
}
use enody_rs.Message.Topology.{Identifier}
use enody_rs.Message.Runtime.{Token}
use enody_rs.Wifi.Device.{WifiDiscoveredDevice, token_for_discovered_device, is_some}
use enody_rs.Wifi.Reconcile.{
  ConnectedWifiRuntime, Round, has, runtime_from_discovered_device, is_connected_to, reset_missed,
  arrive, meet, see, see_all, sweep, reconcile_discovered_devices,
}
use enody_rs.Wifi.Reconcile.Hosts.{hosts, hosts-append, hosts-reset_missed, has-append}

or_true : (b : Bool) → (b || true) ≡ true
or_true b = ground arith

abbrev pub names : Identifier → Option Identifier → Bool
names id none = false
names id (some x) = x == id

module _ {Runtime : Type 0} (runtime_host_id : Runtime → Identifier) where
  arrive-keeps :
      (round : Round Runtime) (id host_id : Identifier) (o : Option Runtime)
      → has (hosts runtime_host_id round.connected) id ≡ true
      → has (hosts runtime_host_id (arrive runtime_host_id round host_id o).connected) id ≡ true
  arrive-keeps round id host_id none h = h
  arrive-keeps round id host_id (some r) h =
      elim (Bool-cases (is_connected_to runtime_host_id round.connected host_id)) [
        | inl e ↦ rw e h
        | inr e ↦ rw e (
            ap (λ xs. has xs id) (hosts-append runtime_host_id round.connected _)
            ∙ has-append (hosts runtime_host_id round.connected) (runtime_host_id r) id
            ∙ (rw h refl))
      ]

  sweep-keeps :
      (seen : List Identifier) (cs : List (ConnectedWifiRuntime Runtime)) (id : Identifier)
      → has seen id ≡ true
      → has (hosts runtime_host_id cs) id ≡ true
      → has (hosts runtime_host_id (sweep runtime_host_id seen cs).0) id ≡ true
  unfolding sweep
  sweep-keeps seen [] id s h = h
  sweep-keeps seen (c ∷ cs) id s h = elim (Bool-cases (runtime_host_id c.runtime == id)) [
    | inl e ↦
        let same : runtime_host_id c.runtime ≡ id = (==_iff _ _).0 e in
        let known : has seen (runtime_host_id c.runtime) ≡ true = ap (has seen) same ∙ s in
        rw known (rw e refl)
    | inr e ↦ let later = sweep-keeps seen cs id s (ground arith) in ground arith
  ]

module _ {Runtime : Type 0} (runtime_host_id : Runtime → Identifier)
    (tokens : Identifier → Option Token) (excluded_host_ids : List Identifier)
    (attempt : Token → WifiDiscoveredDevice → Option Runtime) where
  -- The device names the host, which is not excluded, and has a token.
  abbrev pub advertises : Identifier → WifiDiscoveredDevice → Bool
  advertises id device =
      names id device.host_id
      && (not (has excluded_host_ids id) && is_some (token_for_discovered_device tokens device))

  -- A host in a round: connected, and seen.
  abbrev pub connected_in : Round Runtime → Identifier → Bool
  connected_in round id = has (hosts runtime_host_id round.connected) id

  meet-keeps :
      (round : Round Runtime) (id host_id : Identifier) (device : WifiDiscoveredDevice)
      → connected_in round id ≡ true
      → connected_in (meet runtime_host_id tokens excluded_host_ids attempt round host_id device) id
        ≡ true
  meet-keeps round id host_id device h =
      let fresh = arrive runtime_host_id round host_id (
        runtime_from_discovered_device runtime_host_id tokens excluded_host_ids attempt host_id
          device) in
      let met : Round Runtime = record round {
        connected = reset_missed runtime_host_id round.connected host_id;
      } in
      elim (Bool-cases (is_connected_to runtime_host_id round.connected host_id)) [
        | inl e ↦
            subst (λ b. connected_in (if b then met else fresh) id ≡ true) (sym e)
              (ap (λ xs. has xs id) (hosts-reset_missed runtime_host_id round.connected host_id)
                ∙ h)
        | inr e ↦
            subst (λ b. connected_in (if b then met else fresh) id ≡ true) (sym e)
              (arrive-keeps runtime_host_id round id host_id _ h)
      ]

  see-keeps :
      (round : Round Runtime) (id : Identifier) (o : Option Identifier)
      (device : WifiDiscoveredDevice)
      → connected_in round id ≡ true
      → connected_in (see runtime_host_id tokens excluded_host_ids attempt round o device) id ≡ true
  see-keeps round id none device h = h
  see-keeps round id (some host_id) device h =
      let skipped =
        has excluded_host_ids host_id
        || (not (is_some (token_for_discovered_device tokens device))
            || has round.seen_host_ids host_id) in
      let seen : Round Runtime = record round { seen_host_ids = host_id ∷ round.seen_host_ids } in
      let met = meet runtime_host_id tokens excluded_host_ids attempt seen host_id device in
      elim (Bool-cases skipped) [
        | inl e ↦ subst (λ b. connected_in (if b then round else met) id ≡ true) (sym e) h
        | inr e ↦
            subst (λ b. connected_in (if b then round else met) id ≡ true) (sym e)
              (meet-keeps seen id host_id device h)
      ]

  arrive-seen :
      (round : Round Runtime) (host_id : Identifier) (o : Option Runtime)
      → (arrive runtime_host_id round host_id o).seen_host_ids ≡ round.seen_host_ids
  arrive-seen round host_id none = refl
  arrive-seen round host_id (some r) =
      elim (Bool-cases (is_connected_to runtime_host_id round.connected host_id)) [
        | inl e ↦ rw e refl
        | inr e ↦ rw e refl
      ]

  meet-seen :
      (round : Round Runtime) (host_id : Identifier) (device : WifiDiscoveredDevice)
      → (meet runtime_host_id tokens excluded_host_ids attempt round host_id device).seen_host_ids
        ≡ round.seen_host_ids
  meet-seen round host_id device =
      let fresh = arrive runtime_host_id round host_id (
        runtime_from_discovered_device runtime_host_id tokens excluded_host_ids attempt host_id
          device) in
      let met : Round Runtime = record round {
        connected = reset_missed runtime_host_id round.connected host_id;
      } in
      elim (Bool-cases (is_connected_to runtime_host_id round.connected host_id)) [
        | inl e ↦
            subst (λ b. (if b then met else fresh).seen_host_ids ≡ round.seen_host_ids) (sym e) refl
        | inr e ↦
            subst (λ b. (if b then met else fresh).seen_host_ids ≡ round.seen_host_ids) (sym e)
              (arrive-seen round host_id _)
      ]

  -- A host that was seen, or that the device advertises, is seen after it.
  see-seen :
      (round : Round Runtime) (id : Identifier) (o : Option Identifier)
      (device : WifiDiscoveredDevice)
      → device.host_id ≡ o
      → (has round.seen_host_ids id || advertises id device) ≡ true
      → has (see runtime_host_id tokens excluded_host_ids attempt round o device).seen_host_ids id
        ≡ true
  see-seen round id none device named h =
      let unnamed : names id device.host_id ≡ false = ap (names id) named in ground arith
  see-seen round id (some host_id) device named h =
      let skipped =
        has excluded_host_ids host_id
        || (not (is_some (token_for_discovered_device tokens device))
            || has round.seen_host_ids host_id) in
      let seen : Round Runtime = record round { seen_host_ids = host_id ∷ round.seen_host_ids } in
      let met = meet runtime_host_id tokens excluded_host_ids attempt seen host_id device in
      let named_now : names id device.host_id ≡ (host_id == id) = ap (names id) named in
      elim (Bool-cases (host_id == id)) [
        | inl q ↦
            let same : host_id ≡ id = (==_iff _ _).0 q in
            let excluded : has excluded_host_ids host_id ≡ has excluded_host_ids id =
              ap (has excluded_host_ids) same in
            let seen_already : has round.seen_host_ids host_id ≡ has round.seen_host_ids id =
              ap (has round.seen_host_ids) same in
            elim (Bool-cases skipped) [
              | inl e ↦
                  subst (λ b. has (if b then round else met).seen_host_ids id ≡ true) (sym e)
                    (ground arith)
              | inr e ↦
                  subst (λ b. has (if b then round else met).seen_host_ids id ≡ true) (sym e)
                    (ap (λ xs. has xs id) (meet-seen seen host_id device) ∙ (rw q refl))
            ]
        | inr q ↦
            let before : has round.seen_host_ids id ≡ true = ground arith in
            elim (Bool-cases skipped) [
              | inl e ↦
                  subst (λ b. has (if b then round else met).seen_host_ids id ≡ true) (sym e) before
              | inr e ↦
                  subst (λ b. has (if b then round else met).seen_host_ids id ≡ true) (sym e)
                    (ap (λ xs. has xs id) (meet-seen seen host_id device) ∙ (rw (q, before) refl))
            ]
      ]

  see_all-keeps :
      (devices : List WifiDiscoveredDevice) (round : Round Runtime) (id : Identifier)
      → connected_in round id ≡ true
      → connected_in (see_all runtime_host_id tokens excluded_host_ids attempt round devices) id
        ≡ true
  unfolding see_all
  see_all-keeps [] round id h = h
  see_all-keeps (device ∷ devices) round id h =
      see_all-keeps devices
        (see runtime_host_id tokens excluded_host_ids attempt round device.host_id device) id
        (see-keeps round id device.host_id device h)

  see_all-seen :
      (devices : List WifiDiscoveredDevice) (round : Round Runtime) (id : Identifier)
      → (has round.seen_host_ids id || any (advertises id) devices) ≡ true
      → has
          (see_all runtime_host_id tokens excluded_host_ids attempt round devices).seen_host_ids
          id
        ≡ true
  unfolding see_all
  see_all-seen [] round id h = ground arith
  see_all-seen (device ∷ devices) round id h =
      let next = see runtime_host_id tokens excluded_host_ids attempt round device.host_id device in
      let now = see-seen round id device.host_id device refl in
      elim (Bool-cases (has round.seen_host_ids id || advertises id device)) [
        | inl e ↦ let seen = now e in see_all-seen devices next id (rw seen refl)
        | inr e ↦
            let later : any (advertises id) devices ≡ true = ground arith in
            see_all-seen devices next id (rw later (or_true (has next.seen_host_ids id)))
      ]

  -- A connected host stays connected in a round in which a device names it that has a token, where
  -- the host is not excluded.
  pub reconcile-stays :
      (connected : List (ConnectedWifiRuntime Runtime)) (devices : List WifiDiscoveredDevice)
      (id : Identifier)
      → has (hosts runtime_host_id connected) id ≡ true
      → any (advertises id) devices ≡ true
      → has
          (hosts runtime_host_id
            (reconcile_discovered_devices runtime_host_id tokens excluded_host_ids attempt connected
              devices).0)
          id
        ≡ true
  unfolding reconcile_discovered_devices
  reconcile-stays connected devices id h advertised =
      let first : Round Runtime = record {
        connected = connected;
        seen_host_ids = [];
        events = [];
      } in
      sweep-keeps runtime_host_id _ _ id (see_all-seen devices first id advertised)
        (see_all-keeps devices first id h)
