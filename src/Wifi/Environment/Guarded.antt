-- ===== src/Wifi/Environment/Guarded.antt =====
-- Exclusions of src/wifi.rs that hold: what calls keep of them, also in a round.
use enody_rs.Common.{
  ◌≡◌, refl, sym, subst, Bool, true, false, not, ◌||◌, ◌==◌, Bool-cases, inl, inr, List, ◌∷◌,
  retain, Option, none, some, Result, ok, err, if◌then◌else◌, arith,
}
use enody_rs.Error.{Error}
use enody_rs.Message.Topology.{Identifier}
use enody_rs.Message.Runtime.{Token}
use enody_rs.Wifi.Device.{WifiDiscoveredDevice, is_some}
use enody_rs.Wifi.Reconcile.{has}
use enody_rs.Wifi.Reconcile.Hosts.{hosts}
use enody_rs.Wifi.Environment.{
  WifiEnvironment, Running, remove_connected_runtime, try_left, exclude_host_id,
  remove_excluded_host_id,
}
use enody_rs.Wifi.Environment.Rounds.{clone_exclusions, begin_round}
use enody_rs.Wifi.Environment.Apart.{removed-Separate, has-retain, retain-Apart}
use enody_rs.Wifi.Environment.Actions.{exclude, readmit, held_after, Keeps}

module _ {Runtime : Type 0} (runtime_host_id : Runtime → Identifier)
    (tokens : Identifier → Option Token) (attempt : Token → WifiDiscoveredDevice → Option Runtime)
    (keyed : (id : Identifier) (t : Token) → tokens id ≡ some t → t.host_id ≡ id)
    (identified : (t : Token) (device : WifiDiscoveredDevice) (r : Runtime)
      → attempt t device ≡ some r
      → runtime_host_id r ≡ t.host_id) where
  -- The device that a round connects to names its host, which the round's clone does not exclude.
  abbrev pub Awaits : List Identifier → Option (Identifier × WifiDiscoveredDevice) → Type 0
  Awaits excluded none = Unit
  Awaits excluded (some (host_id, device)) =
      (has excluded host_id ≡ false) × (device.host_id ≡ some host_id)

  abbrev pub Covered : List Identifier → List Identifier → Type 0
  Covered held excluded = (id : Identifier) → has held id ≡ true → has excluded id ≡ true

  -- The exclusions that hold are in the environment's set, and in the clone of the round.
  abbrev pub InRound : List Identifier → Option (Running Runtime) → Type 0
  InRound held none = Unit
  InRound held (some running) =
      Covered held running.excluded_host_ids × Awaits running.excluded_host_ids running.connecting

  abbrev pub Guarded : List Identifier → WifiEnvironment Runtime → Type 0
  Guarded held env =
      Keeps runtime_host_id held env × Covered held env.excluded_host_ids × InRound held env.round

  -- A property of both branches.
  pub either :
      {A : Type 0} (P : A → Type 0) (test : Bool) (yes_case no_case : A)
      → (test ≡ true → P yes_case)
      → (test ≡ false → P no_case)
      → P (if test then yes_case else no_case)
  either P true a b h k = h refl
  either P false a b h k = k refl

  pub begin-Guarded :
      (held : List Identifier) (env : WifiEnvironment Runtime)
      (devices : Result (List WifiDiscoveredDevice) Error)
      → Guarded held env
      → Guarded held (begin_round env devices)
  unfolding begin_round
  begin-Guarded held env devices h =
      either (Guarded held) (not env.discovery_task || is_some env.round) env
        (clone_exclusions env devices) (λ _. h) (λ _. cloned devices)
    where
      cloned :
          (devices : Result (List WifiDiscoveredDevice) Error)
          → Guarded held (clone_exclusions env devices)
      cloned (err e) = h
      cloned (ok devices) = (h.0, h.1, (h.1, tt))

  no_round :
      (held : List Identifier) (round : Option (Running Runtime))
      → is_some round ≡ false
      → InRound held round
  no_round held none h = tt
  no_round held (some running) h = absurd cc

  pub exclude-Guarded :
      (held : List Identifier) (env : WifiEnvironment Runtime) (host_id : Identifier)
      → Guarded held env
      → Guarded
          (held_after held env (exclude host_id))
          (exclude_host_id runtime_host_id env host_id)
  unfolding exclude_host_id
  exclude-Guarded held env host_id (keeps, covered, in_round) =
      let taken = remove_connected_runtime runtime_host_id env.connected_runtimes host_id in
      let without : WifiEnvironment Runtime = record env {
        excluded_host_ids = host_id ∷ env.excluded_host_ids;
        connected_runtimes = taken.0;
        runtime_events = try_left runtime_host_id env.runtime_events taken.1;
      } in
      let (distinct, apart, all_apart) =
        removed-Separate runtime_host_id held env.connected_runtimes host_id keeps.0 keeps.1 in
      let in_clone : Covered held (host_id ∷ env.excluded_host_ids) =
        λ id e. let there = covered id e in ground arith in
      let in_both : Covered (host_id ∷ held) (host_id ∷ env.excluded_host_ids) =
        λ id e. let there = covered id in ground (arith, Bool-cases (host_id == id)) in
      elim (Bool-cases (has env.excluded_host_ids host_id)) [
        | inl e ↦
            subst
              (λ b.
                Guarded (if b || is_some env.round then held else host_id ∷ held)
                  (if b then env else without))
              (sym e) (keeps, covered, in_round)
        | inr e ↦
            subst
              (λ b.
                Guarded (if b || is_some env.round then held else host_id ∷ held)
                  (if b then env else without))
              (sym e)
              (either (λ ids. Guarded ids without) (is_some env.round) held (host_id ∷ held)
                (λ _. ((distinct, apart), in_clone, in_round))
                (λ idle.
                  ((distinct, all_apart), in_both, no_round (host_id ∷ held) env.round idle)))
      ]

  Covered-retain :
      (held excluded : List Identifier) (host_id : Identifier)
      → Covered held excluded
      → Covered
          (retain (λ id. not (id == host_id)) held)
          (retain (λ id. not (id == host_id)) excluded)
  Covered-retain held excluded host_id covered id e =
      let kept = has-retain runtime_host_id held host_id id in
      let left_in = has-retain runtime_host_id excluded host_id id in
      let there = covered id in ground (arith, Bool-cases (has held id))

  InRound-retain :
      (held : List Identifier) (round : Option (Running Runtime)) (host_id : Identifier)
      → InRound held round
      → InRound (retain (λ id. not (id == host_id)) held) round
  InRound-retain held none host_id h = tt
  InRound-retain held (some running) host_id (covered, awaits) = (
    λ id e.
        let kept = has-retain runtime_host_id held host_id id in
        let there = covered id in ground (arith, Bool-cases (has held id)),
    awaits,
  )

  pub readmit-Guarded :
      (held : List Identifier) (env : WifiEnvironment Runtime) (host_id : Identifier)
      → Guarded held env
      → Guarded
          (held_after held env (readmit host_id))
          (remove_excluded_host_id runtime_host_id env host_id)
  unfolding remove_excluded_host_id
  readmit-Guarded held env host_id (keeps, covered, in_round) = (
    (
      keeps.0,
      retain-Apart runtime_host_id held (hosts runtime_host_id env.connected_runtimes) host_id
          keeps.1,
    ),
    Covered-retain held env.excluded_host_ids host_id covered,
    InRound-retain held env.round host_id in_round,
  )
