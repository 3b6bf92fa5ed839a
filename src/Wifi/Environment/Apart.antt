-- ===== src/Wifi/Environment/Apart.antt =====
-- Excluded hosts in a `WifiEnvironment` of src/wifi.rs.
use enody_rs.Common.{
  ◌≡◌, refl, ap, sym, ◌∙◌, subst, false, not, ◌&&◌, ◌==◌, ==_iff, Bool-cases, inl, inr, List, [],
  ◌∷◌, ◌++◌, retain, Option, none, some, arith,
}
use enody_rs.Message.Topology.{Identifier}
use enody_rs.Message.Runtime.{Token}
use enody_rs.Wifi.Device.{WifiDiscoveredDevice}
use enody_rs.Wifi.Reconcile.{ConnectedWifiRuntime, Round, has, is_connected_to, arrive, sweep}
use enody_rs.Wifi.Reconcile.Hosts.{Distinct, has-append, hosts, hosts-append, sweep-absent}
use enody_rs.Wifi.Environment.{WifiEnvironment, remove_connected_runtime}

-- No host is in both lists.
abbrev pub Apart : List Identifier → List Identifier → Type 0
Apart excluded connected = (id : Identifier) → (has excluded id && has connected id) ≡ false

module _ {Runtime : Type 0} (runtime_host_id : Runtime → Identifier) where
  -- Where each host comes once, the removed one is gone and the others stay.
  has-removed :
      (cs : List (ConnectedWifiRuntime Runtime)) (host_id id : Identifier)
      → Distinct (hosts runtime_host_id cs)
      → has (hosts runtime_host_id (remove_connected_runtime runtime_host_id cs host_id).0) id
        ≡ (has (hosts runtime_host_id cs) id && not (host_id == id))
  unfolding remove_connected_runtime
  has-removed [] host_id id d = refl
  has-removed (c ∷ cs) host_id id (absent, d) =
      let rest = has-removed cs host_id id d in
      elim (Bool-cases (runtime_host_id c.runtime == host_id)) [
        | inl e ↦
            let same = (==_iff (runtime_host_id c.runtime) host_id).0 e in
            elim (Bool-cases (host_id == id)) [
              | inl t ↦
                  let gone : has (hosts runtime_host_id cs) id ≡ false =
                    ap (has (hosts runtime_host_id cs)) (sym (same ∙ (==_iff host_id id).0 t))
                    ∙ absent in
                  ground arith
              | inr f ↦ ground arith
            ]
        | inr e ↦ ground (arith, rest)
      ]

  Distinct-removed :
      (cs : List (ConnectedWifiRuntime Runtime)) (host_id : Identifier)
      → Distinct (hosts runtime_host_id cs)
      → Distinct (hosts runtime_host_id (remove_connected_runtime runtime_host_id cs host_id).0)
  unfolding remove_connected_runtime
  Distinct-removed [] host_id d = tt
  Distinct-removed (c ∷ cs) host_id (absent, d) =
      elim (Bool-cases (runtime_host_id c.runtime == host_id)) [
        | inl e ↦ rw e d
        | inr e ↦ rw e (
          has-removed cs host_id (runtime_host_id c.runtime) d
              ∙ ap (λ b. b && not (host_id == runtime_host_id c.runtime)) absent,
          Distinct-removed cs host_id d,
        )
      ]

  -- Each host is connected once, and none of them is excluded.
  abbrev pub Separate : WifiEnvironment Runtime → Type 0
  Separate env =
      Distinct (hosts runtime_host_id env.connected_runtimes)
      × Apart env.excluded_host_ids (hosts runtime_host_id env.connected_runtimes)

  -- An exclusion leaves no runtime of the host.
  pub removed-Separate :
      (held : List Identifier) (cs : List (ConnectedWifiRuntime Runtime)) (host_id : Identifier)
      → Distinct (hosts runtime_host_id cs)
      → Apart held (hosts runtime_host_id cs)
      → let rest = (remove_connected_runtime runtime_host_id cs host_id).0 in
        Distinct (hosts runtime_host_id rest)
        × Apart held (hosts runtime_host_id rest)
        × Apart (host_id ∷ held) (hosts runtime_host_id rest)
  removed-Separate held cs host_id d apart = (
    Distinct-removed cs host_id d,
    λ id. let removed = has-removed cs host_id id d in let before = apart id in ground arith,
    λ id.
        let removed = has-removed cs host_id id d in
        let before = apart id in ground (arith, Bool-cases (host_id == id)),
  )

  pub has-retain :
      (ids : List Identifier) (host_id id : Identifier)
      → has (retain (λ x. not (x == host_id)) ids) id ≡ (has ids id && not (id == host_id))
  has-retain [] host_id id = refl
  has-retain (x ∷ ids) host_id id =
      let rest = has-retain ids host_id id in
      elim (Bool-cases (x == id)) [
        | inl e ↦
            let same = ap (λ y. y == host_id) ((==_iff x id).0 e) in
            elim (Bool-cases (x == host_id)) [ inl t ↦ ground arith | inr f ↦ ground arith ]
        | inr e ↦ elim (Bool-cases (x == host_id)) [ inl t ↦ ground arith | inr f ↦ ground arith ]
      ]

  pub retain-Apart :
      (held connected : List Identifier) (host_id : Identifier)
      → Apart held connected
      → Apart (retain (λ x. not (x == host_id)) held) connected
  retain-Apart held connected host_id apart id =
      let before = apart id in
      rw (has-retain held host_id id) (ground (arith, Bool-cases (has held id)))

module _ {Runtime : Type 0} (runtime_host_id : Runtime → Identifier)
    (tokens : Identifier → Option Token) (attempt : Token → WifiDiscoveredDevice → Option Runtime)
    (keyed : (id : Identifier) (t : Token) → tokens id ≡ some t → t.host_id ≡ id)
    (identified : (t : Token) (device : WifiDiscoveredDevice) (r : Runtime)
      → attempt t device ≡ some r
      → runtime_host_id r ≡ t.host_id)
    (excluded : List Identifier) where
  -- A runtime that is put behind the others, of a host that is not excluded.
  pub push-Apart :
      (cs : List (ConnectedWifiRuntime Runtime)) (c : ConnectedWifiRuntime Runtime)
      → has excluded (runtime_host_id c.runtime) ≡ false
      → Apart excluded (hosts runtime_host_id cs)
      → Apart excluded (hosts runtime_host_id (cs ++ c ∷ []))
  push-Apart cs c free apart id =
      let joined = ap (λ hs. has hs id) (hosts-append runtime_host_id cs (c ∷ [])) in
      let one_more = has-append (hosts runtime_host_id cs) (runtime_host_id c.runtime) id in
      let before = apart id in
      elim (Bool-cases (runtime_host_id c.runtime == id)) [
        | inl t ↦
            let same = (==_iff (runtime_host_id c.runtime) id).0 t in
            rw (subst (λ x. has excluded x ≡ false) same free) refl
        | inr f ↦ ground arith
      ]

  pub arrive-Apart :
      (round : Round Runtime) (host_id : Identifier) (o : Option Runtime)
      → ((r : Runtime) → o ≡ some r → runtime_host_id r ≡ host_id)
      → has excluded host_id ≡ false
      → Apart excluded (hosts runtime_host_id round.connected)
      → Apart excluded (hosts runtime_host_id (arrive runtime_host_id round host_id o).connected)
  arrive-Apart round host_id none own free apart = apart
  arrive-Apart round host_id (some r) own free apart =
      elim (Bool-cases (is_connected_to runtime_host_id round.connected host_id)) [
        | inl e ↦ rw e apart
        | inr e ↦ rw e (
            push-Apart round.connected _
              (subst (λ x. has excluded x ≡ false) (sym (own r refl)) free) apart)
      ]

  -- Sweeping adds no host.
  pub sweep-Apart :
      (seen : List Identifier) (cs : List (ConnectedWifiRuntime Runtime))
      → Apart excluded (hosts runtime_host_id cs)
      → Apart excluded (hosts runtime_host_id (sweep runtime_host_id seen cs).0)
  sweep-Apart seen cs apart id =
      let before = apart id in
      elim (Bool-cases (has (hosts runtime_host_id cs) id)) [
        | inl t ↦
            let free : has excluded id ≡ false = ground arith in
            ap (λ b. b && has (hosts runtime_host_id (sweep runtime_host_id seen cs).0) id) free
        | inr f ↦ let gone = sweep-absent runtime_host_id seen cs id f in ground arith
      ]
