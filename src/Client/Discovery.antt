-- ===== src/Client/Discovery.antt =====
-- What `fixtures`, `sources` and `emitters` of src/host.rs, src/fixture.rs and src/source.rs find
-- on a device that describes what it has.
use enody_rs.Common.{
  ℕ, suc, ◌+◌, ◌≡◌, refl, ap, List, [], ◌∷◌, map, length, get_elem?, Option, some, Result, ok, err,
  arith, subst, sym, ◌∙◌,
}
use enody_rs.Error.{Error}
use enody_rs.Message.Topology.{Identifier, FixtureInfo, SourceInfo, EmitterInfo}
use enody_rs.Message.Host.{HostCommand, HostEvent}
use enody_rs.Message.Fixture.{FixtureCommand, FixtureEvent}
use enody_rs.Message.Source.{SourceCommand, SourceEvent}
use enody_rs.Message.Envelope.{Command, Event, EventMessage}
use enody_rs.Client.{RemoteRuntime, Exec, continue, ◌>>=◌, lift, expected, collect, request}
use enody_rs.Client.Host
use enody_rs.Client.Fixture
use enody_rs.Client.Source
use enody_rs.Client.Host.{RemoteHost, fixture_count, fixture_info, fixture_at, fixtures}
use enody_rs.Client.Fixture.{RemoteFixture, source_count, source_info, source_at, sources}
use enody_rs.Client.Source.{RemoteSource, emitter_count, emitter_info, emitter_at, emitters}

module _ {S : Type 0} (Ready : S → Type 0) where
  -- In a ready state the call returns the value, and the state stays ready.
  abbrev pub Gives : {A : Type 0} → Exec S A → A → Type 0
  Gives call a = (s : S) → Ready s → ((call s).0 ≡ ok a) × Ready (call s).1

  pub Gives-continue :
      {A B : Type 0} (r : Result A Error × S) (next : A → Exec S B) {a : A} {b : B}
      → (r.0 ≡ ok a) × Ready r.1
      → Gives (next a) b
      → ((continue r next).0 ≡ ok b) × Ready (continue r next).1
  Gives-continue (ok a', s) next {a} {b} (h, i) g =
      let e : a' ≡ a = cc in subst (λ x. ((next x s).0 ≡ ok b) × Ready (next x s).1) (sym e) (g s i)
  Gives-continue (err e, s) next (h, i) g = absurd cc

  pub Gives-bind :
      {A B : Type 0} (call : Exec S A) (next : A → Exec S B) {a : A} {b : B}
      → Gives call a
      → Gives (next a) b
      → Gives (call >>= next) b
  Gives-bind call next h g s i = Gives-continue (call s) next (h s i) g

  -- A loop over the indices from `i` gives the list, where each call gives the list's element.
  collect_from-Gives :
      {A B : Type 0} (fetch : ℕ → Exec S B) (f : A → B) (i : ℕ) (xs : List A)
      → ((j : ℕ) (x : A) → get_elem? xs j ≡ some x → Gives (fetch (i + j)) (f x))
      → Gives (collect fetch i (length xs)) (map f xs)
  unfolding collect
  collect_from-Gives fetch f i [] h = λ s r. (refl, r)
  collect_from-Gives fetch f i (x ∷ xs) h =
      Gives-bind (fetch i) _ (subst (λ n. Gives (fetch n) (f x)) (omega arith) (h 0 x refl)) (
        Gives-bind (collect fetch (suc i) (length xs)) _
          (collect_from-Gives fetch f (suc i) xs
            (λ j y e. subst (λ n. Gives (fetch n) (f y)) (omega arith) (h (suc j) y e)))
          (λ s r. (refl, r)))

  pub collect-Gives :
      {A B : Type 0} (fetch : ℕ → Exec S B) (f : A → B) (xs : List A)
      → ((j : ℕ) (x : A) → get_elem? xs j ≡ some x → Gives (fetch j) (f x))
      → Gives (collect fetch 0 (length xs)) (map f xs)
  collect-Gives fetch f xs h =
      collect_from-Gives fetch f 0 xs
        (λ j x e. subst (λ n. Gives (fetch n) (f x)) (omega arith) (h j x e))

module _ {S : Type 0} (Ready : S → Type 0) (remote : RemoteRuntime S) where
  -- In a ready state the remote answers the command with an event of that payload.
  abbrev pub Replies : Command → Identifier → Event → Type 0
  Replies command resource event =
      (s : S)
      → Ready s
      → (e : EventMessage) × ((request remote command (some resource) s).0 ≡ ok e)
        × (e.event ≡ event)
        × Ready (request remote command (some resource) s).1

  pub Replies-Gives :
      {A : Type 0} (select : Event → Option A) {a : A} (command : Command) (resource : Identifier)
      (event : Event)
      → Replies command resource event
      → select event ≡ some a
      → Gives Ready
          (request remote command (some resource) >>= λ m. lift (expected (select m.event)))
          a
  Replies-Gives select command resource event h k s r =
      let (e, found, same, ready) = h s r in
      Gives-continue Ready (request remote command (some resource) s) _ (found, ready)
        (λ s' r'. (ap expected (ap select same ∙ k), r'))

  -- A host that answers the count and each index of its list of fixtures is found to have exactly
  -- these fixtures, in that order.
  pub fixtures-Gives :
      (host : RemoteHost) (infos : List FixtureInfo)
      → Replies
          (Command.host HostCommand.fixture_count)
          host.info.identifier
          (Event.host (HostEvent.fixture_count (length infos)))
      → ((i : ℕ) (info : FixtureInfo)
          → get_elem? infos i ≡ some info
          → Replies
              (Command.host (HostCommand.fixture_info i))
              host.info.identifier
              (Event.host (HostEvent.fixture_info info)))
      → (s : S) → Ready s
      → ((fixtures remote host s).0 ≡ ok (map (λ info. record { info = info }) infos))
        × Ready (fixtures remote host s).1
  unfolding fixtures fixture_count fixture_info fixture_at
  fixtures-Gives host infos counts describes =
      Gives-bind Ready (fixture_count remote host) _ (Replies-Gives Host.count_of _ _ _ counts refl)
        (collect-Gives Ready (fixture_at remote host) (λ info. record { info = info }) infos
          (λ j info e.
            Gives-bind Ready (fixture_info remote host j) _
              (Replies-Gives Host.info_of _ _ _ (describes j info e) refl) (λ s r. (refl, r))))

  -- A fixture that answers the count and each index of its list of sources is found to have exactly
  -- these sources, in that order.
  pub sources-Gives :
      (fixture : RemoteFixture) (infos : List SourceInfo)
      → Replies
          (Command.fixture FixtureCommand.source_count)
          fixture.info.identifier
          (Event.fixture (FixtureEvent.source_count (length infos)))
      → ((i : ℕ) (info : SourceInfo)
          → get_elem? infos i ≡ some info
          → Replies
              (Command.fixture (FixtureCommand.source_info i))
              fixture.info.identifier
              (Event.fixture (FixtureEvent.source_info info)))
      → (s : S) → Ready s
      → ((sources remote fixture s).0 ≡ ok (map (λ info. record { info = info }) infos))
        × Ready (sources remote fixture s).1
  unfolding sources source_count source_info source_at
  sources-Gives fixture infos counts describes =
      Gives-bind Ready (source_count remote fixture) _
        (Replies-Gives Fixture.count_of _ _ _ counts refl)
        (collect-Gives Ready (source_at remote fixture) (λ info. record { info = info }) infos
          (λ j info e.
            Gives-bind Ready (source_info remote fixture j) _
              (Replies-Gives Fixture.info_of _ _ _ (describes j info e) refl) (λ s r. (refl, r))))

  -- A source that answers the count and each index of its list of emitters is found to have exactly
  -- these emitters, in that order.
  pub emitters-Gives :
      (source : RemoteSource) (infos : List EmitterInfo)
      → Replies
          (Command.source SourceCommand.emitter_count)
          source.info.identifier
          (Event.source (SourceEvent.emitter_count (length infos)))
      → ((i : ℕ) (info : EmitterInfo)
          → get_elem? infos i ≡ some info
          → Replies
              (Command.source (SourceCommand.emitter_info i))
              source.info.identifier
              (Event.source (SourceEvent.emitter_info info)))
      → (s : S) → Ready s
      → ((emitters remote source s).0 ≡ ok (map (λ info. record { info = info }) infos))
        × Ready (emitters remote source s).1
  unfolding emitters emitter_count emitter_info emitter_at
  emitters-Gives source infos counts describes =
      Gives-bind Ready (emitter_count remote source) _
        (Replies-Gives Source.count_of _ _ _ counts refl)
        (collect-Gives Ready (emitter_at remote source) (λ info. record { info = info }) infos
          (λ j info e.
            Gives-bind Ready (emitter_info remote source j) _
              (Replies-Gives Source.info_of _ _ _ (describes j info e) refl) (λ s r. (refl, r))))
