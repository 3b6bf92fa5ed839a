-- ===== src/Client/Transitions.antt =====
-- When a transition of src/fixture.rs or src/source.rs succeeds.
use enody_rs.Common.{
  ◌≡◌, ◌↔◌, refl, ap, ◌∙◌, Bool, true, false, &&_iff, ==_iff, Option, none, some, Result, ok, err,
  arith, if◌then◌else◌,
}
use enody_rs.Error.{Error}
use enody_rs.Message.Topology.{Identifier}
use enody_rs.Measurement.{Measurement, is_nan, measurement_eq}
use enody_rs.Message.Values.{
  Configuration, blackbody, chromatic, spectral, manual, Flux, relative, HasNumbers, FluxHasNumbers,
  StateHasNumbers, configuration_eq, chromaticity_eq, flux_eq, Transition, FixtureState,
  transition_eq, fixture_state_eq, duration, from_secs, saturating_add,
}
use enody_rs.Message.Fixture.{FixtureCommand, FixtureEvent}
use enody_rs.Message.Envelope.{Command, Event, CommandMessage, EventMessage, root}
use enody_rs.Client.{RemoteRuntime, continue, lift, expected, same_resource}
use enody_rs.Client.Fixture
use enody_rs.Client.Fixture.{RemoteFixture, is_end}

module _ (self : RemoteFixture) where
  -- The event that ends a transition: for that fixture, with that transition and the state.
  abbrev pub EndsFixture : Transition FixtureState → FixtureState → EventMessage → Type 0
  EndsFixture t state e =
      (e.resource ≡ some self.info.identifier)
      × ((t' : Transition FixtureState) × (e.event
            ≡ Event.fixture (FixtureEvent.transition_end t' state))
          × (transition_eq fixture_state_eq t' t ≡ true))

continue-ok :
    {S A B : Type 0} (r : Result A Error × S) (next : A → Result B Error) {b : B}
    → (continue r (λ a. lift (next a))).0 ≡ ok b
    → (a : A) × (r.0 ≡ ok a) × (next a ≡ ok b)
continue-ok (ok a, s) next h = (a, refl, h)
continue-ok (err e, s) next h = cc

ok-continue :
    {S A B : Type 0} (r : Result A Error × S) (next : A → Result B Error) {a : A} {b : B}
    → r.0 ≡ ok a
    → next a ≡ ok b
    → (continue r (λ a. lift (next a))).0 ≡ ok b
ok-continue (ok x, s) next h k = cc
ok-continue (err e, s) next h k = absurd cc

if_ok :
    {A : Type 0} (test : Bool) (r : Result A Error) (e : Error) {a : A}
    → (if test then r else err e) ≡ ok a
    → (test ≡ true) × (r ≡ ok a)
if_ok true r e h = (refl, h)
if_ok false r e h = absurd cc

same_resource-some :
    (identifier : Identifier) (resource : Option Identifier)
    → same_resource identifier resource ≡ true
    → resource ≡ some identifier
same_resource-some identifier none h = cc
same_resource-some identifier (some r) h = ap some ((==_iff r identifier).0 h)

fixture_transition_end :
    (event : Event) (t : Transition FixtureState) (state : FixtureState)
    → Fixture.transition_end_of event ≡ some (t, state)
    → event ≡ Event.fixture (FixtureEvent.transition_end t state)
fixture_transition_end (Event.fixture (FixtureEvent.transition_end t' state')) t state h =
    let e : t' ≡ t = cc in let e' : state' ≡ state = cc in cc
fixture_transition_end _ t state h = cc

fixture_result :
    (t : Transition FixtureState) (state : FixtureState) (event : Event)
    (ended : Option (Transition FixtureState × FixtureState))
    → Fixture.transition_end_of event ≡ ended
    → Fixture.ends_with t ended ≡ true
    → expected (Fixture.end_state ended) ≡ ok state
    → (t' : Transition FixtureState) × (event
        ≡ Event.fixture (FixtureEvent.transition_end t' state))
      × (transition_eq fixture_state_eq t' t ≡ true)
fixture_result t state event none found test h = cc
fixture_result t state event (some (t', state')) found test h =
    let e : state' ≡ state = cc in
    (t', fixture_transition_end event t' state (found ∙ ap (λ x. some (t', x)) e), test)

-- The command that a transition sends.
abbrev pub transition_command :
    {S : Type 0} → RemoteRuntime S → RemoteFixture → Transition FixtureState → S → CommandMessage
transition_command remote self t s =
    root (remote.new_v4 s).0 (Command.fixture (FixtureCommand.transition t))
      (some self.info.identifier)

-- What the runtime returns for that command, waiting 2 seconds longer than the transition takes.
abbrev pub received_for :
    {S : Type 0}
    → RemoteRuntime S
    → RemoteFixture
    → Transition FixtureState
    → S
    → Result EventMessage Error
received_for remote self t s =
    (remote.execute_until (transition_command remote self t s)
      (saturating_add (duration t.method) (from_secs 2)) (is_end (remote.new_v4 s).0 t)
      (remote.new_v4 s).1).0

-- A fixture transition succeeds with a state just if the runtime returns, for the command that
-- carries the transition, an event for that fixture, which carries this state and a transition equal
-- to the requested one.
pub fixture-transition_iff :
    {S : Type 0} (remote : RemoteRuntime S) (self : RemoteFixture) (t : Transition FixtureState)
    (s : S) (state : FixtureState)
    → ((Fixture.transition remote self t s).0 ≡ ok state)
      ↔ ((e : EventMessage) × (received_for remote self t s ≡ ok e) × EndsFixture self t state e)
unfolding Fixture.transition root
fixture-transition_iff remote self t s state = (
  λ h.
      let (e, received, result) =
        continue-ok (remote.execute_until _ _ _ _) (Fixture.transition_result remote self) h in
      let (answered, terminal, _) = remote.execute_ok _ _ _ _ e received in
      let (_, ends) = (&&_iff _ _).0 terminal in
      let (same, chosen) = if_ok (same_resource self.info.identifier e.resource) _ _ result in
      (
        e,
        received,
        (
          same_resource-some self.info.identifier e.resource same,
          fixture_result t state e.event _ refl ends chosen,
        ),
      ),
  λ (e, received, (own, (t', event, _))).
      ok-continue (remote.execute_until _ _ _ _) (Fixture.transition_result remote self) received
        (rw (own, event, (==_iff self.info.identifier self.info.identifier).1 refl) refl),
)

measurement_eq_number : (a b : Measurement) → measurement_eq a b ≡ true → is_nan b ≡ false
unfolding measurement_eq
measurement_eq_number a b h = ground arith

configuration_eq-HasNumbers : (a b : Configuration) → configuration_eq a b ≡ true → HasNumbers b
unfolding configuration_eq chromaticity_eq
configuration_eq-HasNumbers Configuration.flux Configuration.flux h = tt
configuration_eq-HasNumbers (blackbody a) (blackbody b) h = measurement_eq_number a b h
configuration_eq-HasNumbers (chromatic a) (chromatic b) h =
    let (hx, hy) = (&&_iff _ _).0 h in
    (measurement_eq_number a.x b.x hx, measurement_eq_number a.y b.y hy)
configuration_eq-HasNumbers spectral spectral h = tt
configuration_eq-HasNumbers manual manual h = tt
configuration_eq-HasNumbers _ _ h = absurd cc

flux_eq-FluxHasNumbers : (a b : Flux) → flux_eq a b ≡ true → FluxHasNumbers b
unfolding flux_eq
flux_eq-FluxHasNumbers (relative a) (relative b) h = measurement_eq_number a b h

-- A fixture transition to a target that has a NaN never succeeds.
pub fixture-transition_numbers :
    {S : Type 0} (remote : RemoteRuntime S) (self : RemoteFixture) (t : Transition FixtureState)
    (s : S) (state : FixtureState)
    → (Fixture.transition remote self t s).0 ≡ ok state
    → StateHasNumbers t.target.configuration t.target.flux
unfolding transition_eq fixture_state_eq
fixture-transition_numbers remote self t s state h =
    let (_, _, (_, (t', _, same))) = (fixture-transition_iff remote self t s state).0 h in
    let (targets, _) = (&&_iff _ _).0 same in
    let (configurations, fluxes) = (&&_iff _ _).0 targets in
    (
      configuration_eq-HasNumbers t'.target.configuration t.target.configuration configurations,
      flux_eq-FluxHasNumbers t'.target.flux t.target.flux fluxes,
    )
