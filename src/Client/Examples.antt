-- ===== src/Client/Examples.antt =====
-- Runs of the handles on a concrete device, and their theorems there.
use enody_rs.Common.{
  ◌↔◌, ℕ, suc, ◌-◌, ◌≡◌, refl, ap, ◌∙◌, Bool, true, false, not, ◌&&◌, if◌then◌else◌, List, [], ◌∷◌,
  map, get_elem?, take, drop, Option, none, some, Result, ok, err, arith, ◌≢◌,
}
use enody_rs.Error.{Error}
use enody_rs.Message.Topology.{Identifier, default_host_info, FixtureInfo, SpectralSample}
use enody_rs.Message.Host.{HostCommand, HostEvent}
use enody_rs.Message.Emitter.{EmitterCommand, EmitterEvent, SpectralDataCommand, SpectralDataEvent}
use enody_rs.Message.Envelope.{Command, Event, CommandMessage, EventMessage, root, response_to}
use enody_rs.Runtime.{answers, error_event}
use enody_rs.Runtime.Await.{is_error}
use enody_rs.Message.Values.{
  Configuration, relative, linear, Transition, FixtureState, transition_eq, fixture_state_eq,
  StateHasNumbers,
}
use enody_rs.Message.Fixture.{FixtureEvent}
use enody_rs.Client.Fixture.{RemoteFixture, transition}
use enody_rs.Client.Transitions.{
  fixture-transition_iff, received_for, fixture-transition_numbers, EndsFixture,
}
use enody_rs.Client.{RemoteRuntime, request}
use enody_rs.Client.Host.{RemoteHost, fixtures}
use enody_rs.Client.Emitter.{RemoteEmitter, spectral_data, sample_count}
use enody_rs.Client.Discovery.{fixtures-Gives, Replies}
use enody_rs.Client.Spectrum.{spectral_data-assembles, spectral_data-Returned}

-- A device that answers each command at once; what does not end the wait runs into the timeout.
reply : (Command → Event) → (EventMessage → Bool) → CommandMessage → Result EventMessage Error
reply handler is_terminal c =
    let e = response_to c 1 (handler c.command) in
    if is_terminal e && not (is_error e) then ok e else err Error.timeout

reply-IsAnswer :
    (handler : Command → Event) (is_terminal : EventMessage → Bool) (c : CommandMessage)
    (e : EventMessage)
    → reply handler is_terminal c ≡ ok e
    → (answers c.identifier e ≡ true) × (is_terminal e ≡ true) × (is_error e ≡ false)
unfolding reply response_to
reply-IsAnswer handler is_terminal c e h = ground arith

unfoldable device : (Command → Event) → RemoteRuntime ℕ
unfolding reply
device handler = record {
  new_v4 = λ s. (s, suc s);
  execute_until = λ c d t s. (reply handler t c, s);
  execute_ok = λ c d t s e. reply-IsAnswer handler t c e;
}

abbrev Always : ℕ → Type 0
Always _ = Unit

device-Replies :
    (handler : Command → Event) (command : Command) (resource : Identifier) (event : Event)
    → handler command ≡ event
    → error_event event ≡ none
    → Replies Always (device handler) command resource event
unfolding device request reply response_to root
device-Replies handler command resource event h fine s r =
    let fits : error_event (handler command) ≡ none = ap error_event h ∙ fine in
    let e : EventMessage = response_to (root s command (some resource)) 1 (handler command) in
    let right : is_error e ≡ false = ground arith in
    let passed : reply handler (λ _. true) (root s command (some resource)) ≡ ok e =
      (unfold reply in rw right refl) in
    (e, passed, h, tt)

abbrev desk : RemoteHost
desk = record { info = default_host_info }

abbrev fixture_infos : List FixtureInfo
fixture_infos = (record { identifier = 5 }) ∷ (record { identifier = 6 }) ∷ []

abbrev info_event : Option FixtureInfo → Event
info_event none = Event.error Error.argument
info_event (some info) = Event.host (HostEvent.fixture_info info)

describe_host : Command → Event
describe_host (Command.host HostCommand.fixture_count) = Event.host (HostEvent.fixture_count 2)
describe_host (Command.host (HostCommand.fixture_info i)) = info_event (get_elem? fixture_infos i)
describe_host _ = Event.error Error.unsupported

fixtures-Gives_example :
    ((fixtures (device describe_host) desk 0).0
      ≡ ok (map (λ info. record { info = info }) fixture_infos))
    × Always (fixtures (device describe_host) desk 0).1
unfolding describe_host
fixtures-Gives_example =
    fixtures-Gives Always (device describe_host) desk fixture_infos
      (device-Replies describe_host _ _ _ refl refl)
      (λ i info e. device-Replies describe_host _ _ _ (ap info_event e) refl) 0 tt

abbrev lamp : RemoteEmitter
lamp = record { info = record { identifier = 9 } }

abbrev three_samples : List SpectralSample
three_samples =
    (record { wavelength = 1; measurement = 2 })
    ∷ (record { wavelength = 3; measurement = 4 })
    ∷ (record { wavelength = 5; measurement = 6 })
    ∷ []

describe_lamp : Command → Event
describe_lamp (Command.emitter (EmitterCommand.spectral_data SpectralDataCommand.sample_count)) =
    Event.emitter (EmitterEvent.spectral_data (SpectralDataEvent.sample_count 3))
describe_lamp
      (Command.emitter (EmitterCommand.spectral_data (SpectralDataCommand.sample_batch a b))) =
    Event.emitter (
      EmitterEvent.spectral_data
        (SpectralDataEvent.sample_batch (take (b - a) (drop a three_samples))))
describe_lamp _ = Event.error Error.unsupported

spectral_data-assembles_example :
    ((spectral_data (device describe_lamp) lamp 0).0
      ≡ ok (some (record { samples = three_samples })))
    × Always (spectral_data (device describe_lamp) lamp 0).1
unfolding describe_lamp
spectral_data-assembles_example =
    spectral_data-assembles Always (device describe_lamp) lamp three_samples (omega arith)
      (device-Replies describe_lamp _ _ _ refl refl)
      (λ offset end lo hi room. device-Replies describe_lamp _ _ _ refl refl) 0 tt

abbrev spot : RemoteFixture
spot = record { info = record { identifier = 5 } }

abbrev dimmed : FixtureState
dimmed = record { configuration = Configuration.flux; flux = relative 0x3f00_0000 }

abbrev fade : Transition FixtureState
fade = record { target = dimmed; method = linear 1000 }

run_fade : Command → Event
run_fade _ = Event.fixture (FixtureEvent.transition_end fade dimmed)

fade_succeeds : (transition (device run_fade) spot fade 0).0 ≡ ok dimmed
unfolding transition device reply response_to root run_fade transition_eq fixture_state_eq
fade_succeeds = refl

fixture-transition_iff_example : ((transition (device run_fade) spot fade 0).0 ≡ ok dimmed) ↔ (
    (e : EventMessage) × (received_for (device run_fade) spot fade 0 ≡ ok e)
    × EndsFixture spot fade dimmed e)
fixture-transition_iff_example = fixture-transition_iff (device run_fade) spot fade 0 dimmed

fixture-transition_numbers_example : StateHasNumbers fade.target.configuration fade.target.flux
fixture-transition_numbers_example =
    fixture-transition_numbers (device run_fade) spot fade 0 dimmed fade_succeeds

spectral_data-Returned_example : (spectral_data (device describe_lamp) lamp 0).0 ≢ ok none
unfolding device request reply response_to root describe_lamp sample_count
spectral_data-Returned_example =
    spectral_data-Returned (device describe_lamp) lamp 0
      (λ count h. let e : 3 ≡ count = cc in omega arith)
