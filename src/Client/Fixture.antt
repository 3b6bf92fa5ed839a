-- ===== src/Client/Fixture.antt =====
-- `RemoteFixture` of src/fixture.rs.
use enody_rs.Common.{ℕ, Bool, false, ◌&&◌, List, Option, none, some, Result, ok, err, if◌then◌else◌}
use enody_rs.Error.{Error}
use enody_rs.Message.Topology.{Identifier, FixtureInfo, SourceInfo}
use enody_rs.Message.Values.{
  Configuration, Flux, FixtureState, Transition, duration, from_secs, saturating_add, transition_eq,
  fixture_state_eq,
}
use enody_rs.Message.Fixture.{FixtureCommand, FixtureEvent}
use enody_rs.Message.Envelope.{Command, Event, EventMessage}
use enody_rs.Runtime.{answers}
use enody_rs.Client.{
  RemoteRuntime, Exec, ◌>>=◌, lift, expected, same_resource, collect, request, root_message,
}
use enody_rs.Client.Source.{RemoteSource}

pub record RemoteFixture : Type 0 where
  pub info : FixtureInfo

abbrev pub count_of : Event → Option ℕ
count_of (Event.fixture (FixtureEvent.source_count count)) = some count
count_of _ = none

abbrev pub info_of : Event → Option SourceInfo
info_of (Event.fixture (FixtureEvent.source_info info)) = some info
info_of _ = none

abbrev state_of : Event → Option FixtureState
state_of (Event.fixture (FixtureEvent.state state)) = some state
state_of _ = none

abbrev displayed : Event → Option (Configuration × Flux)
displayed (Event.fixture (FixtureEvent.display configuration flux)) = some (configuration, flux)
displayed _ = none

abbrev pub transition_end_of : Event → Option (Transition FixtureState × FixtureState)
transition_end_of (Event.fixture (FixtureEvent.transition_end transition state)) =
    some (transition, state)
transition_end_of _ = none

abbrev pub ends_with :
    Transition FixtureState → Option (Transition FixtureState × FixtureState) → Bool
ends_with expected_transition none = false
ends_with expected_transition (some (t, state)) =
    transition_eq fixture_state_eq t expected_transition

abbrev pub end_state : Option (Transition FixtureState × FixtureState) → Option FixtureState
end_state none = none
end_state (some (t, state)) = some state

-- The test `transition` passes on: the end of that transition, in answer to that command.
abbrev pub is_end : Identifier → Transition FixtureState → EventMessage → Bool
is_end context transition message =
    answers context message && ends_with transition (transition_end_of message.event)

module _ {S : Type 0} (remote : RemoteRuntime S) (self : RemoteFixture) where
  unfoldable pub source_count : Exec S ℕ
  source_count = do
    message ←
        request remote (Command.fixture FixtureCommand.source_count) (some self.info.identifier)
    lift (expected (count_of message.event))

  unfoldable pub state : Exec S FixtureState
  state = do
    message ← request remote (Command.fixture FixtureCommand.state) (some self.info.identifier)
    lift (
        if same_resource self.info.identifier message.resource
        then expected (state_of message.event)
        else err Error.unexpected_response)

  unfoldable pub source_info : ℕ → Exec S SourceInfo
  source_info index = do
    message ←
        request remote (Command.fixture (FixtureCommand.source_info index))
          (some self.info.identifier)
    lift (expected (info_of message.event))

  unfoldable pub source_at : ℕ → Exec S RemoteSource
  source_at i = do info ← source_info i; lift (ok (record { info = info }))

  unfoldable pub sources : Exec S (List RemoteSource)
  sources = do count ← source_count; collect source_at 0 count

  unfoldable pub display : Configuration → Flux → Exec S (Configuration × Flux)
  display config target_flux = do
    message ←
        request remote (Command.fixture (FixtureCommand.display config target_flux))
          (some self.info.identifier)
    lift (expected (displayed message.event))

  -- What `transition` makes of the event that ended its wait.
  abbrev pub transition_result : EventMessage → Result FixtureState Error
  transition_result message =
      if same_resource self.info.identifier message.resource
      then expected (end_state (transition_end_of message.event))
      else err Error.unexpected_response

  unfoldable pub transition : Transition FixtureState → Exec S FixtureState
  transition t = do
    command_message ←
        root_message remote (Command.fixture (FixtureCommand.transition t))
          (some self.info.identifier)
    message ←
        remote.execute_until command_message (saturating_add (duration t.method) (from_secs 2))
          (is_end command_message.identifier t)
    lift (transition_result message)
