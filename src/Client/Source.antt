-- ===== src/Client/Source.antt =====
-- `RemoteSource` of src/source.rs.
use enody_rs.Common.{ℕ, Bool, false, ◌&&◌, List, Option, none, some, Result, ok, err, if◌then◌else◌}
use enody_rs.Error.{Error}
use enody_rs.Message.Topology.{Identifier, SourceInfo, EmitterInfo}
use enody_rs.Message.Values.{
  Configuration, Flux, SourceState, Transition, duration, from_secs, saturating_add, transition_eq,
  source_state_eq,
}
use enody_rs.Message.Source.{SourceCommand, SourceEvent}
use enody_rs.Message.Envelope.{Command, Event, EventMessage}
use enody_rs.Runtime.{answers}
use enody_rs.Client.{
  RemoteRuntime, Exec, ◌>>=◌, lift, expected, same_resource, collect, request, root_message,
}
use enody_rs.Client.Emitter.{RemoteEmitter}

pub record RemoteSource : Type 0 where
  pub info : SourceInfo

abbrev pub count_of : Event → Option ℕ
count_of (Event.source (SourceEvent.emitter_count count)) = some count
count_of _ = none

abbrev pub info_of : Event → Option EmitterInfo
info_of (Event.source (SourceEvent.emitter_info info)) = some info
info_of _ = none

abbrev state_of : Event → Option SourceState
state_of (Event.source (SourceEvent.state state)) = some state
state_of _ = none

abbrev displayed : Event → Option (Configuration × Flux)
displayed (Event.source (SourceEvent.display configuration flux)) = some (configuration, flux)
displayed _ = none

abbrev pub transition_end_of : Event → Option (Transition SourceState × SourceState)
transition_end_of (Event.source (SourceEvent.transition_end transition state)) =
    some (transition, state)
transition_end_of _ = none

abbrev pub ends_with : Transition SourceState → Option (Transition SourceState × SourceState) → Bool
ends_with expected_transition none = false
ends_with expected_transition (some (t, state)) =
    transition_eq source_state_eq t expected_transition

abbrev pub end_state : Option (Transition SourceState × SourceState) → Option SourceState
end_state none = none
end_state (some (t, state)) = some state

-- The test `transition` passes on: the end of that transition, in answer to that command.
abbrev pub is_end : Identifier → Transition SourceState → EventMessage → Bool
is_end context transition message =
    answers context message && ends_with transition (transition_end_of message.event)

module _ {S : Type 0} (remote : RemoteRuntime S) (self : RemoteSource) where
  unfoldable pub emitter_count : Exec S ℕ
  emitter_count = do
    message ←
        request remote (Command.source SourceCommand.emitter_count) (some self.info.identifier)
    lift (expected (count_of message.event))

  unfoldable pub state : Exec S SourceState
  state = do
    message ← request remote (Command.source SourceCommand.state) (some self.info.identifier)
    lift (
        if same_resource self.info.identifier message.resource
        then expected (state_of message.event)
        else err Error.unexpected_response)

  unfoldable pub emitter_info : ℕ → Exec S EmitterInfo
  emitter_info index = do
    message ←
        request remote (Command.source (SourceCommand.emitter_info index))
          (some self.info.identifier)
    lift (expected (info_of message.event))

  unfoldable pub emitter_at : ℕ → Exec S RemoteEmitter
  emitter_at i = do info ← emitter_info i; lift (ok (record { info = info }))

  unfoldable pub emitters : Exec S (List RemoteEmitter)
  emitters = do count ← emitter_count; collect emitter_at 0 count

  unfoldable pub display : Configuration → Flux → Exec S (Configuration × Flux)
  display config target_flux = do
    message ←
        request remote (Command.source (SourceCommand.display config target_flux))
          (some self.info.identifier)
    lift (expected (displayed message.event))

  -- What `transition` makes of the event that ended its wait.
  abbrev pub transition_result : EventMessage → Result SourceState Error
  transition_result message =
      if same_resource self.info.identifier message.resource
      then expected (end_state (transition_end_of message.event))
      else err Error.unexpected_response

  unfoldable pub transition : Transition SourceState → Exec S SourceState
  transition t = do
    command_message ←
        root_message remote (Command.source (SourceCommand.transition t))
          (some self.info.identifier)
    message ←
        remote.execute_until command_message (saturating_add (duration t.method) (from_secs 2))
          (is_end command_message.identifier t)
    lift (transition_result message)
