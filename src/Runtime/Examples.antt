-- ===== src/Runtime/Examples.antt =====
-- Runs of src/runtime.rs on concrete messages, and its theorems at concrete inputs.
use enody_rs.Common.{
  ◌≤◌, ◌≡◌, refl, Bool, true, All, length, List, [], ◌∷◌, find, none, some, ok, err,
}
use enody_rs.Error.{Error}
use enody_rs.Message.Topology.{Identifier}
use enody_rs.Message.Host.{HostCommand, HostEvent}
use enody_rs.Message.Envelope.{
  Command, Event, CommandMessage, EventMessage, Message, event_message, command_message,
}
use enody_rs.Runtime.{new, deadline_elapsed, await_response, command_event_buffer, dispatch}
use enody_rs.Runtime.Await.{outcome, decides, await-first}
use enody_rs.Runtime.System.{System, here, next, registering, dispatching, after}
use enody_rs.Runtime.Routing.{InFlight}
use enody_rs.Runtime.Reachable.{start, begun, channel_of, responses_routed}
use enody_rs.Runtime.Execute.{execute_command_with_timeout_until}
use enody_rs.Runtime.Execute.Outcome.{answers_among, execute-await}

-- An event with the given identifier in answer to a command.
abbrev answer : Identifier → Identifier → Event → EventMessage
answer identifier context event = record {
  identifier = identifier;
  context = some context;
  resource = none;
  event = event;
}

abbrev count_reply : EventMessage
count_reply = answer 101 8 (Event.host (HostEvent.fixture_count 2))

abbrev stray : EventMessage
stray = answer 102 99 Event.internal

abbrev failure : EventMessage
failure = answer 103 8 (Event.error Error.busy)

abbrev count_fixtures : CommandMessage
count_fixtures = record {
  identifier = 8;
  context = none;
  resource = some 5;
  command = Command.host HostCommand.fixture_count;
}

-- Every event is terminal, as for `execute_command`.
abbrev any_event : EventMessage → Bool
any_event _ = true

-- Command 7 is registered, then command 8.
abbrev two_commands : System
two_commands = begun (begun start 7) 8

responses_routed_example :
    let t = after (dispatch two_commands.inner (event_message count_reply)) in
    All (λ e. e.context ≡ some 8) (t.inner.channels (channel_of (begun start 7))).queue
    × (length (t.inner.channels (channel_of (begun start 7))).queue ≤ command_event_buffer)
    × InFlight 8 (channel_of (begun start 7)) t.inner.next_channel t.sending
responses_routed_example =
    responses_routed (begun start 7) _ 8 (next here (registering 7))
      (next here (dispatching (event_message count_reply) refl))

await-first_example :
    await_response 8 any_event (stray ∷ failure ∷ count_reply ∷ []) deadline_elapsed
    ≡ outcome 8 any_event
        (find (decides 8 any_event) (stray ∷ failure ∷ count_reply ∷ []))
        deadline_elapsed
await-first_example = await-first 8 any_event (stray ∷ failure ∷ count_reply ∷ []) deadline_elapsed

-- The error that comes first is returned, not the count behind it.
error_first :
    await_response 8 any_event (stray ∷ failure ∷ count_reply ∷ []) deadline_elapsed
    ≡ err Error.busy
unfolding await_response
error_first = await-first_example

abbrev delivered_messages : List Message
delivered_messages =
    event_message stray ∷ command_message count_fixtures ∷ event_message count_reply ∷ []

execute-await_example :
    let accepted =
      execute_command_with_timeout_until new count_fixtures any_event
        (ok tt)
        delivered_messages
        deadline_elapsed in
    (accepted.1 ≡ await_response 8 any_event (answers_among 8 delivered_messages) deadline_elapsed)
    × (accepted.0.pending ≡ [])
    × ((e : Error)
        → let refused =
            execute_command_with_timeout_until new count_fixtures any_event
              (err e)
              delivered_messages
              deadline_elapsed in
          (refused.1 ≡ err e) × (refused.0.pending ≡ []))
execute-await_example =
    execute-await new count_fixtures any_event delivered_messages deadline_elapsed refl refl
