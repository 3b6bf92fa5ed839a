-- ===== src/Message/Envelope.antt =====
-- Command and event envelopes of src/message.rs. `Uuid::new_v4()` is an argument.
use enody_rs.Common.{Option, none, some}
use enody_rs.Error.{Error}
use enody_rs.Message.Topology.{Identifier}
use enody_rs.Message.Host.{HostCommand, HostEvent}
use enody_rs.Message.Runtime.{RuntimeCommand, RuntimeEvent}
use enody_rs.Message.Environment.{EnvironmentCommand, EnvironmentEvent}
use enody_rs.Message.Fixture.{FixtureCommand, FixtureEvent}
use enody_rs.Message.Source.{SourceCommand, SourceEvent}
use enody_rs.Message.Emitter.{EmitterCommand, EmitterEvent}

pub data Command : Type 0 where
  internal : Command
  host : HostCommand → Command
  runtime : RuntimeCommand → Command
  environment : EnvironmentCommand → Command
  fixture : FixtureCommand → Command
  source : SourceCommand → Command
  emitter : EmitterCommand → Command

pub data Event : Type 0 where
  error : Error → Event
  internal : Event
  host : HostEvent → Event
  runtime : RuntimeEvent → Event
  environment : EnvironmentEvent → Event
  fixture : FixtureEvent → Event
  source : SourceEvent → Event
  emitter : EmitterEvent → Event

pub record CommandMessage : Type 0 where
  pub identifier : Identifier
  pub context : Option Identifier
  pub resource : Option Identifier
  pub command : Command

pub record EventMessage : Type 0 where
  pub identifier : Identifier
  pub context : Option Identifier
  pub resource : Option Identifier
  pub event : Event

pub data Message : Type 0 where
  command_message : CommandMessage → Message
  event_message : EventMessage → Message

unfoldable pub root : Identifier → Command → Option Identifier → CommandMessage
root fresh command resource = record {
  identifier = fresh;
  context = none;
  resource = resource;
  command = command;
}

unfoldable pub child : CommandMessage → Identifier → Command → Option Identifier → CommandMessage
child parent fresh command resource = record {
  identifier = fresh;
  context = some parent.identifier;
  resource = resource;
  command = command;
}

unfoldable pub response_to : CommandMessage → Identifier → Event → EventMessage
response_to command fresh event = record {
  identifier = fresh;
  context = some command.identifier;
  resource = command.resource;
  event = event;
}
