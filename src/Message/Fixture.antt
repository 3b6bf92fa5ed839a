-- ===== src/Message/Fixture.antt =====
-- Commands and events of a fixture (src/message.rs).
use enody_rs.Common.{ℕ}
use enody_rs.Message.Topology.{FixtureInfo, SourceInfo}
use enody_rs.Message.Values.{Configuration, Flux, FixtureState, Transition}

pub data FixtureCommand : Type 0 where
  info : FixtureCommand
  display : Configuration → Flux → FixtureCommand
  source_count : FixtureCommand
  source_info : ℕ → FixtureCommand
  state : FixtureCommand
  transition : Transition FixtureState → FixtureCommand

pub data FixtureEvent : Type 0 where
  info : FixtureInfo → FixtureEvent
  display : Configuration → Flux → FixtureEvent
  source_count : ℕ → FixtureEvent
  source_info : SourceInfo → FixtureEvent
  state : FixtureState → FixtureEvent
  transition_start : FixtureState → Transition FixtureState → FixtureEvent
  transition_end : Transition FixtureState → FixtureState → FixtureEvent
