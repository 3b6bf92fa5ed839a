-- ===== src/Message/Environment.antt =====
-- Commands and events of an environment (src/message.rs).
use enody_rs.Common.{ℕ}
use enody_rs.Message.Topology.{EnvironmentInfo, RuntimeInfo, FixtureInfo}
use enody_rs.Message.Values.{Configuration, Flux}

pub data EnvironmentCommand : Type 0 where
  info : EnvironmentCommand
  display : Configuration → Flux → EnvironmentCommand
  runtime_count : EnvironmentCommand
  runtime_info : ℕ → EnvironmentCommand
  fixture_count : EnvironmentCommand
  fixture_info : ℕ → EnvironmentCommand

pub data EnvironmentEvent : Type 0 where
  info : EnvironmentInfo → EnvironmentEvent
  display : Configuration → Flux → EnvironmentEvent
  runtime_count : ℕ → EnvironmentEvent
  runtime_info : RuntimeInfo → EnvironmentEvent
  fixture_count : ℕ → EnvironmentEvent
  fixture_info : FixtureInfo → ℕ → EnvironmentEvent
