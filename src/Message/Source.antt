-- ===== src/Message/Source.antt =====
-- Commands and events of a source (src/message.rs).
use enody_rs.Common.{ℕ}
use enody_rs.Message.Topology.{SourceInfo, EmitterInfo}
use enody_rs.Message.Values.{Configuration, Flux, SourceState, Transition}

pub data SourceCommand : Type 0 where
  info : SourceCommand
  display : Configuration → Flux → SourceCommand
  emitter_count : SourceCommand
  emitter_info : ℕ → SourceCommand
  state : SourceCommand
  transition : Transition SourceState → SourceCommand

pub data SourceEvent : Type 0 where
  info : SourceInfo → SourceEvent
  display : Configuration → Flux → SourceEvent
  emitter_count : ℕ → SourceEvent
  emitter_info : EmitterInfo → SourceEvent
  state : SourceState → SourceEvent
  transition_start : SourceState → Transition SourceState → SourceEvent
  transition_end : Transition SourceState → SourceState → SourceEvent
