-- ===== src/Message/Emitter.antt =====
-- Commands and events of an emitter and of its spectral data (src/message.rs).
use enody_rs.Common.{ℕ, List}
use enody_rs.Measurement.{Measurement}
use enody_rs.Message.Topology.{EmitterInfo, EmitterState, SpectralDataInfo, SpectralSample}
use enody_rs.Message.Values.{Flux}

pub data SpectralDataCommand : Type 0 where
  info : SpectralDataCommand
  domain : SpectralDataCommand
  sample_count : SpectralDataCommand
  sample : ℕ → SpectralDataCommand
  sample_batch : ℕ → ℕ → SpectralDataCommand

pub data SpectralDataEvent : Type 0 where
  info : SpectralDataInfo → SpectralDataEvent
  domain : Measurement → Measurement → SpectralDataEvent
  sample_count : ℕ → SpectralDataEvent
  sample : SpectralSample → SpectralDataEvent
  sample_batch : List SpectralSample → SpectralDataEvent

pub data EmitterCommand : Type 0 where
  info : EmitterCommand
  flux_range : EmitterCommand
  flux_set : Flux → EmitterCommand
  spectral_data : SpectralDataCommand → EmitterCommand
  state : EmitterCommand

pub data EmitterEvent : Type 0 where
  info : EmitterInfo → EmitterEvent
  flux_range : Flux → Flux → EmitterEvent
  flux_set : Flux → EmitterEvent
  spectral_data : SpectralDataEvent → EmitterEvent
  state : EmitterState → EmitterEvent
