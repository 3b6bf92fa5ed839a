-- ===== src/Client/Emitter.antt =====
-- `RemoteEmitter` of src/emitter.rs, and the assembly of its spectral data from batches.
use enody_rs.Common.{
  ℕ, zero, suc, ◌+◌, ◌%◌, ◌^◌, min, Bool, true, false, ltb, List, [], ◌∷◌, ◌++◌, length, Option,
  none, some, Result, ok, err, if◌then◌else◌,
}
use enody_rs.Error.{Error}
use enody_rs.Message.Topology.{
  EmitterInfo, EmitterState, SpectralSample, SpectralData, default_sample_count,
}
use enody_rs.Message.Values.{Flux}
use enody_rs.Message.Network.{spectral_sample_batch_size}
use enody_rs.Message.Emitter.{SpectralDataCommand, SpectralDataEvent, EmitterCommand, EmitterEvent}
use enody_rs.Message.Envelope.{Command, Event}
use enody_rs.Client.{RemoteRuntime, Exec, ◌>>=◌, lift, expected, same_resource, request}

pub record RemoteEmitter : Type 0 where
  pub info : EmitterInfo

abbrev state_of : Event → Option EmitterState
state_of (Event.emitter (EmitterEvent.state state)) = some state
state_of _ = none

abbrev set_to : Event → Option Flux
set_to (Event.emitter (EmitterEvent.flux_set result_flux)) = some result_flux
set_to _ = none

abbrev pub count_of : Event → Option ℕ
count_of (Event.emitter (EmitterEvent.spectral_data (SpectralDataEvent.sample_count count))) =
    some count
count_of _ = none

abbrev pub batch_of : Event → Option (List SpectralSample)
batch_of (Event.emitter (EmitterEvent.spectral_data (SpectralDataEvent.sample_batch batch))) =
    some batch
batch_of _ = none

-- `for sample in batch { samples.push(sample).map_err(|_| InsufficientData)? }`, on a vector with
-- room for 401.
unfoldable pub push_all :
    List SpectralSample → List SpectralSample → Result (List SpectralSample) Error
push_all samples [] = ok samples
push_all samples (x ∷ xs) =
    let rest = push_all (samples ++ x ∷ []) xs in
    if ltb (length samples) default_sample_count then rest else err Error.insufficient_data

-- `count.min(offset + SPECTRAL_SAMPLE_BATCH_SIZE as u32)`. The sum wraps; a build with overflow
-- checks panics there.
abbrev pub batch_end : ℕ → ℕ → ℕ
batch_end offset count = min count ((offset + spectral_sample_batch_size) % 2 ^ 32)

-- A round of a `while` loop: what comes after the loop, or its body and the rounds behind it.
abbrev pub while_next : {A : Type 0} → Bool → A → A → A
while_next false after body = after
while_next true after body = body

abbrev pub with_samples : Option (List SpectralSample) → Option SpectralData
with_samples none = none
with_samples (some samples) = some (record { samples = samples })

module _ {S : Type 0} (remote : RemoteRuntime S) (self : RemoteEmitter) where
  unfoldable pub state : Exec S EmitterState
  state = do
    message ← request remote (Command.emitter EmitterCommand.state) (some self.info.identifier)
    lift (
        if same_resource self.info.identifier message.resource
        then expected (state_of message.event)
        else err Error.unexpected_response)

  unfoldable pub set_flux : Flux → Exec S Flux
  set_flux flux = do
    message ←
        request remote (Command.emitter (EmitterCommand.flux_set flux)) (some self.info.identifier)
    lift (expected (set_to message.event))

  unfoldable pub sample_count : Exec S ℕ
  sample_count = do
    message ←
        request remote
          (Command.emitter (EmitterCommand.spectral_data SpectralDataCommand.sample_count))
          (some self.info.identifier)
    lift (expected (count_of message.event))

  unfoldable pub sample_batch : ℕ → ℕ → Exec S (List SpectralSample)
  sample_batch offset end = do
    message ←
        request remote
          (Command.emitter
            (EmitterCommand.spectral_data (SpectralDataCommand.sample_batch offset end)))
          (some self.info.identifier)
    lift (expected (batch_of message.event))

  -- `while offset < count { .. }`; `none` when the fuel runs out.
  unfoldable pub sample_batches :
      ℕ → ℕ → ℕ → List SpectralSample → Exec S (Option (List SpectralSample))
  sample_batches zero count offset samples = lift (ok none)
  sample_batches (suc fuel) count offset samples =
      while_next (ltb offset count) (lift (ok (some samples))) (do
        batch ← sample_batch offset (batch_end offset count)
        samples' ← lift (push_all samples batch)
        sample_batches fuel count (batch_end offset count) samples')

  -- One more than the count is fuel enough: every batch moves the offset on.
  unfoldable pub spectral_data : Exec S (Option SpectralData)
  spectral_data = do
    count ← sample_count
    samples ← sample_batches (suc count) count 0 []
    lift (ok (with_samples samples))
