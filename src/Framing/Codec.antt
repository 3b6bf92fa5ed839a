-- ===== src/Framing/Codec.antt =====
-- The conversions of src/serialization.rs between a message and its frame. The third-party encoding
-- of a message is a pair of parameters.
use enody_rs.Common.{Bytes, Option, some, Result, ok, ◌>>=◌, ok_or, ◌≡◌, ap, ◌∙◌}
use enody_rs.Error.{Error}
use enody_rs.Framing.{frame_bytes, unframe_bytes}
use enody_rs.Framing.RoundTrip.{unframe-frame}

module _ {M : Type 0} (to_allocvec : M → Option Bytes) (from_bytes : Bytes → Option M) where
  -- `Message::try_from(buffer)`
  unfoldable pub message_try_from : Bytes → Result M Error
  message_try_from bytes = do
    unframed_bytes ← unframe_bytes bytes
    ok_or (from_bytes unframed_bytes) Error.serialization

  -- `UsbDataBuffer::try_from(message)`
  unfoldable pub buffer_try_from : M → Result Bytes Error
  buffer_try_from message = do
    message_bytes ← ok_or (to_allocvec message) Error.serialization
    ok (frame_bytes message_bytes)

  -- A message that encodes to bytes that decode to it survives the conversion to a frame and back.
  pub buffer-message :
      (message : M) (payload : Bytes)
      → to_allocvec message ≡ some payload
      → from_bytes payload ≡ some message
      → (buffer_try_from message >>= message_try_from) ≡ ok message
  unfolding buffer_try_from message_try_from
  buffer-message message payload encodes decodes = rw encodes (
      ap (λ r. r >>= λ bytes. ok_or (from_bytes bytes) Error.serialization) (unframe-frame payload)
      ∙ ap (λ o. ok_or o Error.serialization) decodes)
