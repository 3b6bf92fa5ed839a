-- ===== src/Wifi/Pairing.antt =====
-- `generate_token_from_endpoint` of src/wifi.rs: the unauthenticated handshake, and the wait for a
-- token, which tells of each approval that the device asks for. A frame arrives at a time in
-- nanoseconds from the start of the wait.
pub mod Granted
use enody_rs.Common.{
  ℕ, Bytes, Text, ltb, List, [], ◌∷◌, ◌++◌, map, Result, ok, err, ◌>>=◌, ok_or, if◌then◌else◌, ◌≡◌,
  ◌↔◌, refl, sym, ap, ◌∙◌, Result-cases, inl, inr, subst,
}
use enody_rs.Error.{Error}
use enody_rs.Message.Runtime.{Token, RuntimeEvent}
use enody_rs.Message.Envelope.{Event, Message}
use enody_rs.Wifi.Protocol.{
  Response, wifi_error, map_noise, client_pairing_noise_frame, Transport, Handshake, Encodings,
}
use enody_rs.Wifi.Session.{Socket, send_frame, receive_frame, only_empty}

-- 45 seconds.
abbrev pub pairing_token_timeout : ℕ
pairing_token_timeout = 45000000000

pub record Arrival : Type 0 where
  pub at : ℕ
  pub frame : Result Response Error

-- What an event means for the wait: an approval that is asked for, the token, or the end.
pub data Verdict : Type 0 where
  approval : Text → Verdict
  generated : Token → Verdict
  failed : Error → Verdict

unfoldable pub verdict : Event → Verdict
verdict (Event.runtime (RuntimeEvent.token_generate_approval method)) = approval method
verdict (Event.runtime (RuntimeEvent.token_generated token)) = generated token
verdict (Event.error error) = failed error
verdict _ = failed Error.unexpected_response

abbrev pub message_verdict : Message → Verdict
message_verdict (Message.event_message event) = verdict event.event
message_verdict (Message.command_message command) = failed Error.unexpected_response

-- `tokio::time::timeout(remaining, ..)` and `frame?`.
abbrev pub in_time : Arrival → Result Response Error
in_time arrival = if ltb pairing_token_timeout arrival.at then err Error.timeout else arrival.frame

abbrev pub pairing_payload : Response → Result Bytes Error
pairing_payload (Response.pairing_noise payload) = ok payload
pairing_payload (Response.error error) = err (wifi_error error)
pairing_payload (Response.noise payload) = err Error.unexpected_response

module _ {T : Type 0} (codec : Encodings Message) (transport : Transport T) where
  abbrev pub opened : Bytes × T → Result (Verdict × T) Error
  opened (plaintext, session) =
      ok_or (codec.message_of plaintext) Error.serialization >>= λ message.
      ok (message_verdict message, session)

  -- What an arrival means, and the session behind it.
  abbrev pub judge : T → Arrival → Result (Verdict × T) Error
  judge session arrival = in_time arrival >>= λ frame. pairing_payload frame >>= λ payload.
      map_noise (transport.read_message session payload) >>= opened

  -- The methods that `on_approval` is called with, and the result.
  abbrev pub conclude : Verdict → List Text × Result Token Error → List Text × Result Token Error
  conclude (approval method) later = (method ∷ later.0, later.1)
  conclude (generated token) later = ([], ok token)
  conclude (failed e) later = ([], err e)

  -- The loop; where nothing more arrives, the deadline elapses.
  unfoldable pub await_token : T → List Arrival → List Text × Result Token Error
  await_token session [] = ([], err Error.timeout)
  await_token session (arrival ∷ arrivals) = elim (judge session arrival) [
    | err e ↦ ([], err e)
    | ok judged ↦ conclude judged.0 (await_token judged.1 arrivals)
  ]

module _ {H T : Type 0} (codec : Encodings Message) (handshake : Handshake H T) where
  abbrev pub on_answer : H → Response → Result H Error
  on_answer noise answer = do
    payload ← pairing_payload answer
    read ← map_noise (handshake.read_message noise payload)
    only_empty codec handshake read

  -- The handshake on an open stream, with the initiator that `build_pairing_noise_initiator` gives.
  unfoldable pub pair : Result H Error → Socket → Result (T × Socket) Error
  pair initiator stream = do
    noise ← initiator
    (handshake_bytes, noise') ← map_noise (handshake.write_message noise [])
    frame ← client_pairing_noise_frame handshake_bytes
    sent ← send_frame codec handshake stream frame
    (answer, answered) ← receive_frame codec handshake sent
    finished ← on_answer noise' answer
    session ← map_noise (handshake.into_transport_mode finished)
    ok (session, answered)

  abbrev pub then_await :
      Transport T → List Arrival → Result (T × Socket) Error → List Text × Result Token Error
  then_await transport arrivals (err e) = ([], err e)
  then_await transport arrivals (ok paired) = await_token codec transport paired.0 arrivals

  -- With what opening the stream gives, and the frames that arrive behind the handshake.
  unfoldable pub generate_token_from_endpoint :
      Transport T
      → Result H Error
      → Result Socket Error
      → List Arrival
      → List Text × Result Token Error
  generate_token_from_endpoint transport initiator stream arrivals =
      then_await transport arrivals (stream >>= pair initiator)
