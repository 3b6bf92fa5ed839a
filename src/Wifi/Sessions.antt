-- ===== src/Wifi/Sessions.antt =====
-- A session of src/wifi.rs between concrete ends, and the theorems there.
use enody_rs.Common.{
  codes, ◌↔◌, ◌≡◌, refl, ap, sym, ◌∙◌, ◌≤◌, ◌<◌, ℕ, suc, zero, ◌==◌, leb, if◌then◌else◌, Bytes,
  true, List, [], ◌∷◌, length, Option, none, some, Result, ok, err, arith, Bool-cases, inl, inr,
}
use enody_rs.Wifi.Frames.{end_of_stream, frame_max_len, wifi_message_max_len, write_frame, u16_len}
use enody_rs.Wifi.Protocol.{Response, NoiseError, decrypt, Transport, Encodings}
use enody_rs.Message.Runtime.{Token, RuntimeEvent}
use enody_rs.Message.Envelope.{Event, Message}
use enody_rs.Wifi.Pairing.{Arrival, verdict, await_token}
use enody_rs.Wifi.Pairing.Granted.{Brings, await_token_iff}
use enody_rs.Wifi.Session.{read_task}
use enody_rs.Wifi.Session.Delivery.{Decodes, Paired, read_task-delivers}

-- A message is a byte, and only the session's responses have an encoding.
abbrev response_bytes : Response → Option Bytes
response_bytes (Response.noise payload) =
    if leb (length payload) 2064 then some (1 ∷ payload) else none
response_bytes (Response.pairing_noise payload) = none
response_bytes (Response.error e) = none

abbrev tail : Bytes → Option Response
tail [] = none
tail (b ∷ payload) = some (Response.noise payload)

abbrev head : Bytes → Option ℕ
head [] = none
head (b ∷ payload) = some b

abbrev codec : Encodings ℕ
codec = record {
  message_bytes = λ message. some (message ∷ []);
  message_of = head;
  request_bytes = λ request. none;
  request_of = λ bytes. none;
  response_bytes = response_bytes;
  response_of = tail;
}

-- A session is a counter, which stands in front of what it encrypts.
abbrev open_counted : ℕ → Bytes → Result (Bytes × ℕ) NoiseError
open_counted n [] = err decrypt
open_counted n (b ∷ payload) = if b == n then ok (payload, suc n) else err decrypt

abbrev counter : Transport ℕ
counter = record {
  write_message = λ n payload. ok (n ∷ payload, suc n);
  read_message = open_counted;
}

response_back :
    (frame : Response) (payload : Bytes)
    → response_bytes frame ≡ some payload
    → tail payload ≡ some frame
response_back (Response.noise p) payload = elim (Bool-cases (leb (length p) 2064)) [
  | inl e ↦ rw e (λ h. let same : (1 ∷ p) ≡ payload = cc in rw⁻¹ same refl)
  | inr e ↦ rw e (λ h. absurd cc)
]
response_back (Response.pairing_noise p) payload = λ h. absurd cc
response_back (Response.error e) payload = λ h. absurd cc

response_size :
    (frame : Response) (payload : Bytes)
    → response_bytes frame ≡ some payload
    → (0 < length payload) × (length payload ≤ frame_max_len)
response_size (Response.noise p) payload = elim (Bool-cases (leb (length p) 2064)) [
  | inl e ↦ rw e (λ h.
      let same : (1 ∷ p) ≡ payload = cc in
      let sizes : suc (length p) ≡ length payload = ap length same in
      (omega (arith, sizes), ground (arith, sizes)))
  | inr e ↦ rw e (λ h. absurd cc)
]
response_size (Response.pairing_noise p) payload = λ h. absurd cc
response_size (Response.error e) payload = λ h. absurd cc

message_back :
    (message : ℕ) (payload : Bytes)
    → codec.message_bytes message ≡ some payload
    → head payload ≡ some message
message_back message payload h = let same : (message ∷ []) ≡ payload = cc in rw⁻¹ same refl

codec-Decodes : Decodes codec
codec-Decodes = record {
  message_back = message_back;
  response_back = response_back;
  response_size = response_size;
}

counter_opens :
    (writer reader writer' : ℕ) (payload encrypted : Bytes)
    → writer ≡ reader
    → length payload ≤ wifi_message_max_len
    → counter.write_message writer payload ≡ ok (encrypted, writer')
    → (reader' : ℕ) × (open_counted reader encrypted ≡ ok (payload, reader')) × (writer' ≡ reader')
counter_opens writer reader writer' payload encrypted same short h =
    let sealed : (writer ∷ payload) ≡ encrypted = cc in
    let next : suc writer ≡ writer' = cc in
    let in_step : (writer == reader) ≡ true = ground arith in
    (
      suc reader,
      ap (open_counted reader) (sym sealed)
          ∙ ap (λ b. if b then ok (payload, suc reader) else err decrypt) in_step,
      sym next ∙ ap suc same,
    )

abbrev counter_paired : Paired counter
counter_paired = record { Synced = λ writer reader. writer ≡ reader; decrypts = counter_opens }

read_task-delivers_example :
    read_task codec counter (0 ∷ 3 ∷ 1 ∷ 5 ∷ 8 ∷ 0 ∷ 3 ∷ 1 ∷ 6 ∷ 9 ∷ []) 5
    ≡ (8 ∷ 9 ∷ [], some end_of_stream)
unfolding write_frame u16_len
read_task-delivers_example =
    read_task-delivers codec counter codec-Decodes counter_paired 5 5 (8 ∷ 9 ∷ []) _ refl refl

-- The device asks for a press and then sends a token; a message is its one byte.
abbrev token_7 : Token
token_7 = record { host_id = 7; key_id = []; key_data = [] }

abbrev event_message : RuntimeEvent → Message
event_message event =
    Message.event_message
      (record { identifier = 1; context = none; resource = none; event = Event.runtime event })

abbrev message_of : Bytes → Option Message
message_of (zero ∷ []) = some (event_message (RuntimeEvent.token_generate_approval (codes "press")))
message_of (suc n ∷ []) = some (event_message (RuntimeEvent.token_generated token_7))
message_of _ = none

abbrev pairing_codec : Encodings Message
pairing_codec = record {
  message_bytes = λ message. none;
  message_of = message_of;
  request_bytes = λ request. none;
  request_of = λ bytes. none;
  response_bytes = response_bytes;
  response_of = tail;
}

abbrev frames : List Arrival
frames =
    (record { at = 10; frame = ok (Response.pairing_noise (3 ∷ 0 ∷ [])) })
    ∷ (record { at = 2000; frame = ok (Response.pairing_noise (4 ∷ 1 ∷ [])) })
    ∷ []

await_token_iff_example :
    (await_token pairing_codec counter 3 frames ≡ (codes "press" ∷ [], ok token_7))
    ↔ Brings pairing_codec counter 3 frames (codes "press" ∷ []) token_7
await_token_iff_example =
    await_token_iff pairing_codec counter 3 frames (codes "press" ∷ []) token_7

token_comes : await_token pairing_codec counter 3 frames ≡ (codes "press" ∷ [], ok token_7)
unfolding await_token verdict
token_comes = refl
