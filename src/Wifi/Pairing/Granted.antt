-- ===== src/Wifi/Pairing/Granted.antt =====
-- When the wait of src/wifi.rs for a token returns one.
use enody_rs.Common.{
  ◌*◌, ◌≤◌, Bytes, Text, List, [], ◌∷◌, some, Result, ok, err, >>=_ok, ok_or, ok_or-some, true,
  false, ◌≡◌, ◌↔◌, ◌⊎◌, refl, sym, ap, ◌∙◌, Result-cases, inl, inr, arith,
}
use enody_rs.Error.{Error}
use enody_rs.Message.Runtime.{Token, RuntimeEvent}
use enody_rs.Message.Envelope.{Event, EventMessage, Message}
use enody_rs.Wifi.Protocol.{Response, NoiseError, map_noise, Transport, Encodings}
use enody_rs.Wifi.Pairing.{
  Arrival, Verdict, approval, generated, failed, verdict, message_verdict, in_time, pairing_payload,
  opened, judge, conclude, await_token,
}

in_time_ok :
    (arrival : Arrival) (frame : Response)
    → in_time arrival ≡ ok frame
    → (arrival.at ≤ 45 * 1000000000) × (arrival.frame ≡ ok frame)
in_time_ok arrival frame h = ground arith

ok_in_time : (arrival : Arrival) → arrival.at ≤ 45 * 1000000000 → in_time arrival ≡ arrival.frame
ok_in_time arrival h = ground arith

pairing_payload_ok :
    (frame : Response) (payload : Bytes)
    → pairing_payload frame ≡ ok payload
    → frame ≡ Response.pairing_noise payload
pairing_payload_ok (Response.pairing_noise p) payload h = cc
pairing_payload_ok (Response.error e) payload h = absurd cc
pairing_payload_ok (Response.noise p) payload h = absurd cc

map_noise_ok : {A : Type 0} (r : Result A NoiseError) (a : A) → map_noise r ≡ ok a → r ≡ ok a
map_noise_ok (ok x) a h = cc
map_noise_ok (err e) a h = absurd cc

verdict-approval :
    (event : Event) (method : Text)
    → verdict event ≡ approval method
    → event ≡ Event.runtime (RuntimeEvent.token_generate_approval method)
unfolding verdict
verdict-approval (Event.runtime (RuntimeEvent.token_generate_approval m)) method h = cc
verdict-approval _ method h = absurd cc

verdict-generated :
    (event : Event) (token : Token)
    → verdict event ≡ generated token
    → event ≡ Event.runtime (RuntimeEvent.token_generated token)
unfolding verdict
verdict-generated (Event.runtime (RuntimeEvent.token_generated t)) token h = cc
verdict-generated _ token h = absurd cc

module _ {T : Type 0} (codec : Encodings Message) (transport : Transport T) where
  -- A frame that arrives within 45 seconds and, read in one state of the session, holds a message.
  abbrev pub Reads : T → Arrival → Message → T → Type 0
  Reads session arrival message session' =
      (payload : Bytes) × (plaintext : Bytes) × (arrival.at ≤ 45 * 1000000000)
      × (arrival.frame ≡ ok (Response.pairing_noise payload))
      × (transport.read_message session payload ≡ ok (plaintext, session'))
      × (codec.message_of plaintext ≡ some message)

  abbrev pub ReadsEvent : T → Arrival → RuntimeEvent → T → Type 0
  ReadsEvent session arrival event session' =
      (message : EventMessage) × Reads session arrival (Message.event_message message) session'
      × (message.event ≡ Event.runtime event)

  -- Requests for the approvals of the methods, and then the token.
  abbrev pub Brings : T → List Arrival → List Text → Token → Type 0
  Brings session [] methods token = true ≡ false
  Brings session (arrival ∷ arrivals) methods token =
      ((session' : T) × ReadsEvent session arrival (RuntimeEvent.token_generated token) session'
        × (methods ≡ []))
      ⊎ ((session' : T) × (method : Text) × (rest : List Text) × ReadsEvent session arrival
            (RuntimeEvent.token_generate_approval method) session'
          × (methods ≡ method ∷ rest)
          × Brings session' arrivals rest token)

  Reads-judge :
      (session session' : T) (arrival : Arrival) (message : Message)
      → Reads session arrival message session'
      → judge codec transport session arrival ≡ ok (message_verdict message, session')
  Reads-judge session session' arrival message (payload, plaintext, soon, frame, read, decoded) =
      rw (ok_in_time arrival soon, frame, read, decoded) refl

  judge-Reads :
      (session session' : T) (arrival : Arrival) (v : Verdict)
      → judge codec transport session arrival ≡ ok (v, session')
      → (message : Message) × Reads session arrival message session' × (message_verdict message ≡ v)
  judge-Reads session session' arrival v h =
      let (frame, came, h1) = >>=_ok (in_time arrival) _ (v, session') h in
      let (payload, inside, h2) = >>=_ok (pairing_payload frame) _ (v, session') h1 in
      let (got, read, h3) =
        >>=_ok (map_noise (transport.read_message session payload)) (opened codec transport)
          (v, session') h2 in
      let (message, decoded, h4) =
        >>=_ok (ok_or (codec.message_of got.0) Error.serialization) _ (v, session') h3 in
      let (soon, arrived) = in_time_ok arrival frame came in
      let same : got.1 ≡ session' = cc in
      (
        message,
        (
          payload,
          got.0,
          soon,
          arrived ∙ ap ok (pairing_payload_ok frame payload inside),
          map_noise_ok (transport.read_message session payload) got read
              ∙ ap (λ s. ok (got.0, s)) same,
          ok_or-some (codec.message_of got.0) Error.serialization message decoded,
        ),
        cc,
      )

  conclude-token :
      (v : Verdict) (later : List Text × Result Token Error) (methods : List Text) (token : Token)
      → conclude codec transport v later ≡ (methods, ok token)
      → ((v ≡ generated token) × (methods ≡ []))
        ⊎ ((method : Text) × (v ≡ approval method)
            × (methods ≡ method ∷ later.0)
            × (later ≡ (later.0, ok token)))
  conclude-token (approval method) later methods token h =
      inr (method, refl, sym (ap (λ r. r.0) h), ap (λ r. (later.0, r.1)) h)
  conclude-token (generated t) later methods token h = inl (cc, sym (ap (λ r. r.0) h))
  conclude-token (failed e) later methods token h = absurd cc

  Reads-approval :
      (session session' : T) (arrival : Arrival) (message : Message) (method : Text)
      → Reads session arrival message session'
      → message_verdict message ≡ approval method
      → ReadsEvent session arrival (RuntimeEvent.token_generate_approval method) session'
  Reads-approval session session' arrival (Message.event_message e) method r h =
      (e, r, verdict-approval e.event method h)
  Reads-approval session session' arrival (Message.command_message c) method r h = absurd cc

  Reads-generated :
      (session session' : T) (arrival : Arrival) (message : Message) (token : Token)
      → Reads session arrival message session'
      → message_verdict message ≡ generated token
      → ReadsEvent session arrival (RuntimeEvent.token_generated token) session'
  Reads-generated session session' arrival (Message.event_message e) token r h =
      (e, r, verdict-generated e.event token h)
  Reads-generated session session' arrival (Message.command_message c) token r h = absurd cc

  await-Brings :
      (session : T) (arrivals : List Arrival) (methods : List Text) (token : Token)
      → await_token codec transport session arrivals ≡ (methods, ok token)
      → Brings session arrivals methods token
  unfolding await_token
  await-Brings session [] methods token = λ h. absurd cc
  await-Brings session (arrival ∷ arrivals) methods token =
      elim (Result-cases (judge codec transport session arrival)) [
        | inr (e, j) ↦ rw (j, await_token) (λ h. absurd cc)
        | inl ((v, session'), j) ↦
            rw (j, await_token)
              (λ h.
                let (message, r, means) = judge-Reads session session' arrival v j in
                elim (conclude-token v (await_token codec transport session' arrivals) methods token
                  h) [
                    | inl (same, none_left) ↦ inl (
                      session',
                      Reads-generated session session' arrival message token r (means ∙ same),
                      none_left,
                    )
                    | inr (method, same, all, later) ↦ inr (
                      session',
                      method,
                      (await_token codec transport session' arrivals).0,
                      Reads-approval session session' arrival message method r (means ∙ same),
                      all,
                      await-Brings session' arrivals _ token later,
                    )
                  ])
      ]

  Brings-await :
      (session : T) (arrivals : List Arrival) (methods : List Text) (token : Token)
      → Brings session arrivals methods token
      → await_token codec transport session arrivals ≡ (methods, ok token)
  unfolding await_token verdict
  Brings-await session [] methods token h = absurd cc
  Brings-await session (arrival ∷ arrivals) methods token
        (inl (session', (m, r, same), none_left)) =
      rw
        (
          Reads-judge session session' arrival (Message.event_message m) r,
          await_token,
          same,
          none_left,
        )
        refl
  Brings-await session (arrival ∷ arrivals) methods token
        (inr (session', method, rest, (m, r, same), all, later)) =
      rw
        (
          Reads-judge session session' arrival (Message.event_message m) r,
          await_token,
          same,
          Brings-await session' arrivals rest token later,
          all,
        )
        refl

  -- The wait returns a token just if the frames that arrive, each within 45 seconds of its start and
  -- decrypted in its turn, hold requests for approvals and then that token; and the callback is
  -- called with the methods of these approvals, in order.
  pub await_token_iff :
      (session : T) (arrivals : List Arrival) (methods : List Text) (token : Token)
      → (await_token codec transport session arrivals ≡ (methods, ok token))
        ↔ Brings session arrivals methods token
  await_token_iff session arrivals methods token =
      (await-Brings session arrivals methods token, Brings-await session arrivals methods token)
