-- ===== src/Usb/Written.antt =====
-- What a serial connection of src/usb/serialport.rs writes over time.
use enody_rs.Common.{
  Bytes, Text, Bool, List, [], ◌∷◌, ◌++◌, append_assoc, append-nil, Option, none, some, ◌≡◌, refl,
  sym, ap, ◌∙◌, Option-cases, inl, inr, arith,
}
use enody_rs.Framing.{keep_some, frame_bytes, new, push_bytes}
use enody_rs.Framing.Codec.{buffer_try_from}
use enody_rs.Framing.Stream.{wire, push-wire}
use enody_rs.Usb.Reception.{take_message}
use enody_rs.Usb.SerialPort.{
  Port, Read, SerialPort, Drained, drain, write_payload, read_port, after_drain, round,
  send_payload, send_message, open_connection,
}

pub data Turn (M : Type 0) : Type 0 where
  send : M → Turn M
  serve : Port → Bool → Turn M
  recv : Turn M

abbrev joined : List Bytes → Bytes
joined [] = []
joined (p ∷ ps) = p ++ joined ps

joined-snoc : (ps : List Bytes) (p : Bytes) → joined (ps ++ p ∷ []) ≡ joined ps ++ p
joined-snoc [] p = append-nil p
joined-snoc (q ∷ ps) p = ap (λ bs. q ++ bs) (joined-snoc ps p) ∙ sym (append_assoc q (joined ps) p)

-- A write that does not end the task goes on.
write_on :
    (wrote flushed : Option Text) (written payload : Bytes) (rest : List Bytes) (later : Drained)
    → (write_payload wrote flushed written payload rest later).2 ≡ none
    → write_payload wrote flushed written payload rest later ≡ later
write_on (some reason) flushed written payload rest later h = cc
write_on none (some reason) written payload rest later h = cc
write_on none none written payload rest later h = refl

-- A drain that does not end the task writes all payloads and leaves none.
drain-all :
    (port : Port) (written : Bytes) (ps : List Bytes)
    → (drain port written ps).2 ≡ none
    → drain port written ps ≡ (written ++ joined ps, [], none)
unfolding drain
drain-all port written [] h = rw append-nil
drain-all port written (p ∷ ps) h =
    let later = drain port (written ++ p) ps in
    let on = write_on (port.write_all written p) (port.flush written p) written p ps later h in
    on
    ∙ drain-all port (written ++ p) ps (sym (ap (λ d. d.2) on) ∙ h)
    ∙ ap (λ bs. (bs, [], none)) (append_assoc written p (joined ps))

module _ {M : Type 0} (from_bytes : Bytes → Option M) (to_allocvec : M → Option Bytes) where
  abbrev pub turn : SerialPort M → Turn M → SerialPort M
  turn serial (send message) = (send_message from_bytes to_allocvec serial message).0
  turn serial (serve port shutdown) = round from_bytes to_allocvec serial port shutdown
  turn serial recv = record serial { reading = take_message serial.reading }

  abbrev pub run : SerialPort M → List (Turn M) → SerialPort M
  run serial [] = serial
  run serial (t ∷ turns) = run (turn serial t) turns

  abbrev pub encodings : List (Turn M) → List Bytes
  encodings [] = []
  encodings (send message ∷ turns) = keep_some (to_allocvec message) (encodings turns)
  encodings (serve port shutdown ∷ turns) = encodings turns
  encodings (recv ∷ turns) = encodings turns

  -- What was written, and behind it what still is queued.
  abbrev pub pending : SerialPort M → Bytes
  pending serial = serial.written ++ joined serial.serial_rx

  read_port-pending :
      (serial : SerialPort M) (read : Read) (shutdown : Bool)
      → pending (read_port from_bytes to_allocvec serial read shutdown) ≡ pending serial
  read_port-pending serial (Read.bytes bs) shutdown = refl
  read_port-pending serial Read.timed_out shutdown = refl
  read_port-pending serial (Read.failed reason) shutdown = refl

  after_drain-pending :
      (serial : SerialPort M) (drained : Drained) (port : Port) (shutdown : Bool)
      → (after_drain from_bytes to_allocvec serial drained port shutdown).ended ≡ none
      → (drained.2 ≡ none)
        × (pending (after_drain from_bytes to_allocvec serial drained port shutdown)
            ≡ drained.0 ++ joined drained.1)
  after_drain-pending serial (written, rest, some outcome) port shutdown h = cc
  after_drain-pending serial (written, rest, none) port shutdown h = (
    refl,
    read_port-pending (record serial { written = written; serial_rx = rest }) port.read shutdown,
  )

  -- A round that does not end the task.
  round-pending :
      (serial : SerialPort M) (port : Port) (shutdown : Bool)
      → (round from_bytes to_allocvec serial port shutdown).ended ≡ none
      → (serial.ended ≡ none)
        × (pending (round from_bytes to_allocvec serial port shutdown) ≡ pending serial)
  round-pending serial port shutdown = elim (Option-cases serial.ended) [
    | inr (outcome, e) ↦ rw e (λ h. absurd (ground arith))
    | inl e ↦ rw e (λ h.
        let (goes_on, same) =
          after_drain-pending serial (drain port serial.written serial.serial_rx) port shutdown h in
        let all = drain-all port serial.written serial.serial_rx goes_on in
        (refl, same ∙ ap (λ d. d.0 ++ joined d.1) all ∙ append-nil (pending serial)))
  ]

  send-pending :
      (serial : SerialPort M) (message : M)
      → (send_message from_bytes to_allocvec serial message).0.ended ≡ none
      → (serial.ended ≡ none)
        × (pending (send_message from_bytes to_allocvec serial message).0
            ≡ pending serial ++ wire (keep_some (to_allocvec message) []))
  unfolding buffer_try_from
  send-pending serial message = elim (Option-cases (to_allocvec message)) [
    | inl e ↦ rw e (λ h. (h, sym (append-nil (pending serial))))
    | inr (payload, e) ↦ rw e (queued payload)
  ]
    where
      queued :
          (payload : Bytes)
          → (send_payload from_bytes to_allocvec serial (frame_bytes payload)).0.ended ≡ none
          → (serial.ended ≡ none)
            × (pending (send_payload from_bytes to_allocvec serial (frame_bytes payload)).0
                ≡ pending serial ++ (frame_bytes payload ++ []))
      queued payload = elim (Option-cases serial.ended) [
        | inr (outcome, e) ↦ rw e (λ h. absurd (ground arith))
        | inl e ↦ rw e (λ h. (
          refl,
          ap (λ bs. serial.written ++ bs) (joined-snoc serial.serial_rx (frame_bytes payload))
              ∙ sym (append_assoc serial.written (joined serial.serial_rx) (frame_bytes payload))
              ∙ ap (λ bs. pending serial ++ bs) (sym (append-nil (frame_bytes payload))),
        ))
      ]

  -- The payload of a turn, in front of those of later turns.
  abbrev encoding : Turn M → List Bytes
  encoding t = encodings (t ∷ [])

  take-pending : (serial : SerialPort M) → pending (turn serial recv) ≡ pending serial
  take-pending serial = refl

  turn-pending :
      (serial : SerialPort M) (t : Turn M)
      → (turn serial t).ended ≡ none
      → (serial.ended ≡ none) × (pending (turn serial t) ≡ pending serial ++ wire (encoding t))
  turn-pending serial (send message) h = send-pending serial message h
  turn-pending serial (serve port shutdown) h =
      let (running, same) = round-pending serial port shutdown h in
      (running, same ∙ sym (append-nil (pending serial)))
  turn-pending serial recv h = (h, sym (append-nil (pending serial)))

  wire-encodings :
      (t : Turn M) (turns : List (Turn M))
      → wire (encodings (t ∷ turns)) ≡ wire (encoding t) ++ wire (encodings turns)
  wire-encodings (send message) turns = elim (Option-cases (to_allocvec message)) [
    | inl e ↦ rw e refl
    | inr (payload, e) ↦
        rw e (ap (λ bs. bs ++ wire (encodings turns)) (sym (append-nil (frame_bytes payload))))
  ]
  wire-encodings (serve port shutdown) turns = refl
  wire-encodings recv turns = refl

  run-pending :
      (serial : SerialPort M) (turns : List (Turn M))
      → (run serial turns).ended ≡ none
      → (serial.ended ≡ none)
        × (pending (run serial turns) ≡ pending serial ++ wire (encodings turns))
  run-pending serial [] h = (h, sym (append-nil (pending serial)))
  run-pending serial (t ∷ turns) h =
      let (running, later) = run-pending (turn serial t) turns h in
      let (before, now) = turn-pending serial t running in
      (
        before,
        later
            ∙ ap (λ bs. bs ++ wire (encodings turns)) now
            ∙ append_assoc (pending serial) (wire (encoding t)) (wire (encodings turns))
            ∙ ap (λ bs. pending serial ++ bs) (sym (wire-encodings t turns)),
      )

  -- Behind any turns of sending, of rounds of the loop and of receiving that leave the task running
  -- and nothing queued, a new parser that is fed what was written delivers the encodings of the sent
  -- messages, in order, and is as new.
  pub run-written :
      (turns : List (Turn M))
      → (run (open_connection from_bytes to_allocvec) turns).ended ≡ none
      → (run (open_connection from_bytes to_allocvec) turns).serial_rx ≡ []
      → push_bytes new (run (open_connection from_bytes to_allocvec) turns).written
        ≡ (new, encodings turns)
  run-written turns running drained =
      let final = run (open_connection from_bytes to_allocvec) turns in
      let (_, all) = run-pending (open_connection from_bytes to_allocvec) turns running in
      let written : final.written ≡ wire (encodings turns) =
        sym (append-nil final.written)
        ∙ ap (λ rx. final.written ++ joined rx) (sym drained)
        ∙ all in
      ap (push_bytes new) written ∙ push-wire (encodings turns)
