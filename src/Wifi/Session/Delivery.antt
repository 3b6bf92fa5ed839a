-- ===== src/Wifi/Session/Delivery.antt =====
-- What the read task of src/wifi.rs delivers, and that it comes to an end with the stream.
use enody_rs.Common.{
  ℕ, zero, suc, ◌+◌, ◌≤◌, ◌<◌, Bytes, List, [], ◌∷◌, ◌++◌, length, length-append, Option, some,
  Result, ok, err, ◌>>=◌, >>=_ok, ok_or-some, Result-cases, ok_or, ◌≡◌, refl, ap, sym, subst, ◌∙◌,
  arith, Bool-cases, inl, inr, ltb, ◌==◌, ◌||◌,
}
use enody_rs.Error.{Error}
use enody_rs.Wifi.Frames.{
  wifi_message_max_len, read_exact, extend_read, from_be_bytes, length_in_range, read_frame,
  write_frame, frame_max_len, read-write_frame, end_of_stream,
}
use enody_rs.Wifi.Protocol.{Response, map_noise, Transport, Encodings, NoiseError}
use enody_rs.Wifi.Session.{short_enough, decoded, receive, on_frame, deliver, read_loop, read_task}

map_noise_ok : {A : Type 0} (r : Result A NoiseError) (a : A) → map_noise r ≡ ok a → r ≡ ok a
map_noise_ok (ok x) a h = cc
map_noise_ok (err e) a h = absurd cc

ok_same : {xs ys : Bytes} → ◌≡◌ {A = Result Bytes Error} (ok xs) (ok ys) → xs ≡ ys
ok_same h = cc

extend_read_ok :
    (b : ℕ) (r : Result (Bytes × Bytes) Error) (taken rest : Bytes)
    → extend_read b r ≡ ok (taken, rest)
    → (shorter : Bytes) × (r ≡ ok (shorter, rest))
extend_read_ok b (ok (shorter, left)) taken rest h =
    let same : left ≡ rest = cc in (shorter, ap (λ l. ok (shorter, l)) same)
extend_read_ok b (err e) taken rest h = absurd cc

-- What is read is taken off the bytes.
read_exact-length :
    (n : ℕ) (bytes taken rest : Bytes)
    → read_exact n bytes ≡ ok (taken, rest)
    → length bytes ≡ n + length rest
unfolding read_exact
read_exact-length zero bytes taken rest h = let same : bytes ≡ rest = cc in rw same (omega arith)
read_exact-length (suc n) [] taken rest h = absurd cc
read_exact-length (suc n) (b ∷ bytes) taken rest h =
    let (shorter, e) = extend_read_ok b (read_exact n bytes) taken rest h in
    omega (arith, read_exact-length n bytes shorter rest e)

length_in_range_ok : (len n : ℕ) → length_in_range len ≡ ok n → n ≡ len
length_in_range_ok len n = elim (Bool-cases (len == 0 || ltb frame_max_len len)) [
  | inl e ↦ rw e (λ h. absurd cc)
  | inr e ↦ rw e (λ h. cc)
]

module _ {M T : Type 0} (codec : Encodings M) (transport : Transport T) where
  -- A frame that is read is taken off the bytes.
  read_frame-length :
      (bytes : Bytes) (frame : Response) (rest : Bytes)
      → read_frame codec.response_of codec.response_bytes bytes ≡ ok (frame, rest)
      → length rest < length bytes
  unfolding read_frame
  read_frame-length bytes frame rest h =
      let (front, two, on) = >>=_ok (read_exact 2 bytes) _ (frame, rest) h in
      let (len, in_range, body) =
        >>=_ok (length_in_range (from_be_bytes front.0)) _ (frame, rest) on in
      let (payload, taken, whole) = >>=_ok (read_exact len front.1) _ (frame, rest) body in
      let (decoded_frame, _, same) =
        >>=_ok (ok_or (codec.response_of payload.0) Error.serialization) _ (frame, rest) whole in
      let left : payload.1 ≡ rest = cc in
      let a = read_exact-length 2 bytes front.0 front.1 two in
      let b = read_exact-length len front.1 payload.0 payload.1 taken in
      let c = ap length left in omega (arith, a, b, c)

  read_loop-ok :
      (fuel : ℕ) (bytes : Bytes) (noise : T) (got : M × T × Bytes)
      → receive codec transport bytes noise ≡ ok got
      → read_loop codec transport (suc fuel) bytes noise
        ≡ deliver codec transport got.0 (read_loop codec transport fuel got.2 got.1)
  unfolding read_loop
  read_loop-ok fuel bytes noise got h = rw (h, read_loop) refl

  read_loop-err :
      (fuel : ℕ) (bytes : Bytes) (noise : T) (e : Error)
      → receive codec transport bytes noise ≡ err e
      → read_loop codec transport (suc fuel) bytes noise ≡ ([], some e)
  unfolding read_loop
  read_loop-err fuel bytes noise e h = rw (h, read_loop) refl

  receive-length :
      (bytes : Bytes) (noise : T) (got : M × T × Bytes)
      → receive codec transport bytes noise ≡ ok got
      → length got.2 < length bytes
  receive-length bytes noise got h =
      let (read, frame, on) =
        >>=_ok (read_frame codec.response_of codec.response_bytes bytes) _ got h in
      let (message, _, same) = >>=_ok (on_frame codec transport noise read.0) _ got on in
      let left : read.1 ≡ got.2 = cc in
      let equal = ap length left in
      omega (arith, read_frame-length bytes read.0 read.1 frame, equal)

  read_loop-Ends :
      (fuel : ℕ) (bytes : Bytes) (noise : T)
      → length bytes < fuel
      → (e : Error) × ((read_loop codec transport fuel bytes noise).1 ≡ some e)
  unfolding read_loop
  read_loop-Ends zero bytes noise enough = absurd (omega arith)
  read_loop-Ends (suc fuel) bytes noise enough =
      elim (Result-cases (receive codec transport bytes noise)) [
        | inr (e, h) ↦ (e, ap (λ r. r.1) (read_loop-err fuel bytes noise e h))
        | inl (got, h) ↦
            let shorter = receive-length bytes noise got h in
            let (e, rest) = read_loop-Ends fuel got.2 got.1 (omega (arith, shorter, enough)) in
            (e, ap (λ r. r.1) (read_loop-ok fuel bytes noise got h) ∙ rest)
      ]

  -- Whatever the bytes of the stream are, the task comes to an end with it.
  pub read_task-Ends :
      (bytes : Bytes) (noise : T)
      → (e : Error) × ((read_task codec transport bytes noise).1 ≡ some e)
  unfolding read_task
  read_task-Ends bytes noise = read_loop-Ends (suc (length bytes)) bytes noise (omega arith)

  -- A device at the other end that sends messages one behind the other: each is encrypted, wrapped in
  -- a response and written as a frame.
  abbrev pub respond : Bytes × T → Result (Bytes × T) Error
  respond (encrypted, noise') =
      write_frame codec.response_of codec.response_bytes (Response.noise encrypted) >>= λ bytes.
      ok (bytes, noise')

  abbrev pub device_send : T → M → Result (Bytes × T) Error
  device_send noise message = ok_or (codec.message_bytes message) Error.serialization >>= λ payload.
      short_enough payload >>= λ short. map_noise (transport.write_message noise short) >>= respond

  abbrev pub device_send_all : T → List M → Result Bytes Error
  device_send_all noise [] = ok []
  device_send_all noise (message ∷ messages) = device_send noise message >>= λ sent.
      device_send_all sent.1 messages >>= λ rest. ok (sent.0 ++ rest)

-- What the delivery needs of the third-party encodings: what is encoded decodes to it, and an encoded
-- response has as many bytes as the code provides for.
pub record Decodes {M : Type 0} (codec : Encodings M) : Type 0 where
  pub message_back :
      (message : M) (payload : Bytes)
      → codec.message_bytes message ≡ some payload
      → codec.message_of payload ≡ some message
  pub response_back :
      (frame : Response) (payload : Bytes)
      → codec.response_bytes frame ≡ some payload
      → codec.response_of payload ≡ some frame
  pub response_size :
      (frame : Response) (payload : Bytes)
      → codec.response_bytes frame ≡ some payload
      → (0 < length payload) × (length payload ≤ frame_max_len)

-- And of the Noise sessions of the two ends: what one encrypts next, the other decrypts next.
pub record Paired {T : Type 0} (transport : Transport T) : Type 1 where
  pub Synced : T → T → Type 0
  pub decrypts :
      (writer reader writer' : T) (payload encrypted : Bytes)
      → Synced writer reader
      → length payload ≤ wifi_message_max_len
      → transport.write_message writer payload ≡ ok (encrypted, writer')
      → (reader' : T) × (transport.read_message reader encrypted ≡ ok (payload, reader'))
        × Synced writer' reader'

module _ {M T : Type 0} (codec : Encodings M) (transport : Transport T) (decodes : Decodes codec)
    (paired : Paired transport) where
  short_enough_ok :
      (payload short : Bytes)
      → short_enough payload ≡ ok short
      → (payload ≡ short) × (length payload ≤ wifi_message_max_len)
  short_enough_ok payload short = elim (Bool-cases (ltb wifi_message_max_len (length payload))) [
    | inl e ↦ rw e (λ h. absurd cc)
    | inr e ↦ rw e (λ h. (cc, ground arith))
  ]

  -- A frame that is written is read.
  frame_read :
      (frame : Response) (written rest : Bytes)
      → write_frame codec.response_of codec.response_bytes frame ≡ ok written
      → read_frame codec.response_of codec.response_bytes (written ++ rest) ≡ ok (frame, rest)
  unfolding write_frame
  frame_read frame written rest wrote =
      let (payload, encoded, _) =
        >>=_ok (ok_or (codec.response_bytes frame) Error.serialization) _ written wrote in
      let encodes = ok_or-some _ _ _ encoded in
      let (lo, hi) = decodes.response_size frame payload encodes in
      let (bytes, writes, reads) =
        read-write_frame codec.response_of codec.response_bytes frame payload rest encodes
          (decodes.response_back frame payload encodes) lo hi in
      let same : bytes ≡ written = ok_same (sym writes ∙ wrote) in
      subst
        (λ bs. read_frame codec.response_of codec.response_bytes (bs ++ rest) ≡ ok (frame, rest))
        same reads

  -- A message that the device sends is received, the sessions stay together, and the bytes behind it
  -- are left.
  receive-sent :
      (writer reader writer' : T) (message : M) (bytes rest : Bytes)
      → paired.Synced writer reader
      → device_send codec transport writer message ≡ ok (bytes, writer')
      → (reader' : T) × (receive codec transport (bytes ++ rest) reader
          ≡ ok (message, reader', rest))
        × paired.Synced writer' reader'
        × (1 ≤ length bytes)
  receive-sent writer reader writer' message bytes rest synced sent =
      let (payload, encoded, a) =
        >>=_ok (ok_or (codec.message_bytes message) Error.serialization) _ (bytes, writer') sent in
      let (short, checked, b) = >>=_ok (short_enough payload) _ (bytes, writer') a in
      let (encrypted, ciphered, c) =
        >>=_ok (map_noise (transport.write_message writer short)) _ (bytes, writer') b in
      let (written, wrote, d) =
        >>=_ok (write_frame codec.response_of codec.response_bytes (Response.noise encrypted.0)) _
          (bytes, writer') c in
      let same_bytes : written ≡ bytes = cc in
      let same_writer : encrypted.1 ≡ writer' = cc in
      let (whole, short_payload) = short_enough_ok payload short checked in
      let frame = frame_read (Response.noise encrypted.0) written rest wrote in
      let (reader', deciphered, together) =
        paired.decrypts writer reader encrypted.1 short encrypted.0 synced
          (subst (λ p. length p ≤ wifi_message_max_len) whole short_payload)
          (map_noise_ok _ encrypted ciphered) in
      let back = decodes.message_back message short (ok_or-some _ _ _ encoded ∙ ap some whole) in
      let then_decoded : Option M → Result (M × T × Bytes) Error = λ o.
        let message_of : Result (M × T) Error =
          ok_or o Error.serialization >>= λ m. ok (m, reader') in
        message_of >>= λ got. ok (got.0, got.1, rest) in
      let framed =
        subst
          (λ bs.
            read_frame codec.response_of codec.response_bytes (bs ++ rest)
            ≡ ok (Response.noise encrypted.0, rest))
          same_bytes frame in
      let longer =
        read_frame-length codec transport (bytes ++ rest) (Response.noise encrypted.0) rest
          framed in
      (
        reader',
        ap
              (λ r. r >>= λ read.
                on_frame codec transport reader read.0 >>= λ got. ok (got.0, got.1, read.1))
              framed
            ∙ ap (λ r. (map_noise r >>= decoded codec transport) >>= λ got. ok (got.0, got.1, rest))
                deciphered
            ∙ ap then_decoded back,
        subst (λ w. paired.Synced w reader') same_writer together,
        omega (arith, longer, length-append bytes rest),
      )

  read_loop-delivers :
      (fuel : ℕ) (writer reader : T) (messages : List M) (bytes : Bytes)
      → paired.Synced writer reader
      → length bytes < fuel
      → device_send_all codec transport writer messages ≡ ok bytes
      → read_loop codec transport fuel bytes reader ≡ (messages, some end_of_stream)
  read_loop-delivers zero writer reader messages bytes synced enough sent = absurd (omega arith)
  read_loop-delivers (suc fuel) writer reader [] bytes synced enough sent =
      ap (λ bs. read_loop codec transport (suc fuel) bs reader) (sym (ok_same sent))
      ∙ read_loop-err codec transport fuel [] reader end_of_stream
          (unfold read_frame read_exact in refl)
  read_loop-delivers (suc fuel) writer reader (message ∷ messages) bytes synced enough sent =
      let (now, first, a) = >>=_ok (device_send codec transport writer message) _ bytes sent in
      let (rest, others, b) = >>=_ok (device_send_all codec transport now.1 messages) _ bytes a in
      let joined : now.0 ++ rest ≡ bytes = ok_same b in
      let (reader', got, together, some_bytes) =
        receive-sent writer reader now.1 message now.0 rest synced first in
      let sizes = length-append now.0 rest in
      let whole = ap length joined in
      let later =
        read_loop-delivers fuel now.1 reader' messages rest together
          (omega (arith, sizes, whole, some_bytes, enough)) others in
      ap (λ bs. read_loop codec transport (suc fuel) bs reader) (sym joined)
      ∙ read_loop-ok codec transport fuel (now.0 ++ rest) reader (message, reader', rest) got
      ∙ ap (deliver codec transport message) later

  -- The device's messages, sent one behind the other in a session that is paired with the client's,
  -- and nothing else until the stream ends: the read task delivers exactly these, in order, and
  -- returns the error of the end.
  pub read_task-delivers :
      (writer reader : T) (messages : List M) (bytes : Bytes)
      → paired.Synced writer reader
      → device_send_all codec transport writer messages ≡ ok bytes
      → read_task codec transport bytes reader ≡ (messages, some end_of_stream)
  unfolding read_task
  read_task-delivers writer reader messages bytes synced sent =
      read_loop-delivers (suc (length bytes)) writer reader messages bytes synced (omega arith) sent
