-- ===== src/Wifi/Session.antt =====
-- An authenticated connection of src/wifi.rs: what it sends, and the task that reads. A socket is
-- the bytes that are still to come and those that were written.
pub mod Delivery
use enody_rs.Common.{
  ℕ, zero, suc, ◌+◌, Bytes, Text, Bool, true, false, codes, ltb, List, [], ◌∷◌, ◌++◌, length,
  Option, none, some, Result, ok, err, ◌>>=◌, ok_or, if◌then◌else◌,
}
use enody_rs.Error.{Error}
use enody_rs.Wifi.Frames.{read_frame, write_frame, wifi_message_max_len}
use enody_rs.Wifi.Protocol.{
  Request, Response, WifiError, NoiseError, wifi_error, map_noise, client_noise_frame,
  wifi_api_version, Transport, Handshake, Encodings,
}

pub record Socket : Type 0 where
  pub incoming : Bytes
  pub outgoing : Bytes

-- The length check of `send_message`.
abbrev pub short_enough : Bytes → Result Bytes Error
short_enough payload =
    if ltb wifi_message_max_len (length payload) then err Error.serialization else ok payload

module _ {M T : Type 0} (codec : Encodings M) (transport : Transport T) where
  -- The bytes that `send_message` writes, and the session behind them.
  unfoldable pub send_message : T → M → Result (Bytes × T) Error
  send_message noise message = do
    payload ← ok_or (codec.message_bytes message) Error.serialization
    short ← short_enough payload
    (encrypted, noise') ← map_noise (transport.write_message noise short)
    frame ← client_noise_frame encrypted
    bytes ← write_frame codec.request_of codec.request_bytes frame
    ok (bytes, noise')

  abbrev pub decoded : Bytes × T → Result (M × T) Error
  decoded (decrypted, noise') =
      ok_or (codec.message_of decrypted) Error.serialization >>= λ message. ok (message, noise')

  -- The match on a frame in `read_task`.
  abbrev pub on_frame : T → Response → Result (M × T) Error
  on_frame noise (Response.noise payload) =
      map_noise (transport.read_message noise payload) >>= decoded
  on_frame noise (Response.pairing_noise payload) = err Error.unexpected_response
  on_frame noise (Response.error error) = err (wifi_error error)

  -- A message, the session behind it, and the bytes that are left.
  abbrev pub receive : Bytes → T → Result (M × T × Bytes) Error
  receive bytes noise = read_frame codec.response_of codec.response_bytes bytes >>= λ read.
      on_frame noise read.0 >>= λ got. ok (got.0, got.1, read.1)

  abbrev pub deliver : M → List M × Option Error → List M × Option Error
  deliver message (messages, ending) = (message ∷ messages, ending)

  -- The loop of `read_task` while its receiver is there: the messages that it sends on, and the
  -- error it returns; none where the fuel runs out.
  unfoldable pub read_loop : ℕ → Bytes → T → List M × Option Error
  read_loop zero bytes noise = ([], none)
  read_loop (suc fuel) bytes noise = elim (receive bytes noise) [
    | err e ↦ ([], some e)
    | ok got ↦ deliver got.0 (read_loop fuel got.2 got.1)
  ]

  -- Each round reads two bytes at least.
  unfoldable pub read_task : Bytes → T → List M × Option Error
  read_task bytes noise = read_loop (suc (length bytes)) bytes noise

module _ {M H T : Type 0} (codec : Encodings M) (handshake : Handshake H T) where
  -- `write_frame` on a socket.
  abbrev pub send_frame : Socket → Request → Result Socket Error
  send_frame socket frame = write_frame codec.request_of codec.request_bytes frame >>= λ bytes.
      ok (record socket { outgoing = socket.outgoing ++ bytes })

  abbrev pub receive_frame : Socket → Result (Response × Socket) Error
  receive_frame socket =
      read_frame codec.response_of codec.response_bytes socket.incoming >>= λ read.
      ok (read.0, record socket { incoming = read.1 })

  abbrev pub only_empty : Bytes × H → Result H Error
  only_empty ([], noise) = ok noise
  only_empty (b ∷ bytes, noise) = err Error.unexpected_response

  -- The match on the answer in `authenticate`.
  abbrev pub on_answer : H → Response → Result T Error
  on_answer noise (Response.noise payload) = do
    read ← map_noise (handshake.read_message noise payload)
    finished ← only_empty read
    map_noise (handshake.into_transport_mode finished)
  on_answer noise (Response.pairing_noise payload) = err Error.unexpected_response
  on_answer noise (Response.error error) = err (wifi_error error)

  -- `authenticate`, with the initiator that `build_noise_initiator` gives.
  unfoldable pub authenticate : Text → Result H Error → Socket → Result (T × Socket) Error
  authenticate key_id initiator stream = do
    greeted ← send_frame stream (Request.hello wifi_api_version key_id)
    noise ← initiator
    (handshake_bytes, noise') ← map_noise (handshake.write_message noise [])
    frame ← client_noise_frame handshake_bytes
    sent ← send_frame greeted frame
    (answer, answered) ← receive_frame sent
    transport ← on_answer noise' answer
    ok (transport, answered)

-- `WifiConnection`: the session and its socket while connected, and the receiver of messages.
pub record WifiConnection (T Rx : Type 0) : Type 0 where
  pub connection : Option (T × Socket)
  pub message_rx : Option Rx

module _ {T Rx : Type 0} where
  abbrev pub unconnected : WifiConnection T Rx
  unconnected = record { connection = none; message_rx = none }

  abbrev pub is_connected : WifiConnection T Rx → Bool
  is_connected wifi = elim wifi.connection [ some _ ↦ true | none ↦ false ]

  abbrev pub connect_with :
      WifiConnection T Rx
      → Rx
      → Result (T × Socket) Error
      → WifiConnection T Rx × Result (Unit {0}) Error
  connect_with wifi message_rx (err e) = (wifi, err e)
  connect_with wifi message_rx (ok session) =
      (record { connection = some session; message_rx = some message_rx }, ok tt)

  -- `connect`, with the new receiver and what opening the stream and `authenticate` give.
  unfoldable pub connect :
      WifiConnection T Rx
      → Rx
      → Result (T × Socket) Error
      → WifiConnection T Rx × Result (Unit {0}) Error
  connect wifi message_rx authenticated = elim wifi.connection [
    | some _ ↦ (wifi, ok tt)
    | none ↦ connect_with wifi message_rx authenticated
  ]

  -- `disconnect` succeeds whether there is a connection or not.
  unfoldable pub disconnect : WifiConnection T Rx → WifiConnection T Rx × Result (Unit {0}) Error
  disconnect wifi = (unconnected, ok tt)

  -- `recv_message`, with what the channel gives.
  abbrev pub recv_message : {M : Type 0} → WifiConnection T Rx → Option M → Result M Error
  recv_message wifi received = elim wifi.message_rx [
    | none ↦ err Error.busy
    | some _ ↦ ok_or received Error.timeout
  ]
