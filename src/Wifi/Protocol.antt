-- ===== src/Wifi/Protocol.antt =====
-- The frames of src/wifi.rs, and the parts of the third-party Noise protocol that it uses: a session
-- is what its operations give.
use enody_rs.Common.{
  ℕ, Bytes, Text, codes, ◌++◌, length, leb, Option, Result, ok, err, if◌then◌else◌,
}
use enody_rs.Error.{Error}
use enody_rs.Wifi.Frames.{wifi_frame_payload_max_len}

pub data WifiError : Type 0 where
  bad_request : WifiError
  unauthorized : WifiError
  unsupported_version : WifiError
  runtime : WifiError

pub data Request : Type 0 where
  pairing_noise : ℕ → Bytes → Request
  hello : ℕ → Text → Request
  noise : Bytes → Request

pub data Response : Type 0 where
  pairing_noise : Bytes → Response
  noise : Bytes → Response
  error : WifiError → Response

-- An error of the Noise library: a decryption that fails, or another with its derived text.
pub data NoiseError : Type 0 where
  decrypt : NoiseError
  other : Text → NoiseError

abbrev pub wifi_api_version : ℕ
wifi_api_version = 1

unfoldable pub wifi_error : WifiError → Error
wifi_error unauthorized = Error.permission
wifi_error unsupported_version = Error.unsupported
wifi_error bad_request = Error.argument
wifi_error runtime = Error.unknown

unfoldable pub noise_error : NoiseError → Error
noise_error decrypt = Error.permission
noise_error (other text) = Error.debug (codes "noise protocol error: " ++ text)

module _ {A : Type 0} where
  -- `.map_err(noise_error)`
  abbrev pub map_noise : Result A NoiseError → Result A Error
  map_noise (ok a) = ok a
  map_noise (err e) = err (noise_error e)

-- `HVec::from_slice`
abbrev pub from_slice : Bytes → Result Bytes Error
from_slice payload =
    if leb (length payload) wifi_frame_payload_max_len then ok payload else err Error.serialization

abbrev pub framed : Result Bytes Error → (Bytes → Request) → Result Request Error
framed (err e) wrap = err e
framed (ok payload) wrap = ok (wrap payload)

unfoldable pub client_noise_frame : Bytes → Result Request Error
client_noise_frame payload = framed (from_slice payload) Request.noise

unfoldable pub client_pairing_noise_frame : Bytes → Result Request Error
client_pairing_noise_frame payload =
    framed (from_slice payload) (Request.pairing_noise wifi_api_version)

abbrev pub noise_prologue_label : Bytes
noise_prologue_label = codes "enody-v1 noise"

abbrev pub pairing_noise_prologue : Bytes
pairing_noise_prologue = codes "enody-v1 pairing"

-- The last argument is the 16 bytes of the host's identifier.
abbrev pub noise_prologue : Text → Bytes → Bytes
noise_prologue key_id host_id = noise_prologue_label ++ (key_id ++ host_id)

-- A session after the handshake: each operation gives the session that goes on.
pub record Transport (T : Type 0) : Type 0 where
  pub write_message : T → Bytes → Result (Bytes × T) NoiseError
  pub read_message : T → Bytes → Result (Bytes × T) NoiseError

-- A handshake, which becomes a session.
pub record Handshake (H T : Type 0) : Type 0 where
  pub write_message : H → Bytes → Result (Bytes × H) NoiseError
  pub read_message : H → Bytes → Result (Bytes × H) NoiseError
  pub into_transport_mode : H → Result T NoiseError

-- How messages and frames are encoded.
pub record Encodings (M : Type 0) : Type 0 where
  pub message_bytes : M → Option Bytes
  pub message_of : Bytes → Option M
  pub request_bytes : Request → Option Bytes
  pub request_of : Bytes → Option Request
  pub response_bytes : Response → Option Bytes
  pub response_of : Bytes → Option Response
