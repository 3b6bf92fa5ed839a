-- ===== src/Wifi/Frames.antt =====
-- `read_frame` and `write_frame` of src/wifi.rs: two bytes of length and a payload. The third-party
-- encoding of the payload is a pair of parameters; a reader is the bytes that are still to come.
use enody_rs.Common.{
  ℕ, zero, suc, ◌+◌, ◌*◌, ◌/◌, ◌%◌, ◌^◌, ◌≤◌, ◌<◌, ◌≡◌, refl, ap, ◌∙◌, true, ◌||◌, ◌==◌, ltb, Bytes,
  codes, [], ◌∷◌, ◌++◌, length, Option, none, some, Result, ok, err, ◌>>=◌, ok_or, if◌then◌else◌,
  arith,
}
use enody_rs.Error.{Error}

abbrev pub wifi_message_max_len : ℕ
wifi_message_max_len = 2048

abbrev pub noise_tag_len : ℕ
noise_tag_len = 16

abbrev pub wifi_frame_payload_max_len : ℕ
wifi_frame_payload_max_len = wifi_message_max_len + noise_tag_len

abbrev pub postcard_frame_overhead_len : ℕ
postcard_frame_overhead_len = 8

abbrev pub frame_max_len : ℕ
frame_max_len = wifi_frame_payload_max_len + postcard_frame_overhead_len

-- The error of a reader that ends early; its text is the library's.
abbrev pub end_of_stream : Error
end_of_stream = Error.debug (codes "early eof")

abbrev pub extend_read : ℕ → Result (Bytes × Bytes) Error → Result (Bytes × Bytes) Error
extend_read b (err e) = err e
extend_read b (ok (taken, rest)) = ok (b ∷ taken, rest)

-- `read_exact`, with the bytes behind what was read.
unfoldable pub read_exact : ℕ → Bytes → Result (Bytes × Bytes) Error
read_exact zero bytes = ok ([], bytes)
read_exact (suc n) [] = err end_of_stream
read_exact (suc n) (b ∷ bytes) = extend_read b (read_exact n bytes)

-- `u16::from_be_bytes`
abbrev pub from_be_bytes : Bytes → ℕ
from_be_bytes (a ∷ b ∷ []) = a * 256 + b
from_be_bytes _ = 0

-- `u16::to_be_bytes`
abbrev pub to_be_bytes : ℕ → Bytes
to_be_bytes n = n / 256 ∷ n % 256 ∷ []

-- `u16::try_from(..)`
unfoldable pub u16_len : ℕ → Option ℕ
u16_len n = if ltb n (2 ^ 16) then some n else none

-- `if len == 0 || len > FRAME_MAX_LEN`
abbrev pub length_in_range : ℕ → Result ℕ Error
length_in_range len =
    if len == 0 || ltb frame_max_len len then err Error.insufficient_data else ok len

module _ {T : Type 0} (from_bytes : Bytes → Option T) (to_allocvec : T → Option Bytes) where
  abbrev pub decoded : Bytes × Bytes → Result (T × Bytes) Error
  decoded (payload, rest) =
      ok_or (from_bytes payload) Error.serialization >>= λ frame. ok (frame, rest)

  unfoldable pub read_frame : Bytes → Result (T × Bytes) Error
  read_frame bytes = do
    (len_bytes, rest) ← read_exact 2 bytes
    len ← length_in_range (from_be_bytes len_bytes)
    read_exact len rest >>= decoded

  -- The bytes that `write_all` is given.
  unfoldable pub write_frame : T → Result Bytes Error
  write_frame frame = do
    payload ← ok_or (to_allocvec frame) Error.serialization
    len ← ok_or (u16_len (length payload)) Error.serialization
    ok (to_be_bytes len ++ payload)

  read_exact-append :
      (payload rest : Bytes) → read_exact (length payload) (payload ++ rest) ≡ ok (payload, rest)
  unfolding read_exact
  read_exact-append [] rest = refl
  read_exact-append (b ∷ payload) rest = ap (extend_read b) (read_exact-append payload rest)

  -- A frame whose payload decodes to it and has from 1 to 2072 bytes is written, and read back with
  -- the bytes behind it left, whatever they are.
  pub read-write_frame :
      (frame : T) (payload rest : Bytes)
      → to_allocvec frame ≡ some payload
      → from_bytes payload ≡ some frame
      → 0 < length payload
      → length payload ≤ frame_max_len
      → (bytes : Bytes) × (write_frame frame ≡ ok bytes)
        × (read_frame (bytes ++ rest) ≡ ok (frame, rest))
  unfolding write_frame read_frame u16_len read_exact
  read-write_frame frame payload rest encodes decodes lo hi =
      let n = length payload in
      let after_length : ℕ → Result (T × Bytes) Error =
        λ m. length_in_range m >>= λ len. read_exact len (payload ++ rest) >>= decoded in
      let fits : ltb n (2 ^ 16) ≡ true = ground arith in
      let whole : n / 256 * 256 + n % 256 ≡ n = ground arith in
      let accepted : length_in_range n ≡ ok n = ground arith in
      (
        to_be_bytes n ++ payload,
        rw (encodes, fits) refl,
        ap after_length whole
            ∙ ap (λ r. r >>= λ len. read_exact len (payload ++ rest) >>= decoded) accepted
            ∙ ap (λ r. r >>= decoded) (read_exact-append payload rest)
            ∙ ap (λ o. ok_or o Error.serialization >>= λ x. ok (x, rest)) decodes,
      )
