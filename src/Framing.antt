-- ===== src/Framing.antt =====
-- src/serialization.rs: STX/ETX frames with DLE escapes, and the streaming parser.
-- A byte is a number below 256; the buffer is the growable one of the `std` feature.
pub mod RoundTrip
pub mod Stream
pub mod Invariant
pub mod Memory
pub mod Fixed
pub mod Codec
mod Examples
use enody_rs.Common.{
  ℕ, Bytes, Bool, true, false, not, ◌&&◌, ◌||◌, ◌==◌, ltb, if◌then◌else◌, List, [], ◌∷◌, ◌++◌,
  length, Option, none, some, Result, ok, err, to_option,
}
use enody_rs.Error.{Error}

abbrev pub control_char_stx : ℕ
control_char_stx = 0x02

abbrev pub control_char_etx : ℕ
control_char_etx = 0x03

abbrev pub control_char_dle : ℕ
control_char_dle = 0x10

abbrev pub frame_size_min : ℕ
frame_size_min = 2

-- The bytes that are written behind a DLE.
abbrev pub is_control : ℕ → Bool
is_control byte = byte == control_char_stx || byte == control_char_etx || byte == control_char_dle

unfoldable pub escaped_bytes : Bytes → Bytes
escaped_bytes [] = []
escaped_bytes (byte ∷ payload) =
    if is_control byte
    then control_char_dle ∷ byte ∷ escaped_bytes payload
    else byte ∷ escaped_bytes payload

-- The loop of `unescape_bytes`, with the flag `is_escaped`.
unescape_from : Bool → Bytes → Bytes
unescape_from is_escaped [] = []
unescape_from true (byte ∷ rest) = byte ∷ unescape_from false rest
unescape_from false (byte ∷ rest) = elim (byte == control_char_dle) [
  | true ↦ unescape_from true rest
  | false ↦ byte ∷ unescape_from false rest
]

unfoldable pub unescape_bytes : Bytes → Bytes
unfolding unescape_from
unescape_bytes = unescape_from false

unfoldable pub frame_bytes : Bytes → Bytes
frame_bytes payload = control_char_stx ∷ (escaped_bytes payload ++ control_char_etx ∷ [])

-- `frame[0]` and `frame[frame.len() - 1]`; the length test before them keeps the indices in range.
first_byte : Bytes → Option ℕ
first_byte [] = none
first_byte (x ∷ xs) = some x

last_byte : Bytes → Option ℕ
last_byte [] = none
last_byte (x ∷ []) = some x
last_byte (x ∷ y ∷ xs) = last_byte (y ∷ xs)

-- `&frame[1..frame.len() - 1]`
drop_first : Bytes → Bytes
drop_first [] = []
drop_first (x ∷ xs) = xs

drop_last : Bytes → Bytes
drop_last [] = []
drop_last (x ∷ []) = []
drop_last (x ∷ y ∷ xs) = x ∷ drop_last (y ∷ xs)

is_byte : ℕ → Option ℕ → Bool
is_byte b none = false
is_byte b (some x) = x == b

unfoldable pub unframe_bytes : Bytes → Result Bytes Error
unfolding first_byte last_byte drop_first drop_last is_byte
unframe_bytes frame =
    if ltb (length frame) frame_size_min
    then err Error.insufficient_data
    else if not (is_byte control_char_stx (first_byte frame))
        || not (is_byte control_char_etx (last_byte frame))
    then err Error.insufficient_data
    else ok (unescape_bytes (drop_last (drop_first frame)))

pub record MessageStream : Type 0 where
  pub buffer : Bytes
  pub is_escaped : Bool

unfoldable pub new : MessageStream
new = record { buffer = []; is_escaped = false }

-- The branch of `push_byte` that waits for a frame to start.
wait_for_start : MessageStream → ℕ → MessageStream × Option Bytes
wait_for_start stream byte = (
  record {
    buffer = if byte == control_char_stx && not stream.is_escaped then byte ∷ [] else [];
    is_escaped = byte == control_char_dle && not stream.is_escaped;
  },
  none,
)

-- The branch of `push_byte` inside a frame.
accumulate : MessageStream → ℕ → MessageStream × Option Bytes
accumulate stream byte =
    let buffer = stream.buffer ++ byte ∷ [] in
    if byte == control_char_etx && not stream.is_escaped
    then (record { buffer = []; is_escaped = false }, to_option (unframe_bytes buffer))
    else (
      record { buffer = buffer; is_escaped = byte == control_char_dle && not stream.is_escaped },
      none,
    )

push_on : Bytes → MessageStream → ℕ → MessageStream × Option Bytes
push_on [] stream byte = wait_for_start stream byte
push_on (x ∷ xs) stream byte = accumulate stream byte

unfoldable pub push_byte : MessageStream → ℕ → MessageStream × Option Bytes
unfolding push_on wait_for_start accumulate
push_byte stream byte = push_on stream.buffer stream byte

-- `filter_map` keeps the payloads that were completed.
abbrev pub keep_some : Option Bytes → List Bytes → List Bytes
keep_some none rest = rest
keep_some (some payload) rest = payload ∷ rest

unfoldable pub push_bytes : MessageStream → Bytes → MessageStream × List Bytes
push_bytes stream [] = (stream, [])
push_bytes stream (b ∷ bytes) =
    let (stream', frame) = push_byte stream b in
    let (final, frames) = push_bytes stream' bytes in (final, keep_some frame frames)

-- The buffer of `no_std` builds holds this many bytes.
abbrev pub buffer_capacity : ℕ
buffer_capacity = 512

-- `push_byte` of `no_std` builds: a byte that no longer fits drops the frame.
push_on_fixed : Bytes → MessageStream → ℕ → MessageStream × Option Bytes
push_on_fixed [] stream byte = wait_for_start stream byte
push_on_fixed (x ∷ xs) stream byte =
    if ltb (length stream.buffer) buffer_capacity
    then accumulate stream byte
    else (record { buffer = []; is_escaped = false }, none)

unfoldable pub push_byte_fixed : MessageStream → ℕ → MessageStream × Option Bytes
unfolding push_on_fixed wait_for_start accumulate
push_byte_fixed stream byte = push_on_fixed stream.buffer stream byte

-- `push_bytes` of `no_std` builds.
unfoldable pub push_bytes_fixed : MessageStream → Bytes → MessageStream × List Bytes
push_bytes_fixed stream [] = (stream, [])
push_bytes_fixed stream (b ∷ bytes) =
    let (stream', frame) = push_byte_fixed stream b in
    let (final, frames) = push_bytes_fixed stream' bytes in (final, keep_some frame frames)
