-- ===== src/Framing/Memory.antt =====
-- How much the parser of src/serialization.rs holds and delivers.
use enody_rs.Common.{
  ℕ, ◌+◌, ◌≤◌, ◌<◌, Bytes, Bool, true, false, ltb, List, [], ◌∷◌, length, length-append, ◌≡◌, refl,
  inl, inr, Option, none, some, arith, Bool-cases,
}
use enody_rs.Framing.{
  unescape_from, unescape_bytes, MessageStream, new, push_byte, push_byte_fixed, buffer_capacity,
  push_bytes, keep_some,
}
use enody_rs.Framing.Invariant.{IsOpen, push_byte-IsOpen, push_byte-Delivers, completes, tail}

length-unescape_from_le : (esc : Bool) (xs : Bytes) → length (unescape_from esc xs) ≤ length xs
unfolding unescape_from
length-unescape_from_le esc [] = omega arith
length-unescape_from_le true (x ∷ xs) = omega (arith, length-unescape_from_le false xs)
length-unescape_from_le false (x ∷ xs) =
    ground (arith, length-unescape_from_le true xs, length-unescape_from_le false xs)

-- Unescaping never lengthens.
length-unescape_le : (xs : Bytes) → length (unescape_bytes xs) ≤ length xs
unfolding unescape_bytes
length-unescape_le xs = length-unescape_from_le false xs

abbrev pub size : Option Bytes → ℕ
size none = 0
size (some p) = length p + 2

abbrev pub total_size : List Bytes → ℕ
total_size [] = 0
total_size (p ∷ ps) = length p + 2 + total_size ps

abbrev stream_of : Bytes → Bool → MessageStream
stream_of buffer esc = record { buffer = buffer; is_escaped = esc }

length-push_byte_le :
    (buffer : Bytes) (esc : Bool) (b : ℕ)
    → length (push_byte (stream_of buffer esc) b).0.buffer ≤ length buffer + 1
unfolding push_byte
length-push_byte_le [] esc b = ground arith
length-push_byte_le (x ∷ xs) esc b = ground (arith, length-append xs (b ∷ []))

size-push_byte :
    (s : MessageStream) (b : ℕ)
    → IsOpen s
    → size (push_byte s b).1 + length (push_byte s b).0.buffer ≤ length s.buffer + 1
unfolding new
size-push_byte s b h = elim (Bool-cases (completes s b)) [
  | inl e ↦
      rw ((push_byte-Delivers s b h).0, e, (push_byte-Delivers s b h).1 e)
        (delivered s.buffer (ground arith))
  | inr e ↦
      rw ((push_byte-Delivers s b h).0, e)
        (omega (arith, length-push_byte_le s.buffer s.is_escaped b))
]
  where
    delivered :
        (buffer : Bytes)
        → ltb 0 (length buffer) ≡ true
        → length (unescape_bytes (tail buffer)) + 2 + 0 ≤ length buffer + 1
    delivered [] e = cc
    delivered (x ∷ xs) e = omega (arith, length-unescape_le xs)

total_size-keep_some :
    (o : Option Bytes) (ps : List Bytes) → total_size (keep_some o ps) ≡ size o + total_size ps
total_size-keep_some none ps = omega arith
total_size-keep_some (some p) ps = omega arith

-- What is delivered, with two delimiters for each payload, and what stays in the buffer is never
-- more than what was in the buffer and came in.
pub push_bytes_size :
    (s : MessageStream) (bs : Bytes)
    → IsOpen s
    → total_size (push_bytes s bs).1 + length (push_bytes s bs).0.buffer
      ≤ length s.buffer + length bs
unfolding push_bytes
push_bytes_size s [] h = omega arith
push_bytes_size s (b ∷ bs) h = omega (
  arith,
  size-push_byte s b h,
  push_bytes_size (push_byte s b).0 bs (push_byte-IsOpen s b h),
  total_size-keep_some (push_byte s b).1 (push_bytes (push_byte s b).0 bs).1,
)

room-at :
    (buffer : Bytes) (esc : Bool) (b : ℕ)
    → length buffer < buffer_capacity
    → push_byte_fixed (stream_of buffer esc) b ≡ push_byte (stream_of buffer esc) b
unfolding push_byte push_byte_fixed
room-at [] esc b h = refl
room-at (x ∷ xs) esc b h = ground arith

-- While its buffer is not full the `no_std` parser does what the growable one does.
pub push_byte_fixed-room :
    (s : MessageStream) (b : ℕ)
    → length s.buffer < buffer_capacity
    → push_byte_fixed s b ≡ push_byte s b
push_byte_fixed-room s b h = room-at s.buffer s.is_escaped b h

full-at :
    (buffer : Bytes) (esc : Bool) (b : ℕ)
    → buffer_capacity ≤ length buffer
    → push_byte_fixed (stream_of buffer esc) b ≡ (new, none)
unfolding push_byte_fixed new
full-at [] esc b h = absurd (omega arith)
full-at (x ∷ xs) esc b h = ground arith

-- A byte behind a full buffer drops what the buffer holds.
pub push_byte_fixed-full :
    (s : MessageStream) (b : ℕ)
    → buffer_capacity ≤ length s.buffer
    → push_byte_fixed s b ≡ (new, none)
push_byte_fixed-full s b h = full-at s.buffer s.is_escaped b h

pub length-push_byte :
    (s : MessageStream) (b : ℕ) → length (push_byte s b).0.buffer ≤ length s.buffer + 1
length-push_byte s b = length-push_byte_le s.buffer s.is_escaped b
