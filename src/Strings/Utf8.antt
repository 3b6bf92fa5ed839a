-- ===== src/Strings/Utf8.antt =====
-- `str::from_utf8`: which bytes are UTF-8.
use enody_rs.Common.{
  ℕ, zero, suc, Bytes, Bool, true, false, ◌&&◌, ◌==◌, leb, ltb, Option, none, some, [], ◌∷◌,
  if◌then◌else◌,
}

-- How many bytes follow, and the range of the next one.
pub record Pending : Type 0 where
  pub count : ℕ
  pub low : ℕ
  pub high : ℕ

abbrev following : ℕ → ℕ → ℕ → Option Pending
following count low high = some (record { count = count; low = low; high = high })

abbrev within : ℕ → ℕ → ℕ → Bool
within low high byte = leb low byte && leb byte high

-- What a first byte asks for: no overlong form, no surrogate, nothing beyond U+10FFFF.
first_byte : ℕ → Option Pending
first_byte byte =
    if ltb byte 0x80
    then following 0 0x80 0xbf
    else if within 0xc2 0xdf byte
    then following 1 0x80 0xbf
    else if byte == 0xe0
    then following 2 0xa0 0xbf
    else if byte == 0xed
    then following 2 0x80 0x9f
    else if within 0xe1 0xef byte
    then following 2 0x80 0xbf
    else if byte == 0xf0
    then following 3 0x90 0xbf
    else if within 0xf1 0xf3 byte
    then following 3 0x80 0xbf
    else if byte == 0xf4
    then following 3 0x80 0x8f
    else none

is_utf8_from : ℕ → ℕ → ℕ → Bytes → Bool
is_utf8_from zero low high [] = true
is_utf8_from (suc count) low high [] = false
is_utf8_from zero low high (byte ∷ bytes) = elim (first_byte byte) [
  | none ↦ false
  | some next ↦ is_utf8_from next.count next.low next.high bytes
]
is_utf8_from (suc count) low high (byte ∷ bytes) =
    within low high byte && is_utf8_from count 0x80 0xbf bytes

unfoldable pub is_utf8 : Bytes → Bool
unfolding is_utf8_from first_byte
is_utf8 = is_utf8_from 0 0x80 0xbf
