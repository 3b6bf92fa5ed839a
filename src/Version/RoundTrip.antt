-- ===== src/Version/RoundTrip.antt =====
-- Printing and parsing of `Version` in src/message.rs.
use enody_rs.Common.{◌≡◌, refl, Text, List, [], ◌∷◌, ◌++◌, some, ok, arith}
use enody_rs.Strings.Numbers.{
  decimal, Digits, decimal-Digits, parse_uint, parse_uint-le, parse_uint-decimal,
}
use enody_rs.Strings.Parts.{split, Lacks, split-Lacks, split-append}
use enody_rs.Version.{Version, InRange, u8_max, u16_max, display, parse_parts, from_str}

Digits-Lacks : (s : Text) → Digits s → Lacks b'.' s
Digits-Lacks [] h = tt
Digits-Lacks (c ∷ s) (h, k) = ((λ e. ground arith), Digits-Lacks s k)

split-display :
    (v : Version)
    → split b'.' (display v) ≡ decimal v.major ∷ decimal v.minor ∷ decimal v.patch ∷ []
unfolding display
split-display v = simp (
  split-append b'.' (decimal v.major) (decimal v.minor ++ (b'.' ∷ decimal v.patch))
      (Digits-Lacks _ (decimal-Digits v.major)),
  split-append b'.' (decimal v.minor) (decimal v.patch) (Digits-Lacks _ (decimal-Digits v.minor)),
  split-Lacks b'.' (decimal v.patch) (Digits-Lacks _ (decimal-Digits v.patch)),
)

-- The text of a version whose fields fit their types is parsed back to that version.
pub from_str-display : (v : Version) → InRange v → from_str (display v) ≡ ok v
unfolding from_str
from_str-display v (h, k, l) = rw (
  split-display v,
  parse_uint-decimal u8_max v.major h,
  parse_uint-decimal u8_max v.minor k,
  parse_uint-decimal u16_max v.patch l,
)

-- The parts and fields of an accepted text.
abbrev pub Reads : List Text → Version → Type 0
Reads parts v =
    (a : Text) × (b : Text) × (c : Text) × (parts ≡ a ∷ b ∷ c ∷ [])
    × (parse_uint u8_max a ≡ some v.major)
    × (parse_uint u8_max b ≡ some v.minor)
    × (parse_uint u16_max c ≡ some v.patch)

parse_parts-Reads : (parts : List Text) (v : Version) → parse_parts parts ≡ ok v → Reads parts v
unfolding parse_parts
parse_parts-Reads [] v e = cc
parse_parts-Reads (a ∷ []) v e = ground arith
parse_parts-Reads (a ∷ b ∷ []) v e = ground arith
parse_parts-Reads (a ∷ b ∷ c ∷ []) v e = (a, b, c, refl, ground arith, ground arith, ground arith)
parse_parts-Reads (a ∷ b ∷ c ∷ d ∷ r) v e = ground arith

-- A text that is accepted has exactly three parts between its dots, and they are the fields, each
-- in the range of its type.
pub from_str_sound :
    (s : Text) (v : Version) → from_str s ≡ ok v → Reads (split b'.' s) v × InRange v
unfolding from_str
from_str_sound s v e =
    let (a, b, c, parts, ea, eb, ec) = parse_parts-Reads (split b'.' s) v e in
    (
      (a, b, c, parts, ea, eb, ec),
      (
        parse_uint-le u8_max v.major a ea,
        parse_uint-le u8_max v.minor b eb,
        parse_uint-le u16_max v.patch c ec,
      ),
    )
