-- ===== src/Version.antt =====
-- `Version` of src/message.rs: the version triple, its text form and its derived order.
pub mod RoundTrip
pub mod Order
mod Examples
use Prim.Native.Nat.{compare, Ordering}
use enody_rs.Common.{
  ℕ, ◌^◌, ◌-◌, ◌≤◌, Bool, true, false, ◌&&◌, ◌==◌, List, [], ◌∷◌, ◌++◌, Option, none, some, Text,
  codes, Result, ok, err, ok_or, ◌>>=◌,
}
use enody_rs.Strings.Numbers.{decimal, parse_uint}
use enody_rs.Strings.Parts.{split}

pub record Version : Type 0 where
  pub major : ℕ
  pub minor : ℕ
  pub patch : ℕ

abbrev pub u8_max : ℕ
u8_max = 2 ^ 8 - 1

abbrev pub u16_max : ℕ
u16_max = 2 ^ 16 - 1

-- The ranges of the fields' types.
abbrev pub InRange : Version → Type 0
InRange v = (v.major ≤ u8_max) × (v.minor ≤ u8_max) × (v.patch ≤ u16_max)

-- `Version::default`
abbrev pub default : Version
default = record { major = 0; minor = 0; patch = 0 }

-- `Display`
unfoldable pub display : Version → Text
display v = decimal v.major ++ (b'.' ∷ (decimal v.minor ++ (b'.' ∷ decimal v.patch)))

-- `parts.next()` with the parts that are left.
abbrev next : List Text → Option (Text × List Text)
next [] = none
next (p ∷ ps) = some (p, ps)

-- `if parts.next().is_some() { return Err(..) }`
abbrev no_more : List Text → Version → Result Version Text
no_more [] v = ok v
no_more (p ∷ ps) v = err (codes "too many version parts")

-- `FromStr` behind `split`; the error is its message.
parse_parts : List Text → Result Version Text
parse_parts parts = do
  (major_text, parts) ← ok_or (next parts) (codes "missing major")
  major ← ok_or (parse_uint u8_max major_text) (codes "invalid major")
  (minor_text, parts) ← ok_or (next parts) (codes "missing minor")
  minor ← ok_or (parse_uint u8_max minor_text) (codes "invalid minor")
  (patch_text, parts) ← ok_or (next parts) (codes "missing patch")
  patch ← ok_or (parse_uint u16_max patch_text) (codes "invalid patch")
  no_more parts (record { major = major; minor = minor; patch = patch })

unfoldable pub from_str : Text → Result Version Text
unfolding parse_parts
from_str s = parse_parts (split b'.' s)

-- The derived `Ord`: lexicographic.
abbrev pub then : Ordering → Ordering → Ordering
then Ordering.lt o = Ordering.lt
then Ordering.eq o = o
then Ordering.gt o = Ordering.gt

unfoldable pub cmp : Version → Version → Ordering
cmp a b = then (compare a.major b.major) (then (compare a.minor b.minor) (compare a.patch b.patch))

-- `a > b`
abbrev pub is_newer : Version → Version → Bool
is_newer a b = elim (cmp a b) [ Ordering.gt ↦ true | _ ↦ false ]
