-- ===== src/Framing/RoundTrip.antt =====
-- Escaping and framing of src/serialization.rs undo each other.
use enody_rs.Common.{
  ℕ, ◌+◌, ◌*◌, ◌≤◌, Bytes, false, [], ◌∷◌, ◌++◌, length, length-append, ◌≡◌, refl, some, ok, arith,
  ap,
}
use enody_rs.Framing.{
  escaped_bytes, unescape_from, unescape_bytes, frame_bytes, unframe_bytes, last_byte, drop_last,
  control_char_etx, control_char_stx,
}

unescape_from-escaped : (p : Bytes) → unescape_from false (escaped_bytes p) ≡ p
unfolding unescape_from escaped_bytes
unescape_from-escaped [] = refl
unescape_from-escaped (b ∷ p) = ground (arith, unescape_from-escaped p)

-- Unescaping an escaped payload gives the payload back.
pub unescape-escaped : (p : Bytes) → unescape_bytes (escaped_bytes p) ≡ p
unfolding unescape_bytes
unescape-escaped p = unescape_from-escaped p

last_byte-concat : (xs : Bytes) (x : ℕ) → last_byte (xs ++ x ∷ []) ≡ some x
unfolding last_byte
last_byte-concat [] x = refl
last_byte-concat (y ∷ []) x = refl
last_byte-concat (y ∷ z ∷ xs) x = last_byte-concat (z ∷ xs) x

drop_last-concat : (xs : Bytes) (x : ℕ) → drop_last (xs ++ x ∷ []) ≡ xs
unfolding drop_last
drop_last-concat [] x = refl
drop_last-concat (y ∷ []) x = refl
drop_last-concat (y ∷ z ∷ xs) x = ap (◌∷◌ y) (drop_last-concat (z ∷ xs) x)

-- A buffer from STX to ETX is a frame, whatever stands between.
pub unframe-delimited :
    (xs : Bytes)
    → unframe_bytes (control_char_stx ∷ (xs ++ control_char_etx ∷ [])) ≡ ok (unescape_bytes xs)
unfolding unframe_bytes
unframe-delimited xs = ground (
  arith,
  length-append xs (control_char_etx ∷ []),
  last_byte-concat (control_char_stx ∷ xs) control_char_etx,
  drop_last-concat xs control_char_etx,
)

-- Unframing a framed payload gives the payload back, whatever bytes it holds.
pub unframe-frame : (p : Bytes) → unframe_bytes (frame_bytes p) ≡ ok p
unfolding frame_bytes
unframe-frame p = rw (unframe-delimited, unescape-escaped)

length-escaped_le : (p : Bytes) → length (escaped_bytes p) ≤ 2 * length p
unfolding escaped_bytes
length-escaped_le [] = omega arith
length-escaped_le (b ∷ p) = ground (arith, length-escaped_le p)

le-length-escaped : (p : Bytes) → length p ≤ length (escaped_bytes p)
unfolding escaped_bytes
le-length-escaped [] = omega arith
le-length-escaped (b ∷ p) = ground (arith, le-length-escaped p)

-- A frame is at least two bytes longer than its payload, and at most twice as long and two more.
pub length-frame_bounds :
    (p : Bytes)
    → (length p + 2 ≤ length (frame_bytes p)) × (length (frame_bytes p) ≤ 2 * length p + 2)
unfolding frame_bytes
length-frame_bounds p =
    let e = length-append (escaped_bytes p) (control_char_etx ∷ []) in
    (omega (arith, e, le-length-escaped p), omega (arith, e, length-escaped_le p))
