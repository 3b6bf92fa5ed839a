-- ===== src/Measurement.antt =====
-- `Measurement` of src/lib.rs, an `f32`: its 32 bits as a number, with the comparison of IEEE 754.
-- No arithmetic of the modelled code works on measurements, so none is given.
use enody_rs.Common.{ℕ, ◌≡◌, ◌%◌, ◌^◌, ◌↔◌, Bool, true, false, not, ◌&&◌, ◌||◌, ◌==◌, ltb, arith}

abbrev pub Measurement : Type 0
Measurement = ℕ

-- The bits without the sign.
abbrev pub magnitude : Measurement → ℕ
magnitude a = a % 2 ^ 31

-- All exponent bits set, and a fraction that is not zero.
abbrev pub is_nan : Measurement → Bool
is_nan a = ltb 0x7f80_0000 (magnitude a)

-- `a == b`: a NaN equals nothing, and the two zeros are equal.
unfoldable pub measurement_eq : Measurement → Measurement → Bool
measurement_eq a b =
    not (is_nan a) && not (is_nan b) && (a == b || (magnitude a == 0 && magnitude b == 0))

pub measurement_eq_refl : (a : Measurement) → (measurement_eq a a ≡ true) ↔ (is_nan a ≡ false)
unfolding measurement_eq
measurement_eq_refl a = ((λ h. ground arith), (λ h. ground arith))
