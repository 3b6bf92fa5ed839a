-- ===== src/Strings/Numbers.antt =====
-- `Display` and `FromStr` of the unsigned integers.
use mathlib.Core.List.{cons-ne-nil, concat-ne-nil}
use enody_rs.Common.{
  ℕ, zero, suc, ◌+◌, ◌-◌, ◌*◌, ◌/◌, ◌%◌, ◌≤◌, ◌<◌, Text, ◌&&◌, ◌==◌, ltb, leb, if◌then◌else◌, [],
  ◌∷◌, ◌++◌, All, All-append, ◌≡◌, refl, ◌≢◌, Option, none, some, arith, Bool-cases, inl, inr,
}

-- The decimal digits, by fuel; `n + 1` rounds suffice for `n`.
unfoldable pub decimal_from : ℕ → ℕ → Text
decimal_from zero n = []
decimal_from (suc fuel) n =
    let front = decimal_from fuel (n / 10) in
    if ltb n 10 then (b'0' + n) ∷ [] else front ++ (b'0' + n % 10) ∷ []

unfoldable pub decimal : ℕ → Text
unfolding decimal_from
decimal n = decimal_from (suc n) n

-- The digit loop, with the checked multiplication and addition of a type whose largest value is
-- `limit`.
unfoldable pub scan_digits : ℕ → ℕ → Text → Option ℕ
scan_digits limit acc [] = some acc
scan_digits limit acc (c ∷ s) =
    let d = c - b'0' in
    if leb b'0' c && leb c b'9' && leb (acc * 10) limit && leb (acc * 10 + d) limit
    then scan_digits limit (acc * 10 + d) s
    else none

-- `s.parse::<uN>()`: a single `+` may stand in front of the digits.
unfoldable pub parse_uint : ℕ → Text → Option ℕ
unfolding scan_digits
parse_uint limit [] = none
parse_uint limit (c ∷ []) = scan_digits limit 0 (c ∷ [])
parse_uint limit (c ∷ d ∷ s) =
    if c == b'+' then scan_digits limit 0 (d ∷ s) else scan_digits limit 0 (c ∷ d ∷ s)

abbrev pub Digits : Text → Type 0
Digits = All (λ c. (b'0' ≤ c) × (c ≤ b'9'))

scan_digits-le :
    (limit acc n : ℕ) (s : Text) → acc ≤ limit → scan_digits limit acc s ≡ some n → n ≤ limit
unfolding scan_digits
scan_digits-le limit acc n [] h e = ground arith
scan_digits-le limit acc n (c ∷ s) h e =
    ground (arith, scan_digits-le limit (acc * 10 + (c - b'0')) n s)

-- A parsed number fits its type.
pub parse_uint-le : (limit n : ℕ) (s : Text) → parse_uint limit s ≡ some n → n ≤ limit
unfolding parse_uint
parse_uint-le limit n [] e = cc
parse_uint-le limit n (c ∷ []) e = scan_digits-le limit 0 n (c ∷ []) (omega arith) e
parse_uint-le limit n (c ∷ d ∷ s) e =
    ground (arith, scan_digits-le limit 0 n (d ∷ s), scan_digits-le limit 0 n (c ∷ d ∷ s))

scan_digits-concat :
    (limit acc n d : ℕ) (s : Text)
    → scan_digits limit acc s ≡ some n
    → d ≤ 9
    → n * 10 + d ≤ limit
    → scan_digits limit acc (s ++ (b'0' + d) ∷ []) ≡ some (n * 10 + d)
unfolding scan_digits
scan_digits-concat limit acc n d [] e h k = ground arith
scan_digits-concat limit acc n d (c ∷ s) e h k =
    ground (arith, scan_digits-concat limit (acc * 10 + (c - b'0')) n d s)

scan-decimal_from :
    (limit fuel n : ℕ) → n < fuel → n ≤ limit → scan_digits limit 0 (decimal_from fuel n) ≡ some n
unfolding decimal_from
scan-decimal_from limit zero n h k = absurd (omega arith)
scan-decimal_from limit (suc fuel) n h k = elim (Bool-cases (ltb n 10)) [
  | inl e ↦ rw e (unfold scan_digits in ground arith)
  | inr e ↦ rw e (
      ground (
        arith,
        scan-decimal_from limit fuel (n / 10),
        scan_digits-concat limit 0 (n / 10) (n % 10) (decimal_from fuel (n / 10)),
      ))
]

decimal_from-Digits : (fuel n : ℕ) → Digits (decimal_from fuel n)
unfolding decimal_from
decimal_from-Digits zero n = tt
decimal_from-Digits (suc fuel) n = elim (Bool-cases (ltb n 10)) [
  | inl e ↦ rw e (ground arith)
  | inr e ↦ rw e (All-append _ _ _ (decimal_from-Digits fuel (n / 10)) (ground arith))
]

pub decimal-Digits : (n : ℕ) → Digits (decimal n)
unfolding decimal
decimal-Digits n = decimal_from-Digits (suc n) n

parse-scan : (limit : ℕ) (s : Text) → Digits s → s ≢ [] → parse_uint limit s ≡ scan_digits limit 0 s
unfolding parse_uint
parse-scan limit [] h k = absurd (k refl)
parse-scan limit (c ∷ []) h k = refl
parse-scan limit (c ∷ d ∷ s) h k = ground arith

decimal-ne-nil : (n : ℕ) → decimal n ≢ []
unfolding decimal
decimal-ne-nil n = elim (Bool-cases (ltb n 10)) [
  | inl e ↦ rw e (cons-ne-nil (b'0' + n) [])
  | inr e ↦ rw e (concat-ne-nil (b'0' + n % 10) (decimal_from n (n / 10)))
]

-- A number that fits the type is read back from its decimal print.
pub parse_uint-decimal : (limit n : ℕ) → n ≤ limit → parse_uint limit (decimal n) ≡ some n
parse_uint-decimal limit n h =
    rw (parse-scan limit (decimal n) (decimal-Digits n) (decimal-ne-nil n))
      (unfold decimal in scan-decimal_from limit (suc n) n (omega arith) h)
