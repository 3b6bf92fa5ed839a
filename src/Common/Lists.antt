-- ===== src/Common/Lists.antt =====
-- Lists measured and indexed by native numbers, and predicates on all elements.
use Prim.Native.Nat.{ℕ, zero, suc, ◌+◌, ◌≤◌}
use mathlib.Core.Path.{◌≡◌, refl, ap, sym, ◌∙◌, subst}
use mathlib.Core.Bool.{Bool, true, false, ◌||◌}
use mathlib.Core.Logic.{inl, inr}
use enody_rs.Common.Tests.{if◌then◌else◌, Bool-cases}
use mathlib.Core.List.{List, [], ◌∷◌, ◌++◌}
use mathlib.Core.Option.{Option, none, some}
use native.Mathlib.Omega.{arith}

module _ {ℓ} {A : Type ℓ} where
  abbrev pub length : List A → ℕ
  length [] = 0
  length (x ∷ xs) = suc (length xs)

  abbrev pub get_elem? : List A → ℕ → Option A
  get_elem? [] i = none
  get_elem? (x ∷ xs) zero = some x
  get_elem? (x ∷ xs) (suc i) = get_elem? xs i

  abbrev pub take : ℕ → List A → List A
  take n [] = []
  take zero (x ∷ xs) = []
  take (suc n) (x ∷ xs) = x ∷ take n xs

  abbrev pub drop : ℕ → List A → List A
  drop n [] = []
  drop zero (x ∷ xs) = x ∷ xs
  drop (suc n) (x ∷ xs) = drop n xs

  pub take-all : (n : ℕ) (xs : List A) → length xs ≤ n → take n xs ≡ xs
  take-all n [] h = refl
  take-all zero (x ∷ xs) h = absurd (omega arith)
  take-all (suc n) (x ∷ xs) h = ap (λ ys. x ∷ ys) (take-all n xs (omega arith))

  pub take-zero : (xs : List A) → take 0 xs ≡ []
  take-zero [] = refl
  take-zero (x ∷ xs) = refl

  pub length-take_le : (n : ℕ) (xs : List A) → length (take n xs) ≤ length xs
  length-take_le n [] = omega arith
  length-take_le zero (x ∷ xs) = omega arith
  length-take_le (suc n) (x ∷ xs) = omega (arith, length-take_le n xs)

  -- The next elements join on.
  pub take-drop : (n k : ℕ) (xs : List A) → take n xs ++ take k (drop n xs) ≡ take (n + k) xs
  take-drop n k [] = refl
  take-drop zero k (x ∷ xs) = let e : k ≡ 0 + k = omega arith in ap (λ m. take m (x ∷ xs)) e
  take-drop (suc n) k (x ∷ xs) =
      let e : suc n + k ≡ suc (n + k) = omega arith in
      ap (λ ys. x ∷ ys) (take-drop n k xs) ∙ ap (λ m. take m (x ∷ xs)) (sym e)

  pub length-append : (xs ys : List A) → length (xs ++ ys) ≡ length xs + length ys
  length-append [] ys = omega arith
  length-append (x ∷ xs) ys = omega (arith, length-append xs ys)

  abbrev pub All {κ} : (A → Type κ) → List A → Type κ
  All P [] = Unit
  All P (x ∷ xs) = P x × All P xs

module _ {ℓ κ} {A : Type ℓ} (P : A → Type κ) where
  pub All-append : (xs ys : List A) → All P xs → All P ys → All P (xs ++ ys)
  All-append [] ys _ hy = hy
  All-append (x ∷ xs) ys (px, hx) hy = (px, All-append xs ys hx hy)

module _ {ℓ} {A : Type ℓ} where
  -- `Vec::retain`
  abbrev pub retain : (A → Bool) → List A → List A
  retain keep [] = []
  retain keep (x ∷ xs) = if keep x then x ∷ retain keep xs else retain keep xs

  -- `iter().find(..)`
  abbrev pub find : (A → Bool) → List A → Option A
  find test [] = none
  find test (x ∷ xs) = if test x then some x else find test xs

  -- `iter().any(..)`
  abbrev pub any : (A → Bool) → List A → Bool
  any test [] = false
  any test (x ∷ xs) = test x || any test xs

  pub All-retain {κ} :
      (P : A → Type κ) (keep : A → Bool) (xs : List A) → All P xs → All P (retain keep xs)
  All-retain P keep [] h = tt
  All-retain P keep (x ∷ xs) (hx, h) = elim (Bool-cases (keep x)) [
    | inl e ↦ rw e (hx, All-retain P keep xs h)
    | inr e ↦ rw e (All-retain P keep xs h)
  ]

  -- What `retain` keeps passes its test.
  pub All-retained : (keep : A → Bool) (xs : List A) → All (λ x. keep x ≡ true) (retain keep xs)
  All-retained keep [] = tt
  All-retained keep (x ∷ xs) = elim (Bool-cases (keep x)) [
    | inl e ↦ rw e (e, All-retained keep xs)
    | inr e ↦ rw e (All-retained keep xs)
  ]

  pub All-imp {κ κ'} :
      (P : A → Type κ) (Q : A → Type κ') (xs : List A) → ((x : A) → P x → Q x) → All P xs → All Q xs
  All-imp P Q [] f h = tt
  All-imp P Q (x ∷ xs) f (hx, h) = (f x hx, All-imp P Q xs f h)

  -- What `find` returns passes its test and has what all elements have.
  pub find_sound {κ} :
      (P : A → Type κ) (test : A → Bool) (xs : List A) (a : A)
      → All P xs
      → find test xs ≡ some a
      → (test a ≡ true) × P a
  find_sound P test [] a h e = cc
  find_sound P test (x ∷ xs) a (hx, h) e = elim (Bool-cases (test x)) [
    | inl t ↦ let same : x ≡ a = ground arith in subst (λ y. (test y ≡ true) × P y) same (t, hx)
    | inr f ↦ find_sound P test xs a h (ground arith)
  ]
