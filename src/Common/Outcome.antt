-- ===== src/Common/Outcome.antt =====
-- Rust's `Result<T, E>` and its `?` operator.
use mathlib.Core.Path.{◌≡◌, refl}
use mathlib.Core.Logic.{◌⊎◌, inl, inr}
use mathlib.Core.Option.{Option, none, some}

pub data Result {ℓ κ} (A : Type ℓ) (E : Type κ) : Type (ℓ ⊔ κ) where
  ok : A → Result A E
  err : E → Result A E

module _ {ℓ κ} {A : Type ℓ} {E : Type κ} where
  -- `.ok()`
  abbrev pub to_option : Result A E → Option A
  to_option (ok a) = some a
  to_option (err e) = none

  -- `.ok_or(e)`
  abbrev pub ok_or : Option A → E → Result A E
  ok_or none e = err e
  ok_or (some a) e = ok a

  -- `?`: an error returns at once.
  infixl 5 ◌>>=◌
  abbrev pub ◌>>=◌ {μ} : {B : Type μ} → Result A E → (A → Result B E) → Result B E
  err e >>= next = err e
  ok a >>= next = next a

  -- What a chain needs for a result.
  pub >>=_ok {μ} :
      {B : Type μ} (r : Result A E) (next : A → Result B E) (b : B)
      → (r >>= next) ≡ ok b
      → (a : A) × (r ≡ ok a) × (next a ≡ ok b)
  >>=_ok (ok a) next b h = (a, refl, h)
  >>=_ok (err e) next b h = absurd cc

  pub ok_or-some : (o : Option A) (e : E) (a : A) → ok_or o e ≡ ok a → o ≡ some a
  ok_or-some none e a h = absurd cc
  ok_or-some (some x) e a h = cc

  pub Result-cases : (r : Result A E) → ((a : A) × (r ≡ ok a)) ⊎ ((e : E) × (r ≡ err e))
  Result-cases (ok a) = inl (a, refl)
  Result-cases (err e) = inr (e, refl)
