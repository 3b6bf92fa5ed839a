-- ===== src/Message/Values.antt =====
-- Flux, configurations, transitions and receiver states of src/message.rs, with the `PartialEq`
-- that is derived for them. A `Duration` is its length in nanoseconds.
use enody_rs.Common.{
  ℕ, ◌+◌, ◌-◌, ◌*◌, ◌^◌, ◌≡◌, refl, ◌↔◌, min, Bool, true, false, ◌&&◌, ◌==◌, arith, ==_refl, &&_iff,
}
use enody_rs.Measurement.{Measurement, is_nan, measurement_eq, measurement_eq_refl}

pub data Flux : Type 0 where
  relative : Measurement → Flux

pub record Chromaticity : Type 0 where
  pub x : Measurement
  pub y : Measurement

pub data Configuration : Type 0 where
  flux : Configuration
  blackbody : Measurement → Configuration
  chromatic : Chromaticity → Configuration
  spectral : Configuration
  manual : Configuration

abbrev pub Duration : Type 0
Duration = ℕ

-- `Duration::from_millis`, `Duration::from_secs`
abbrev pub from_millis : ℕ → Duration
from_millis n = n * 1_000_000

abbrev pub from_secs : ℕ → Duration
from_secs n = n * 1_000_000_000

-- `u64::MAX` seconds and 999,999,999 nanoseconds.
abbrev pub duration_max : Duration
duration_max = 2 ^ 64 * 1_000_000_000 - 1

abbrev pub saturating_add : Duration → Duration → Duration
saturating_add a b = min (a + b) duration_max

pub data TransitionMethod : Type 0 where
  linear : Duration → TransitionMethod

unfoldable pub duration : TransitionMethod → Duration
duration (linear d) = d

pub record Transition {ℓ} (State : Type ℓ) : Type ℓ where
  pub target : State
  pub method : TransitionMethod

pub record FixtureState : Type 0 where
  pub configuration : Configuration
  pub flux : Flux

pub record SourceState : Type 0 where
  pub configuration : Configuration
  pub flux : Flux

unfoldable pub flux_eq : Flux → Flux → Bool
unfolding measurement_eq
flux_eq (relative a) (relative b) = measurement_eq a b

unfoldable pub chromaticity_eq : Chromaticity → Chromaticity → Bool
unfolding measurement_eq
chromaticity_eq a b = measurement_eq a.x b.x && measurement_eq a.y b.y

unfoldable pub configuration_eq : Configuration → Configuration → Bool
unfolding measurement_eq chromaticity_eq
configuration_eq Configuration.flux Configuration.flux = true
configuration_eq (blackbody a) (blackbody b) = measurement_eq a b
configuration_eq (chromatic a) (chromatic b) = chromaticity_eq a b
configuration_eq spectral spectral = true
configuration_eq manual manual = true
configuration_eq _ _ = false

unfoldable pub method_eq : TransitionMethod → TransitionMethod → Bool
method_eq (linear a) (linear b) = a == b

unfoldable pub fixture_state_eq : FixtureState → FixtureState → Bool
unfolding configuration_eq flux_eq
fixture_state_eq a b = configuration_eq a.configuration b.configuration && flux_eq a.flux b.flux

unfoldable pub source_state_eq : SourceState → SourceState → Bool
unfolding configuration_eq flux_eq
source_state_eq a b = configuration_eq a.configuration b.configuration && flux_eq a.flux b.flux

-- `Transition<State>` compares its state by the state's own `PartialEq`.
unfoldable pub transition_eq {ℓ} :
    {State : Type ℓ} → (State → State → Bool) → Transition State → Transition State → Bool
unfolding method_eq
transition_eq state_eq a b = state_eq a.target b.target && method_eq a.method b.method

-- The measurements of a value are all numbers.
abbrev pub HasNumbers : Configuration → Type 0
HasNumbers (blackbody a) = is_nan a ≡ false
HasNumbers (chromatic c) = (is_nan c.x ≡ false) × (is_nan c.y ≡ false)
HasNumbers _ = Unit

abbrev pub FluxHasNumbers : Flux → Type 0
FluxHasNumbers (relative a) = is_nan a ≡ false

pub configuration_eq_refl : (c : Configuration) → (configuration_eq c c ≡ true) ↔ HasNumbers c
unfolding configuration_eq chromaticity_eq
configuration_eq_refl Configuration.flux = (λ _. tt, λ _. refl)
configuration_eq_refl (blackbody a) = measurement_eq_refl a
configuration_eq_refl (chromatic c) = (
  (λ h. ground (arith, measurement_eq_refl c.x, measurement_eq_refl c.y)),
  (λ h. ground (arith, measurement_eq_refl c.x, measurement_eq_refl c.y)),
)
configuration_eq_refl spectral = (λ _. tt, λ _. refl)
configuration_eq_refl manual = (λ _. tt, λ _. refl)

pub flux_eq_refl : (f : Flux) → (flux_eq f f ≡ true) ↔ FluxHasNumbers f
unfolding flux_eq
flux_eq_refl (relative a) = measurement_eq_refl a

method_eq_refl : (m : TransitionMethod) → method_eq m m ≡ true
unfolding method_eq
method_eq_refl (linear d) = ==_refl d

-- The measurements of a state are all numbers.
abbrev pub StateHasNumbers : Configuration → Flux → Type 0
StateHasNumbers c f = HasNumbers c × FluxHasNumbers f

state_eq_refl :
    (c : Configuration) (f : Flux)
    → ((configuration_eq c c && flux_eq f f) ≡ true) ↔ StateHasNumbers c f
state_eq_refl c f = (
  (λ h.
      let (hc, hf) = (&&_iff (configuration_eq c c) (flux_eq f f)).0 h in
      ((configuration_eq_refl c).0 hc, (flux_eq_refl f).0 hf)),
  (λ h. (&&_iff _ _).1 ((configuration_eq_refl c).1 h.0, (flux_eq_refl f).1 h.1)),
)

pub transition_eq_self {ℓ} :
    {State : Type ℓ} (state_eq : State → State → Bool) (t : Transition State)
    → transition_eq state_eq t t ≡ state_eq t.target t.target
unfolding transition_eq
transition_eq_self state_eq t = rw (method_eq_refl t.method) (ground arith)

-- A fixture transition equals itself exactly when no measurement of its target is a NaN.
pub fixture_transition_eq_refl :
    (t : Transition FixtureState)
    → (transition_eq fixture_state_eq t t ≡ true)
      ↔ StateHasNumbers t.target.configuration t.target.flux
unfolding fixture_state_eq
fixture_transition_eq_refl t =
    rw (transition_eq_self fixture_state_eq t) (state_eq_refl t.target.configuration t.target.flux)

-- Nor does it differ for a source.
pub source_transition_eq_refl :
    (t : Transition SourceState)
    → (transition_eq source_state_eq t t ≡ true)
      ↔ StateHasNumbers t.target.configuration t.target.flux
unfolding source_state_eq
source_transition_eq_refl t =
    rw (transition_eq_self source_state_eq t) (state_eq_refl t.target.configuration t.target.flux)
