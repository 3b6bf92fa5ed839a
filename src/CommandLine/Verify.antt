-- ===== src/CommandLine/Verify.antt =====
-- The check of a new WiFi token in src/main.rs, over what each attempt's connection answers.
use enody_rs.Common.{
  ℕ, zero, suc, ◌+◌, ◌≤◌, ◌<◌, ◌≡◌, refl, sym, ◌∙◌, ap, ltb, Result, ok, err, ◌>>=◌, ok_or,
  if◌then◌else◌, arith, Bool-cases, inl, inr, ◌⊎◌, Result-cases, length, ◌==◌, ==_iff, subst, Text,
  Bytes,
}
use enody_rs.Error.{Error}
use enody_rs.Message.Topology.{Identifier}
use enody_rs.Message.Runtime.{Token}
use enody_rs.Wifi.Device.{WifiDiscoveredDevice, endpoint}

abbrev pub wifi_token_verify_attempts : ℕ
wifi_token_verify_attempts = 8

-- What a new connection is made with.
pub record Target : Type 0 where
  pub endpoint : Text
  pub identifier : Identifier
  pub key_id : Text
  pub key : Bytes

-- The key has 32 bytes.
unfoldable pub from_endpoint : Token → Text → Result Target Error
from_endpoint token address =
    if length token.key_data == 32
    then ok (record {
      endpoint = address;
      identifier = token.host_id;
      key_id = token.key_id;
      key = token.key_data;
    })
    else err Error.argument

unfoldable pub from_discovered_device : Token → WifiDiscoveredDevice → Result Target Error
from_discovered_device token device =
    ok_or (endpoint device) Error.argument >>= λ address. from_endpoint token address

-- The results of connecting, of asking for the host, and of disconnecting.
pub record Attempt : Type 0 where
  pub connect : Result (Unit {0}) Error
  pub host : Result Identifier Error
  pub disconnect : Result (Unit {0}) Error

-- A failed connect returns before the disconnect; a failed host is reported behind it.
unfoldable pub verify_wifi_runtime : Attempt → Result Identifier Error
verify_wifi_runtime attempt = do
  _ ← attempt.connect
  host_id ← attempt.host
  _ ← attempt.disconnect
  ok host_id

-- An attempt's error is returned by the last attempt only.
abbrev pub on_attempt :
    ℕ → Result Identifier Error → Result Identifier Error → Result Identifier Error
on_attempt attempt (ok host_id) again = ok host_id
on_attempt attempt (err e) again = if ltb attempt wifi_token_verify_attempts then again else err e

module _ (attempts : Target → ℕ → Attempt) where
  abbrev pub attempt_with :
      Token → WifiDiscoveredDevice → ℕ → Result Identifier Error → Result Identifier Error
  attempt_with token device attempt again = from_discovered_device token device >>= λ target.
      on_attempt attempt (verify_wifi_runtime (attempts target attempt)) again

  -- The attempts that are left, from a number on.
  unfoldable pub verify_from : Token → WifiDiscoveredDevice → ℕ → ℕ → Result Identifier Error
  verify_from token device zero attempt = err Error.timeout
  verify_from token device (suc left) attempt =
      attempt_with token device attempt (verify_from token device left (suc attempt))

  unfoldable pub verify_wifi_token_from_discovered_device :
      Token → WifiDiscoveredDevice → Result Identifier Error
  verify_wifi_token_from_discovered_device token device =
      verify_from token device wifi_token_verify_attempts 1

  module _ (token : Token) (device : WifiDiscoveredDevice) (target : Target) where
    abbrev pub run : ℕ → Result Identifier Error
    run attempt = verify_wifi_runtime (attempts target attempt)

    -- The attempts from one number up to another fail.
    abbrev pub Fail : ℕ → ℕ → Type 0
    Fail from to = (m : ℕ) → from ≤ m → m < to → (e : Error) × (run m ≡ err e)

    -- The first attempt that succeeds gives the host, or all fail and the last gives the error.
    abbrev pub Ends : ℕ → Result Identifier Error → Type 0
    Ends from r =
        ((n : ℕ) × (host_id : Identifier) × (r ≡ ok host_id)
          × (from ≤ n)
          × (n ≤ 8)
          × (run n ≡ ok host_id)
          × Fail from n)
        ⊎ ((e : Error) × (r ≡ err e) × (run 8 ≡ err e) × Fail from 9)

    Fail-step : (from to : ℕ) (e : Error) → run from ≡ err e → Fail (suc from) to → Fail from to
    Fail-step from to e h fs m from≤m m<to = elim (Bool-cases (m == from)) [
      | inl same ↦ (e, ap run ((==_iff m from).0 same) ∙ h)
      | inr other ↦ fs m (ground arith) m<to
    ]

    Fail-none : (n : ℕ) → Fail n n
    Fail-none n m n≤m m<n = absurd (omega arith)

    Ends-step :
        (from : ℕ) (e : Error) (r : Result Identifier Error)
        → run from ≡ err e
        → Ends (suc from) r
        → Ends from r
    Ends-step from e r h (inl (n, host_id, same, from<n, n≤8, run_n, fs)) =
        inl (n, host_id, same, omega arith, n≤8, run_n, Fail-step from n e h fs)
    Ends-step from e r h (inr (last, same, run_8, fs)) =
        inr (last, same, run_8, Fail-step from 9 e h fs)

    tries_again :
        (attempt : ℕ) (e : Error) (again : Result Identifier Error)
        → attempt < 8
        → again ≡ on_attempt attempt (err e) again
    tries_again attempt e again more = ground arith

    module _ (made : from_discovered_device token device ≡ ok target) where
      retried :
          (attempt : ℕ) (again : Result Identifier Error)
          → attempt < 8
          → Ends (suc attempt) again
          → Ends attempt (attempt_with token device attempt again)
      retried attempt again more ends = rw made (elim (Result-cases (run attempt)) [
        | inl (host_id, h) ↦
            rw h (inl (attempt, host_id, refl, omega arith, omega arith, h, Fail-none attempt))
        | inr (e, h) ↦ rw h (
            subst (Ends attempt) (tries_again attempt e again more)
              (Ends-step attempt e again h ends))
      ])

      last-Ends : (again : Result Identifier Error) → Ends 8 (attempt_with token device 8 again)
      last-Ends again = rw made (elim (Result-cases (run 8)) [
        | inl (host_id, h) ↦ rw h (inl (8, host_id, refl, omega arith, omega arith, h, Fail-none 8))
        | inr (e, h) ↦
            subst (λ r. Ends 8 (on_attempt 8 r again)) (sym h)
              (inr (e, refl, h, Fail-step 8 9 e h (Fail-none 9)))
      ])

      verify_from-Ends :
          (left attempt : ℕ)
          → suc left + attempt ≡ 9
          → Ends attempt (verify_from token device (suc left) attempt)
      unfolding verify_from
      verify_from-Ends zero attempt last =
          subst (λ n. Ends n (attempt_with token device n (err Error.timeout))) (omega arith)
            (last-Ends (err Error.timeout))
      verify_from-Ends (suc left) attempt more =
          retried attempt (verify_from token device (suc left) (suc attempt)) (omega arith)
            (verify_from-Ends left (suc attempt) (omega arith))

      -- With a token and a device that a connection can be made with, the first of the eight
      -- attempts that succeeds gives the host, or all eight fail and the error is that of the last.
      pub verify-Ends : Ends 1 (verify_wifi_token_from_discovered_device token device)
      unfolding verify_wifi_token_from_discovered_device
      verify-Ends = verify_from-Ends 7 1 refl
