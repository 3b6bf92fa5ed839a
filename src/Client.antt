-- ===== src/Client.antt =====
-- What the resource handles of src/host.rs, src/fixture.rs, src/source.rs and src/emitter.rs use of
-- a `RemoteRuntime` (src/runtime.rs), as an interface, and calls that mutate it and may fail.
--
-- The state `S` is all that a call may change. A handle's clone of the runtime shares that state,
-- so a handle is its metadata alone and the runtime an argument of its calls.
pub mod Emitter
pub mod Source
pub mod Fixture
pub mod Host
pub mod Settings
pub mod Discovery
pub mod Spectrum
pub mod Transitions
pub mod Connection
mod Examples
use enody_rs.Common.{
  ◌==◌, ℕ, zero, suc, ◌≡◌, Bool, true, false, List, [], ◌∷◌, Option, none, some, Result, ok, err,
}
use enody_rs.Error.{Error}
use enody_rs.Message.Topology.{Identifier}
use enody_rs.Message.Values.{Duration}
use enody_rs.Message.Envelope.{Command, Event, CommandMessage, EventMessage, root}
use enody_rs.Runtime.{answers}
use enody_rs.Runtime.Await.{is_error}
use enody_rs.Runtime.Execute.{command_timeout}

-- `Uuid::new_v4` and `execute_command_with_timeout_until`, with what callers rely on: a returned
-- event answers the command, passes the caller's test and is no error.
pub record RemoteRuntime (S : Type 0) : Type 0 where
  pub new_v4 : S → Identifier × S
  pub execute_until :
      CommandMessage → Duration → (EventMessage → Bool) → S → Result EventMessage Error × S
  pub execute_ok :
      (command : CommandMessage) (timeout : Duration) (is_terminal : EventMessage → Bool) (s : S)
      (e : EventMessage)
      → (execute_until command timeout is_terminal s).0 ≡ ok e
      → (answers command.identifier e ≡ true) × (is_terminal e ≡ true) × (is_error e ≡ false)

abbrev pub Exec : Type 0 → Type 0 → Type 0
Exec S A = S → Result A Error × S

-- `match event { .. => Ok(..), _ => Err(UnexpectedResponse) }`, the match as an option.
abbrev pub expected : {A : Type 0} → Option A → Result A Error
expected (some a) = ok a
expected none = err Error.unexpected_response

module _ {S : Type 0} where
  abbrev pub continue : {A B : Type 0} → Result A Error × S → (A → Exec S B) → Result B Error × S
  continue (ok a, s) next = next a s
  continue (err e, s) next = (err e, s)

  infixl 5 ◌>>=◌
  abbrev pub ◌>>=◌ : {A B : Type 0} → Exec S A → (A → Exec S B) → Exec S B
  (call >>= next) s = continue (call s) next

  abbrev pub lift : {A : Type 0} → Result A Error → Exec S A
  lift r s = (r, s)

  -- `for i in 0..count`, the results pushed to a vector; from index `i`, with `n` rounds to go.
  pub collect : {A : Type 0} → (ℕ → Exec S A) → ℕ → ℕ → Exec S (List A)
  collect fetch i zero = lift (ok [])
  collect fetch i (suc n) = do a ← fetch i; rest ← collect fetch (suc i) n; lift (ok (a ∷ rest))

-- `matches!(event, ..)`
abbrev pub matches : {A : Type 0} → Option A → Bool
matches none = false
matches (some a) = true

-- `event_message.resource != Some(self.identifier())`, negated.
abbrev pub same_resource : Identifier → Option Identifier → Bool
same_resource identifier none = false
same_resource identifier (some resource) = resource == identifier

module _ {S : Type 0} (remote : RemoteRuntime S) where
  abbrev pub execute_command_with_timeout : CommandMessage → Duration → Exec S EventMessage
  execute_command_with_timeout command timeout = remote.execute_until command timeout (λ _. true)

  abbrev pub execute_command : CommandMessage → Exec S EventMessage
  execute_command command = execute_command_with_timeout command command_timeout

  -- `CommandMessage::root(command, resource)`
  abbrev pub root_message : Command → Option Identifier → Exec S CommandMessage
  root_message command resource s =
      let (fresh, s') = remote.new_v4 s in (ok (root fresh command resource), s')

  -- `CommandMessage::root` and `execute_command`, as most calls of the handles begin.
  pub request : Command → Option Identifier → Exec S EventMessage
  request command resource = do message ← root_message command resource; execute_command message

  -- The same with `execute_command_with_timeout_until`.
  pub request_until :
      Command → Option Identifier → Duration → (EventMessage → Bool) → Exec S EventMessage
  request_until command resource timeout is_terminal = do
    message ← root_message command resource
    remote.execute_until message timeout is_terminal
