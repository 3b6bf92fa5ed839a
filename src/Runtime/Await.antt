-- ===== src/Runtime/Await.antt =====
-- The outcome of a wait in `execute_command_with_timeout_until` (src/runtime.rs).
use enody_rs.Common.{
  ◌≡◌, refl, Bool, true, false, ◌&&◌, ◌||◌, List, [], ◌∷◌, find, Option, none, some, Result, ok,
  err, arith,
}
use enody_rs.Error.{Error}
use enody_rs.Message.Topology.{Identifier}
use enody_rs.Message.Envelope.{EventMessage}
use enody_rs.Runtime.{Ending, ending_error, answers, error_event, await_response, on_received}

abbrev pub is_error : EventMessage → Bool
is_error e = elim (error_event e.event) [ none ↦ false | some x ↦ true ]

module _ (context : Identifier) (is_terminal : EventMessage → Bool) where
  -- The first event that decides the wait: an answer to the command, and an error or terminal.
  abbrev pub decides : EventMessage → Bool
  decides e = answers context e && (is_error e || is_terminal e)

  abbrev pub verdict : EventMessage → Result EventMessage Error
  verdict e = elim (error_event e.event) [ none ↦ ok e | some x ↦ err x ]

  abbrev pub outcome : Option EventMessage → Ending → Result EventMessage Error
  outcome none ending = err (ending_error ending)
  outcome (some e) ending = verdict e

  -- The wait ends with the first event that answers the command and is an error or terminal: an
  -- error is returned as the error, a terminal event as it is. Where none comes the ending's error
  -- is returned.
  pub await-first :
      (events : List EventMessage) (ending : Ending)
      → await_response context is_terminal events ending ≡ outcome (find decides events) ending
  unfolding await_response on_received
  await-first [] ending = refl
  await-first (e ∷ events) ending = ground (arith, await-first events ending)

  -- A returned event answers the command, is terminal and is no error.
  pub await_ok :
      (events : List EventMessage) (ending : Ending) (e : EventMessage)
      → await_response context is_terminal events ending ≡ ok e
      → (answers context e ≡ true) × (is_terminal e ≡ true) × (is_error e ≡ false)
  unfolding await_response on_received
  await_ok [] ending e h = cc
  await_ok (x ∷ events) ending e h = ground (arith, await_ok events ending e)
