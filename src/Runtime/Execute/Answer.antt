-- ===== src/Runtime/Execute/Answer.antt =====
-- The event that `execute_command_with_timeout_until` (src/runtime.rs) returns, whatever else is
-- registered.
use enody_rs.Common.{
  ℕ, ◌≡◌, refl, ap, ◌∙◌, ◌⊎◌, inl, inr, Option-cases, Bool, true, false, List, [], ◌∷◌, some,
  Result, ok, err, arith,
}
use enody_rs.Error.{Error}
use enody_rs.Message.Topology.{Identifier}
use enody_rs.Message.Envelope.{CommandMessage, EventMessage, Message}
use enody_rs.Runtime.{
  Inner, Progress, proceed, stop, blocked, dispatch, register, take_event, on_received, Ending,
  answers,
}
use enody_rs.Runtime.Await.{is_error}
use enody_rs.Runtime.Execute.{execute_loop, execute_command_with_timeout_until}

Progress-cases :
    (p : Progress)
    → ((i : Inner) × (p ≡ proceed i))
      ⊎ (((i : Inner) × (p ≡ stop i))
          ⊎ ((i : Inner) × (c : ℕ) × (x : EventMessage) × (p ≡ blocked i c x)))
Progress-cases (proceed i) = inl (i, refl)
Progress-cases (stop i) = inr (inl (i, refl))
Progress-cases (blocked i c x) = inr (inr (i, c, x, refl))

-- The event answers the command, passes the test and is no error.
abbrev pub IsAnswer : Identifier → (EventMessage → Bool) → EventMessage → Type 0
IsAnswer context is_terminal e =
    (answers context e ≡ true) × (is_terminal e ≡ true) × (is_error e ≡ false)

module _ (context : Identifier) (tx : ℕ) (is_terminal : EventMessage → Bool) (ending : Ending) where
  on_received-IsAnswer :
      (x e : EventMessage)
      → on_received context is_terminal x ≡ some (ok e)
      → IsAnswer context is_terminal e
  unfolding on_received
  on_received-IsAnswer x e h = ground arith

  execute_loop-IsAnswer :
      (inner : Inner) (messages : List Message) (e : EventMessage)
      → (execute_loop context tx is_terminal ending inner messages).1 ≡ ok e
      → IsAnswer context is_terminal e
  unfolding execute_loop
  execute_loop-IsAnswer inner [] e = λ h. cc
  execute_loop-IsAnswer inner (message ∷ rest) e = elim (Progress-cases (dispatch inner message)) [
    | inl (i, d) ↦ elim (Option-cases (take_event i tx)) [
      | inl t ↦ rw (d, execute_loop) (rw (t, execute_loop) (execute_loop-IsAnswer i rest e))
      | inr ((x, j), t) ↦ elim (Option-cases (on_received context is_terminal x)) [
        | inl r ↦
            rw (d, execute_loop)
              (rw (t, execute_loop) (rw (r, execute_loop) (execute_loop-IsAnswer j rest e)))
        | inr (o, r) ↦
            rw (d, execute_loop)
              (rw (t, execute_loop)
                (rw (r, execute_loop) (λ h. on_received-IsAnswer x e (r ∙ ap some h))))
      ]
    ]
    | inr (inl (i, d)) ↦ rw (d, execute_loop) (λ h. cc)
    | inr (inr (i, c, x, d)) ↦ rw (d, execute_loop) (λ h. cc)
  ]

-- What is returned as an event is an answer to the command, passes its test and is no error.
pub execute-IsAnswer :
    (inner : Inner) (command : CommandMessage) (is_terminal : EventMessage → Bool)
    (accepted : Result (Unit {0}) Error) (messages : List Message) (ending : Ending)
    (e : EventMessage)
    → (execute_command_with_timeout_until inner command is_terminal accepted messages ending).1
      ≡ ok e
    → IsAnswer command.identifier is_terminal e
unfolding execute_command_with_timeout_until
execute-IsAnswer inner command is_terminal (err x) messages ending e h = cc
execute-IsAnswer inner command is_terminal (ok _) messages ending e h =
    let (inner', tx) = register inner command.identifier in
    execute_loop-IsAnswer command.identifier tx is_terminal ending inner' messages e h
