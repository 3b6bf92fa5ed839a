-- ===== src/Runtime/Execute.antt =====
-- `execute_command_with_timeout_until` of src/runtime.rs as one command sees it that runs alone:
-- the connection's messages come in order, the dispatch task handles each, and the command takes
-- what is sent to it. The arguments say whether the connection accepted the command, what it
-- delivered before the wait ended, and how the wait ended.
pub mod Outcome
pub mod Answer
use enody_rs.Common.{
  ℕ, ◌==◌, Bool, not, List, [], ◌∷◌, Option, none, some, Result, ok, err, if◌then◌else◌,
}
use enody_rs.Error.{Error}
use enody_rs.Message.Topology.{Identifier}
use enody_rs.Message.Values.{Duration, from_millis}
use enody_rs.Message.Envelope.{
  CommandMessage, EventMessage, Message, command_message, event_message,
}
use enody_rs.Runtime.{
  Inner, Progress, proceed, stop, blocked, dispatch, register, take_event, on_received, Ending,
  ending_error, answers, finish,
}

-- `COMMAND_TIMEOUT`
abbrev pub command_timeout : Duration
command_timeout = from_millis 500

module _ (context : Identifier) (tx : ℕ) (is_terminal : EventMessage → Bool) (ending : Ending) where
  execute_loop : Inner → List Message → Inner × Result EventMessage Error
  execute_loop inner [] = (finish inner context tx, err (ending_error ending))
  execute_loop inner (message ∷ rest) = elim (dispatch inner message) [
    | proceed inner' ↦ elim (take_event inner' tx) [
      | none ↦ execute_loop inner' rest
      | some (event, inner'') ↦ elim (on_received context is_terminal event) [
        | none ↦ execute_loop inner'' rest
        | some outcome ↦ (finish inner'' context tx, outcome)
      ]
    ]
    | stop inner' ↦ (finish inner' context tx, err (ending_error ending))
    | blocked inner' _ _ ↦ (finish inner' context tx, err (ending_error ending))
  ]

pub execute_command_with_timeout_until :
    Inner
    → CommandMessage
    → (EventMessage → Bool)
    → Result (Unit {0}) Error
    → List Message
    → Ending
    → Inner × Result EventMessage Error
unfolding execute_loop
execute_command_with_timeout_until inner command is_terminal (err e) messages ending =
    let (inner', tx) = register inner command.identifier in
    (finish inner' command.identifier tx, err e)
execute_command_with_timeout_until inner command is_terminal (ok _) messages ending =
    let (inner', tx) = register inner command.identifier in
    execute_loop command.identifier tx is_terminal ending inner' messages
