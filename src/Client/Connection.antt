-- ===== src/Client/Connection.antt =====
-- The interface of the handles, filled by `execute_command_with_timeout_until` of src/runtime.rs on a
-- connection that plays a script: for each command whether it is accepted, what is delivered
-- while it waits, and how the wait ends if no event ends it.
use enody_rs.Common.{suc, ◌≡◌, Bool, List, [], ◌∷◌, Result, ok}
use enody_rs.Error.{Error}
use enody_rs.Message.Topology.{Identifier}
use enody_rs.Message.Envelope.{CommandMessage, EventMessage, Message}
use enody_rs.Runtime.{Inner, Ending, senders_gone}
use enody_rs.Runtime.Execute.{execute_command_with_timeout_until}
use enody_rs.Runtime.Execute.Answer.{execute-IsAnswer, IsAnswer}
use enody_rs.Client.{RemoteRuntime}

pub record Turn : Type 0 where
  pub accepted : Result (Unit {0}) Error
  pub delivered : List Message
  pub ending : Ending

-- The next identifier stands for `Uuid::new_v4`.
pub record Connected : Type 0 where
  pub inner : Inner
  pub next_identifier : Identifier
  pub script : List Turn

-- A connection without a turn left has gone.
unfoldable pub play :
    CommandMessage
    → (EventMessage → Bool)
    → Inner
    → Identifier
    → List Turn
    → Result EventMessage Error × Connected
play command is_terminal inner fresh [] =
    let (inner', result) =
      execute_command_with_timeout_until inner command is_terminal (ok tt) [] senders_gone in
    (result, record { inner = inner'; next_identifier = fresh; script = [] })
play command is_terminal inner fresh (turn ∷ rest) =
    let (inner', result) =
      execute_command_with_timeout_until inner command is_terminal turn.accepted turn.delivered
        turn.ending in
    (result, record { inner = inner'; next_identifier = fresh; script = rest })

pub play-IsAnswer :
    (command : CommandMessage) (is_terminal : EventMessage → Bool) (inner : Inner)
    (fresh : Identifier) (script : List Turn) (e : EventMessage)
    → (play command is_terminal inner fresh script).0 ≡ ok e
    → IsAnswer command.identifier is_terminal e
unfolding play
play-IsAnswer command is_terminal inner fresh [] e =
    execute-IsAnswer inner command is_terminal _ _ _ e
play-IsAnswer command is_terminal inner fresh (turn ∷ rest) e =
    execute-IsAnswer inner command is_terminal _ _ _ e

unfoldable pub connection : RemoteRuntime Connected
connection = record {
  new_v4 = λ s. (s.next_identifier, record s { next_identifier = suc s.next_identifier });
  execute_until =
      λ command timeout is_terminal s. play command is_terminal s.inner s.next_identifier s.script;
  execute_ok = λ command timeout is_terminal s e.
      play-IsAnswer command is_terminal s.inner s.next_identifier s.script e;
}
