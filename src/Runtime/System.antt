-- ===== src/Runtime/System.antt =====
-- The shared state of src/runtime.rs with the dispatch task's wait, and the steps that commands,
-- the task and the user take on it in any order.
use enody_rs.Common.{ℕ, ◌≡◌, Option, none, some}
use enody_rs.Message.Topology.{Identifier}
use enody_rs.Message.Envelope.{EventMessage, Message}
use enody_rs.Runtime.{
  Inner, Progress, proceed, stop, blocked, dispatch, deliver, register, take_event, finish,
  enable_logging,
}

-- `sending` is what the dispatch task waits to send: the event, its context and its channel.
pub record System : Type 0 where
  pub inner : Inner
  pub sending : Option (EventMessage × Identifier × ℕ)

-- The event of a wait has the context that it was matched by.
abbrev pub waiting_for :
    EventMessage → Option Identifier → ℕ → Option (EventMessage × Identifier × ℕ)
waiting_for event none tx = none
waiting_for event (some context) tx = some (event, context, tx)

abbrev pub after : Progress → System
after (proceed inner) = record { inner = inner; sending = none }
after (stop inner) = record { inner = inner; sending = none }
after (blocked inner tx event) = record {
  inner = inner;
  sending = waiting_for event event.context tx;
}

pub data Step (s : System) : System → Type 0 where
  registering : (context : Identifier) → Step s (record s { inner = (register s.inner context).0 })
  dispatching : (message : Message) → s.sending ≡ none → Step s (after (dispatch s.inner message))
  resuming :
      (event : EventMessage) (context : Identifier) (tx : ℕ)
      → s.sending ≡ some (event, context, tx)
      → Step s (after (deliver s.inner event context tx))
  taking :
      (tx : ℕ) (event : EventMessage) (inner' : Inner)
      → take_event s.inner tx ≡ some (event, inner')
      → Step s (record s { inner = inner' })
  finishing :
      (context : Identifier) (tx : ℕ) → Step s (record s { inner = finish s.inner context tx })
  logging : Step s (record s { inner = enable_logging s.inner })
  aborting : Step s (record s { sending = none })

pub data Reach (s : System) : System → Type 0 where
  here : Reach s s
  next : {t u : System} → Reach s t → Step t u → Reach s u
