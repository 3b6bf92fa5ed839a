-- ===== src/Runtime.antt =====
-- `RemoteRuntime` of src/runtime.rs: the state that its clones share, the dispatch task, and the
-- wait for a command's response.
--
-- A response channel is named by a number; sending to it, receiving from it and dropping its
-- receiver are steps of their own, so that commands and the dispatch task may interleave. The
-- connection is a trait object: what it sends and receives are arguments.
pub mod Await
pub mod Lifecycle
pub mod System
pub mod Routing
pub mod Reachable
pub mod Execute
mod Examples
use enody_rs.Common.{
  ℕ, suc, ◌+◌, Bool, true, false, not, ◌==◌, ltb, if◌then◌else◌, List, [], ◌∷◌, ◌++◌, length,
  retain, find, Option, none, some, codes, Result, ok, err,
}
use enody_rs.Error.{Error}
use enody_rs.Message.Topology.{Identifier}
use enody_rs.Message.Runtime.{LogEvent, RuntimeEvent}
use enody_rs.Message.Envelope.{
  Event, CommandMessage, EventMessage, Message, command_message, event_message,
}

pub record Registration : Type 0 where
  pub context : Identifier
  pub response_tx : ℕ

pub record Channel : Type 0 where
  pub queue : List EventMessage
  pub is_closed : Bool

pub record Inner : Type 0 where
  pub pending : List Registration
  pub channels : ℕ → Channel
  pub next_channel : ℕ
  pub message_queue : List Message
  pub message_closed : Bool
  pub logging_enabled : Bool
  pub logged : List LogEvent

abbrev pub command_event_buffer : ℕ
command_event_buffer = 16

abbrev pub message_channel_size : ℕ
message_channel_size = 64

abbrev pub empty_channel : Channel
empty_channel = record { queue = []; is_closed = false }

-- `RemoteRuntime::new`. The numbers of the channels start from 1.
abbrev pub new : Inner
new = record {
  pending = [];
  channels = λ _. empty_channel;
  next_channel = 1;
  message_queue = [];
  message_closed = false;
  logging_enabled = false;
  logged = [];
}

abbrev pub update {ℓ} : {A : Type ℓ} → (ℕ → A) → ℕ → A → ℕ → A
update f k v j = if j == k then v else f j

unfoldable pub remove_pending_registration : Inner → Identifier → Inner
remove_pending_registration inner context = record inner {
  pending = retain (λ r. not (r.context == context)) inner.pending;
}

unfoldable pub enable_logging : Inner → Inner
enable_logging inner = record inner { logging_enabled = true }

-- The log event in a message, if it is one.
abbrev pub log_event : Message → Option LogEvent
log_event (command_message c) = none
log_event (event_message e) = elim e.event [
  | Event.runtime r ↦ elim r [ RuntimeEvent.log l ↦ some l | _ ↦ none ]
  | _ ↦ none
]

-- `message_tx.try_send`: a full channel drops the message, a closed one ends the task.
unfoldable pub try_send : Inner → Message → Inner × Bool
try_send inner message =
    if inner.message_closed
    then (inner, false)
    else if ltb (length inner.message_queue) message_channel_size
    then (record inner { message_queue = inner.message_queue ++ message ∷ [] }, true)
    else (inner, true)

unfoldable pub forward_unmatched_message : Inner → Message → Inner × Bool
unfolding try_send
forward_unmatched_message inner message = elim (log_event message) [
  | some event ↦
      if inner.logging_enabled
      then (record inner { logged = inner.logged ++ event ∷ [] }, true)
      else try_send inner message
  | none ↦ try_send inner message
]

-- One round of the dispatch task: it goes on, it ends, or it waits for room in a response channel.
pub data Progress : Type 0 where
  proceed : Inner → Progress
  stop : Inner → Progress
  blocked : Inner → ℕ → EventMessage → Progress

abbrev pub forwarded : Inner × Bool → Progress
forwarded (inner, true) = proceed inner
forwarded (inner, false) = stop inner

pub data Sent : Type 0 where
  sent : Inner → Sent
  closed : Sent
  full : Sent

-- `response_tx.send(event)`, up to the wait for room.
unfoldable pub send : Inner → ℕ → EventMessage → Sent
send inner tx event =
    let channel = inner.channels tx in
    if channel.is_closed
    then closed
    else if ltb (length channel.queue) command_event_buffer
    then sent (record inner {
      channels = update inner.channels tx (record channel { queue = channel.queue ++ event ∷ [] });
    })
    else full

-- `pending.retain(|registration| !registration.response_tx.is_closed())`
unfoldable pub retain_open : Inner → Inner
retain_open inner = record inner {
  pending = retain (λ r. not (inner.channels r.response_tx).is_closed) inner.pending;
}

abbrev pub registered : Inner → Identifier → Option Registration
registered inner context = find (λ r. r.context == context) inner.pending

-- A matched event: it is sent, or forwarded when its receiver has gone.
pub delivered : Inner → EventMessage → Identifier → ℕ → Sent → Progress
delivered inner event context tx (sent inner') = proceed inner'
delivered inner event context tx closed =
    forwarded
      (forward_unmatched_message (remove_pending_registration inner context) (event_message event))
delivered inner event context tx full = blocked inner tx event

pub deliver : Inner → EventMessage → Identifier → ℕ → Progress
unfolding delivered
deliver inner event context tx = delivered inner event context tx (send inner tx event)

dispatch_matched : Inner → EventMessage → Identifier → Option Registration → Progress
dispatch_matched inner event context none =
    forwarded (forward_unmatched_message inner (event_message event))
dispatch_matched inner event context (some r) = deliver inner event context r.response_tx

dispatch_event : Inner → EventMessage → Option Identifier → Progress
dispatch_event inner event none = forwarded (forward_unmatched_message inner (event_message event))
dispatch_event inner event (some context) =
    dispatch_matched (retain_open inner) event context (registered (retain_open inner) context)

-- The body of `message_dispatch_task` behind `recv_message`.
pub dispatch : Inner → Message → Progress
unfolding dispatch_matched dispatch_event
dispatch inner (command_message c) = forwarded (forward_unmatched_message inner (command_message c))
dispatch inner (event_message e) = dispatch_event inner e e.context

-- The task's loop over what the connection delivers, up to an error, its end or a wait.
pub message_dispatch_task : Inner → List (Result Message Error) → Progress
message_dispatch_task inner [] = proceed inner
message_dispatch_task inner (err e ∷ rest) = stop inner
message_dispatch_task inner (ok message ∷ rest) = elim (dispatch inner message) [
  | proceed inner' ↦ message_dispatch_task inner' rest
  | stop inner' ↦ stop inner'
  | blocked inner' tx event ↦ blocked inner' tx event
]

-- The start of `execute_command_with_timeout_until`: a new channel and its registration.
unfoldable pub register : Inner → Identifier → Inner × ℕ
register inner context =
    let tx = inner.next_channel in
    (
      record inner {
        pending = inner.pending ++ (record { context = context; response_tx = tx }) ∷ [];
        channels = update inner.channels tx empty_channel;
        next_channel = suc tx;
      },
      tx,
    )

-- How a wait ends when no event does: all senders are gone, or the deadline has passed.
pub data Ending : Type 0 where
  senders_gone : Ending
  deadline_elapsed : Ending

unfoldable pub ending_error : Ending → Error
ending_error senders_gone = Error.debug (codes "command response channel closed")
ending_error deadline_elapsed = Error.timeout

abbrev pub error_event : Event → Option Error
error_event (Event.error e) = some e
error_event _ = none

-- `response.context.as_ref() != Some(&context)`, negated.
abbrev pub answers : Identifier → EventMessage → Bool
answers context event = elim event.context [ none ↦ false | some c ↦ c == context ]

-- One round of the waiting loop; `none` goes on waiting.
unfoldable pub on_received :
    Identifier → (EventMessage → Bool) → EventMessage → Option (Result EventMessage Error)
on_received context is_terminal event =
    if not (answers context event) then none else elim (error_event event.event) [
      | some e ↦ some (err e)
      | none ↦ if is_terminal event then some (ok event) else none
    ]

-- The waiting loop over the events that come before its ending.
unfoldable pub await_response :
    Identifier → (EventMessage → Bool) → List EventMessage → Ending → Result EventMessage Error
unfolding ending_error
await_response context is_terminal [] ending = err (ending_error ending)
await_response context is_terminal (event ∷ rest) ending =
    elim (on_received context is_terminal event) [
      | some outcome ↦ outcome
      | none ↦ await_response context is_terminal rest ending
    ]

take_from : Inner → ℕ → List EventMessage → Option (EventMessage × Inner)
take_from inner tx [] = none
take_from inner tx (event ∷ rest) = some (
  event,
  record inner {
    channels =
        update inner.channels tx
          (record { queue = rest; is_closed = (inner.channels tx).is_closed });
  },
)

-- `response_rx.recv()` takes the oldest event.
unfoldable pub take_event : Inner → ℕ → Option (EventMessage × Inner)
unfolding take_from
take_event inner tx = take_from inner tx (inner.channels tx).queue

-- Every way out of the wait: the registration is removed and the receiver dropped.
unfoldable pub finish : Inner → Identifier → ℕ → Inner
unfolding remove_pending_registration
finish inner context tx = record (remove_pending_registration inner context) {
  channels =
      update inner.channels tx (record { queue = (inner.channels tx).queue; is_closed = true });
}
