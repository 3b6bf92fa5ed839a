-- ===== src/Runtime/Lifecycle.antt =====
-- `connect`, `disconnect` and the plain sends of a `RemoteRuntime` (src/runtime.rs), over its
-- connection, which is a trait object.
use enody_rs.Common.{
  Bool, true, false, List, [], ◌∷◌, Option, none, some, Result, ok, err, ◌≡◌, refl, ap, ◌∙◌,
}
use enody_rs.Error.{Error}
use enody_rs.Message.Envelope.{
  CommandMessage, EventMessage, Message, command_message, event_message,
}
use enody_rs.Runtime.{Inner}

-- `RemoteRuntimeConnection`, and what is relied on: connecting that succeeds leaves it connected.
pub record RemoteRuntimeConnection (C : Type 0) : Type 0 where
  pub is_connected : C → Bool
  pub connect : C → C × Result (Unit {0}) Error
  pub disconnect : C → C × Result (Unit {0}) Error
  pub send_message : C → Message → C × Result (Unit {0}) Error
  pub connect_connects : (c : C) → (connect c).1 ≡ ok tt → is_connected (connect c).0 ≡ true

-- The dispatch task, once there is one, runs or has finished.
pub data DispatchTask : Type 0 where
  running : DispatchTask
  finished : DispatchTask

pub record RemoteRuntime (C : Type 0) : Type 0 where
  pub connection : C
  pub dispatch_task : Option DispatchTask

-- A task that has finished is replaced.
abbrev pub ensured : Option DispatchTask → Option DispatchTask
ensured none = some running
ensured (some finished) = some running
ensured (some running) = some running

abbrev pub ensure_dispatch_task : {C : Type 0} → RemoteRuntime C → RemoteRuntime C
ensure_dispatch_task runtime = record runtime { dispatch_task = ensured runtime.dispatch_task }

abbrev pub stop_dispatch_task : {C : Type 0} → RemoteRuntime C → RemoteRuntime C
stop_dispatch_task runtime = record runtime { dispatch_task = none }

abbrev pub received : List Message → Inner → Inner × Option Message
received [] inner = (inner, none)
received (message ∷ queue) inner = (record inner { message_queue = queue }, some message)

-- `next_message`, where a message is there or the channel is closed; else it waits.
abbrev pub next_message : Inner → Inner × Option (Result Message Error)
next_message inner =
    let (after, message) = received inner.message_queue inner in
    (
      after,
      elim message [
        | some m ↦ some (ok m)
        | none ↦ elim inner.message_closed [ true ↦ some (err Error.busy) | false ↦ none ]
      ],
    )

module _ {C : Type 0} (connections : RemoteRuntimeConnection C) where
  abbrev pub with_connection :
      RemoteRuntime C → C × Result (Unit {0}) Error → RemoteRuntime C × Result (Unit {0}) Error
  with_connection runtime (c, outcome) = (record runtime { connection = c }, outcome)

  abbrev pub connected :
      RemoteRuntime C → C × Result (Unit {0}) Error → RemoteRuntime C × Result (Unit {0}) Error
  connected runtime (c, err e) = (record runtime { connection = c }, err e)
  connected runtime (c, ok _) = (ensure_dispatch_task (record runtime { connection = c }), ok tt)

  unfoldable pub connect : RemoteRuntime C → RemoteRuntime C × Result (Unit {0}) Error
  connect runtime = connected runtime (connections.connect runtime.connection)

  unfoldable pub disconnect : RemoteRuntime C → RemoteRuntime C × Result (Unit {0}) Error
  disconnect runtime =
      with_connection (stop_dispatch_task runtime) (connections.disconnect runtime.connection)

  abbrev pub send_command :
      RemoteRuntime C → CommandMessage → RemoteRuntime C × Result (Unit {0}) Error
  send_command runtime command =
      with_connection runtime
        (connections.send_message runtime.connection (command_message command))

  abbrev pub send_event : RemoteRuntime C → EventMessage → RemoteRuntime C × Result (Unit {0}) Error
  send_event runtime event =
      with_connection runtime (connections.send_message runtime.connection (event_message event))

  ensured_runs : (task : Option DispatchTask) → ensured task ≡ some running
  ensured_runs none = refl
  ensured_runs (some running) = refl
  ensured_runs (some finished) = refl

  connected_runs :
      (runtime : RemoteRuntime C) (c : C) (outcome : Result (Unit {0}) Error)
      → (connected runtime (c, outcome)).1 ≡ ok tt
      → ((connected runtime (c, outcome)).0.dispatch_task ≡ some running)
        × ((connected runtime (c, outcome)).0.connection ≡ c)
        × (outcome ≡ ok tt)
  connected_runs runtime c (ok _) h = (ensured_runs runtime.dispatch_task, refl, refl)
  connected_runs runtime c (err e) h = absurd cc

  -- A runtime whose `connect` succeeds is connected, and its dispatch task runs, even where an earlier
  -- one had finished.
  pub connect_runs :
      (runtime : RemoteRuntime C)
      → (connect runtime).1 ≡ ok tt
      → ((connect runtime).0.dispatch_task ≡ some running)
        × (connections.is_connected (connect runtime).0.connection ≡ true)
  unfolding connect
  connect_runs runtime h =
      let tried = connections.connect runtime.connection in
      let (runs, same, accepted) = connected_runs runtime tried.0 tried.1 h in
      (
        runs,
        ap connections.is_connected same ∙ connections.connect_connects runtime.connection accepted,
      )
