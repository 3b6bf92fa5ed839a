-- ===== src/Runtime/Execute/Outcome.antt =====
-- A command that runs alone gets the outcome of the events that answer it (src/runtime.rs).
use enody_rs.Common.{
  ℕ, ◌≡◌, refl, ◌∙◌, sym, ap, subst, ◌==◌, ==_refl, Bool, true, false, List, [], ◌∷◌, Option, none,
  some, Result, ok, err, if◌then◌else◌, arith, Bool-cases, inl, inr, find,
}
use enody_rs.Error.{Error}
use enody_rs.Message.Topology.{Identifier}
use enody_rs.Message.Envelope.{
  CommandMessage, EventMessage, Message, command_message, event_message,
}
use enody_rs.Runtime.{
  Inner, Registration, proceed, forwarded, dispatch, dispatch_event, dispatch_matched, deliver,
  delivered, send, retain_open, forward_unmatched_message, try_send, register, take_event,
  take_from, on_received, await_response, Ending, answers, finish, remove_pending_registration,
  empty_channel, registered, update, sent,
}
use enody_rs.Runtime.Routing.{forward-pending, forward-channels}
use enody_rs.Runtime.Execute.{execute_loop, execute_command_with_timeout_until}

-- The events among the messages that answer the command.
abbrev pub answers_among : Identifier → List Message → List EventMessage
answers_among context [] = []
answers_among context (command_message c ∷ rest) = answers_among context rest
answers_among context (event_message e ∷ rest) =
    if answers context e then e ∷ answers_among context rest else answers_among context rest

-- Only the command is registered, and its channel is open and empty.
record Ready (context : Identifier) (tx : ℕ) (inner : Inner) : Type 0 where
  alone : inner.pending ≡ (record { context = context; response_tx = tx }) ∷ []
  empty : inner.channels tx ≡ empty_channel
  open_queue : inner.message_closed ≡ false

-- The next message goes by, or it is an answer that can be taken.
abbrev Passed : Identifier → ℕ → Inner → Message → Type 0
Passed context tx inner m =
    (i : Inner) × (dispatch inner m ≡ proceed i) × (take_event i tx ≡ none) × Ready context tx i

abbrev Answered : Identifier → ℕ → Inner → EventMessage → Type 0
Answered context tx inner e =
    (i : Inner) × (j : Inner) × (dispatch inner (event_message e) ≡ proceed i)
    × (take_event i tx ≡ some (e, j))
    × Ready context tx j

forward-proceeds :
    (inner : Inner) (m : Message)
    → inner.message_closed ≡ false
    → ((forward_unmatched_message inner m).1 ≡ true)
      × ((forward_unmatched_message inner m).0.message_closed ≡ false)
unfolding forward_unmatched_message try_send
forward-proceeds inner m h = (ground arith, ground arith)

forwarded-proceed : (r : Inner × Bool) → r.1 ≡ true → forwarded r ≡ proceed r.0
forwarded-proceed (inner, true) h = refl
forwarded-proceed (inner, false) h = cc

module _ (context : Identifier) (tx : ℕ) where
  abbrev own : Registration
  own = record { context = context; response_tx = tx }

  retain_open-Ready :
      (inner : Inner) → Ready context tx inner → Ready context tx (retain_open inner)
  unfolding retain_open
  retain_open-Ready inner r = record {
    alone = rw r.alone (rw r.empty refl);
    empty = r.empty;
    open_queue = r.open_queue;
  }

  take-none : (i : Inner) → i.channels tx ≡ empty_channel → take_event i tx ≡ none
  unfolding take_event take_from
  take-none i h = rw (h, take_from)

  forwarded-Passed :
      (inner : Inner) (m : Message)
      → Ready context tx inner
      → (i : Inner) × (forwarded (forward_unmatched_message inner m) ≡ proceed i)
        × (take_event i tx ≡ none)
        × Ready context tx i
  forwarded-Passed inner m r =
      let f = forward_unmatched_message inner m in
      let (goes_on, is_open) = forward-proceeds inner m r.open_queue in
      let same : f.0.channels tx ≡ empty_channel =
        ap (λ (g : ℕ → _). g tx) (forward-channels inner m) ∙ r.empty in
      (
        f.0,
        forwarded-proceed f goes_on,
        take-none f.0 same,
        record { alone = forward-pending inner m ∙ r.alone; empty = same; open_queue = is_open },
      )

  found :
      (inner : Inner) (c : Identifier)
      → Ready context tx inner
      → registered inner c ≡ (if context == c then some own else none)
  found inner c r = ap (λ (p : List Registration). find (λ x. x.context == c) p) r.alone

  event-Passed :
      (inner : Inner) (e : EventMessage) (o : Option Identifier)
      → e.context ≡ o
      → answers context e ≡ false
      → Ready context tx inner
      → (i : Inner) × (dispatch_event inner e o ≡ proceed i)
        × (take_event i tx ≡ none)
        × Ready context tx i
  unfolding dispatch_event
  event-Passed inner e none h a r = forwarded-Passed inner (event_message e) r
  event-Passed inner e (some c) h a r =
      let kept = retain_open-Ready inner r in
      let (i, goes_on, left, ready) = forwarded-Passed (retain_open inner) (event_message e) kept in
      let other : (context == c) ≡ false = ground arith in
      let missing : registered (retain_open inner) c ≡ none =
        found (retain_open inner) c kept ∙ (rw other) in
      (
        i,
        ap (dispatch_matched (retain_open inner) e c) missing
            ∙ (unfold dispatch_matched in goes_on),
        left,
        ready,
      )

  -- The state with the answer in the channel, and with the channel drained.
  abbrev queued_one : Inner → EventMessage → Inner
  queued_one inner e = record inner {
    channels = update inner.channels tx (record { queue = e ∷ []; is_closed = false });
  }

  abbrev drained : Inner → EventMessage → Inner
  drained inner e = record inner {
    channels =
        update (queued_one inner e).channels tx
          (record { queue = []; is_closed = ((queued_one inner e).channels tx).is_closed });
  }

  send-room :
      (inner : Inner) (e : EventMessage)
      → inner.channels tx ≡ empty_channel
      → send inner tx e ≡ sent (queued_one inner e)
  unfolding send
  send-room inner e h = rw (h, send)

  take-one :
      (inner : Inner) (e : EventMessage)
      → take_event (queued_one inner e) tx ≡ some (e, drained inner e)
  unfolding take_event take_from
  take-one inner e = ap (take_from (queued_one inner e) tx) one
    where
      one : ((queued_one inner e).channels tx).queue ≡ e ∷ []
      one = rw (==_refl tx)

  event-Answered :
      (inner : Inner) (e : EventMessage)
      → Ready context tx inner
      → (i : Inner) × (j : Inner) × (dispatch_event inner e (some context) ≡ proceed i)
        × (take_event i tx ≡ some (e, j))
        × Ready context tx j
  unfolding dispatch_event dispatch_matched deliver delivered
  event-Answered inner e r =
      let kept = retain_open-Ready inner r in
      let hit : registered (retain_open inner) context ≡ some own =
        found (retain_open inner) context kept ∙ (rw (==_refl context)) in
      (
        queued_one (retain_open inner) e,
        drained (retain_open inner) e,
        ap (dispatch_matched (retain_open inner) e context) hit
            ∙ ap (delivered (retain_open inner) e context tx)
                (send-room (retain_open inner) e kept.empty),
        take-one (retain_open inner) e,
        record { alone = kept.alone; empty = rw (==_refl tx); open_queue = kept.open_queue },
      )

  -- What one message does to a command that waits alone.
  abbrev Handled : Inner → Message → Type 0
  Handled inner (command_message c) = Passed context tx inner (command_message c)
  Handled inner (event_message e) =
      (answers context e ≡ false → Passed context tx inner (event_message e))
      × (answers context e ≡ true → Answered context tx inner e)

  answers-context : (e : EventMessage) → answers context e ≡ true → e.context ≡ some context
  answers-context e h = ground arith

  handled : (inner : Inner) (m : Message) → Ready context tx inner → Handled inner m
  unfolding dispatch
  handled inner (command_message c) r = forwarded-Passed inner (command_message c) r
  handled inner (event_message e) r = (
    (λ a. event-Passed inner e e.context refl a r),
    (λ a.
        subst
          (λ o.
            (i : Inner) × (j : Inner) × (dispatch_event inner e o ≡ proceed i)
            × (take_event i tx ≡ some (e, j))
            × Ready context tx j)
          (sym (answers-context e a)) (event-Answered inner e r)),
  )

  module _ (is_terminal : EventMessage → Bool) (ending : Ending) where
    loop-Passed :
        (inner : Inner) (m : Message) (rest : List Message)
        → (p : Passed context tx inner m)
        → execute_loop context tx is_terminal ending inner (m ∷ rest)
          ≡ execute_loop context tx is_terminal ending p.0 rest
    unfolding execute_loop
    loop-Passed inner m rest (i, d, t, r) = rw (d, execute_loop) (rw (t, execute_loop))

    loop-Answered :
        (inner : Inner) (e : EventMessage) (rest : List Message)
        → (p : Answered context tx inner e)
        → execute_loop context tx is_terminal ending inner (event_message e ∷ rest)
          ≡ (elim (on_received context is_terminal e) [
            | none ↦ execute_loop context tx is_terminal ending p.1 rest
            | some outcome ↦ (finish p.1 context tx, outcome)
          ])
    unfolding execute_loop
    loop-Answered inner e rest (i, j, d, t, r) = rw (d, execute_loop) (rw (t, execute_loop))

    -- The outcome of a wait, and no registration left.
    abbrev Settled : Inner × Result EventMessage Error → List EventMessage → Type 0
    Settled (inner, result) events =
        (result ≡ await_response context is_terminal events ending) × (inner.pending ≡ [])

    finish-pending :
        (inner : Inner) → Ready context tx inner → (finish inner context tx).pending ≡ []
    unfolding finish remove_pending_registration
    finish-pending inner r = rw r.alone (rw (==_refl context))

    settle-answer :
        (e : EventMessage) (events : List EventMessage) (j : Inner)
        (later : Inner × Result EventMessage Error)
        → Ready context tx j
        → Settled later events
        → (o : Option (Result EventMessage Error)) → on_received context is_terminal e ≡ o
        → Settled
            (elim o [ none ↦ later | some outcome ↦ (finish j context tx, outcome) ])
            (e ∷ events)
    unfolding await_response
    settle-answer e events j later r ih none h = (rw (h, await_response) ih.0, ih.1)
    settle-answer e events j later r ih (some outcome) h =
        (rw (h, await_response), finish-pending j r)

    loop-Settled :
        (inner : Inner) (messages : List Message)
        → Ready context tx inner
        → Settled
            (execute_loop context tx is_terminal ending inner messages)
            (answers_among context messages)
    loop-Settled inner [] r = unfold execute_loop await_response in (refl, finish-pending inner r)
    loop-Settled inner (command_message c ∷ rest) r =
        let p = handled inner (command_message c) r in
        rw (loop-Passed inner (command_message c) rest p) (loop-Settled p.0 rest p.3)
    loop-Settled inner (event_message e ∷ rest) r = elim (Bool-cases (answers context e)) [
      | inl a ↦
          let p = (handled inner (event_message e) r).1 a in
          rw (loop-Answered inner e rest p, a)
            (settle-answer e (answers_among context rest) p.1
              (execute_loop context tx is_terminal ending p.1 rest) p.4 (loop-Settled p.1 rest p.4)
              _ refl)
      | inr n ↦
          let p = (handled inner (event_message e) r).0 n in
          rw (loop-Passed inner (event_message e) rest p, n) (loop-Settled p.0 rest p.3)
    ]

register-Ready :
    (inner : Inner) (context : Identifier)
    → inner.pending ≡ []
    → inner.message_closed ≡ false
    → Ready context inner.next_channel (register inner context).0
unfolding register
register-Ready inner context h k = record {
  alone = rw h;
  empty = rw (==_refl inner.next_channel);
  open_queue = k;
}

-- With no other command registered and the channel of unmatched messages open: a command that the
-- connection accepts returns the outcome of waiting on just those delivered events that answer it,
-- one that the connection refuses returns the connection's error, and either way no registration
-- is left behind.
pub execute-await :
    (inner : Inner) (command : CommandMessage) (is_terminal : EventMessage → Bool)
    (messages : List Message) (ending : Ending)
    → inner.pending ≡ []
    → inner.message_closed ≡ false
    → let accepted =
        execute_command_with_timeout_until inner command is_terminal (ok tt) messages ending in
      (accepted.1
        ≡ await_response command.identifier is_terminal
            (answers_among command.identifier messages)
            ending)
      × (accepted.0.pending ≡ [])
      × ((e : Error)
          → let refused =
              execute_command_with_timeout_until inner command is_terminal
                (err e)
                messages
                ending in
            (refused.1 ≡ err e) × (refused.0.pending ≡ []))
unfolding execute_command_with_timeout_until
execute-await inner command is_terminal messages ending h k =
    let tx = inner.next_channel in
    let c = command.identifier in
    let ready = register-Ready inner c h k in
    let (result, left) = loop-Settled c tx is_terminal ending (register inner c).0 messages ready in
    (
      unfold register in result,
      unfold register in left,
      λ e. (
        refl,
        unfold register in finish-pending c tx is_terminal ending (register inner c).0 ready,
      ),
    )
