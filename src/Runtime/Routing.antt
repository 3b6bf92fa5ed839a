-- ===== src/Runtime/Routing.antt =====
-- A response channel holds only the responses to its own command (src/runtime.rs).
use enody_rs.Common.{
  ℕ, ◌≤◌, ◌<◌, ◌≡◌, refl, ◌∙◌, sym, ap, subst, Bool, true, false, ◌==◌, List, [], ◌∷◌, ◌++◌, length,
  length-append, All, All-append, All-retain, find_sound, Option, none, some, arith, Bool-cases,
  inl, inr, ==_iff,
}
use enody_rs.Message.Topology.{Identifier}
use enody_rs.Message.Envelope.{EventMessage, Message, command_message, event_message}
use enody_rs.Runtime.{
  Inner, Registration, dispatch, deliver, dispatch_event, send, retain_open, registered,
  remove_pending_registration, forward_unmatched_message, forwarded, update, command_event_buffer,
  try_send, Sent, sent, closed, full, delivered, dispatch_matched,
}
use enody_rs.Runtime.System.{System, after, waiting_for}

-- Channel numbers are handed out in order; what is in use was handed out.
abbrev pub Below : Inner → Type 0
Below inner = All (λ r. r.response_tx < inner.next_channel) inner.pending

-- What holds of the channel `tx` of a command `c`.
pub record Owns (c : Identifier) (tx : ℕ) (inner : Inner) : Type 0 where
  pub below : Below inner
  pub mine : tx < inner.next_channel
  pub only : All (λ r. r.response_tx ≡ tx → r.context ≡ c) inner.pending
  pub queued : All (λ e. e.context ≡ some c) (inner.channels tx).queue
  pub bounded : length (inner.channels tx).queue ≤ command_event_buffer

abbrev pub InFlight : Identifier → ℕ → ℕ → Option (EventMessage × Identifier × ℕ) → Type 0
InFlight c tx limit none = Unit
InFlight c tx limit (some (e, context, tx')) =
    (e.context ≡ some context) × (tx' < limit) × (tx' ≡ tx → context ≡ c)

pub record OwnsAll (c : Identifier) (tx : ℕ) (s : System) : Type 0 where
  pub inner : Owns c tx s.inner
  pub sending : InFlight c tx s.inner.next_channel s.sending

-- Forwarding touches neither the registrations nor the response channels.
module _ (inner : Inner) (m : Message) where
  pub forward-pending : (forward_unmatched_message inner m).0.pending ≡ inner.pending
  unfolding forward_unmatched_message try_send
  forward-pending = ground arith

  pub forward-channels : (forward_unmatched_message inner m).0.channels ≡ inner.channels
  unfolding forward_unmatched_message try_send
  forward-channels = ground arith

  forward-next_channel : (forward_unmatched_message inner m).0.next_channel ≡ inner.next_channel
  unfolding forward_unmatched_message try_send
  forward-next_channel = ground arith

module _ (c : Identifier) (tx : ℕ) where
  forward-Owns :
      (inner : Inner) (m : Message)
      → Owns c tx inner
      → Owns c tx (forward_unmatched_message inner m).0
  forward-Owns inner m o = record {
    below = rw (forward-pending inner m, forward-next_channel inner m) o.below;
    mine = rw (forward-next_channel inner m) o.mine;
    only = rw (forward-pending inner m) o.only;
    queued = rw (forward-channels inner m) o.queued;
    bounded = rw (forward-channels inner m) o.bounded;
  }

  pub remove-Owns :
      (inner : Inner) (d : Identifier)
      → Owns c tx inner
      → Owns c tx (remove_pending_registration inner d)
  unfolding remove_pending_registration
  remove-Owns inner d o = record {
    below = All-retain _ _ inner.pending o.below;
    mine = o.mine;
    only = All-retain _ _ inner.pending o.only;
    queued = o.queued;
    bounded = o.bounded;
  }

  retain_open-Owns : (inner : Inner) → Owns c tx inner → Owns c tx (retain_open inner)
  unfolding retain_open
  retain_open-Owns inner o = record {
    below = All-retain _ _ inner.pending o.below;
    mine = o.mine;
    only = All-retain _ _ inner.pending o.only;
    queued = o.queued;
    bounded = o.bounded;
  }

  -- A queue of the command's own channel, or of another one, is replaced.
  pub update-Owns :
      (inner : Inner) (tx' : ℕ) (queue : List EventMessage) (is_closed : Bool)
      → Owns c tx inner
      → (tx ≡ tx' → All (λ e. e.context ≡ some c) queue × (length queue ≤ command_event_buffer))
      → Owns c tx (record inner {
        channels = update inner.channels tx' (record { queue = queue; is_closed = is_closed });
      })
  update-Owns inner tx' queue is_closed o h = elim (Bool-cases (tx == tx')) [
    | inl e ↦
        let (hq, hl) = h (ground arith) in
        record {
          below = o.below;
          mine = o.mine;
          only = o.only;
          queued = rw e hq;
          bounded = rw e hl;
        }
    | inr n ↦ record {
      below = o.below;
      mine = o.mine;
      only = o.only;
      queued = rw n o.queued;
      bounded = rw n o.bounded;
    }
  ]

  forwarded-OwnsAll : (r : Inner × Bool) → Owns c tx r.0 → OwnsAll c tx (after (forwarded r))
  forwarded-OwnsAll (inner, true) o = record { inner = o; sending = tt }
  forwarded-OwnsAll (inner, false) o = record { inner = o; sending = tt }

  send-eq-sent :
      (inner inner' : Inner) (tx' : ℕ) (event : EventMessage)
      → send inner tx' event ≡ sent inner'
      → (inner' ≡ record inner {
        channels = update inner.channels tx' (record {
          queue = (inner.channels tx').queue ++ event ∷ [];
          is_closed = (inner.channels tx').is_closed;
        });
      })
        × (length (inner.channels tx').queue < command_event_buffer)
  unfolding send
  send-eq-sent inner inner' tx' event h = (ground arith, ground arith)

  -- The queue of `tx` behind one more event of the command.
  longer :
      (inner : Inner) (tx' : ℕ) (event : EventMessage)
      → Owns c tx inner
      → event.context ≡ some c
      → length (inner.channels tx').queue < command_event_buffer
      → tx ≡ tx'
      → All (λ e. e.context ≡ some c) ((inner.channels tx').queue ++ event ∷ [])
        × (length ((inner.channels tx').queue ++ event ∷ []) ≤ command_event_buffer)
  longer inner tx' event o h l e = (
    All-append _ _ (event ∷ [])
        (subst (λ t. All (λ e'. e'.context ≡ some c) (inner.channels t).queue) e o.queued) (h, tt),
    omega (arith, length-append (inner.channels tx').queue (event ∷ [])),
  )

  delivered-OwnsAll :
      (inner : Inner) (event : EventMessage) (context : Identifier) (tx' : ℕ) (r : Sent)
      → send inner tx' event ≡ r
      → Owns c tx inner
      → InFlight c tx inner.next_channel (some (event, context, tx'))
      → OwnsAll c tx (after (delivered inner event context tx' r))
  unfolding delivered
  delivered-OwnsAll inner event context tx' (sent inner') s o (h, k, l) =
      let (e, room) = send-eq-sent inner inner' tx' event s in
      record {
        inner = subst (Owns c tx) (sym e) (
            update-Owns inner tx' _ _ o
              (λ same. longer inner tx' event o (h ∙ ap some (l (sym same))) room same));
        sending = tt;
      }
  delivered-OwnsAll inner event context tx' closed s o h =
      forwarded-OwnsAll _ (forward-Owns _ _ (remove-Owns inner context o))
  delivered-OwnsAll inner event context tx' full s o h = record {
    inner = o;
    sending = subst (λ k. InFlight c tx inner.next_channel (waiting_for event k tx')) (sym h.0) h;
  }

  pub deliver-OwnsAll :
      (inner : Inner) (event : EventMessage) (context : Identifier) (tx' : ℕ)
      → Owns c tx inner
      → InFlight c tx inner.next_channel (some (event, context, tx'))
      → OwnsAll c tx (after (deliver inner event context tx'))
  unfolding deliver
  deliver-OwnsAll inner event context tx' o h =
      delivered-OwnsAll inner event context tx' (send inner tx' event) refl o h

  matched-OwnsAll :
      (inner : Inner) (event : EventMessage) (context : Identifier) (r : Option Registration)
      → registered inner context ≡ r
      → event.context ≡ some context
      → Owns c tx inner
      → OwnsAll c tx (after (dispatch_matched inner event context r))
  unfolding dispatch_matched
  matched-OwnsAll inner event context none e h o = forwarded-OwnsAll _ (forward-Owns _ _ o)
  matched-OwnsAll inner event context (some r) e h o =
      let (t, b) =
        find_sound (λ x. x.response_tx < inner.next_channel) _ inner.pending r o.below e in
      let (_, own) =
        find_sound (λ x. x.response_tx ≡ tx → x.context ≡ c) _ inner.pending r o.only e in
      deliver-OwnsAll inner event context r.response_tx o
        (h, b, λ same. sym ((==_iff r.context context).0 t) ∙ own same)

  event-OwnsAll :
      (inner : Inner) (event : EventMessage) (context : Option Identifier)
      → event.context ≡ context
      → Owns c tx inner
      → OwnsAll c tx (after (dispatch_event inner event context))
  unfolding dispatch_event
  event-OwnsAll inner event none e o = forwarded-OwnsAll _ (forward-Owns _ _ o)
  event-OwnsAll inner event (some context) e o =
      matched-OwnsAll (retain_open inner) event context _ refl e (retain_open-Owns inner o)

  pub dispatch-OwnsAll :
      (inner : Inner) (m : Message) → Owns c tx inner → OwnsAll c tx (after (dispatch inner m))
  unfolding dispatch
  dispatch-OwnsAll inner (command_message m) o = forwarded-OwnsAll _ (forward-Owns _ _ o)
  dispatch-OwnsAll inner (event_message e) o = event-OwnsAll inner e e.context refl o
