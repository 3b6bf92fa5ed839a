-- ===== src/Runtime/Reachable.antt =====
-- What a command may rely on while others and the dispatch task run (src/runtime.rs).
use enody_rs.Common.{
  ℕ, suc, ◌≤◌, ◌<◌, ◌≡◌, refl, ap, subst, true, false, ◌==◌, List, [], ◌∷◌, length, All, All-append,
  All-imp, Option, none, some, arith, ==_refl,
}
use enody_rs.Message.Topology.{Identifier}
use enody_rs.Message.Envelope.{EventMessage}
use enody_rs.Runtime.{
  Inner, register, take_event, finish, remove_pending_registration, enable_logging,
  command_event_buffer, take_from, new,
}
use enody_rs.Runtime.System.{
  System, Step, Reach, registering, dispatching, resuming, taking, finishing, logging, aborting,
  here, next,
}
use enody_rs.Runtime.Routing.{
  Owns, InFlight, OwnsAll, update-Owns, remove-Owns, deliver-OwnsAll, dispatch-OwnsAll,
}

module _ (c : Identifier) (tx : ℕ) where
  InFlight-mono :
      (m n : ℕ) (o : Option (EventMessage × Identifier × ℕ))
      → m ≤ n
      → InFlight c tx m o
      → InFlight c tx n o
  InFlight-mono m n none h f = tt
  InFlight-mono m n (some (e, context, tx')) h (p, b, q) = (p, omega arith, q)

  -- Another command registers: its channel is a new one.
  register-Owns :
      (inner : Inner) (d : Identifier) → Owns c tx inner → Owns c tx (register inner d).0
  unfolding register
  register-Owns inner d o = record {
    below =
        All-append _ inner.pending _
          (All-imp _ _ inner.pending (λ r (h : r.response_tx < inner.next_channel). omega arith)
            o.below)
          (omega arith, tt);
    mine = let m = o.mine in omega arith;
    only = All-append _ inner.pending _ o.only ((λ e. absurd (let m = o.mine in omega arith)), tt);
    queued = rw fresh o.queued;
    bounded = rw fresh o.bounded;
  }
    where
      fresh : (tx == inner.next_channel) ≡ false
      fresh = let m = o.mine in ground arith

  take_from-Owns :
      (inner inner' : Inner) (tx' : ℕ) (e : EventMessage) (queue : List EventMessage)
      → (inner.channels tx').queue ≡ queue
      → take_from inner tx' queue ≡ some (e, inner')
      → Owns c tx inner
      → Owns c tx inner'
  unfolding take_from
  take_from-Owns inner inner' tx' e [] q h o = cc
  take_from-Owns inner inner' tx' e (x ∷ rest) q h o = subst (Owns c tx) (ground arith) (
      update-Owns c tx inner tx' rest (inner.channels tx').is_closed o (λ same.
        let whole =
          subst (λ t. All (λ e. e.context ≡ some c) (inner.channels t).queue) same o.queued in
        let fits =
          subst (λ t. length (inner.channels t).queue ≤ command_event_buffer) same o.bounded in
        ((subst (All (λ e. e.context ≡ some c)) q whole).1, omega (arith, ap length q))))

  take-Owns :
      (inner inner' : Inner) (tx' : ℕ) (e : EventMessage)
      → take_event inner tx' ≡ some (e, inner')
      → Owns c tx inner
      → Owns c tx inner'
  unfolding take_event
  take-Owns inner inner' tx' e h o = take_from-Owns inner inner' tx' e _ refl h o

  take_from-next_channel :
      (inner inner' : Inner) (tx' : ℕ) (e : EventMessage) (queue : List EventMessage)
      → take_from inner tx' queue ≡ some (e, inner')
      → inner'.next_channel ≡ inner.next_channel
  unfolding take_from
  take_from-next_channel inner inner' tx' e [] h = cc
  take_from-next_channel inner inner' tx' e (x ∷ rest) h = ground arith

  take-next_channel :
      (inner inner' : Inner) (tx' : ℕ) (e : EventMessage)
      → take_event inner tx' ≡ some (e, inner')
      → inner'.next_channel ≡ inner.next_channel
  unfolding take_event
  take-next_channel inner inner' tx' e h = take_from-next_channel inner inner' tx' e _ h

  logging-Owns : (inner : Inner) → Owns c tx inner → Owns c tx (enable_logging inner)
  unfolding enable_logging
  logging-Owns inner o = record {
    below = o.below;
    mine = o.mine;
    only = o.only;
    queued = o.queued;
    bounded = o.bounded;
  }

  finish-Owns :
      (inner : Inner) (d : Identifier) (tx' : ℕ) → Owns c tx inner → Owns c tx (finish inner d tx')
  unfolding finish remove_pending_registration
  finish-Owns inner d tx' o =
      update-Owns c tx (remove_pending_registration inner d) tx' (inner.channels tx').queue true
        (remove-Owns c tx inner d o)
        (λ same. (
          subst (λ t. All (λ e. e.context ≡ some c) (inner.channels t).queue) same o.queued,
          subst (λ t. length (inner.channels t).queue ≤ command_event_buffer) same o.bounded,
        ))

  -- Every step keeps what the command relies on.
  Step-OwnsAll : {s t : System} → Step s t → OwnsAll c tx s → OwnsAll c tx t
  Step-OwnsAll {s} (registering d) o = record {
    inner = register-Owns s.inner d o.inner;
    sending =
        unfold register in InFlight-mono s.inner.next_channel _ s.sending (omega arith) o.sending;
  }
  Step-OwnsAll {s} (dispatching m e) o = dispatch-OwnsAll c tx s.inner m o.inner
  Step-OwnsAll {s} (resuming event context tx' e) o =
      deliver-OwnsAll c tx s.inner event context tx' o.inner
        (subst (InFlight c tx s.inner.next_channel) e o.sending)
  Step-OwnsAll {s} (taking tx' event inner' e) o = record {
    inner = take-Owns s.inner inner' tx' event e o.inner;
    sending =
        InFlight-mono s.inner.next_channel _ s.sending
          (let same = take-next_channel s.inner inner' tx' event e in omega arith) o.sending;
  }
  Step-OwnsAll {s} (finishing d tx') o = record {
    inner = finish-Owns s.inner d tx' o.inner;
    sending = unfold finish remove_pending_registration in o.sending;
  }
  Step-OwnsAll {s} logging o = record {
    inner = logging-Owns s.inner o.inner;
    sending = unfold enable_logging in o.sending;
  }
  Step-OwnsAll {s} aborting o = record { inner = o.inner; sending = tt }

  Reach-OwnsAll : {s t : System} → Reach s t → OwnsAll c tx s → OwnsAll c tx t
  Reach-OwnsAll here o = o
  Reach-OwnsAll (next r step) o = Step-OwnsAll step (Reach-OwnsAll r o)

abbrev pub start : System
start = record { inner = new; sending = none }

-- Channel 0 is never handed out, so nothing is ever sent to it.
start-OwnsAll : OwnsAll 0 0 start
start-OwnsAll = record {
  inner = record { below = tt; mine = omega arith; only = tt; queued = tt; bounded = omega arith };
  sending = tt;
}

-- The state behind the registration of a command, and the command's channel.
abbrev pub begun : System → Identifier → System
begun s c = record s { inner = (register s.inner c).0 }

abbrev pub channel_of : System → ℕ
channel_of s = s.inner.next_channel

begun-Owns :
    (c : Identifier) (inner : Inner)
    → Owns 0 0 inner
    → Owns c inner.next_channel (register inner c).0
unfolding register
begun-Owns c inner o = record {
  below =
      All-append _ inner.pending _
        (All-imp _ _ inner.pending (λ r (h : r.response_tx < inner.next_channel). omega arith)
          o.below)
        (omega arith, tt);
  mine = omega arith;
  only =
      All-append _ inner.pending _
        (All-imp _ _ inner.pending
          (λ r (h : r.response_tx < inner.next_channel) e. absurd (omega arith)) o.below)
        ((λ _. refl), tt);
  queued = rw (==_refl inner.next_channel) tt;
  bounded = rw (==_refl inner.next_channel) (omega arith);
}

begun-InFlight :
    (c : Identifier) (limit : ℕ) (o : Option (EventMessage × Identifier × ℕ))
    → InFlight 0 0 limit o
    → InFlight c limit (suc limit) o
begun-InFlight c limit none f = tt
begun-InFlight c limit (some (e, context, tx')) (p, b, q) =
    (p, omega arith, λ same. absurd (omega arith))

begun-OwnsAll : (c : Identifier) (s : System) → OwnsAll 0 0 s → OwnsAll c (channel_of s) (begun s c)
begun-OwnsAll c s o = record {
  inner = begun-Owns c s.inner o.inner;
  sending = unfold register in begun-InFlight c s.inner.next_channel s.sending o.sending;
}

-- From the start, whatever commands, events and waits came before: the channel of a command that
-- registers then, at every later moment, holds at most 16 events, and each of them, as well as
-- the event that the dispatch task may be waiting to send to it, answers that command.
pub responses_routed :
    (s t : System) (c : Identifier)
    → Reach start s
    → Reach (begun s c) t
    → All (λ e. e.context ≡ some c) (t.inner.channels (channel_of s)).queue
      × (length (t.inner.channels (channel_of s)).queue ≤ command_event_buffer)
      × InFlight c (channel_of s) t.inner.next_channel t.sending
responses_routed s t c before later =
    let o =
      Reach-OwnsAll c (channel_of s) later
        (begun-OwnsAll c s (Reach-OwnsAll 0 0 before start-OwnsAll)) in
    (o.inner.queued, o.inner.bounded, o.sending)
