-- ===== src/Usb/Lifecycle.antt =====
-- How starts and stops of discovery in `UsbEnvironment` (src/usb/mod.rs) end.
use enody_rs.Common.{
  true, false, List, [], ◌∷◌, ◌++◌, All, All-append, none, some, Result, ok, err, Text, ◌≡◌, refl,
  sym, ap, subst, ◌∙◌,
}
use enody_rs.Error.{Error}
use enody_rs.Usb.Discovery.{
  UsbBackend, UsbEnvironment, consumed, stop_each, start_next, start_backends, start_done,
  start_with, start_unless, start_discovery, stop_discovery,
}

module _ {B : Type 0} (usb : UsbBackend B) where
  abbrev pub Running : B → Type 0
  Running b = usb.is_running b ≡ true

  abbrev pub Stopped : B → Type 0
  Stopped b = usb.is_running b ≡ false

  stop_each-Stopped : (bs : List B) → All Stopped (stop_each usb bs)
  stop_each-Stopped [] = tt
  stop_each-Stopped (b ∷ bs) = (usb.stop_stops b, stop_each-Stopped bs)

  -- All are started, or an error is returned and none runs.
  abbrev pub AllOrNone : List B × Result (Unit {0}) Error → Type 0
  AllOrNone (backends, ok _) = All Running backends
  AllOrNone (backends, err e) = All Stopped backends

module _ {B : Type 0} (usb : UsbBackend B) (describe : Error → Text) where
  start_next-AllOrNone :
      (started : List B) (b : B) (r : Result (Unit {0}) Error) (rest : List B)
      (later : List B × Result (Unit {0}) Error)
      → ((e : Error) → r ≡ err e → Stopped usb b)
      → All (Stopped usb) rest
      → (r ≡ ok tt → AllOrNone usb later)
      → AllOrNone usb (start_next usb describe started (b, r) rest later)
  start_next-AllOrNone started b (ok _) rest later fails idle goes_on = goes_on refl
  start_next-AllOrNone started b (err e) rest later fails idle goes_on =
      All-append (Stopped usb) (stop_each usb started) (b ∷ rest) (stop_each-Stopped usb started)
        (fails e refl, idle)

  start_backends-AllOrNone :
      (started rest : List B)
      → All (Running usb) started
      → All (Stopped usb) rest
      → AllOrNone usb (start_backends usb describe started rest)
  unfolding start_backends
  start_backends-AllOrNone started [] running idle = running
  start_backends-AllOrNone started (b ∷ rest) running (_, idle) =
      let tried = usb.start_discovery b in
      start_next-AllOrNone started tried.0 tried.1 rest
        (start_backends usb describe (started ++ tried.0 ∷ []) rest) (usb.start_fails b) idle
        (λ starts.
          start_backends-AllOrNone (started ++ tried.0 ∷ []) rest
            (All-append (Running usb) started (tried.0 ∷ []) running (usb.start_runs b starts, tt))
            idle)

module _ {B Rx : Type 0} (usb : UsbBackend B) (describe : Error → Text) where
  -- Discovery runs, with the receiver in the task.
  abbrev pub Discovers : UsbEnvironment B Rx → Rx → Type 0
  Discovers env event_rx =
      All (Running usb) env.backends
      × (env.device_event_rx ≡ none)
      × (env.event_handler_task ≡ some event_rx)

  -- Discovery can be started.
  abbrev pub Idle : UsbEnvironment B Rx → Rx → Type 0
  Idle env event_rx =
      All (Stopped usb) env.backends
      × (env.device_event_rx ≡ some event_rx)
      × (env.event_handler_task ≡ none)

  abbrev pub StartEnds : Rx → UsbEnvironment B Rx × Result (Unit {0}) Error → Type 0
  StartEnds event_rx (env, ok _) = Discovers env event_rx
  StartEnds event_rx (env, err e) = Idle env event_rx

  start_done-Ends :
      (env : UsbEnvironment B Rx) (event_rx : Rx) (r : List B × Result (Unit {0}) Error)
      → env.event_handler_task ≡ none
      → AllOrNone usb r
      → StartEnds event_rx (start_done usb describe env event_rx r)
  start_done-Ends env event_rx (backends, ok _) idle h = (h, refl, refl)
  start_done-Ends env event_rx (backends, err e) idle h = (h, refl, idle)

  -- A start of discovery where it can be started either succeeds, and then all backends run and the
  -- task has the receiver of device events, or it fails, and then no backend runs and it can be
  -- started again.
  pub start_discovery-Ends :
      (env : UsbEnvironment B Rx) (event_rx : Rx)
      → Idle env event_rx
      → StartEnds event_rx (start_discovery usb describe env)
  unfolding start_discovery
  start_discovery-Ends env event_rx (stopped, rx, idle) =
      let tried = start_backends usb describe [] env.backends in
      let starts : start_discovery usb describe env ≡ start_done usb describe env event_rx tried =
        ap (start_unless usb describe env) idle ∙ ap (start_with usb describe env) rx in
      subst (StartEnds event_rx) (sym starts) (
        start_done-Ends env event_rx tried idle
          (start_backends-AllOrNone usb describe [] env.backends tt stopped))

  -- Where discovery runs, stopping it stops all backends, and a start behind that fails for want of
  -- the receiver, which went with the task, and changes nothing.
  pub stop-start :
      (env : UsbEnvironment B Rx) (event_rx : Rx)
      → Discovers env event_rx
      → All (Stopped usb) (stop_discovery usb describe env).0.backends
        × (start_discovery usb describe (stop_discovery usb describe env).0
            ≡ ((stop_discovery usb describe env).0, err consumed))
  unfolding start_discovery stop_discovery
  stop-start env event_rx (running, rx, task) = (
    stop_each-Stopped usb env.backends,
    ap (start_with usb describe (stop_discovery usb describe env).0) rx,
  )
