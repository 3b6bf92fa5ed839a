-- ===== src/Usb/Keys.antt =====
-- The keys of the runtimes that a `UsbEnvironment` (src/usb/mod.rs) keeps.
use enody_rs.Common.{
  ◌≡◌, refl, ap, sym, ◌∙◌, Bool, false, ◌||◌, Bool-cases, inl, inr, Text, text_eq, List, [], ◌∷◌,
  ◌++◌, any, Option, some, Result, ok, err, arith, append-nil, append_assoc, text_eq_refl,
}
use enody_rs.Error.{Error}
use enody_rs.Environment.{arrived, left}
use enody_rs.Usb.{
  UsbDevice, ConnectedRuntime, same_serial, connected_contains_key, fetch_serial, establish,
  arrive_with, handle_device_arrived, remove_key, left_event, handle_device_left,
}

-- A runtime with the key, or with the serial number if there is one, is connected.
abbrev pub clashes : ConnectedRuntime → ConnectedRuntime → Bool
clashes d c =
    text_eq c.connection_key d.connection_key || same_serial d.serial_number c.serial_number

-- No runtime shares its key or its serial number with an earlier one.
abbrev pub Unclashing : List ConnectedRuntime → List ConnectedRuntime → Type 0
Unclashing before [] = Unit
Unclashing before (c ∷ cs) = (any (clashes c) before ≡ false) × Unclashing (before ++ c ∷ []) cs

any-append :
    (test : ConnectedRuntime → Bool) (xs ys : List ConnectedRuntime)
    → any test (xs ++ ys) ≡ (any test xs || any test ys)
any-append test [] ys = refl
any-append test (x ∷ xs) ys = ground (arith, any-append test xs ys)

Unclashing-append :
    (before cs : List ConnectedRuntime) (new : ConnectedRuntime)
    → Unclashing before cs
    → any (clashes new) (before ++ cs) ≡ false
    → Unclashing before (cs ++ new ∷ [])
Unclashing-append before [] new u h = (ap (any (clashes new)) (sym (append-nil before)) ∙ h, tt)
Unclashing-append before (c ∷ cs) new (first, u) h = (
  first,
  Unclashing-append (before ++ c ∷ []) cs new u
      (ap (any (clashes new)) (append_assoc before (c ∷ []) cs) ∙ h),
)

-- Fewer earlier runtimes clash with no more.
Unclashing-fewer :
    (before before' cs : List ConnectedRuntime)
    → ((d : ConnectedRuntime) → any (clashes d) before ≡ false → any (clashes d) before' ≡ false)
    → Unclashing before cs
    → Unclashing before' cs
Unclashing-fewer before before' [] fewer u = tt
Unclashing-fewer before before' (c ∷ cs) fewer (first, u) = (
  fewer c first,
  Unclashing-fewer (before ++ c ∷ []) (before' ++ c ∷ []) cs
      (λ d h.
        let e = any-append (clashes d) before (c ∷ []) in
        let e' = any-append (clashes d) before' (c ∷ []) in
        let old : any (clashes d) before ≡ false = ground arith in
        let kept = fewer d old in ground arith)
      u,
)

Unclashing-remove_key :
    (before cs : List ConnectedRuntime) (key : Text)
    → Unclashing before cs
    → Unclashing before (remove_key cs key).0
unfolding remove_key
Unclashing-remove_key before [] key u = tt
Unclashing-remove_key before (c ∷ cs) key (first, u) =
    elim (Bool-cases (text_eq c.connection_key key)) [
      | inl e ↦ rw e (
          Unclashing-fewer (before ++ c ∷ []) before cs
            (λ d h. let e' = any-append (clashes d) before (c ∷ []) in ground arith) u)
      | inr e ↦ rw e (first, Unclashing-remove_key (before ++ c ∷ []) cs key u)
    ]

establish-Unclashing :
    (cs : List ConnectedRuntime) (device : UsbDevice) (serial : Option Text)
    (r : Result (Unit {0}) Error)
    → connected_contains_key cs device.connection_key serial ≡ false
    → Unclashing [] cs
    → Unclashing [] (establish cs device serial r).0
unfolding connected_contains_key
establish-Unclashing cs device serial (err e) h u = u
establish-Unclashing cs device serial (ok _) h u = Unclashing-append [] cs _ u h

arrive_with-Unclashing :
    (cs : List ConnectedRuntime) (device : UsbDevice) (r : Result (Option Text) Error)
    → Unclashing [] cs
    → Unclashing [] (arrive_with cs device r).0
arrive_with-Unclashing cs device (err e) u = u
arrive_with-Unclashing cs device (ok serial) u =
    elim (Bool-cases (connected_contains_key cs device.connection_key serial)) [
      | inl e ↦ rw e u
      | inr e ↦ rw e (establish-Unclashing cs device serial device.connect_runtime e u)
    ]

-- Neither an arrival nor a departure makes two connected runtimes share a key or a serial number.
pub handlers-Unclashing :
    (cs : List ConnectedRuntime) (device : UsbDevice)
    → Unclashing [] cs
    → Unclashing [] (handle_device_arrived cs device).0
      × Unclashing [] (handle_device_left cs device).0
unfolding handle_device_arrived handle_device_left
handlers-Unclashing cs device u = (
  arrive_with-Unclashing cs device (fetch_serial device device.serial_closed) u,
  Unclashing-remove_key [] cs device.connection_key u,
)

remove_key-append :
    (cs : List ConnectedRuntime) (new : ConnectedRuntime) (serial : Option Text)
    → connected_contains_key cs new.connection_key serial ≡ false
    → remove_key (cs ++ new ∷ []) new.connection_key ≡ (cs, some new.runtime)
unfolding remove_key connected_contains_key
remove_key-append [] new serial h = rw (text_eq_refl new.connection_key) refl
remove_key-append (c ∷ cs) new serial h =
    let other : text_eq c.connection_key new.connection_key ≡ false = ground arith in
    let rest = remove_key-append cs new serial (ground arith) in rw (other, rest) refl

establish-left :
    (cs : List ConnectedRuntime) (device : UsbDevice) (serial : Option Text)
    (r : Result (Unit {0}) Error)
    → connected_contains_key cs device.connection_key serial ≡ false
    → (establish cs device serial r).1 ≡ some (arrived device)
    → handle_device_left (establish cs device serial r).0 device ≡ (cs, some (left device))
unfolding handle_device_left
establish-left cs device serial (err e) h reported = absurd cc
establish-left cs device serial (ok _) h reported =
    ap (λ r. (r.0, left_event r.1))
      (remove_key-append cs
        (record {
          runtime = device;
          connection_key = device.connection_key;
          serial_number = serial;
        })
        serial h)

arrive_with-left :
    (cs : List ConnectedRuntime) (device : UsbDevice) (r : Result (Option Text) Error)
    → (arrive_with cs device r).1 ≡ some (arrived device)
    → handle_device_left (arrive_with cs device r).0 device ≡ (cs, some (left device))
arrive_with-left cs device (err e) = λ reported. absurd cc
arrive_with-left cs device (ok serial) =
    elim (Bool-cases (connected_contains_key cs device.connection_key serial)) [
      | inl e ↦ rw e (λ reported. absurd cc)
      | inr e ↦ rw e (establish-left cs device serial device.connect_runtime e)
    ]

-- A device whose arrival is reported and that then leaves is reported as left, and the connected
-- runtimes are those before.
pub arrived-left :
    (cs : List ConnectedRuntime) (device : UsbDevice)
    → (handle_device_arrived cs device).1 ≡ some (arrived device)
    → handle_device_left (handle_device_arrived cs device).0 device ≡ (cs, some (left device))
unfolding handle_device_arrived
arrived-left cs device = arrive_with-left cs device (fetch_serial device device.serial_closed)
