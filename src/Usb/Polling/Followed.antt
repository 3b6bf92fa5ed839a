-- ===== src/Usb/Polling/Followed.antt =====
-- The events of src/usb/serialport.rs say how the ports change.
use enody_rs.Common.{
  ℕ, zero, suc, ◌<◌, length, or_false, or_assoc, and_true, and_not_or, Bool, true, false, not, ◌&&◌,
  ◌||◌, Text, text_eq, text_eq_sound, List, [], ◌∷◌, ◌++◌, map, retain, any, All, All-retain,
  Result, ok, err, Bool-cases, inl, inr, ◌≡◌, refl, sym, ap, ◌∙◌, arith, subst,
}
use enody_rs.Error.{Error}
use enody_rs.Usb.Identifier.{UsbDeviceEvent, connected, disconnected}
use enody_rs.Usb.Polling.{
  SerialPortInfo, SerialPortDevice, connection_key, attached_ports, Entry, contains_key, insert,
  port_map_from, port_map, changes, poll_all, try_send_all, Tick, poll,
}

-- An observer keeps the keys that are connected.
abbrev pub follow : (Text → Bool) → UsbDeviceEvent SerialPortDevice → Text → Bool
follow seen (connected device) key = seen key || text_eq (connection_key device) key
follow seen (disconnected device) key = seen key && not (text_eq (connection_key device) key)

abbrev pub follow_all : (Text → Bool) → List (UsbDeviceEvent SerialPortDevice) → Text → Bool
follow_all seen [] = seen
follow_all seen (event ∷ events) = follow_all (follow seen event) events

-- The key of an entry is that of its device.
abbrev pub Keyed : List Entry → Type 0
Keyed entries = All (λ e. e.key ≡ connection_key e.device) entries

follow_all-append :
    (seen : Text → Bool) (xs ys : List (UsbDeviceEvent SerialPortDevice)) (key : Text)
    → follow_all seen (xs ++ ys) key ≡ follow_all (follow_all seen xs) ys key
follow_all-append seen [] ys key = refl
follow_all-append seen (x ∷ xs) ys key = follow_all-append (follow seen x) xs ys key

insert-Keyed :
    (entries : List Entry) (device : SerialPortDevice)
    → Keyed entries
    → Keyed (insert entries (connection_key device) device)
unfolding insert
insert-Keyed [] device h = (refl, tt)
insert-Keyed (e ∷ entries) device (k, h) =
    elim (Bool-cases (text_eq e.key (connection_key device))) [
      | inl same ↦ rw same (text_eq_sound e.key (connection_key device) same, h)
      | inr other ↦ rw other (k, insert-Keyed entries device h)
    ]

port_map_from-Keyed :
    (entries : List Entry) (ports : List SerialPortDevice)
    → Keyed entries
    → Keyed (port_map_from entries ports)
unfolding port_map_from
port_map_from-Keyed entries [] h = h
port_map_from-Keyed entries (port ∷ ports) h =
    port_map_from-Keyed (insert entries (connection_key port) port) ports
      (insert-Keyed entries port h)

follow-connected :
    (seen : Text → Bool) (entries : List Entry) (key : Text)
    → Keyed entries
    → follow_all seen (map (λ e. connected e.device) entries) key
      ≡ (seen key || contains_key entries key)
follow-connected seen [] key h = or_false (seen key)
follow-connected seen (e ∷ entries) key (k, h) =
    follow-connected (follow seen (connected e.device)) entries key h
    ∙ or_assoc (seen key) (text_eq (connection_key e.device) key) (contains_key entries key)
    ∙ ap (λ own. seen key || (text_eq own key || contains_key entries key)) (sym k)

follow-disconnected :
    (seen : Text → Bool) (entries : List Entry) (key : Text)
    → Keyed entries
    → follow_all seen (map (λ e. disconnected e.device) entries) key
      ≡ (seen key && not (contains_key entries key))
follow-disconnected seen [] key h = and_true (seen key)
follow-disconnected seen (e ∷ entries) key (k, h) =
    follow-disconnected (follow seen (disconnected e.device)) entries key h
    ∙ and_not_or (seen key) (text_eq (connection_key e.device) key) (contains_key entries key)
    ∙ ap (λ own. seen key && not (text_eq own key || contains_key entries key)) (sym k)

-- The entries whose key is not among others.
contains_key-retain :
    (others entries : List Entry) (key : Text)
    → contains_key (retain (λ e. not (contains_key others e.key)) entries) key
      ≡ (contains_key entries key && not (contains_key others key))
contains_key-retain others [] key = refl
contains_key-retain others (e ∷ entries) key =
    let rest = contains_key-retain others entries key in
    elim (Bool-cases (text_eq e.key key)) [
      | inl same ↦ elim (Bool-cases (contains_key others e.key)) [
        | inl old ↦
            let old_key =
              subst (λ k. contains_key others k ≡ true) (text_eq_sound e.key key same) old in
            ground (arith, rest)
        | inr fresh ↦
            let fresh_key =
              subst (λ k. contains_key others k ≡ false) (text_eq_sound e.key key same) fresh in
            ground (arith, rest)
      ]
      | inr other ↦ ground (arith, rest, Bool-cases (contains_key others e.key))
    ]

replaced : (k c : Bool) → ((k || (c && not k)) && not (k && not c)) ≡ c
replaced true true = refl
replaced true false = refl
replaced false true = refl
replaced false false = refl

changes-followed :
    (known current : List Entry) (seen : Text → Bool) (key : Text)
    → Keyed known
    → Keyed current
    → seen key ≡ contains_key known key
    → follow_all seen (changes known current) key ≡ contains_key current key
unfolding changes
changes-followed known current seen key hk hc same =
    let new_entries = retain (λ e. not (contains_key known e.key)) current in
    let old_entries = retain (λ e. not (contains_key current e.key)) known in
    let arrivals = map (λ e. connected e.device) new_entries in
    let keyed_new =
      All-retain (λ e. e.key ≡ connection_key e.device) (λ e. not (contains_key known e.key))
        current hc in
    let keyed_old =
      All-retain (λ e. e.key ≡ connection_key e.device) (λ e. not (contains_key current e.key))
        known hk in
    follow_all-append seen arrivals (map (λ e. disconnected e.device) old_entries) key
    ∙ follow-disconnected (follow_all seen arrivals) old_entries key keyed_old
    ∙ ap (λ b. b && not (contains_key old_entries key))
        (follow-connected seen new_entries key keyed_new)
    ∙ ap (λ b. (b || contains_key new_entries key) && not (contains_key old_entries key)) same
    ∙ ap (λ b. (contains_key known key || b) && not (contains_key old_entries key))
        (contains_key-retain known current key)
    ∙ ap
        (λ b.
          (contains_key known key || (contains_key current key && not (contains_key known key)))
          && not b)
        (contains_key-retain current known key)
    ∙ replaced (contains_key known key) (contains_key current key)

pub port_map-Keyed : (ports : List SerialPortDevice) → Keyed (port_map ports)
unfolding port_map
port_map-Keyed ports = port_map_from-Keyed [] ports tt

-- At each event that a round offers the channel has room.
abbrev pub RoomIn : List Entry → (ℕ → Bool) → Result (List SerialPortInfo) Error → Type 0
RoomIn known has_room (err e) = Unit
RoomIn known has_room (ok ports) =
    (n : ℕ) → n < length (changes known (port_map (attached_ports ports))) → has_room n ≡ true

-- So it is in each of the rounds.
abbrev pub Room : List Entry → List Tick → Type 0
Room known [] = Unit
Room known (tick ∷ ticks) =
    RoomIn known tick.has_room tick.enumerated
    × Room (poll known tick.has_room tick.enumerated).0 ticks

try_send_all-room :
    (has_room : ℕ → Bool) (events : List (UsbDeviceEvent SerialPortDevice))
    → ((n : ℕ) → n < length events → has_room n ≡ true)
    → try_send_all has_room events ≡ events
unfolding try_send_all
try_send_all-room has_room [] h = refl
try_send_all-room has_room (event ∷ events) h = rw (h zero (omega arith)) (
    ap (λ es. event ∷ es)
      (try_send_all-room (λ n. has_room (suc n)) events (λ n lt. h (suc n) (omega arith))))

-- A round keeps the observer in step.
poll-followed :
    (known : List Entry) (has_room : ℕ → Bool) (enumerated : Result (List SerialPortInfo) Error)
    (seen : Text → Bool) (key : Text)
    → Keyed known
    → RoomIn known has_room enumerated
    → ((k : Text) → seen k ≡ contains_key known k)
    → follow_all seen (poll known has_room enumerated).1 key
      ≡ contains_key (poll known has_room enumerated).0 key
poll-followed known has_room (err e) seen key h room same = same key
poll-followed known has_room (ok ports) seen key h room same =
    let current = port_map (attached_ports ports) in
    ap (λ events. follow_all seen events key)
      (try_send_all-room has_room (changes known current) room)
    ∙ changes-followed known current seen key h (port_map-Keyed (attached_ports ports)) (same key)

poll-Keyed :
    (known : List Entry) (has_room : ℕ → Bool) (enumerated : Result (List SerialPortInfo) Error)
    → Keyed known
    → Keyed (poll known has_room enumerated).0
poll-Keyed known has_room (err e) h = h
poll-Keyed known has_room (ok ports) h = port_map-Keyed (attached_ports ports)

poll_all-followed :
    (known : List Entry) (ticks : List Tick) (seen : Text → Bool) (key : Text)
    → Keyed known
    → Room known ticks
    → ((k : Text) → seen k ≡ contains_key known k)
    → follow_all seen (poll_all known ticks).1 key ≡ contains_key (poll_all known ticks).0 key
unfolding poll_all
poll_all-followed known [] seen key h room same = same key
poll_all-followed known (tick ∷ ticks) seen key h (room, rooms) same =
    let step = poll known tick.has_room tick.enumerated in
    follow_all-append seen step.1 (poll_all step.0 ticks).1 key
    ∙ poll_all-followed step.0 ticks (follow_all seen step.1) key
        (poll-Keyed known tick.has_room tick.enumerated h) rooms
        (λ k. poll-followed known tick.has_room tick.enumerated seen k h room same)

abbrev pub has_key : List SerialPortDevice → Text → Bool
has_key ports key = any (λ port. text_eq (connection_key port) key) ports

insert-keys :
    (entries : List Entry) (own : Text) (device : SerialPortDevice) (key : Text)
    → contains_key (insert entries own device) key ≡ (contains_key entries key || text_eq own key)
unfolding insert
insert-keys [] own device key = sym (or_false (text_eq own key))
insert-keys (e ∷ entries) own device key = elim (Bool-cases (text_eq e.key own)) [
  | inl same ↦
      let as_own : text_eq e.key key ≡ text_eq own key =
        ap (λ k. text_eq k key) (text_eq_sound e.key own same) in
      ground (arith, Bool-cases (text_eq own key))
  | inr other ↦ ground (arith, insert-keys entries own device key, Bool-cases (text_eq e.key key))
]

port_map_from-keys :
    (entries : List Entry) (ports : List SerialPortDevice) (key : Text)
    → contains_key (port_map_from entries ports) key
      ≡ (contains_key entries key || has_key ports key)
unfolding port_map_from
port_map_from-keys entries [] key = or_false (contains_key entries key)
port_map_from-keys entries (port ∷ ports) key =
    port_map_from-keys (insert entries (connection_key port) port) ports key
    ∙ ap (λ b. b || has_key ports key) (insert-keys entries (connection_key port) port key)
    ∙ or_assoc (contains_key entries key) (text_eq (connection_key port) key) (has_key ports key)

port_map-keys :
    (ports : List SerialPortDevice) (key : Text)
    → contains_key (port_map ports) key ≡ has_key ports key
unfolding port_map
port_map-keys ports key = port_map_from-keys [] ports key

-- The ports of the last enumeration that succeeds.
abbrev pub ports_of :
    List SerialPortDevice → Result (List SerialPortInfo) Error → List SerialPortDevice
ports_of ports (err e) = ports
ports_of ports (ok enumerated) = attached_ports enumerated

abbrev pub latest : List SerialPortDevice → List Tick → List SerialPortDevice
latest ports [] = ports
latest ports (tick ∷ ticks) = latest (ports_of ports tick.enumerated) ticks

poll-ports_of :
    (ports : List SerialPortDevice) (has_room : ℕ → Bool)
    (enumerated : Result (List SerialPortInfo) Error)
    → (poll (port_map ports) has_room enumerated).0 ≡ port_map (ports_of ports enumerated)
poll-ports_of ports has_room (err e) = refl
poll-ports_of ports has_room (ok enumerated) = refl

poll_all-latest :
    (ports : List SerialPortDevice) (ticks : List Tick)
    → (poll_all (port_map ports) ticks).0 ≡ port_map (latest ports ticks)
unfolding poll_all
poll_all-latest ports [] = refl
poll_all-latest ports (tick ∷ ticks) =
    ap (λ known. (poll_all known ticks).0) (poll-ports_of ports tick.has_room tick.enumerated)
    ∙ poll_all-latest (ports_of ports tick.enumerated) ticks

-- Where the channel has room for each event of the rounds, an observer that starts with the keys of
-- the ports attached at the start, and follows the events of these rounds, some of whose
-- enumerations may fail, has the keys of the supported ports in the last enumeration that succeeded.
pub discovery-followed :
    (ports : List SerialPortDevice) (ticks : List Tick) (key : Text)
    → Room (port_map ports) ticks
    → follow_all (has_key ports) (poll_all (port_map ports) ticks).1 key
      ≡ has_key (latest ports ticks) key
discovery-followed ports ticks key room =
    poll_all-followed (port_map ports) ticks (has_key ports) key (port_map-Keyed ports) room
      (λ k. sym (port_map-keys ports k))
    ∙ ap (λ entries. contains_key entries key) (poll_all-latest ports ticks)
    ∙ port_map-keys (latest ports ticks) key
