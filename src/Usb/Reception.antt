-- ===== src/Usb/Reception.antt =====
-- A connection's reading side over time: reads of the loop of src/usb/rusb.rs and receptions by the
-- owner of the receiver, in any order.
use enody_rs.Common.{
  ◌+◌, ◌≤◌, Bytes, Bool, true, false, List, [], ◌∷◌, ◌++◌, length, append_assoc, append-nil, Option,
  none, some, Result, ok, err, ◌≡◌, sym, ap, ◌∙◌, subst,
}
use enody_rs.Error.{Error}
use enody_rs.Framing.{MessageStream, new, push_bytes}
use enody_rs.Framing.Stream.{push_bytes-append, push-garbage-wire, Skips, wire}
use enody_rs.Usb.Receive.{
  Channel, message_channel_size, feed, decoded, decoded-append, feed-offers, offers-room,
}

-- The parser of the loop, the channel, and what was received from it so far.
pub record Reception (M : Type 0) : Type 0 where
  pub stream : MessageStream
  pub channel : Channel M
  pub received : List M

-- A round of the loop, with what `read_bulk` gives and whether a shutdown is found behind it; or a
-- message that is received.
pub data Turn : Type 0 where
  round : Result Bytes Error → Bool → Turn
  recv : Turn

module _ {M : Type 0} where
  abbrev pub opened : Reception M
  opened = record { stream = new; channel = record { queue = []; is_open = true }; received = [] }

  abbrev take_head : Reception M → List M → Reception M
  take_head r [] = r
  take_head r (message ∷ queue) = record r {
    channel = record r.channel { queue = queue };
    received = r.received ++ message ∷ [];
  }

  abbrev pub take_message : Reception M → Reception M
  take_message r = take_head r r.channel.queue

module _ {M : Type 0} (from_bytes : Bytes → Option M) where
  abbrev pub on_bytes : Reception M → Bytes → Reception M
  on_bytes r bytes =
      let (stream, channel) = feed from_bytes r.stream r.channel bytes in
      record r { stream = stream; channel = channel }

  abbrev pub on_read : Reception M → Result Bytes Error → Reception M
  on_read r (ok bytes) = on_bytes r bytes
  on_read r (err e) = r

  -- The loop of `message_rx_closure`; no result while it goes on.
  unfoldable pub message_rx :
      Reception M → List Turn → Reception M × Option (Result (Unit {0}) Error)
  message_rx r [] = (r, none)
  message_rx r (recv ∷ turns) = message_rx (take_message r) turns
  message_rx r (round read true ∷ turns) = (on_read r read, some (ok tt))
  message_rx r (round read false ∷ turns) = message_rx (on_read r read) turns

  abbrev pub read_bytes : Result Bytes Error → Bytes
  read_bytes (ok bytes) = bytes
  read_bytes (err e) = []

  -- What the reads give together, up to the shutdown.
  abbrev pub bytes_of : List Turn → Bytes
  bytes_of [] = []
  bytes_of (recv ∷ turns) = bytes_of turns
  bytes_of (round read true ∷ turns) = read_bytes read
  bytes_of (round read false ∷ turns) = read_bytes read ++ bytes_of turns

  abbrev pub new_messages : Reception M → Result Bytes Error → List M
  new_messages r read = decoded from_bytes (push_bytes r.stream (read_bytes read)).1

  -- At each read the channel has room for the messages it completes.
  abbrev pub Room : Reception M → List Turn → Type 0
  Room r [] = Unit
  Room r (recv ∷ turns) = Room (take_message r) turns
  Room r (round read true ∷ turns) =
      length r.channel.queue + length (new_messages r read) ≤ message_channel_size
  Room r (round read false ∷ turns) =
      (length r.channel.queue + length (new_messages r read) ≤ message_channel_size)
      × Room (on_read r read) turns

  abbrev at : MessageStream → List M → List M → Reception M
  at stream queue received = record {
    stream = stream;
    channel = record { queue = queue; is_open = true };
    received = received;
  }

  on_read-room :
      (stream : MessageStream) (queue received : List M) (read : Result Bytes Error)
      → length queue + length (new_messages (at stream queue received) read) ≤ message_channel_size
      → on_read (at stream queue received) read
        ≡ at
            (push_bytes stream (read_bytes read)).0
            (queue ++ new_messages (at stream queue received) read)
            received
  on_read-room stream queue received (ok bytes) h =
      ap (λ fed. record { stream = fed.0; channel = fed.1; received = received })
        (feed-offers from_bytes stream (record { queue = queue; is_open = true }) bytes)
      ∙ ap (λ c. record { stream = (push_bytes stream bytes).0; channel = c; received = received })
          (offers-room from_bytes queue (decoded from_bytes (push_bytes stream bytes).1) h)
  on_read-room stream queue received (err e) h = unfold push_bytes in rw append-nil

  -- What was received and what is queued, in order.
  abbrev pub delivered : Reception M → List M
  delivered r = r.received ++ r.channel.queue

  abbrev Accounts : MessageStream → List M → List M → List Turn → Type 0
  Accounts stream queue received turns =
      delivered (message_rx (at stream queue received) turns).0
      ≡ (received ++ queue) ++ decoded from_bytes (push_bytes stream (bytes_of turns)).1

  joins :
      (stream : MessageStream) (before : List M) (xs ys : Bytes)
      → (before ++ decoded from_bytes (push_bytes stream xs).1)
          ++ decoded from_bytes (push_bytes (push_bytes stream xs).0 ys).1
        ≡ before ++ decoded from_bytes (push_bytes stream (xs ++ ys)).1
  joins stream before xs ys =
      let fed = push_bytes stream xs in
      let more = push_bytes fed.0 ys in
      append_assoc before (decoded from_bytes fed.1) (decoded from_bytes more.1)
      ∙ ap (λ ms. before ++ ms) (sym (decoded-append from_bytes fed.1 more.1))
      ∙ ap (λ r. before ++ decoded from_bytes r.1) (sym (push_bytes-append stream xs ys))

  message_rx-Accounts :
      (stream : MessageStream) (queue received : List M) (turns : List Turn)
      → Room (at stream queue received) turns
      → Accounts stream queue received turns
  unfolding message_rx
  message_rx-Accounts stream queue received [] h = unfold push_bytes in rw append-nil
  message_rx-Accounts stream [] received (recv ∷ turns) h =
      message_rx-Accounts stream [] received turns h
  message_rx-Accounts stream (m ∷ queue) received (recv ∷ turns) h =
      message_rx-Accounts stream queue (received ++ m ∷ []) turns h
      ∙ ap (λ ms. ms ++ decoded from_bytes (push_bytes stream (bytes_of turns)).1)
          (append_assoc received (m ∷ []) queue)
  message_rx-Accounts stream queue received (round read true ∷ turns) h =
      ap delivered (on_read-room stream queue received read h)
      ∙ sym (append_assoc received queue (new_messages (at stream queue received) read))
  message_rx-Accounts stream queue received (round read false ∷ turns) (h, later) =
      let now = on_read-room stream queue received read h in
      let arrived = new_messages (at stream queue received) read in
      let fed = (push_bytes stream (read_bytes read)).0 in
      ap (λ r. delivered (message_rx r turns).0) now
      ∙ message_rx-Accounts fed (queue ++ arrived) received turns
          (subst (λ r. Room r turns) now later)
      ∙ ap (λ ms. ms ++ decoded from_bytes (push_bytes fed (bytes_of turns)).1)
          (sym (append_assoc received queue arrived))
      ∙ joins stream (received ++ queue) (read_bytes read) (bytes_of turns)

  -- Where the reads up to the shutdown give, in whatever pieces, bytes that start no frame and then
  -- the frames of payloads, and the channel has room at each read, the messages received and those
  -- still queued are the messages the payloads decode to, in order.
  pub message_rx-delivers :
      (turns : List Turn) (garbage : Bytes) (payloads : List Bytes)
      → Skips false garbage
      → bytes_of turns ≡ garbage ++ wire payloads
      → Room opened turns
      → delivered (message_rx opened turns).0 ≡ decoded from_bytes payloads
  message_rx-delivers turns garbage payloads skips bytes room =
      message_rx-Accounts new [] [] turns room
      ∙ ap (λ bs. decoded from_bytes (push_bytes new bs).1) bytes
      ∙ ap (λ r. decoded from_bytes r.1) (push-garbage-wire garbage payloads skips)
