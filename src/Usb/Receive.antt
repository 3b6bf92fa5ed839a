-- ===== src/Usb/Receive.antt =====
-- What the read loops of src/usb/rusb.rs and src/usb/serialport.rs do with the bytes of a read: each
-- completed payload is decoded and offered to the channel of messages.
use enody_rs.Common.{
  ℕ, ◌+◌, ◌≤◌, Bytes, Bool, true, ◌&&◌, ltb, if◌then◌else◌, List, [], ◌∷◌, ◌++◌, length,
  length-append, append_assoc, append-nil, Option, none, some, ◌≡◌, refl, ap, ◌∙◌, arith,
  Option-cases, inl, inr,
}
use enody_rs.Framing.{MessageStream, push_byte, push_bytes}

abbrev pub message_channel_size : ℕ
message_channel_size = 64

-- A bounded channel: what is queued, and whether the receiver still is there.
pub record Channel (M : Type 0) : Type 0 where
  pub queue : List M
  pub is_open : Bool

module _ {M : Type 0} where
  -- `try_send`, whose failure on a full or closed channel is ignored.
  unfoldable pub try_send : Channel M → M → Channel M
  try_send channel message =
      if channel.is_open && ltb (length channel.queue) message_channel_size
      then record channel { queue = channel.queue ++ message ∷ [] }
      else channel

module _ {M : Type 0} (from_bytes : Bytes → Option M) where
  abbrev pub offer : Channel M → Option M → Channel M
  offer channel none = channel
  offer channel (some message) = try_send channel message

  abbrev pub on_payload : Channel M → Option Bytes → Channel M
  on_payload channel none = channel
  on_payload channel (some payload) = offer channel (from_bytes payload)

  -- The loop over the bytes of a read.
  unfoldable pub feed : MessageStream → Channel M → Bytes → MessageStream × Channel M
  feed stream channel [] = (stream, channel)
  feed stream channel (byte ∷ bytes) =
      let (stream', payload) = push_byte stream byte in
      feed stream' (on_payload channel payload) bytes

  -- The messages that payloads decode to; a payload that decodes to none is dropped.
  abbrev pub keep_message : Option M → List M → List M
  keep_message none rest = rest
  keep_message (some message) rest = message ∷ rest

  abbrev pub decoded : List Bytes → List M
  decoded [] = []
  decoded (payload ∷ payloads) = keep_message (from_bytes payload) (decoded payloads)

  pub decoded-append : (ps qs : List Bytes) → decoded (ps ++ qs) ≡ decoded ps ++ decoded qs
  decoded-append [] qs = refl
  decoded-append (p ∷ ps) qs = elim (Option-cases (from_bytes p)) [
    | inl e ↦ rw e (decoded-append ps qs)
    | inr (m, e) ↦ rw e (ap (λ ms. m ∷ ms) (decoded-append ps qs))
  ]

  -- Messages offered one after the other.
  abbrev pub offers : Channel M → List M → Channel M
  offers channel [] = channel
  offers channel (message ∷ messages) = offers (try_send channel message) messages

  -- The loop parses the bytes as a whole, and offers what they decode to, in order.
  pub feed-offers :
      (stream : MessageStream) (channel : Channel M) (bytes : Bytes)
      → feed stream channel bytes
        ≡ ((push_bytes stream bytes).0, offers channel (decoded (push_bytes stream bytes).1))
  unfolding feed push_bytes
  feed-offers stream channel [] = refl
  feed-offers stream channel (b ∷ bytes) = elim (Option-cases (push_byte stream b).1) [
    | inl e ↦ rw e (feed-offers (push_byte stream b).0 channel bytes)
    | inr (p, e) ↦ elim (Option-cases (from_bytes p)) [
      | inl d ↦ rw (e, d) (feed-offers (push_byte stream b).0 channel bytes)
      | inr (m, d) ↦ rw (e, d) (feed-offers (push_byte stream b).0 (try_send channel m) bytes)
    ]
  ]

  -- With room for all of them, they are queued.
  pub offers-room :
      (queue messages : List M)
      → length queue + length messages ≤ message_channel_size
      → offers (record { queue = queue; is_open = true }) messages
        ≡ record { queue = queue ++ messages; is_open = true }
  unfolding try_send
  offers-room queue [] h = rw append-nil
  offers-room queue (m ∷ messages) h =
      let has_room : ltb (length queue) message_channel_size ≡ true = ground arith in
      let more = length-append queue (m ∷ []) in
      rw has_room (
        offers-room (queue ++ m ∷ []) messages (omega (arith, more, h))
        ∙ ap (λ q. record { queue = q; is_open = true }) (append_assoc queue (m ∷ []) messages))

  -- However many there are, the channel holds no more than its size.
  pub offers-length :
      (channel : Channel M) (messages : List M)
      → length channel.queue ≤ message_channel_size
      → length (offers channel messages).queue ≤ message_channel_size
  unfolding try_send
  offers-length channel [] h = h
  offers-length channel (m ∷ messages) h =
      offers-length (try_send channel m) messages
        (ground (arith, length-append channel.queue (m ∷ [])))
