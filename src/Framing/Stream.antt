-- ===== src/Framing/Stream.antt =====
-- What `MessageStream` of src/serialization.rs makes of a byte stream.
use enody_rs.Common.{
  ℕ, Bytes, Bool, false, not, ◌&&◌, ◌==◌, List, [], ◌∷◌, ◌++◌, append_assoc, append-nil, ◌≡◌, refl,
  ap, ◌∙◌, Option, none, some, arith, Bool-cases, Option-cases, inl, inr,
}
use enody_rs.Framing.{
  escaped_bytes, unescape_bytes, frame_bytes, MessageStream, new, push_byte, push_bytes, keep_some,
  control_char_etx, control_char_dle, control_char_stx, is_control,
}
use enody_rs.Framing.RoundTrip.{unframe-delimited, unescape-escaped}

-- Inside a frame, behind STX and `acc`, with no escape pending.
abbrev pub in_frame : Bytes → MessageStream
in_frame acc = record { buffer = control_char_stx ∷ acc; is_escaped = false }

-- One step of the collecting loop.
pub push_bytes-cons :
    (s t : MessageStream) (b : ℕ) (rest : Bytes) (r : Option Bytes)
    → push_byte s b ≡ (t, r)
    → push_bytes s (b ∷ rest) ≡ ((push_bytes t rest).0, keep_some r (push_bytes t rest).1)
unfolding push_bytes
push_bytes-cons s t b rest r e = rw e

-- Feeding a stream in two pieces is the same as feeding it at once.
pub push_bytes-append :
    (s : MessageStream) (xs ys : Bytes)
    → push_bytes s (xs ++ ys) ≡ (
      (push_bytes (push_bytes s xs).0 ys).0,
      (push_bytes s xs).1 ++ (push_bytes (push_bytes s xs).0 ys).1,
    )
unfolding push_bytes
push_bytes-append s [] ys = refl
push_bytes-append s (b ∷ xs) ys =
    ground (arith, push_bytes-append (push_byte s b).0 xs ys, Option-cases (push_byte s b).1)

push-escaped :
    (acc p rest : Bytes)
    → push_bytes (in_frame acc) (escaped_bytes p ++ rest)
      ≡ push_bytes (in_frame (acc ++ escaped_bytes p)) rest
unfolding escaped_bytes push_bytes push_byte
push-escaped acc [] rest = rw append-nil
push-escaped acc (b ∷ p) rest = elim (Bool-cases (is_control b)) [
  | inl c ↦ ground (
    arith,
    push-escaped (acc ++ control_char_dle ∷ b ∷ []) p rest,
    append_assoc acc (control_char_dle ∷ b ∷ []) (escaped_bytes p),
    append_assoc acc (control_char_dle ∷ []) (b ∷ []),
  )
  | inr c ↦
      ground
        (arith, push-escaped (acc ++ b ∷ []) p rest, append_assoc acc (b ∷ []) (escaped_bytes p))
]

push-etx :
    (acc : Bytes) → push_byte (in_frame acc) control_char_etx ≡ (new, some (unescape_bytes acc))
unfolding push_byte new
push-etx acc = rw unframe-delimited

-- The escaped payload and the closing ETX, behind STX.
push-body :
    (p rest : Bytes)
    → push_bytes (in_frame []) ((escaped_bytes p ++ control_char_etx ∷ []) ++ rest)
      ≡ ((push_bytes new rest).0, p ∷ (push_bytes new rest).1)
push-body p rest = rw (append_assoc (escaped_bytes p) (control_char_etx ∷ []) rest) (
    push-escaped [] p (control_char_etx ∷ rest)
    ∙ push_bytes-cons _ new control_char_etx rest (some p)
        (push-etx (escaped_bytes p) ∙ ap (λ q. (new, some q)) (unescape-escaped p)))

-- A framed payload in front of any bytes is delivered, and the stream is as new behind it.
pub push-frame :
    (p rest : Bytes)
    → push_bytes new (frame_bytes p ++ rest)
      ≡ ((push_bytes new rest).0, p ∷ (push_bytes new rest).1)
unfolding frame_bytes
push-frame p rest =
    push_bytes-cons new (in_frame []) control_char_stx _ none start ∙ push-body p rest
  where
    start : push_byte new control_char_stx ≡ (in_frame [], none)
    start = unfold push_byte new in refl

-- What the sender writes for a list of payloads.
abbrev pub wire : List Bytes → Bytes
wire [] = []
wire (p ∷ ps) = frame_bytes p ++ wire ps

-- Frames that arrive back to back are all delivered, in order, and nothing is left over.
pub push-wire : (ps : List Bytes) → push_bytes new (wire ps) ≡ (new, ps)
push-wire [] = unfold push_bytes in refl
push-wire (p ∷ ps) = push-frame p (wire ps) ∙ ap (λ r. (r.0, p ∷ r.1)) (push-wire ps)

-- Bytes in which no STX starts a frame: each STX stands behind an escaping DLE. The flag says
-- whether a DLE is pending, and at the end none is.
abbrev pub Skips : Bool → Bytes → Type 0
Skips esc [] = esc ≡ false
Skips esc (b ∷ g) =
    ((b == control_char_stx && not esc) ≡ false) × Skips (b == control_char_dle && not esc) g

abbrev waiting : Bool → MessageStream
waiting esc = record { buffer = []; is_escaped = esc }

push-Skips :
    (esc : Bool) (g rest : Bytes)
    → Skips esc g
    → push_bytes (waiting esc) (g ++ rest) ≡ push_bytes new rest
unfolding new
push-Skips esc [] rest h = rw h
push-Skips esc (b ∷ g) rest (h, k) =
    push_bytes-cons (waiting esc) (waiting (b == control_char_dle && not esc)) b (g ++ rest) none
      step
    ∙ push-Skips (b == control_char_dle && not esc) g rest k
  where
    step : push_byte (waiting esc) b ≡ (waiting (b == control_char_dle && not esc), none)
    step = unfold push_byte in rw h

-- Garbage that starts no frame is skipped, and the frames behind it are all delivered.
pub push-garbage-wire :
    (g : Bytes) (ps : List Bytes) → Skips false g → push_bytes new (g ++ wire ps) ≡ (new, ps)
push-garbage-wire g ps h = unfold new in push-Skips false g (wire ps) h ∙ push-wire ps
