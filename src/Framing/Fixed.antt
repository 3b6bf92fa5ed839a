-- ===== src/Framing/Fixed.antt =====
-- The `no_std` parser of src/serialization.rs on frames that fit its buffer, and on longer ones.
use enody_rs.Common.{
  ℕ, ◌+◌, ◌≤◌, ◌==◌, ltb, leb, Bytes, Bool, true, false, List, [], ◌∷◌, ◌++◌, length, length-append,
  All, retain, ◌≡◌, ◌⊎◌, refl, sym, ap, ◌∙◌, Option, none, arith, Bool-cases, Option-cases, inl,
  inr, append-nil,
}
use enody_rs.Framing.{
  escaped_bytes, frame_bytes, MessageStream, new, push_byte, push_byte_fixed, buffer_capacity,
  push_bytes, push_bytes_fixed, keep_some, is_control, control_char_stx, control_char_etx,
  control_char_dle,
}
use enody_rs.Framing.Stream.{push-frame, wire, in_frame}
use enody_rs.Framing.Memory.{push_byte_fixed-room, push_byte_fixed-full, length-push_byte}

-- As long as the bytes fit behind the buffer, the capacity is not felt.
push_bytes_fixed-fit :
    (s : MessageStream) (bs : Bytes)
    → length s.buffer + length bs ≤ buffer_capacity
    → push_bytes_fixed s bs ≡ push_bytes s bs
unfolding push_bytes_fixed push_bytes
push_bytes_fixed-fit s [] h = refl
push_bytes_fixed-fit s (b ∷ bs) h = rw (push_byte_fixed-room s b (omega arith)) (
    ap (λ r. (r.0, keep_some (push_byte s b).1 r.1))
      (push_bytes_fixed-fit (push_byte s b).0 bs (omega (arith, length-push_byte s b))))

push_bytes_fixed-append :
    (s : MessageStream) (xs ys : Bytes)
    → push_bytes_fixed s (xs ++ ys) ≡ (
      (push_bytes_fixed (push_bytes_fixed s xs).0 ys).0,
      (push_bytes_fixed s xs).1 ++ (push_bytes_fixed (push_bytes_fixed s xs).0 ys).1,
    )
unfolding push_bytes_fixed
push_bytes_fixed-append s [] ys = refl
push_bytes_fixed-append s (b ∷ xs) ys = ground (
  arith,
  push_bytes_fixed-append (push_byte_fixed s b).0 xs ys,
  Option-cases (push_byte_fixed s b).1,
)

push-one : (p : Bytes) → push_bytes new (frame_bytes p) ≡ (new, p ∷ [])
push-one p =
    ap (push_bytes new) (sym (append-nil (frame_bytes p)))
    ∙ push-frame p []
    ∙ unfold push_bytes in refl

push-frame_fixed :
    (p : Bytes)
    → length (frame_bytes p) ≤ buffer_capacity
    → push_bytes_fixed new (frame_bytes p) ≡ (new, p ∷ [])
unfolding new
push-frame_fixed p h = push_bytes_fixed-fit new (frame_bytes p) (omega (arith, h)) ∙ push-one p

abbrev pub Plain : Bytes → Type 0
Plain = All (λ b. is_control b ≡ false)

escaped-Plain : (p : Bytes) → Plain p → escaped_bytes p ≡ p
unfolding escaped_bytes
escaped-Plain [] h = refl
escaped-Plain (b ∷ p) (plain, h) = rw plain (ap (λ bs. b ∷ bs) (escaped-Plain p h))

fixed-cons :
    (s t : MessageStream) (b : ℕ) (rest : Bytes) (r : Option Bytes)
    → push_byte_fixed s b ≡ (t, r)
    → push_bytes_fixed s (b ∷ rest)
      ≡ ((push_bytes_fixed t rest).0, keep_some r (push_bytes_fixed t rest).1)
unfolding push_bytes_fixed
fixed-cons s t b rest r e = rw e refl

-- Outside of a frame plain bytes are dropped, and so is an ETX.
drop-plain :
    (b : ℕ)
    → (b == control_char_stx) ≡ false
    → (b == control_char_dle) ≡ false
    → push_byte_fixed new b ≡ (new, none)
unfolding push_byte_fixed new
drop-plain b h k = rw (h, k) refl

drop-Plain : (p : Bytes) → Plain p → push_bytes_fixed new (p ++ control_char_etx ∷ []) ≡ (new, [])
drop-Plain [] h =
    fixed-cons new new control_char_etx [] none (drop-plain control_char_etx refl refl)
    ∙ unfold push_bytes_fixed in refl
drop-Plain (b ∷ p) (plain, h) =
    fixed-cons new new b (p ++ control_char_etx ∷ []) none
      (drop-plain b (ground arith) (ground arith))
    ∙ drop-Plain p h

collect-plain :
    (acc : Bytes) (b : ℕ)
    → is_control b ≡ false
    → push_byte (in_frame acc) b ≡ (in_frame (acc ++ b ∷ []), none)
unfolding push_byte
collect-plain acc b plain = ground arith

-- Plain bytes that do not fit behind an open frame drop it.
fill :
    (acc p : Bytes)
    → Plain p
    → length acc + 1 ≤ buffer_capacity
    → buffer_capacity ≤ length acc + 1 + length p
    → push_bytes_fixed (in_frame acc) (p ++ control_char_etx ∷ []) ≡ (new, [])
fill acc [] h room full =
    fixed-cons (in_frame acc) new control_char_etx [] none
      (push_byte_fixed-full (in_frame acc) control_char_etx (omega arith))
    ∙ unfold push_bytes_fixed in refl
fill acc (b ∷ p) (plain, h) room full = elim (Bool-cases (ltb (length acc + 1) buffer_capacity)) [
  | inl e ↦
      fixed-cons (in_frame acc) (in_frame (acc ++ b ∷ [])) b (p ++ control_char_etx ∷ []) none
        (push_byte_fixed-room (in_frame acc) b (ground arith) ∙ collect-plain acc b plain)
      ∙ fill (acc ++ b ∷ []) p h (ground (arith, length-append acc (b ∷ [])))
          (omega (arith, length-append acc (b ∷ [])))
  | inr e ↦
      fixed-cons (in_frame acc) new b (p ++ control_char_etx ∷ []) none
        (push_byte_fixed-full (in_frame acc) b (ground arith))
      ∙ drop-Plain p h
]

abbrev pub fits : Bytes → Bool
fits p = leb (length (frame_bytes p)) buffer_capacity

push-overlong :
    (p : Bytes) → Plain p → fits p ≡ false → push_bytes_fixed new (frame_bytes p) ≡ (new, [])
unfolding frame_bytes
push-overlong p h long =
    ap (λ bs. push_bytes_fixed new (control_char_stx ∷ (bs ++ control_char_etx ∷ [])))
      (escaped-Plain p h)
    ∙ fixed-cons new (in_frame []) control_char_stx (p ++ control_char_etx ∷ []) none
        (unfold push_byte_fixed new in refl)
    ∙ fill [] p h (omega arith) (
        let same = ap length (escaped-Plain p h) in
        ground (arith, length-append (escaped_bytes p) (control_char_etx ∷ [])))

-- Of payloads whose frames arrive back to back, each of which fits the 512 bytes of the fixed buffer
-- or else is without control bytes, those that fit are delivered, in order, and the parser is as new.
pub push-wire_fixed :
    (ps : List Bytes)
    → All (λ p. (fits p ≡ true) ⊎ Plain p) ps
    → push_bytes_fixed new (wire ps) ≡ (new, retain fits ps)
push-wire_fixed [] h = unfold push_bytes_fixed in refl
push-wire_fixed (p ∷ ps) (own, h) =
    push_bytes_fixed-append new (frame_bytes p) (wire ps) ∙ elim (Bool-cases (fits p)) [
      | inl e ↦ rw e (
          ap (λ r. ((push_bytes_fixed r.0 (wire ps)).0, r.1 ++ (push_bytes_fixed r.0 (wire ps)).1))
            (push-frame_fixed p (ground arith))
          ∙ ap (λ r. (r.0, p ∷ r.1)) (push-wire_fixed ps h))
      | inr e ↦ rw e (
          ap (λ r. ((push_bytes_fixed r.0 (wire ps)).0, r.1 ++ (push_bytes_fixed r.0 (wire ps)).1))
            (push-overlong p (plain_of own e) e)
          ∙ push-wire_fixed ps h)
    ]
  where
    plain_of : (fits p ≡ true) ⊎ Plain p → fits p ≡ false → Plain p
    plain_of (inl t) f = absurd cc
    plain_of (inr plain) f = plain
