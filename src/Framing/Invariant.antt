-- ===== src/Framing/Invariant.antt =====
-- The states that a `MessageStream` of src/serialization.rs can reach, and what it holds in memory.
use enody_rs.Common.{
  ℕ, Bytes, Bool, true, false, not, ◌&&◌, ◌==◌, ltb, [], ◌∷◌, ◌++◌, length, ◌≡◌, refl, sym, subst,
  ◌⊎◌, inl, inr, Option, none, some, arith, if◌then◌else◌, Bool-cases,
}
use enody_rs.Framing.{
  unescape_bytes, MessageStream, new, push_byte, push_bytes, control_char_etx, control_char_dle,
  control_char_stx,
}
use enody_rs.Framing.RoundTrip.{unframe-delimited}

-- The escape flag behind some bytes of a frame; `none` if an unescaped ETX stands among them.
abbrev pub scan : Bool → Bytes → Option Bool
scan esc [] = some esc
scan esc (b ∷ bs) =
    if b == control_char_etx && not esc then none else scan (b == control_char_dle && not esc) bs

-- The buffer is empty, or STX and bytes without an unescaped ETX, and the flag is theirs.
abbrev pub IsOpen : MessageStream → Type 0
IsOpen s =
    (s.buffer ≡ [])
    ⊎ ((acc : Bytes) × (s.buffer ≡ control_char_stx ∷ acc) × (scan false acc ≡ some s.is_escaped))

scan-concat :
    (esc esc' : Bool) (xs : Bytes) (b : ℕ)
    → scan esc xs ≡ some esc'
    → scan esc (xs ++ b ∷ []) ≡ (
        if b == control_char_etx && not esc'
        then none
        else some (b == control_char_dle && not esc'))
scan-concat esc esc' [] b h = ground arith
scan-concat esc esc' (x ∷ xs) b h =
    ground (arith, scan-concat (x == control_char_dle && not esc) esc' xs b)

new-IsOpen : IsOpen new
unfolding new
new-IsOpen = inl refl

waiting-IsOpen :
    (esc : Bool) (b : ℕ) → IsOpen (push_byte (record { buffer = []; is_escaped = esc }) b).0
unfolding push_byte
waiting-IsOpen esc b = elim (Bool-cases (b == control_char_stx && not esc)) [
  | inl h ↦ inr ([], ground arith, ground arith)
  | inr h ↦ inl (rw h)
]

in_frame-IsOpen :
    (acc : Bytes) (esc : Bool) (b : ℕ)
    → scan false acc ≡ some esc
    → IsOpen (push_byte (record { buffer = control_char_stx ∷ acc; is_escaped = esc }) b).0
unfolding push_byte
in_frame-IsOpen acc esc b h = elim (Bool-cases (b == control_char_etx && not esc)) [
  | inl done ↦ inl (rw done)
  | inr more ↦ inr (acc ++ b ∷ [], rw more, rw more (ground (arith, scan-concat false esc acc b h)))
]

-- Every byte keeps the buffer empty or an unfinished frame behind STX, with the escape flag in step.
pub push_byte-IsOpen : (s : MessageStream) (b : ℕ) → IsOpen s → IsOpen (push_byte s b).0
push_byte-IsOpen s b (inl e) =
    subst
      (λ (buf : Bytes). IsOpen (push_byte (record { buffer = buf; is_escaped = s.is_escaped }) b).0)
      (sym e) (waiting-IsOpen s.is_escaped b)
push_byte-IsOpen s b (inr (acc, e, h)) =
    subst
      (λ (buf : Bytes). IsOpen (push_byte (record { buffer = buf; is_escaped = s.is_escaped }) b).0)
      (sym e) (in_frame-IsOpen acc s.is_escaped b h)

-- So it is after any bytes, from a new stream on.
pub push_bytes-IsOpen : (s : MessageStream) (bs : Bytes) → IsOpen s → IsOpen (push_bytes s bs).0
unfolding push_bytes
push_bytes-IsOpen s [] h = h
push_bytes-IsOpen s (b ∷ bs) h = push_bytes-IsOpen (push_byte s b).0 bs (push_byte-IsOpen s b h)

-- A byte that ends the frame in the buffer.
abbrev pub completes : MessageStream → ℕ → Bool
completes s b = ltb 0 (length s.buffer) && (b == control_char_etx && not s.is_escaped)

abbrev pub tail : Bytes → Bytes
tail [] = []
tail (x ∷ xs) = xs

abbrev pub Delivers : MessageStream → ℕ → Type 0
Delivers s b =
    ((push_byte s b).1 ≡ (if completes s b then some (unescape_bytes (tail s.buffer)) else none))
    × (completes s b ≡ true → (push_byte s b).0 ≡ new)

waiting-Delivers : (esc : Bool) (b : ℕ) → Delivers (record { buffer = []; is_escaped = esc }) b
unfolding push_byte new
waiting-Delivers esc b = (refl, λ h. cc)

in_frame-Delivers :
    (acc : Bytes) (esc : Bool) (b : ℕ)
    → Delivers (record { buffer = control_char_stx ∷ acc; is_escaped = esc }) b
unfolding push_byte new
in_frame-Delivers acc esc b = ground (arith, unframe-delimited acc)

-- In a reachable state an unescaped ETX behind an STX always delivers the unescaped bytes between,
-- and leaves the stream as new; no other byte delivers anything.
pub push_byte-Delivers : (s : MessageStream) (b : ℕ) → IsOpen s → Delivers s b
push_byte-Delivers s b (inl e) =
    subst (λ (buf : Bytes). Delivers (record { buffer = buf; is_escaped = s.is_escaped }) b) (sym e)
      (waiting-Delivers s.is_escaped b)
push_byte-Delivers s b (inr (acc, e, h)) =
    subst (λ (buf : Bytes). Delivers (record { buffer = buf; is_escaped = s.is_escaped }) b) (sym e)
      (in_frame-Delivers acc s.is_escaped b)
