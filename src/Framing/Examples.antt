-- ===== src/Framing/Examples.antt =====
-- Runs of src/serialization.rs on concrete bytes, and its theorems at concrete inputs.
use enody_rs.Common.{
  ℕ, zero, suc, true, List, retain, ◌+◌, ◌≤◌, ◌≡◌, refl, inl, inr, Bytes, false, [], ◌∷◌, ◌++◌,
  length, ok, err,
}
use enody_rs.Error.{Error}
use enody_rs.Framing.{
  MessageStream, new, push_bytes, push_bytes_fixed, frame_bytes, unframe_bytes, escaped_bytes,
}
use enody_rs.Framing.RoundTrip.{unframe-frame}
use enody_rs.Framing.Stream.{wire, push-garbage-wire}
use enody_rs.Framing.Invariant.{IsOpen, Delivers, push_bytes-IsOpen, push_byte-Delivers}
use enody_rs.Framing.Memory.{total_size, push_bytes_size}
use enody_rs.Framing.Fixed.{Plain, fits, push-wire_fixed}

abbrev control_payload : Bytes
control_payload = 1 ∷ 0x02 ∷ 0x10 ∷ 0x03 ∷ 255 ∷ []

framed :
    frame_bytes control_payload
    ≡ 0x02 ∷ 1 ∷ 0x10 ∷ 0x02 ∷ 0x10 ∷ 0x10 ∷ 0x10 ∷ 0x03 ∷ 255 ∷ 0x03 ∷ []
unfolding frame_bytes escaped_bytes
framed = refl

too_short : unframe_bytes (0x02 ∷ []) ≡ err Error.insufficient_data
unfolding unframe_bytes
too_short = refl

no_end : unframe_bytes (0x02 ∷ 7 ∷ []) ≡ err Error.insufficient_data
unfolding unframe_bytes
no_end = refl

-- The leading bytes of the test `parser_syncs_to_stx_after_leading_garbage`.
abbrev garbage : Bytes
garbage = 0x00 ∷ 0x03 ∷ 0x10 ∷ 0xff ∷ []

unframe-frame_example : unframe_bytes (frame_bytes control_payload) ≡ ok control_payload
unframe-frame_example = unframe-frame control_payload

push-garbage-wire_example :
    push_bytes new (garbage ++ wire (control_payload ∷ [] ∷ [])) ≡ (new, control_payload ∷ [] ∷ [])
push-garbage-wire_example =
    push-garbage-wire garbage (control_payload ∷ [] ∷ []) (refl, (refl, (refl, (refl, refl))))

new-IsOpen : IsOpen new
unfolding new
new-IsOpen = inl refl

push_bytes-IsOpen_example : IsOpen (push_bytes new (0x02 ∷ 0x10 ∷ 0x03 ∷ 9 ∷ [])).0
push_bytes-IsOpen_example = push_bytes-IsOpen new (0x02 ∷ 0x10 ∷ 0x03 ∷ 9 ∷ []) new-IsOpen

abbrev half_frame : MessageStream
half_frame = record { buffer = 0x02 ∷ 0x10 ∷ 0x03 ∷ 9 ∷ []; is_escaped = false }

push_byte-Delivers_example : Delivers half_frame 0x03
push_byte-Delivers_example =
    push_byte-Delivers half_frame 0x03 (inr (0x10 ∷ 0x03 ∷ 9 ∷ [], refl, refl))

push_bytes_size_example :
    total_size (push_bytes new (frame_bytes control_payload)).1
      + length (push_bytes new (frame_bytes control_payload)).0.buffer
    ≤ length new.buffer + length (frame_bytes control_payload)
push_bytes_size_example = push_bytes_size new (frame_bytes control_payload) new-IsOpen

abbrev zeros : ℕ → Bytes
zeros zero = []
zeros (suc n) = 0 ∷ zeros n

zeros-Plain : (n : ℕ) → Plain (zeros n)
zeros-Plain zero = tt
zeros-Plain (suc n) = (refl, zeros-Plain n)

-- A frame that is too long for the buffer, in front of one that fits.
abbrev long_and_short : List Bytes
long_and_short = zeros 600 ∷ control_payload ∷ []

control_fits : fits control_payload ≡ true
unfolding frame_bytes escaped_bytes
control_fits = refl

push-wire_fixed_example :
    push_bytes_fixed new (wire long_and_short) ≡ (new, retain fits long_and_short)
push-wire_fixed_example =
    push-wire_fixed long_and_short (inr (zeros-Plain 600), (inl control_fits, tt))

long_dropped : retain fits long_and_short ≡ control_payload ∷ []
unfolding frame_bytes escaped_bytes
long_dropped = refl
