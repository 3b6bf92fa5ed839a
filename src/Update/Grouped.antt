-- ===== src/Update/Grouped.antt =====
-- The targets and images of src/update.rs.
use enody_rs.Common.{
  ℕ, zero, suc, ◌-◌, ◌%◌, ◌<◌, ◌≡◌, refl, ap, true, false, ◌==◌, Bool-cases, inl, inr, Bytes, Text,
  text_eq_sound, List, [], ◌∷◌, ◌++◌, length, length-append, All, All-append, any, Option, none,
  some, arith, sym, ◌∙◌, append-nil,
}
use enody_rs.Update.{
  Port, UpdateTarget, is_serial, has_serial, add_port, group_port, attached_raw_from, attached_raw,
  repeat, padded,
}

-- A target has a port, and all its ports are of one serial number.
abbrev pub Single : UpdateTarget → Type 0
Single target =
    (0 < length target.ports)
    × ((serial : Text) × All (λ p. p.serial_number ≡ some serial) target.ports)

is_serial_sound : (serial : Text) (s : Option Text) → is_serial serial s ≡ true → s ≡ some serial
is_serial_sound serial none h = absurd cc
is_serial_sound serial (some s) h = ap some (sym (text_eq_sound serial s h))

-- The one serial number of ports among which a serial number is found is that.
found_serial :
    (ports : List Port) (serial own : Text)
    → All (λ p. p.serial_number ≡ some own) ports
    → any (λ p. is_serial serial p.serial_number) ports ≡ true
    → own ≡ serial
found_serial [] serial own all h = absurd cc
found_serial (p ∷ ports) serial own (first, all) h =
    elim (Bool-cases (is_serial serial p.serial_number)) [
      | inl e ↦ let there = is_serial_sound serial p.serial_number e in cc
      | inr e ↦ found_serial ports serial own all (ground arith)
    ]

add_port-Single :
    (targets : List UpdateTarget) (port : Port) (serial : Text)
    → port.serial_number ≡ some serial
    → All Single targets
    → All Single (add_port targets port serial)
unfolding add_port
add_port-Single [] port serial named h = ((omega arith, (serial, (named, tt))), tt)
add_port-Single (t ∷ ts) port serial named ((some_port, (own, all)), h) =
    elim (Bool-cases (has_serial serial t)) [
      | inl e ↦
          let same : own ≡ serial = found_serial t.ports serial own all e in
          let longer : 0 < length (t.ports ++ port ∷ []) =
            omega (arith, length-append t.ports (port ∷ [])) in
          rw e (
            (
              longer,
              (
                own,
                All-append (λ p. p.serial_number ≡ some own) t.ports (port ∷ []) all
                    (named ∙ ap some (sym same), tt),
              ),
            ),
            h,
          )
      | inr e ↦ rw e ((some_port, (own, all)), add_port-Single ts port serial named h)
    ]

group_port-Single :
    (targets : List UpdateTarget) (port : Port) (o : Option Text)
    → port.serial_number ≡ o
    → All Single targets
    → All Single (group_port targets port o)
group_port-Single targets port none named h = h
group_port-Single targets port (some serial) named h = add_port-Single targets port serial named h

attached_raw_from-Single :
    (targets : List UpdateTarget) (ports : List Port)
    → All Single targets
    → All Single (attached_raw_from targets ports)
unfolding attached_raw_from
attached_raw_from-Single targets [] h = h
attached_raw_from-Single targets (port ∷ ports) h =
    attached_raw_from-Single (group_port targets port port.serial_number) ports
      (group_port-Single targets port port.serial_number refl h)

-- Every target has a port, and all ports of a target have one serial number.
pub attached_raw-Single : (ports : List Port) → All Single (attached_raw ports)
unfolding attached_raw
attached_raw-Single ports = attached_raw_from-Single [] ports tt

length-repeat : (n byte : ℕ) → length (repeat n byte) ≡ n
length-repeat zero byte = refl
length-repeat (suc n) byte = ap suc (length-repeat n byte)

-- A padded image is the image with at most three bytes behind it, and a whole number of words.
pub padded_words :
    (bytes : Bytes)
    → (length (padded bytes) % 4 ≡ 0)
      × ((tail : Bytes) × (padded bytes ≡ bytes ++ tail) × (length tail < 4))
unfolding padded
padded_words bytes = elim (Bool-cases (length bytes % 4 == 0)) [
  | inl e ↦ rw e (ground arith, ([], sym (append-nil bytes), omega arith))
  | inr e ↦
      let n = 4 - length bytes % 4 in
      let total = length-append bytes (repeat n 0xff) in
      let added = length-repeat n 0xff in
      let rest : (length bytes % 4 == 0) ≡ false = e in
      let whole : length (bytes ++ repeat n 0xff) % 4 ≡ 0 = ground arith in
      rw e (whole, (repeat n 0xff, refl, ground arith))
]
