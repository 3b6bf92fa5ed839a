-- ===== src/Update.antt =====
-- Parts of the firmware update of src/update.rs: the ports of attached devices grouped to targets,
-- and the padding of an image.
pub mod Grouped
pub mod Select
pub mod Download
pub mod Flow
mod Examples
use enody_rs.Common.{
  ℕ, ◌+◌, ◌-◌, ◌%◌, Bool, true, false, not, ◌==◌, Bytes, Text, text_eq, List, [], ◌∷◌, ◌++◌, length,
  any, Option, none, some, if◌then◌else◌, zero, suc,
}
use enody_rs.Message.Topology.{HostInfo, default_host_info}

-- The name of a port and the serial number of its device.
pub record Port : Type 0 where
  pub name : Text
  pub serial_number : Option Text

-- `EP01UpdateTarget`
pub record UpdateTarget : Type 0 where
  pub info : HostInfo
  pub ports : List Port

-- `Some(serial) == port_info.serial_number`
abbrev pub is_serial : Text → Option Text → Bool
is_serial serial none = false
is_serial serial (some s) = text_eq serial s

abbrev pub has_serial : Text → UpdateTarget → Bool
has_serial serial target = any (λ p. is_serial serial p.serial_number) target.ports

abbrev pub with_port : UpdateTarget → Port → UpdateTarget
with_port target port = record target { ports = target.ports ++ port ∷ [] }

-- The port goes to the first target that has its serial number, or to a new one at the end.
unfoldable pub add_port : List UpdateTarget → Port → Text → List UpdateTarget
add_port [] port serial = with_port (record { info = default_host_info; ports = [] }) port ∷ []
add_port (target ∷ targets) port serial =
    let later = target ∷ add_port targets port serial in
    if has_serial serial target then with_port target port ∷ targets else later

abbrev pub group_port : List UpdateTarget → Port → Option Text → List UpdateTarget
group_port targets port none = targets
group_port targets port (some serial) = add_port targets port serial

-- The loop of `attached_raw` over the ports that the backend found.
unfoldable pub attached_raw_from : List UpdateTarget → List Port → List UpdateTarget
attached_raw_from targets [] = targets
attached_raw_from targets (port ∷ ports) =
    attached_raw_from (group_port targets port port.serial_number) ports

unfoldable pub attached_raw : List Port → List UpdateTarget
attached_raw ports = attached_raw_from [] ports

abbrev pub repeat : ℕ → ℕ → Bytes
repeat zero byte = []
repeat (suc n) byte = byte ∷ repeat n byte

-- `if size % 4 != 0 { data.resize(size + (4 - size % 4), 0xFF) }`
unfoldable pub padded : Bytes → Bytes
padded bytes = if length bytes % 4 == 0 then bytes else bytes ++ repeat (4 - length bytes % 4) 0xff
