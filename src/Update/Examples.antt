-- ===== src/Update/Examples.antt =====
-- The theorems of src/update.rs at concrete ports and images.
use enody_rs.Common.{
  ◌≡◌, ◌↔◌, refl, false, codes, none, Bytes, Text, text_eq, List, [], ◌∷◌, All, Option, some, ok,
}
use enody_rs.Message.Topology.{default_host_info}
use enody_rs.Strings.Numbers.{parse_uint}
use enody_rs.Strings.Case.{eq_ignore_ascii_case}
use enody_rs.Strings.Parts.{split}
use enody_rs.Version.{from_str, cmp}
use enody_rs.Update.{Port, UpdateTarget, attached_raw, padded}
use enody_rs.Update.Grouped.{Single, attached_raw-Single}
use enody_rs.Update.Select.{
  FirmwarePayload, FirmwareVersion, select_firmware_version, indexed, sort_newest, insert_newest,
}
use enody_rs.Update.Select.Newest.{ChoosesNewest, select-ChoosesNewest}
use enody_rs.Update.Download.{AllIntact, download_firmware_payloads, download_iff}
use enody_rs.Update.Flow.{Espflash, Surroundings, Lines, returned, update_remote_host}
use enody_rs.Update.Flow.Updated.{Updated}

abbrev two_ports : List Port
two_ports =
    (record { name = codes "tty1"; serial_number = some (codes "A1") })
    ∷ (record { name = codes "tty2"; serial_number = some (codes "A1") })
    ∷ []

attached_raw-Single_example : All Single (attached_raw two_ports)
attached_raw-Single_example = attached_raw-Single two_ports

two_padded : padded (1 ∷ 2 ∷ []) ≡ 1 ∷ 2 ∷ 255 ∷ 255 ∷ []
unfolding padded
two_padded = refl

abbrev version_of : Text → FirmwareVersion
version_of text = record { version = text; payload = [] }

abbrev manifest : List FirmwareVersion
manifest = version_of (codes "1.0.0") ∷ version_of (codes "beta") ∷ version_of (codes "1.2.0") ∷ []

select-ChoosesNewest_example : ChoosesNewest manifest (select_firmware_version manifest (ok []))
unfolding from_str split parse_uint
select-ChoosesNewest_example =
    select-ChoosesNewest manifest 0 (version_of (codes "1.0.0"))
      (record { major = 1; minor = 0; patch = 0 }) refl refl

-- The newest one has the index 2.
newest_index : select_firmware_version manifest (ok []) ≡ ok 2
unfolding from_str split parse_uint select_firmware_version indexed sort_newest insert_newest cmp
newest_index = refl

abbrev image : FirmwarePayload
image = record { offset = 0x20000; length = 3; data_name = codes "app.bin"; sha256 = codes "00" }

-- The server has one image of three bytes, and the hash is always the same.
abbrev serve : FirmwarePayload → Option Bytes
serve payload = some (7 ∷ 8 ∷ 9 ∷ [])

abbrev zero_hash : Bytes → Text
zero_hash bytes = codes "00"

abbrev with_image : FirmwareVersion
with_image = record { version = codes "1.2.0"; payload = image ∷ [] }

download_iff_example :
    (download_firmware_payloads serve zero_hash with_image ≡ ok ((0x20000, 7 ∷ 8 ∷ 9 ∷ []) ∷ []))
    ↔ AllIntact serve zero_hash (image ∷ []) ((0x20000, 7 ∷ 8 ∷ 9 ∷ []) ∷ [])
download_iff_example = download_iff serve zero_hash with_image ((0x20000, 7 ∷ 8 ∷ 9 ∷ []) ∷ [])

abbrev willing : Espflash
willing = record {
  open_native = λ port. ok tt;
  connect = λ port. ok tt;
  write_bins_to_flash = λ segments. ok tt;
  reopen = λ port. ok tt;
  reset = λ port. ok tt;
}

-- It does not answer, so that the user is asked.
abbrev silent : UpdateTarget
silent = record { info = record default_host_info { identifier = 0 }; ports = two_ports }

-- The server has one version, with the one image, and the host is back in the second round.
abbrev around : Surroundings
around = record {
  espflash = willing;
  file = none;
  manifest = λ host. ok (with_image ∷ []);
  fetch = λ host. serve;
  sha256_hex = zero_hash;
  rounds =
      (record { hosts = none ∷ []; elapsed = 0 })
      ∷ (record { hosts = some 0 ∷ []; elapsed = 3000000000 })
      ∷ [];
}

abbrev answers : Text → Lines
answers confirmation = record {
  confirmation = ok confirmation;
  device = ok (codes "1");
  version = ok [];
}

not_confirmed :
    update_remote_host around (answers (codes "n")) (silent ∷ []) false ≡ returned (ok tt)
unfolding update_remote_host eq_ignore_ascii_case text_eq
not_confirmed = refl
