-- ===== src/Update/Flow.antt =====
-- The update of a device in src/update.rs: its port, the flashing, the wait for it to come back, and
-- the interactive flow. The flashing library, the file system and USB are what they answer.
pub mod Updated
use enody_rs.Common.{
  ℕ, Bool, true, false, not, ◌&&◌, ◌||◌, ◌==◌, leb, ltb, Bytes, Text, text_eq, codes, List, [], ◌∷◌,
  ◌++◌, map, find, any, get_elem?, Option, none, some, Result, ok, err, ◌>>=◌, ok_or, if◌then◌else◌,
  ◌≡◌, refl, Bool-cases, ◌⊎◌, inl, inr, >>=_ok,
}
use enody_rs.Error.{Error}
use enody_rs.Message.Topology.{Identifier, HostInfo}
use enody_rs.Strings.Case.{eq_ignore_ascii_case}
use enody_rs.Strings.Parts.{starts_with}
use enody_rs.Update.{Port, UpdateTarget, attached_raw, padded}
use enody_rs.Update.Download.{download_firmware_payloads}
use enody_rs.Update.Select.{
  FirmwarePayload, FirmwareVersion, select_firmware_version, select_update_target, index_panic,
}

abbrev pub firmware_flash_offset : ℕ
firmware_flash_offset = 0x20000

-- `str::contains`
unfoldable pub contains : Text → Text → Bool
contains part [] = text_eq part []
contains part (c ∷ s) = starts_with part (c ∷ s) || contains part s

-- The order of names is that of their bytes.
unfoldable pub text_le : Text → Text → Bool
text_le [] ys = true
text_le (x ∷ xs) [] = false
text_le (x ∷ xs) (y ∷ ys) = ltb x y || (x == y && text_le xs ys)

-- `sort_by(|a, b| a.0.cmp(&b.0))`: ports of one name stay in their order.
unfoldable pub insert_port : Port → List Port → List Port
insert_port p [] = p ∷ []
insert_port p (q ∷ rest) =
    let later = q ∷ insert_port p rest in if text_le p.name q.name then p ∷ q ∷ rest else later

unfoldable pub sort_ports : List Port → List Port
sort_ports [] = []
sort_ports (p ∷ rest) = insert_port p (sort_ports rest)

abbrev pub head : List Port → Option Port
head [] = none
head (p ∷ rest) = some p

abbrev pub preferred_or : Option Port → Option Port → Option Port
preferred_or (some preferred) first = some preferred
preferred_or none first = first

-- No port where the target has none, on which Rust would panic.
unfoldable pub preferred_port : UpdateTarget → Option Port
preferred_port target =
    let sorted = sort_ports target.ports in
    preferred_or (find (λ p. contains (codes "/cu.") p.name) sorted) (head sorted)

abbrev pub serial_of : Option Port → Option Text
serial_of none = none
serial_of (some port) = port.serial_number

-- `mac_address`
abbrev pub mac_address : UpdateTarget → Option Text
mac_address target = serial_of (head target.ports)

abbrev pub with_info : UpdateTarget → Option HostInfo → UpdateTarget
with_info target none = target
with_info target (some info) = record target { info = info }

abbrev pub identify : (Port → Option HostInfo) → UpdateTarget → Option Port → UpdateTarget
identify query target none = target
identify query target (some port) = with_info target (query port)

-- `attached`, with what the host at a port answers in time, if it does: the others keep the defaults.
abbrev pub attached : (Port → Option HostInfo) → List Port → List UpdateTarget
attached query ports =
    map (λ target. identify query target (head target.ports)) (attached_raw ports)

-- `Segment`
pub record Segment : Type 0 where
  pub addr : ℕ
  pub bytes : Bytes

-- What the flashing library answers: the port opened, the chip connected, the segments written, and
-- the port opened again and the chip reset.
pub record Espflash : Type 0 where
  pub open_native : Port → Result (Unit {0}) Error
  pub connect : Port → Result (Unit {0}) Error
  pub write_bins_to_flash : List Segment → Result (Unit {0}) Error
  pub reopen : Port → Result (Unit {0}) Error
  pub reset : Port → Result (Unit {0}) Error

abbrev pub segment : ℕ × Bytes → Segment
segment (offset, bytes) = record { addr = offset; bytes = padded bytes }

abbrev pub flash_on : Espflash → List (ℕ × Bytes) → Port → Result (Unit {0}) Error
flash_on espflash payloads port = do
  _ ← espflash.open_native port
  _ ← espflash.connect port
  _ ← espflash.write_bins_to_flash (map segment payloads)
  _ ← espflash.reopen port
  espflash.reset port

-- Nothing is done where there is nothing to flash.
unfoldable pub flash_payloads : Espflash → UpdateTarget → List (ℕ × Bytes) → Result (Unit {0}) Error
flash_payloads espflash target [] = ok tt
flash_payloads espflash target (payload ∷ payloads) =
    ok_or (preferred_port target) index_panic >>= flash_on espflash (payload ∷ payloads)

-- The image is what reading the file gives.
abbrev pub flash_firmware_image :
    Espflash → UpdateTarget → Result Bytes Error → Result (Unit {0}) Error
flash_firmware_image espflash target image =
    image >>= λ bytes. flash_payloads espflash target ((firmware_flash_offset, bytes) ∷ [])

-- The hosts that a round finds, without those that do not answer, and the nanoseconds since the
-- start.
pub record Round : Type 0 where
  pub hosts : List (Option Identifier)
  pub elapsed : ℕ

abbrev pub verify_timeout : ℕ
verify_timeout = 30000000000

abbrev pub is_host : Identifier → Option Identifier → Bool
is_host identifier none = false
is_host identifier (some host) = host == identifier

-- No result while the rounds are not enough.
unfoldable pub verify_updated_host : Identifier → List Round → Option (Result (Unit {0}) Error)
verify_updated_host identifier [] = none
verify_updated_host identifier (round ∷ rounds) =
    let later = verify_updated_host identifier rounds in
    if any (is_host identifier) round.hosts
    then some (ok tt)
    else if leb verify_timeout round.elapsed
    then some (err (Error.debug (codes "Timed out waiting for update verification.")))
    else later

-- What `update_device` does with the manifest, the download and the rest as they answer.
unfoldable pub update_device :
    List FirmwareVersion
    → Text
    → (FirmwareVersion → Result (List (ℕ × Bytes)) Error)
    → (List (ℕ × Bytes) → Result (Unit {0}) Error)
    → Result (Unit {0}) Error
    → Result (Unit {0}) Error
update_device versions version download flash verify = do
  selected ←
      ok_or (find (λ fv. text_eq fv.version version) versions)
        (Error.debug (codes "Version " ++ (version ++ codes " not found")))
  payloads ← download selected
  _ ← flash payloads
  verify

pub data ResolvedFirmware : Type 0 where
  local_file : Result Bytes Error → ResolvedFirmware
  payloads : List (ℕ × Bytes) → ResolvedFirmware

-- `resolve_firmware`: a local file, with what canonicalizing the path and reading the file give; or
-- the download of a version that the user selects from the manifest.
abbrev pub resolve_firmware :
    Option (Result (Result Bytes Error) Error)
    → Result (List FirmwareVersion) Error
    → Result Text Error
    → (FirmwareVersion → Result (List (ℕ × Bytes)) Error)
    → Result ResolvedFirmware Error
resolve_firmware (some file) manifest line download = file >>= λ image. ok (local_file image)
resolve_firmware none manifest line download = do
  versions ← manifest
  index ← select_firmware_version versions line
  selected ← ok_or (get_elem? versions index) index_panic
  images ← download selected
  ok (payloads images)

-- What the flow comes to: the process exits, the wait for the host goes on, or a result is returned.
pub data UpdateOutcome : Type 0 where
  exited : UpdateOutcome
  waiting : UpdateOutcome
  returned : Result (Unit {0}) Error → UpdateOutcome

abbrev pub flash_resolved : Espflash → UpdateTarget → ResolvedFirmware → Result (Unit {0}) Error
flash_resolved espflash target (local_file image) = flash_firmware_image espflash target image
flash_resolved espflash target (payloads images) = flash_payloads espflash target images

-- What stands outside of the flow: the flashing library; the path of a local image, if one is given;
-- for each host the server's manifest and its payloads; the hash; and the rounds that look for the
-- updated host.
pub record Surroundings : Type 0 where
  pub espflash : Espflash
  pub file : Option (Result (Result Bytes Error) Error)
  pub manifest : Identifier → Result (List FirmwareVersion) Error
  pub fetch : Identifier → FirmwarePayload → Option Bytes
  pub sha256_hex : Bytes → Text
  pub rounds : List Round

-- The lines that the user enters, trimmed: the confirmation, the device and the version.
pub record Lines : Type 0 where
  pub confirmation : Result Text Error
  pub device : Result Text Error
  pub version : Result Text Error

-- The nil identifier is 0.
abbrev pub is_unresponsive : UpdateTarget → Bool
is_unresponsive target = target.info.identifier == 0

module _ (around : Surroundings) (lines : Lines) where
  abbrev pub resolved_for : UpdateTarget → Result ResolvedFirmware Error
  resolved_for target =
      let host = target.info.identifier in
      resolve_firmware around.file (around.manifest host) lines.version
        (download_firmware_payloads (around.fetch host) around.sha256_hex)

  abbrev pub on_verified : Option (Result (Unit {0}) Error) → UpdateOutcome
  on_verified none = waiting
  on_verified (some result) = returned result

  abbrev pub on_flashed : UpdateTarget → Result (Unit {0}) Error → UpdateOutcome
  on_flashed target (err e) = returned (err e)
  on_flashed target (ok done) =
      on_verified (verify_updated_host target.info.identifier around.rounds)

  abbrev pub flash_and_verify : UpdateTarget → Result ResolvedFirmware Error → UpdateOutcome
  flash_and_verify target (err e) = exited
  flash_and_verify target (ok resolved) =
      on_flashed target (flash_resolved around.espflash target resolved)

  abbrev pub update_selected : Result UpdateTarget Error → UpdateOutcome
  update_selected (err e) = returned (err e)
  update_selected (ok target) = flash_and_verify target (resolved_for target)

  -- Who does not confirm ends the update with no error.
  abbrev pub on_confirmation : List UpdateTarget → Result Text Error → UpdateOutcome
  on_confirmation hosts (err e) = returned (err e)
  on_confirmation hosts (ok answer) =
      if eq_ignore_ascii_case answer (codes "y")
      then update_selected (select_update_target hosts lines.device)
      else returned (ok tt)

  -- `hosts` are the attached targets.
  unfoldable pub update_remote_host : List UpdateTarget → Bool → UpdateOutcome
  update_remote_host hosts force =
      if any is_unresponsive hosts && not force
      then on_confirmation hosts lines.confirmation
      else update_selected (select_update_target hosts lines.device)
