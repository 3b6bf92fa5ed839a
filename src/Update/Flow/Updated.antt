-- ===== src/Update/Flow/Updated.antt =====
-- What an update of src/update.rs that returns without an error has behind it.
use enody_rs.Common.{
  ℕ, ◌*◌, ◌<◌, Bool, true, false, Text, codes, List, [], ◌∷◌, any, get_elem?, none, some, ok, ◌≡◌,
  ◌⊎◌,
}
use enody_rs.Error.{Error}
use enody_rs.Message.Topology.{Identifier}
use enody_rs.Strings.Case.{eq_ignore_ascii_case}
use enody_rs.Update.{UpdateTarget}
use enody_rs.Update.Download.{AllIntact}
use enody_rs.Update.Select.{FirmwareVersion, select_firmware_version, select_update_target}
use enody_rs.Update.Flow.{
  ResolvedFirmware, local_file, payloads, Round, is_host, flash_resolved, Surroundings, Lines,
  is_unresponsive,
}

-- A round finds the host, and those before it ended before the 30 seconds.
abbrev pub Found : Identifier → List Round → Type 0
Found identifier [] = true ≡ false
Found identifier (round ∷ rounds) =
    (any (is_host identifier) round.hosts ≡ true)
    ⊎ ((round.elapsed < 30 * 1000000000) × Found identifier rounds)

module _ (around : Surroundings) (lines : Lines) where
  -- The firmware is the local image, or the intact payloads of the version that the user selects
  -- from the host's manifest.
  abbrev pub Chosen : Identifier → ResolvedFirmware → Type 0
  Chosen host (local_file image) = around.file ≡ some (ok image)
  Chosen host (payloads images) =
      (around.file ≡ none)
      × ((versions : List FirmwareVersion) × (index : ℕ) × (version : FirmwareVersion)
          × (around.manifest host ≡ ok versions)
          × (select_firmware_version versions lines.version ≡ ok index)
          × (get_elem? versions index ≡ some version)
          × AllIntact (around.fetch host) around.sha256_hex version.payload images)

  -- The firmware for the selected target is flashed, and its host is found again.
  abbrev pub Updated : List UpdateTarget → Type 0
  Updated hosts =
      (target : UpdateTarget) × (resolved : ResolvedFirmware) × (select_update_target hosts
          lines.device
        ≡ ok target)
      × Chosen target.info.identifier resolved
      × (flash_resolved around.espflash target resolved ≡ ok tt)
      × Found target.info.identifier around.rounds

  -- The user is asked, and the answer is none or yes.
  abbrev pub Asked : List UpdateTarget → Bool → Type 0
  Asked hosts force = (any is_unresponsive hosts ≡ true) × (force ≡ false)

  abbrev pub Answered : Bool → Type 0
  Answered yes_said =
      (answer : Text) × (lines.confirmation ≡ ok answer)
      × (eq_ignore_ascii_case answer (codes "y") ≡ yes_said)
