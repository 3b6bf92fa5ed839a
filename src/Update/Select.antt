-- ===== src/Update/Select.antt =====
-- The choices of src/update.rs: a firmware version, a target, and whether an update is there. What
-- the user enters is an argument, trimmed already; the prompts are left out, and with them the
-- current version, which only marks a line.
pub mod Newest
use enody_rs.Common.{
  ℕ, zero, suc, ◌+◌, ◌-◌, ◌^◌, Bool, true, false, ◌||◌, Text, Bytes, codes, ltb, List, [], ◌∷◌,
  ◌++◌, length, get_elem?, any, Option, none, some, Result, ok, err, ◌>>=◌, ok_or, to_option,
  if◌then◌else◌,
}
use enody_rs.Error.{Error}
use enody_rs.Strings.Numbers.{decimal, parse_uint}
use enody_rs.Update.{UpdateTarget}
use enody_rs.Version.{Version, from_str, is_newer}

pub record FirmwarePayload : Type 0 where
  pub offset : ℕ
  pub length : ℕ
  pub data_name : Text
  pub sha256 : Text

pub record FirmwareVersion : Type 0 where
  pub version : Text
  pub payload : List FirmwarePayload

-- `update_available`, behind the fetched manifest.
abbrev pub is_update : Version → Result Version Text → Bool
is_update current (ok v) = is_newer v current
is_update current (err e) = false

unfoldable pub update_available : Version → List FirmwareVersion → Bool
update_available current versions = any (λ fv. is_update current (from_str fv.version)) versions

-- The index of a version in the manifest, and the version.
pub record Candidate : Type 0 where
  pub index : ℕ
  pub version : Version

abbrev pub keep_parsed : ℕ → Result Version Text → List Candidate → List Candidate
keep_parsed i (err e) rest = rest
keep_parsed i (ok v) rest = (record { index = i; version = v }) ∷ rest

unfoldable pub indexed : ℕ → List FirmwareVersion → List Candidate
indexed i [] = []
indexed i (fv ∷ versions) = keep_parsed i (from_str fv.version) (indexed (suc i) versions)

-- `sort_by(|a, b| b.1.cmp(&a.1))`: newest first, equal versions in their order.
unfoldable pub insert_newest : Candidate → List Candidate → List Candidate
insert_newest c [] = c ∷ []
insert_newest c (d ∷ rest) =
    let later = d ∷ insert_newest c rest in
    if is_newer d.version c.version then later else c ∷ d ∷ rest

unfoldable pub sort_newest : List Candidate → List Candidate
sort_newest [] = []
sort_newest (c ∷ rest) = insert_newest c (sort_newest rest)

abbrev pub usize_max : ℕ
usize_max = 2 ^ 64 - 1

abbrev pub invalid_selection : Text → ℕ → Error
invalid_selection trimmed count = Error.debug (
    codes "Invalid selection '"
    ++ (trimmed ++ (codes "'. Expected a number between 1 and " ++ (decimal count ++ codes "."))))

abbrev pub out_of_range : ℕ → ℕ → Error
out_of_range selection count = Error.debug (
    codes "Selection "
    ++ (decimal selection
        ++ (codes " is out of range. Expected 1..=" ++ (decimal count ++ codes "."))))

-- `parse::<usize>()` with its message.
abbrev pub parse_selection : Text → ℕ → Result ℕ Error
parse_selection trimmed count =
    ok_or (parse_uint usize_max trimmed) (invalid_selection trimmed count)

-- An empty line stands for the first.
abbrev pub selection_or_first : Text → ℕ → Result ℕ Error
selection_or_first [] count = ok 1
selection_or_first (c ∷ trimmed) count = parse_selection (c ∷ trimmed) count

abbrev pub check_range : ℕ → ℕ → Result ℕ Error
check_range count selection =
    if ltb selection 1 || ltb count selection
    then err (out_of_range selection count)
    else ok selection

-- The element that the user counts from one; an index out of range, where Rust would panic, is the
-- last argument.
abbrev pub nth_from_one : {A : Type 0} → List A → Error → ℕ → Result A Error
nth_from_one xs panic selection = ok_or (get_elem? xs (selection - 1)) panic

abbrev pub index_panic : Error
index_panic = Error.unknown

abbrev pub choose_version : List Candidate → Result Text Error → Result ℕ Error
choose_version [] line = err (Error.debug (codes "No firmware versions with valid semver found."))
choose_version (c ∷ rest) line = do
  trimmed ← line
  selection ← selection_or_first trimmed (length (c ∷ rest))
  checked ← check_range (length (c ∷ rest)) selection
  chosen ← nth_from_one (c ∷ rest) index_panic checked
  ok chosen.index

unfoldable pub select_firmware_version : List FirmwareVersion → Result Text Error → Result ℕ Error
select_firmware_version [] line = err (Error.debug (codes "No firmware versions available."))
select_firmware_version (fv ∷ versions) line =
    choose_version (sort_newest (indexed 0 (fv ∷ versions))) line

-- `select_update_target`, where an empty line is no number.
unfoldable pub select_update_target :
    List UpdateTarget → Result Text Error → Result UpdateTarget Error
select_update_target [] line = err (Error.debug (codes "No EP01 devices available."))
select_update_target (host ∷ hosts) line = do
  trimmed ← line
  parsed ← parse_selection trimmed (length (host ∷ hosts))
  checked ← check_range (length (host ∷ hosts)) parsed
  nth_from_one (host ∷ hosts) index_panic checked
