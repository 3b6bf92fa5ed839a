-- ===== src/TokenStore.antt =====
-- `TokenStore` of src/token_store.rs. The environment variables, paths, the file system and the
-- third-party JSON encoding are an interface, with what the code relies on.
pub mod Tokens
pub mod Saved
mod Examples
use enody_rs.Common.{
  ℕ, ◌≡◌, ◌==◌, Bool, true, false, not, Text, codes, List, [], ◌∷◌, ◌++◌, Option, none, some,
  Result, ok, err, ◌>>=◌, if◌then◌else◌,
}
use enody_rs.Error.{Error}
use enody_rs.Message.Runtime.{Token}

pub record TokenStore : Type 0 where
  pub tokens : List Token

-- What `fs::read_to_string` gives: a missing file is told apart from other failures.
pub data Read : Type 0 where
  contents : Text → Read
  not_found : Read
  failed : Text → Read

-- `W` is the state of the file system. `open_file` is `OpenOptions::open` that creates or truncates.
-- The laws: JSON that was written is read back, and so is a file that was written.
pub record Platform (W : Type 0) : Type 0 where
  pub var_os : Text → Option Text
  pub join : Text → Text → Text
  pub parent : Text → Option Text
  pub to_json : TokenStore → Result Text Text
  pub from_json : Text → Result TokenStore Text
  pub read_to_string : Text → W → Read
  pub create_dir_all : Text → W → Result (Unit {0}) Text × W
  pub open_file : Text → W → Result (Unit {0}) Text × W
  pub write_all : Text → Text → W → Result (Unit {0}) Text × W
  pub from-to_json :
      (store : TokenStore) (text : Text) → to_json store ≡ ok text → from_json text ≡ ok store
  pub read-write :
      (path text : Text) (w : W)
      → (open_file path w).0 ≡ ok tt
      → (write_all path text (open_file path w).1).0 ≡ ok tt
      → read_to_string path (write_all path text (open_file path w).1).1 ≡ contents text

-- `TokenStore::default`
abbrev pub empty : TokenStore
empty = record { tokens = [] }

unfoldable pub upsert_tokens : Token → List Token → List Token
upsert_tokens token [] = token ∷ []
upsert_tokens token (existing ∷ rest) =
    let after = upsert_tokens token rest in
    if existing.host_id == token.host_id then token ∷ rest else existing ∷ after

unfoldable pub upsert : TokenStore → Token → TokenStore
unfolding upsert_tokens
upsert store token = record { tokens = upsert_tokens token store.tokens }

-- `.map_err(|error| Error::Debug(error.to_string()))`
abbrev pub debug_error {ℓ} : {A : Type ℓ} → Result A Text → Result A Error
debug_error (ok a) = ok a
debug_error (err e) = err (Error.debug e)

-- `.filter(|value| !value.is_empty())`
abbrev pub not_empty : Option Text → Option Text
not_empty none = none
not_empty (some []) = none
not_empty (some (c ∷ cs)) = some (c ∷ cs)

-- The base directories in order, each with the folder below it.
abbrev pub base_dirs : List (Text × Text)
base_dirs =
    (codes "XDG_CONFIG_HOME", codes "enody")
    ∷ (codes "HOME", codes ".enody")
    ∷ (codes "USERPROFILE", codes ".enody")
    ∷ (codes "APPDATA", codes "enody")
    ∷ []

module _ {W : Type 0} (platform : Platform W) where
  -- The first that is set is used.
  abbrev pub choose : Option Text → Text → Result Text Error → Result Text Error
  choose none folder rest = rest
  choose (some base) folder rest = ok (platform.join base folder)

  abbrev pub first_dir : List (Text × Text) → Result Text Error
  first_dir [] =
      err (Error.debug (codes "XDG_CONFIG_HOME, HOME, APPDATA, or USERPROFILE is required"))
  first_dir ((name, folder) ∷ rest) =
      choose (not_empty (platform.var_os name)) folder (first_dir rest)

  unfoldable pub config_dir : Result Text Error
  config_dir = first_dir base_dirs

  unfoldable pub path : Result Text Error
  path = do dir ← config_dir; ok (platform.join dir (codes "tokens.json"))

  abbrev pub loaded : Read → Result TokenStore Error
  loaded (contents text) = debug_error (platform.from_json text)
  loaded not_found = ok empty
  loaded (failed e) = err (Error.debug e)

  unfoldable pub load_from_path : Text → W → Result TokenStore Error
  load_from_path file w = loaded (platform.read_to_string file w)

  unfoldable pub load : W → Result TokenStore Error
  load w = do file ← path; load_from_path file w

  abbrev pub create_parent : Option Text → W → Result (Unit {0}) Error × W
  create_parent none w = (ok tt, w)
  create_parent (some dir) w =
      let (created, w') = platform.create_dir_all dir w in (debug_error created, w')

  abbrev pub write_opened : Text → Text → Result (Unit {0}) Text × W → Result (Unit {0}) Error × W
  write_opened file text (err e, w) = (err (Error.debug e), w)
  write_opened file text (ok _, w) =
      let (written, w') = platform.write_all file text w in (debug_error written, w')

  abbrev pub write_file : Text → Text → Result (Unit {0}) Error × W → Result (Unit {0}) Error × W
  write_file file text (err e, w) = (err e, w)
  write_file file text (ok _, w) = write_opened file text (platform.open_file file w)

  abbrev pub save_text : Text → Result Text Text → W → Result (Unit {0}) Error × W
  save_text file (err e) w = (err (Error.debug e), w)
  save_text file (ok text) w = write_file file text (create_parent (platform.parent file) w)

  unfoldable pub save_to_path : TokenStore → Text → W → Result (Unit {0}) Error × W
  save_to_path store file w = save_text file (platform.to_json store) w

  abbrev pub saved_as : Text → Result (Unit {0}) Error × W → Result Text Error × W
  saved_as file (ok _, w) = (ok file, w)
  saved_as file (err e, w) = (err e, w)

  abbrev pub save_at : TokenStore → Result Text Error → W → Result Text Error × W
  save_at store (err e) w = (err e, w)
  save_at store (ok file) w = saved_as file (save_to_path store file w)

  unfoldable pub save : TokenStore → W → Result Text Error × W
  save store w = save_at store path w

  abbrev pub save_upserted : Token → Result TokenStore Error → W → Result Text Error × W
  save_upserted token (err e) w = (err e, w)
  save_upserted token (ok store) w = save (upsert store token) w

  unfoldable pub save_token : Token → W → Result Text Error × W
  save_token token w = save_upserted token (load w) w
