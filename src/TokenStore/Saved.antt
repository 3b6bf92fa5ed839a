-- ===== src/TokenStore/Saved.antt =====
-- What src/token_store.rs loads after a save.
use enody_rs.Common.{◌≡◌, refl, ap, subst, sym, ◌∙◌, Text, Result, ok, err}
use enody_rs.Error.{Error}
use enody_rs.Message.Runtime.{Token}
use enody_rs.TokenStore.{
  TokenStore, Platform, contents, upsert, debug_error, path, loaded, load_from_path, load,
  write_opened, write_file, save_text, save_to_path, saved_as, save_at, save, save_upserted,
  save_token,
}

module _ {W : Type 0} (platform : Platform W) where
  debug_error-ok : {A : Type 0} (r : Result A Text) {a : A} → debug_error r ≡ ok a → r ≡ ok a
  debug_error-ok (ok a') {a} h = let e : a' ≡ a = cc in ap ok e
  debug_error-ok (err e) h = absurd cc

  read-write_opened :
      (file text : Text) (w : W) (opened : Result (Unit {0}) Text × W)
      → opened ≡ platform.open_file file w
      → (write_opened platform file text opened).0 ≡ ok tt
      → platform.read_to_string file (write_opened platform file text opened).1 ≡ contents text
  read-write_opened file text w (err e, w') h done = absurd cc
  read-write_opened file text w (ok _, w') h done =
      let states : (platform.open_file file w).1 ≡ w' = sym (ap (λ o. o.1) h) in
      let accepted : (platform.open_file file w).0 ≡ ok tt = sym (ap (λ o. o.0) h) in
      subst
        (λ x.
          (platform.write_all file text x).0 ≡ ok tt
          → platform.read_to_string file (platform.write_all file text x).1 ≡ contents text)
        states (platform.read-write file text w accepted) (debug_error-ok _ done)

  read-write_file :
      (file text : Text) (made : Result (Unit {0}) Error × W)
      → (write_file platform file text made).0 ≡ ok tt
      → platform.read_to_string file (write_file platform file text made).1 ≡ contents text
  read-write_file file text (err e, w) done = absurd cc
  read-write_file file text (ok _, w) done = read-write_opened file text w _ refl done

  load-save_text :
      (store : TokenStore) (file : Text) (json : Result Text Text) (w : W)
      → platform.to_json store ≡ json
      → (save_text platform file json w).0 ≡ ok tt
      → loaded platform (platform.read_to_string file (save_text platform file json w).1) ≡ ok store
  load-save_text store file (err e) w h done = absurd cc
  load-save_text store file (ok text) w h done =
      ap (loaded platform) (read-write_file file text _ done)
      ∙ ap debug_error (platform.from-to_json store text h)

  -- A store that was saved to a path is loaded from it.
  pub load-save_to_path :
      (store : TokenStore) (file : Text) (w : W)
      → (save_to_path platform store file w).0 ≡ ok tt
      → load_from_path platform file (save_to_path platform store file w).1 ≡ ok store
  unfolding save_to_path load_from_path
  load-save_to_path store file w done = load-save_text store file _ w refl done

  saved_as-ok :
      (file : Text) (r : Result (Unit {0}) Error × W) {file' : Text}
      → (saved_as platform file r).0 ≡ ok file'
      → (r.0 ≡ ok tt) × ((saved_as platform file r).1 ≡ r.1)
  saved_as-ok file (ok _, w) h = (refl, refl)
  saved_as-ok file (err e, w) h = absurd cc

  load-save_at :
      (store : TokenStore) (where_to : Result Text Error) (w : W) (file : Text)
      → path platform ≡ where_to
      → (save_at platform store where_to w).0 ≡ ok file
      → load platform (save_at platform store where_to w).1 ≡ ok store
  unfolding load
  load-save_at store (err e) w file h done = absurd cc
  load-save_at store (ok file') w file h done =
      let (written, final) = saved_as-ok file' (save_to_path platform store file' w) done in
      rw (h, final) (load-save_to_path store file' w written)

  -- Where a store is loaded and saving a token succeeds, the store that is loaded afterwards is
  -- the old one with that token inserted or replaced.
  pub load-save_token :
      (token : Token) (store : TokenStore) (w : W) (file : Text)
      → load platform w ≡ ok store
      → (save_token platform token w).0 ≡ ok file
      → load platform (save_token platform token w).1 ≡ ok (upsert store token)
  unfolding save_token save
  load-save_token token store w file found =
      subst
        (λ r.
          (save_upserted platform token r w).0 ≡ ok file
          → load platform (save_upserted platform token r w).1 ≡ ok (upsert store token))
        (sym found) (load-save_at (upsert store token) (path platform) w file refl)
