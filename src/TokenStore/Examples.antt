-- ===== src/TokenStore/Examples.antt =====
-- Runs of src/token_store.rs in a file system of one file, and its theorems there. The encoding of
-- this platform writes the hosts of tokens without key and data, and refuses others.
use enody_rs.Common.{
  ◌≡◌, refl, sym, ◌∙◌, ap, ◌==◌, Text, Bytes, codes, List, [], ◌∷◌, ◌++◌, map, Option, none, some,
  Result, ok, err, if◌then◌else◌,
}
use enody_rs.Message.Topology.{Identifier}
use enody_rs.Message.Runtime.{Token}
use enody_rs.TokenStore.{
  TokenStore, Platform, Read, contents, not_found, upsert, load, save_token, path, config_dir,
  load_from_path, save, save_to_path,
}
use enody_rs.TokenStore.Tokens.{token_of, token_of-upsert}
use enody_rs.TokenStore.Saved.{load-save_token}

abbrev bare : Identifier → Token
bare host = record { host_id = host; key_id = []; key_data = [] }

abbrev with_host : Identifier → Text → Bytes → Result Text Text → Result Text Text
with_host host [] [] (ok rest) = ok (host ∷ rest)
with_host _ _ _ _ = err (codes "no room")

encode : List Token → Result Text Text
encode [] = ok []
encode (t ∷ ts) = with_host t.host_id t.key_id t.key_data (encode ts)

with_host-bare :
    (host : Identifier) (key : Text) (bytes : Bytes) (r : Result Text Text) {text : Text}
    → with_host host key bytes r ≡ ok text
    → (rest : Text) × (r ≡ ok rest) × (text ≡ host ∷ rest) × (key ≡ []) × (bytes ≡ [])
with_host-bare host [] [] (ok rest) h = (rest, refl, cc, refl, refl)
with_host-bare host [] [] (err e) h = absurd cc
with_host-bare host [] (b ∷ bs) r h = absurd cc
with_host-bare host (c ∷ cs) bytes r h = absurd cc

decode-encode : (ts : List Token) (text : Text) → encode ts ≡ ok text → map bare text ≡ ts
unfolding encode
decode-encode [] text h = let e : text ≡ [] = cc in ap (map bare) e
decode-encode (t ∷ ts) text h =
    let (rest, found, shape, no_key, no_data) =
      with_host-bare t.host_id t.key_id t.key_data (encode ts) h in
    ap (map bare) shape ∙ (λ i.
      record { host_id = t.host_id; key_id = sym no_key i; key_data = sym no_data i }
      ∷ decode-encode ts rest found i)

abbrev read_file : Option Text → Read
read_file none = not_found
read_file (some text) = contents text

abbrev one_file : Platform (Option Text)
one_file = record {
  var_os = λ name. some (codes "base");
  join = λ dir file. dir ++ file;
  parent = λ file. none;
  to_json = λ store. encode store.tokens;
  from_json = λ text. ok (record { tokens = map bare text });
  read_to_string = λ file w. read_file w;
  create_dir_all = λ dir w. (ok tt, w);
  open_file = λ file w. (ok tt, some []);
  write_all = λ file text w. (ok tt, some text);
  from-to_json =
      λ store text h. ap (λ ts. ok (record { tokens = ts })) (decode-encode store.tokens text h);
  read-write = λ file text w opened written. refl;
}

abbrev two_hosts : TokenStore
two_hosts = record { tokens = bare 4 ∷ bare 7 ∷ [] }

load-save_token_example :
    load one_file (save_token one_file (bare 7) (some (4 ∷ 7 ∷ []))).1
    ≡ ok (upsert two_hosts (bare 7))
unfolding load path config_dir load_from_path encode save_token save save_to_path upsert
load-save_token_example =
    load-save_token one_file (bare 7) two_hosts (some (4 ∷ 7 ∷ [])) (codes "baseenodytokens.json")
      refl refl

token_of-upsert_example :
    token_of (upsert two_hosts (bare 9)).tokens 7
    ≡ (if (bare 9).host_id == 7 then some (bare 9) else token_of two_hosts.tokens 7)
token_of-upsert_example = token_of-upsert two_hosts (bare 9) 7
