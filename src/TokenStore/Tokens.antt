-- ===== src/TokenStore/Tokens.antt =====
-- The tokens of a store after `upsert` (src/token_store.rs).
use enody_rs.Common.{
  ◌≡◌, refl, subst, ◌∙◌, false, ◌==◌, ==_iff, Bool-cases, inl, inr, List, [], ◌∷◌, find, Option,
  none, some, arith, if◌then◌else◌,
}
use enody_rs.Message.Topology.{Identifier}
use enody_rs.Message.Runtime.{Token}
use enody_rs.TokenStore.{TokenStore, upsert_tokens, upsert}

-- The first token of a host.
abbrev pub token_of : List Token → Identifier → Option Token
token_of tokens host = find (λ t. t.host_id == host) tokens

-- No host has two tokens.
abbrev pub OnePerHost : List Token → Type 0
OnePerHost [] = Unit
OnePerHost (t ∷ ts) = (token_of ts t.host_id ≡ none) × OnePerHost ts

find-upsert_tokens :
    (token : Token) (host : Identifier) (ts : List Token)
    → token_of (upsert_tokens token ts) host
      ≡ (if token.host_id == host then some token else token_of ts host)
unfolding upsert_tokens
find-upsert_tokens token host [] = refl
find-upsert_tokens token host (t ∷ ts) = ground (arith, find-upsert_tokens token host ts)

-- After an upsert the token's host has that token, and each other host has the one it had.
pub token_of-upsert :
    (store : TokenStore) (token : Token) (host : Identifier)
    → token_of (upsert store token).tokens host
      ≡ (if token.host_id == host then some token else token_of store.tokens host)
unfolding upsert
token_of-upsert store token host = find-upsert_tokens token host store.tokens

upsert_tokens-OnePerHost :
    (token : Token) (ts : List Token) → OnePerHost ts → OnePerHost (upsert_tokens token ts)
unfolding upsert_tokens
upsert_tokens-OnePerHost token [] h = (refl, tt)
upsert_tokens-OnePerHost token (t ∷ ts) (absent, h) =
    elim (Bool-cases (t.host_id == token.host_id)) [
      | inl e ↦
          let same : t.host_id ≡ token.host_id = (==_iff _ _).0 e in
          rw e (subst (λ x. token_of ts x ≡ none) same absent, h)
      | inr e ↦
          let other : (token.host_id == t.host_id) ≡ false = ground arith in
          rw e (
            find-upsert_tokens token t.host_id ts ∙ (rw other absent),
            upsert_tokens-OnePerHost token ts h,
          )
    ]

-- An upsert gives no host a second token.
pub upsert-OnePerHost :
    (store : TokenStore) (token : Token)
    → OnePerHost store.tokens
    → OnePerHost (upsert store token).tokens
unfolding upsert
upsert-OnePerHost store token h = upsert_tokens-OnePerHost token store.tokens h
