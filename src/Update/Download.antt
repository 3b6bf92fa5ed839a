-- ===== src/Update/Download.antt =====
-- The download of a firmware version's payloads in src/update.rs. The server and the hash of the
-- third-party library are parameters: a payload's bytes where a request for it succeeds, and the
-- hexadecimal SHA-256 of bytes.
use enody_rs.Common.{
  ℕ, ◌%◌, ◌^◌, ◌==◌, ==_iff, true, Bytes, Text, text_eq, text_eq_sound, text_eq_refl, codes, List,
  [], ◌∷◌, ◌++◌, length, Option, some, Result, ok, err, ◌>>=◌, >>=_ok, ok_or, ok_or-some,
  if◌then◌else◌, Bool-cases, inl, inr, ◌≡◌, ◌↔◌, refl, sym, ap, ◌∙◌, subst,
}
use enody_rs.Error.{Error}
use enody_rs.Strings.Numbers.{decimal}
use enody_rs.Update.Select.{FirmwarePayload, FirmwareVersion}

abbrev pub download_failed : FirmwarePayload → Error
download_failed payload = Error.debug (codes "Failed to download payload " ++ payload.data_name)

abbrev pub size_mismatch : FirmwarePayload → Bytes → Error
size_mismatch payload bytes = Error.debug (
    codes "Payload "
    ++ (payload.data_name
        ++ (codes " size mismatch: expected "
            ++ (decimal payload.length ++ (codes " bytes, got " ++ decimal (length bytes))))))

abbrev pub hash_mismatch : FirmwarePayload → Text → Error
hash_mismatch payload hash = Error.debug (
    codes "Payload "
    ++ (payload.data_name
        ++ (codes " SHA-256 mismatch: expected " ++ (payload.sha256 ++ (codes ", got " ++ hash)))))

images_same :
    {xs ys : List (ℕ × Bytes)} → ◌≡◌ {A = Result (List (ℕ × Bytes)) Error} (ok xs) (ok ys) → xs ≡ ys
images_same h = cc

module _ (fetch : FirmwarePayload → Option Bytes) (sha256_hex : Bytes → Text) where
  -- `data.len() as u32 != payload.length`
  abbrev pub check_size : FirmwarePayload → Bytes → Result Bytes Error
  check_size payload bytes =
      if length bytes % 2 ^ 32 == payload.length
      then ok bytes
      else err (size_mismatch payload bytes)

  abbrev pub check_hash : FirmwarePayload → Bytes → Result Bytes Error
  check_hash payload bytes =
      if text_eq (sha256_hex bytes) payload.sha256
      then ok bytes
      else err (hash_mismatch payload (sha256_hex bytes))

  unfoldable pub download_payload : FirmwarePayload → Result Bytes Error
  download_payload payload = do
    bytes ← ok_or (fetch payload) (download_failed payload)
    sized ← check_size payload bytes
    check_hash payload sized

  -- The first payload that fails ends the loop.
  unfoldable pub download_all : List FirmwarePayload → Result (List (ℕ × Bytes)) Error
  download_all [] = ok []
  download_all (payload ∷ payloads) = download_payload payload >>= λ bytes.
      download_all payloads >>= λ rest. ok ((payload.offset, bytes) ∷ rest)

  unfoldable pub download_firmware_payloads : FirmwareVersion → Result (List (ℕ × Bytes)) Error
  download_firmware_payloads version = download_all version.payload

  -- Bytes that the server gave for the payload and that have its length, taken to 32 bits, and hash.
  abbrev pub Intact : FirmwarePayload → Bytes → Type 0
  Intact payload bytes =
      (fetch payload ≡ some bytes)
      × (length bytes % 2 ^ 32 ≡ payload.length)
      × (sha256_hex bytes ≡ payload.sha256)

  -- For each payload its offset and its bytes, in order.
  abbrev pub AllIntact : List FirmwarePayload → List (ℕ × Bytes) → Type 0
  AllIntact [] [] = Unit
  AllIntact [] (x ∷ xs) = [] ≡ x ∷ xs
  AllIntact (payload ∷ payloads) [] = [] ≡ payload ∷ payloads
  AllIntact (payload ∷ payloads) (x ∷ xs) =
      (payload.offset ≡ x.0) × Intact payload x.1 × AllIntact payloads xs

  check_size_ok :
      (payload : FirmwarePayload) (bytes sized : Bytes)
      → check_size payload bytes ≡ ok sized
      → (bytes ≡ sized) × (length bytes % 2 ^ 32 ≡ payload.length)
  check_size_ok payload bytes sized = elim (Bool-cases (length bytes % 2 ^ 32 == payload.length)) [
    | inl e ↦ rw e (λ h. (cc, (==_iff (length bytes % 2 ^ 32) payload.length).0 e))
    | inr e ↦ rw e (λ h. absurd cc)
  ]

  check_hash_ok :
      (payload : FirmwarePayload) (bytes hashed : Bytes)
      → check_hash payload bytes ≡ ok hashed
      → (bytes ≡ hashed) × (sha256_hex bytes ≡ payload.sha256)
  check_hash_ok payload bytes hashed =
      elim (Bool-cases (text_eq (sha256_hex bytes) payload.sha256)) [
        | inl e ↦ rw e (λ h. (cc, text_eq_sound (sha256_hex bytes) payload.sha256 e))
        | inr e ↦ rw e (λ h. absurd cc)
      ]

  download_payload-Intact :
      (payload : FirmwarePayload) (bytes : Bytes)
      → download_payload payload ≡ ok bytes
      → Intact payload bytes
  unfolding download_payload
  download_payload-Intact payload bytes h =
      let (got, fetched, a) = >>=_ok (ok_or (fetch payload) (download_failed payload)) _ bytes h in
      let (sized, checked, b) = >>=_ok (check_size payload got) _ bytes a in
      let (same, size) = check_size_ok payload got sized checked in
      let (same', hash) = check_hash_ok payload sized bytes b in
      let whole = same ∙ same' in
      (
        ok_or-some (fetch payload) (download_failed payload) got fetched ∙ ap some whole,
        ap (λ bs. length bs % 2 ^ 32) (sym whole) ∙ size,
        ap sha256_hex (sym same') ∙ hash,
      )

  Intact-download_payload :
      (payload : FirmwarePayload) (bytes : Bytes)
      → Intact payload bytes
      → download_payload payload ≡ ok bytes
  unfolding download_payload
  Intact-download_payload payload bytes (fetched, size, hash) =
      let right_size = (==_iff (length bytes % 2 ^ 32) payload.length).1 size in
      let right_hash : text_eq (sha256_hex bytes) payload.sha256 ≡ true =
        subst (λ t. text_eq (sha256_hex bytes) t ≡ true) hash (text_eq_refl (sha256_hex bytes)) in
      rw (fetched, right_size, right_hash) refl

  download_all-AllIntact :
      (payloads : List FirmwarePayload) (images : List (ℕ × Bytes))
      → download_all payloads ≡ ok images
      → AllIntact payloads images
  unfolding download_all
  download_all-AllIntact [] [] h = tt
  download_all-AllIntact [] (x ∷ images) h = cc
  download_all-AllIntact (payload ∷ payloads) images h =
      let (bytes, first, a) = >>=_ok (download_payload payload) _ images h in
      let (rest, others, b) = >>=_ok (download_all payloads) _ images a in
      let whole : ((payload.offset, bytes) ∷ rest) ≡ images = images_same b in
      subst (AllIntact (payload ∷ payloads)) whole (
        refl,
        download_payload-Intact payload bytes first,
        download_all-AllIntact payloads rest others,
      )

  AllIntact-download_all :
      (payloads : List FirmwarePayload) (images : List (ℕ × Bytes))
      → AllIntact payloads images
      → download_all payloads ≡ ok images
  unfolding download_all
  AllIntact-download_all [] [] h = refl
  AllIntact-download_all [] (x ∷ images) h = absurd cc
  AllIntact-download_all (payload ∷ payloads) [] h = absurd cc
  AllIntact-download_all (payload ∷ payloads) ((offset, bytes) ∷ images) (at_offset, intact, rest) =
      let first = Intact-download_payload payload bytes intact in
      let others = AllIntact-download_all payloads images rest in
      rw (first, others) (ap (λ o. ok ((o, bytes) ∷ images)) at_offset)

  -- The download of a version gives images just if they are, payload by payload and in order, what the
  -- server gave, with the offset of the manifest, its length to 32 bits, and its hash.
  pub download_iff :
      (version : FirmwareVersion) (images : List (ℕ × Bytes))
      → (download_firmware_payloads version ≡ ok images) ↔ AllIntact version.payload images
  unfolding download_firmware_payloads
  download_iff version images =
      (download_all-AllIntact version.payload images, AllIntact-download_all version.payload images)
