-- ===== src/Cli/Mldsa.antt =====
-- src/main.rs: `mldsa-init`, `mldsa-sign`, `mldsa-verify` and `mldsa-list`. SHA3-512 and
-- the printing of JSON are parameters of what is printed.
use mathlib.Core.Option
use abir_guard.Base.{
  ◌≤◌, ◌≡◌, ◌≢◌, refl, ap, ◌∙◌, Bool, true, false, Option, none, some, List, [], ◌∷◌, ◌++◌, Bytes,
  Str, str, length, bytes_eq, bytes_eq_iff, Bool-cases, inl, inr, Result, ok, err,
}
use abir_guard.Base.Text.{decimal}
use abir_guard.MlDsa
use abir_guard.MlDsa.{MldsaError, MldsaKeypair}
use abir_guard.MlDsa.Json.{hash_data, serialize_keypair}
use abir_guard.Base.Json.{Value}
use abir_guard.PersistentVault.Signing.{
  StoredMldsaKey, find_pair, no_key, persist_mldsa_keys, sign_with_vault, verify_with_vault,
  list_mldsa_keys,
}
use abir_guard.PersistentVault.Signing.Roundtrip.{load-persist}
use abir_guard.Cli.KeyId.{IsKeyId}
use abir_guard.Cli.{Host, Disk, Command, Lines, validated, listed}
use abir_guard.Cli.Session.{validated_lem}

module _ (host : Host) (sha3 : Bytes → Bytes) (to_string : Value → Str) where
  open host use {crypto, crate, env, text}

  abbrev pub generated_lines : MldsaKeypair → Lines
  generated_lines kp =
      str "ML-DSA-65 Keypair Generated"
      ∷ str "Security Category: 3 (equivalent to AES-192)"
      ∷ (str "Signing Key Size: " ++ (decimal (length kp.signing_key) ++ str " bytes"))
      ∷ (str "Verifying Key Size: " ++ (decimal (length kp.verifying_key) ++ str " bytes"))
      ∷ []
      ∷ []

  -- Where the file cannot be written, stderr has the reason beside these lines.
  abbrev pub stored_lines : Str → MldsaKeypair → Result Str (Unit {0}) → Lines
  stored_lines id kp (ok done) =
      (str "Stored in vault with key_id: " ++ id)
      ∷ (str "Verify Key: " ++ crypto.encode kp.verifying_key)
      ∷ []
  stored_lines id kp (err e) =
      str "Exported as JSON for manual storage:" ∷ serialize_keypair crypto.encode to_string kp ∷ []

  abbrev pub exported_lines : MldsaKeypair → Lines
  exported_lines kp =
      (str "Sign Key: " ++ crypto.encode kp.signing_key)
      ∷ []
      ∷ (str "Verify Key: " ++ crypto.encode kp.verifying_key)
      ∷ []
      ∷ str "Store both keys securely. Never share the signing key."
      ∷ str "Exported as JSON for vault storage:"
      ∷ serialize_keypair crypto.encode to_string kp
      ∷ []
      ∷ str "To store in vault, run with --key-id <id>"
      ∷ []

  -- The new key pair is the whole list that is persisted.
  abbrev pub store_pair : Str → Str → MldsaKeypair → Command
  store_pair passphrase id kp disk =
      Option.map
        (λ (file, outcome). (
          record disk { mldsa_keys = file },
          ok (generated_lines kp ++ stored_lines id kp outcome),
        ))
        (persist_mldsa_keys crypto crate env text ((id, kp) ∷ []) passphrase disk.mldsa_keys)

  abbrev pub init_pair : Str → Option Str → Result MldsaError MldsaKeypair → Command
  init_pair passphrase key_id (err e) disk = none
  init_pair passphrase none (ok kp) disk = some (disk, ok (generated_lines kp ++ exported_lines kp))
  init_pair passphrase (some id) (ok kp) disk = validated host id (store_pair passphrase id kp) disk

  abbrev pub mldsa_init : Str → Option Str → Command
  mldsa_init passphrase key_id = init_pair passphrase key_id (MlDsa.generate_keypair crate)

  abbrev pub sign_lines : Str → Bytes → Result Str Bytes → Result Lines Lines
  sign_lines key_id message (ok signature) = ok (
      (str "Data Hash (SHA3-512): " ++ crypto.encode (hash_data sha3 message))
      ∷ (str "Signature: " ++ crypto.encode signature)
      ∷ [])
  sign_lines key_id message (err e) = err (
      (str "Signing failed: " ++ e)
      ∷ (str "Ensure key '"
          ++ (key_id
              ++ (str "' exists in vault (run 'mldsa-init --key-id "
                  ++ (key_id ++ str "' first)"))))
      ∷ [])

  abbrev pub sign_with : Str → Str → Option Bytes → Command
  sign_with passphrase key_id none disk = none
  sign_with passphrase key_id (some message) disk =
      Option.map (λ r. (disk, sign_lines key_id message r))
        (sign_with_vault crypto crate env text key_id message passphrase disk.mldsa_keys)

  -- The message is the argument, or a line of stdin, which is `none` where it cannot be read.
  abbrev pub mldsa_sign : Str → Str → Option Bytes → Command
  mldsa_sign passphrase key_id message = validated host key_id (sign_with passphrase key_id message)

  abbrev pub verify_lines : Result Str Bool → Result Lines Lines
  verify_lines (ok true) = ok (str "Signature VALID" ∷ [])
  verify_lines (ok false) = err (str "Signature INVALID" ∷ [])
  verify_lines (err e) = err ((str "Verification error: " ++ e) ∷ [])

  abbrev pub verify_decoded : Str → Str → Bytes → Result Str Bytes → Command
  verify_decoded passphrase key_id message (err e) disk = none
  verify_decoded passphrase key_id message (ok signature) disk =
      Option.map (λ r. (disk, verify_lines r))
        (verify_with_vault crypto crate env text key_id message signature passphrase
          disk.mldsa_keys)

  -- `expect` panics on a signature that is not base64.
  abbrev pub mldsa_verify : Str → Str → Bytes → Str → Command
  mldsa_verify passphrase key_id message signature =
      validated host key_id (verify_decoded passphrase key_id message (crypto.decode signature))

  -- An error goes to stderr and the program ends with 0.
  abbrev pub list_lines : Result Str (List Str) → Lines
  list_lines (ok names) =
      listed host (str "No ML-DSA keys stored") (str "Stored ML-DSA keys:") names
  list_lines (err e) = []

  abbrev pub mldsa_list : Str → Command
  mldsa_list passphrase disk =
      Option.map (λ r. (disk, ok (list_lines r)))
        (list_mldsa_keys crypto crate env text passphrase disk.mldsa_keys)

  -- A second `mldsa-init` takes the first one's key away. With base64 and serde that read what they
  -- write, a key derivation and a cipher that succeed, a cipher that opens what it seals and adds a
  -- tag of 16 bytes, a salt of 16 and a nonce of 12 bytes, a disk that can be written and a crate
  -- that generates a pair: whatever the file of keys held, `mldsa-init` for a valid identifier
  -- stores the pair, and then `mldsa-list` prints that identifier alone and `mldsa-sign` for any
  -- other valid one exits with `not found`.
  pub mldsa_init_overwrites :
      (passphrase : Str) {key : Bytes}
      → env.argon2 passphrase env.salt ≡ some key
      → ((plain : Bytes)
          → (c : Bytes) × (crypto.seal key env.nonce plain ≡ some c)
            × (crypto.unseal key env.nonce c ≡ ok plain)
            × (16 ≤ length c))
      → length env.salt ≡ 16
      → length env.nonce ≡ 12
      → ((b : Bytes) → crypto.decode (crypto.encode b) ≡ ok b)
      → ((stored : List StoredMldsaKey)
          → (plain : Bytes) × (text.to_vec stored ≡ ok plain) × (text.from_slice plain ≡ ok stored))
      → text.create_dir_all ≡ ok tt
      → env.writable ≡ true
      → (kp : MldsaKeypair) (id other : Str) (message : Bytes) (disk : Disk)
      → MlDsa.generate_keypair crate ≡ ok kp
      → IsKeyId host.chars host.is_alphanumeric id
      → IsKeyId host.chars host.is_alphanumeric other
      → id ≢ other
      → (disk' : Disk) × (mldsa_init passphrase (some id) disk
          ≡ some (disk', ok (generated_lines kp ++ stored_lines id kp (ok tt))))
        × (mldsa_list passphrase disk'
            ≡ some (disk', ok (str "Stored ML-DSA keys:" ∷ (str "  - " ++ id) ∷ [])))
        × (mldsa_sign passphrase other (some message) disk'
            ≡ some (disk', sign_lines other message (err (no_key other))))
  unfolding find_pair
  mldsa_init_overwrites passphrase derived cipher salted fresh base64 serde created writable kp id
        other message disk generated valid valid' apart =
      let (file', persisted, loaded) =
        load-persist crypto crate env text base64 passphrase derived cipher salted fresh serde
          created writable ((id, kp) ∷ []) disk.mldsa_keys in
      let disk' : Disk = record disk { mldsa_keys = file' } in
      let different : bytes_eq id other ≡ false = elim (Bool-cases (bytes_eq id other)) [
        | inl same ↦ absurd (apart ((bytes_eq_iff id other).0 same))
        | inr h ↦ h
      ] in
      (
        disk',
        ap (λ r. init_pair passphrase (some id) r disk) generated
            ∙ validated_lem host passphrase id (store_pair passphrase id kp) disk valid
            ∙ rw persisted refl,
        rw loaded refl,
        validated_lem host passphrase other _ disk' valid' ∙ rw (loaded, different) refl,
      )
