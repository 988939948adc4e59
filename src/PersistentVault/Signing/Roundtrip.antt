-- ===== src/PersistentVault/Signing/Roundtrip.antt =====
-- src/persistent_vault.rs: what is signed with persisted ML-DSA keys verifies with them.
use abir_guard.Base.{
  ℕ, ◌≤◌, ◌≡◌, refl, sym, ap, ◌∙◌, arith, true, false, some, List, [], ◌∷◌, ◌++◌, map, Bytes, Str,
  ltb, ◌==◌, length, length-append, take, skip, take-append, skip-append, ok, ◌>>◌, map_err,
}
use abir_guard.Kdf.{derive_key, derive_key_with_salt}
use abir_guard.MlDsa.{signing_failed, MldsaKeypair, Fips204, sign, verify}
use abir_guard.QuantumKernel.{Crypto}
use abir_guard.PersistentVault.{Environment}
use abir_guard.PersistentVault.Reload.{decrypt_data-encrypt_data}
use abir_guard.PersistentVault.Signing.{
  StoredMldsaKey, KeysText, KeysFile, NamedPair, find_pair, stored_pair, write_pairs,
  persist_mldsa_keys, persist_serialized, serialized, decoded_pairs, load_mldsa_keys,
  sign_with_vault, verify_with_vault, list_mldsa_keys,
}

-- A key pair whose lengths are right and whose signatures the crate accepts.
pub record Signs (crate : Fips204) (kp : MldsaKeypair) : Type 0 where
  pub private_length : length kp.signing_key ≡ 4032
  pub public_length : length kp.verifying_key ≡ 1952
  pub accepted :
      (message : Bytes)
      → (sk pk signature : Bytes) × (crate.private_key kp.signing_key ≡ ok sk)
        × (crate.public_key kp.verifying_key ≡ ok pk)
        × (crate.try_sign sk message ≡ ok signature)
        × (length signature ≡ 3309)
        × (crate.check pk message signature ≡ true)

verify-sign :
    (crate : Fips204) (kp : MldsaKeypair) (message : Bytes)
    → Signs crate kp
    → (signature : Bytes) × (sign crate message kp.signing_key ≡ ok signature)
      × (verify crate message signature kp.verifying_key ≡ ok true)
unfolding sign verify
verify-sign crate kp message signs =
    let (sk, pk, signature, private, public, signed, size, valid) = signs.accepted message in
    let same : (n : ℕ) → (n == n) ≡ true = λ n. ground arith in
    (
      signature,
      rw (signs.private_length, private) (ap (map_err signing_failed) signed),
      rw (signs.public_length, public, size) (ap ok valid),
    )

module _ (crypto : Crypto) (crate : Fips204) (env : Environment) (text : KeysText)
    (base64 : (b : Bytes) → crypto.decode (crypto.encode b) ≡ ok b) where
  decoded_pairs-stored_pair :
      (keypairs : List NamedPair)
      → decoded_pairs crypto crate env text (map (stored_pair crypto crate env text) keypairs)
        ≡ ok keypairs
  unfolding decoded_pairs
  decoded_pairs-stored_pair [] = refl
  decoded_pairs-stored_pair ((id, kp) ∷ keypairs) =
      rw (base64 kp.signing_key, base64 kp.verifying_key, decoded_pairs-stored_pair keypairs) refl

  module _ (passphrase : Str) {key : Bytes} (derived : env.argon2 passphrase env.salt ≡ some key)
      (cipher : (plain : Bytes)
        → (c : Bytes) × (crypto.seal key env.nonce plain ≡ some c)
          × (crypto.unseal key env.nonce c ≡ ok plain)
          × (16 ≤ length c))
      (salted : length env.salt ≡ 16) (fresh : length env.nonce ≡ 12)
      (serde : (stored : List StoredMldsaKey)
        → (plain : Bytes) × (text.to_vec stored ≡ ok plain) × (text.from_slice plain ≡ ok stored))
      (created : text.create_dir_all ≡ ok tt) (writable : env.writable ≡ true) where
    pub load-persist :
        (keypairs : List NamedPair) (file : KeysFile)
        → (file' : KeysFile) × (persist_mldsa_keys crypto crate env text keypairs passphrase file
            ≡ some (file', ok tt))
          × (load_mldsa_keys crypto crate env text passphrase file' ≡ some (ok keypairs))
    unfolding write_pairs load_mldsa_keys derive_key derive_key_with_salt
    load-persist keypairs file =
        let (plain, written, parsed) = serde (map (stored_pair crypto crate env text) keypairs) in
        let (blob, encrypted, decrypted, long) =
          decrypt_data-encrypt_data crypto env passphrase derived cipher salted fresh plain in
        let whole : serialized crypto crate env text keypairs ≡ ok plain =
          ap (λ r. r >> text.to_vec (map (stored_pair crypto crate env text) keypairs)) created
          ∙ written in
        let salt = env.salt in
        let front : take 16 (salt ++ blob) ≡ salt =
          ap (λ n. take n (salt ++ blob)) (sym salted) ∙ take-append salt blob in
        let back : skip 16 (salt ++ blob) ≡ blob =
          ap (λ n. skip n (salt ++ blob)) (sym salted) ∙ skip-append salt blob in
        let enough : ltb (length (salt ++ blob)) 44 ≡ false =
          (let size = length-append salt blob in ground arith) in
        let stored : write_pairs crypto crate env text plain passphrase file
            ≡ some (KeysFile.content (salt ++ blob), ok tt) =
          rw (write_pairs, derived, encrypted, writable) refl in
        (
          KeysFile.content (salt ++ blob),
          ap (persist_serialized crypto crate env text passphrase file) whole ∙ stored,
          rw (enough, front, derived, back, decrypted, parsed)
              (ap some (decoded_pairs-stored_pair keypairs)),
        )

    -- With base64 and serde that read what they write, a key derivation and a cipher that succeed, a
    -- cipher that opens what it seals and adds a tag of 16 bytes, a salt of 16 and a nonce of 12
    -- bytes and a disk that can be written: `persist_mldsa_keys` succeeds, whatever the file was, and
    -- then the identifiers are listed as they were given, and with the first key pair of an
    -- identifier, where its lengths are right and the crate accepts its own signatures, any data
    -- is signed, and the signature verifies.
    pub verify_with_vault-sign_with_vault :
        (keypairs : List NamedPair) (file : KeysFile) (key_id : Str) (kp : MldsaKeypair)
        (message : Bytes)
        → find_pair key_id keypairs ≡ some kp
        → Signs crate kp
        → (file' : KeysFile) × (signature : Bytes) × (persist_mldsa_keys crypto crate env text
              keypairs passphrase file
            ≡ some (file', ok tt))
          × (list_mldsa_keys crypto crate env text passphrase file'
              ≡ some (ok (map (λ (id, pair). id) keypairs)))
          × (sign_with_vault crypto crate env text key_id message passphrase file'
              ≡ some (ok signature))
          × (verify_with_vault crypto crate env text key_id message signature passphrase file'
              ≡ some (ok true))
    verify_with_vault-sign_with_vault keypairs file key_id kp message found signs =
        let (file', persisted, loaded) = load-persist keypairs file in
        let (signature, signed, verified) = verify-sign crate kp message signs in
        (
          file',
          signature,
          persisted,
          rw loaded refl,
          rw (loaded, found, signed) refl,
          rw (loaded, found, verified) refl,
        )
