-- ===== src/Cli/Session.antt =====
-- src/main.rs: one run of the program encrypts, and a later one decrypts what it has printed.
use abir_guard.Base.{
  ℕ, ◌*◌, ◌≤◌, ◌≡◌, refl, ap, ◌∙◌, arith, Bool, true, false, Option, some, List, [], ◌∷◌, ◌++◌,
  Bytes, Str, str, ltb, length, ok,
}
use abir_guard.Base.Maybe.{◌>>=◌}
use abir_guard.QuantumKernel
use abir_guard.QuantumKernel.{Crypto, Ciphertext, Drawn, Vault}
use abir_guard.PersistentVault.{
  StoredKey, Environment, get_vault, retrieve_decrypted, read_keys, load_additional_keys,
}
use abir_guard.PersistentVault.Kept.{retrieve_decrypted-store_encrypted}
use abir_guard.Cli.KeyId.{IsKeyId, validate_key_id-IsKeyId}
use abir_guard.Cli
use abir_guard.Cli.{Host, Disk, Command, or_exit, encrypted_lines, decrypted_lines}

-- What one run draws at random and meets, and another one does not share with it.
pub record Chance : Type 0 where
  pub salt : Bytes
  pub file_nonce : Bytes
  pub writable : Bool
  pub fill : ℕ → ℕ → ℕ
  pub removable : Bool
  pub drawn : Drawn
  pub nonce : Bytes
  pub elapsed : ℕ

abbrev pub other_environment : Environment → Chance → Environment
other_environment env chance = record env {
  salt = chance.salt;
  nonce = chance.file_nonce;
  writable = chance.writable;
}

-- Another run with the same crates.
abbrev pub other_run : Host → Chance → Host
other_run host chance = record host {
  env = other_environment host.env chance;
  fill = chance.fill;
  removable = chance.removable;
  drawn = chance.drawn;
  nonce = chance.nonce;
  elapsed = chance.elapsed;
}

-- Loading and decrypting draw nothing.
get_vault_other :
    (crypto : Crypto) (env : Environment) (chance : Chance) (file : Option Bytes) (passphrase : Str)
    → get_vault crypto (other_environment env chance) file passphrase
      ≡ get_vault crypto env file passphrase
unfolding get_vault read_keys
get_vault_other crypto env chance file passphrase = refl

retrieve_decrypted_other :
    (crypto : Crypto) (env : Environment) (chance : Chance) (id other : Str) (ct : Ciphertext)
    (elapsed : ℕ) (passphrase : Str) (file : Option Bytes) (v : Vault)
    → retrieve_decrypted crypto
        (other_environment env chance)
        id
        (record ct { key_id = other })
        elapsed
        passphrase
        file
        v
      ≡ retrieve_decrypted crypto env id ct elapsed passphrase file v
unfolding retrieve_decrypted load_additional_keys read_keys QuantumKernel.retrieve
    QuantumKernel.decrypt QuantumKernel.open_with
retrieve_decrypted_other crypto env chance id other ct elapsed passphrase file v = refl

module _ (host : Host) (passphrase : Str) where
  open host use {crypto, env}

  pub validated_lem :
      (key_id : Str) (rest : Command) (disk : Disk)
      → IsKeyId host.chars host.is_alphanumeric key_id
      → Cli.validated host key_id rest disk ≡ rest disk
  validated_lem key_id rest disk valid =
      ap (λ r. or_exit r (str "Invalid key_id: ") rest disk)
        ((validate_key_id-IsKeyId host.chars host.is_alphanumeric key_id).1 valid)

  with_vault_lem :
      (rest : Vault → Command) (disk : Disk) {v : Vault}
      → get_vault crypto env disk.keys passphrase ≡ some v
      → Cli.with_vault host passphrase rest disk ≡ rest v disk
  with_vault_lem rest disk got = rw (Cli.with_vault, got) refl

module _ (host : Host) (passphrase : Str) where
  open host use {crypto, env}

  -- With base64 and serde that read what they write, a key derivation and ciphers that succeed,
  -- ciphers that open what they seal, where the one of the file adds a tag of 16 bytes, a salt of
  -- 16 and nonces of 12 bytes, a disk that the first run can write, no call over the time limit, an
  -- identifier in UTF-8 and a message that the lossy conversion to UTF-8 keeps: from any files of
  -- keys with which loading does not panic, `encrypt` of the message, if it has at most 1 MiB, under
  -- the identifier, if it is valid, prints a ciphertext and a nonce, and `decrypt` of these, in
  -- another run with the same passphrase and crates on the files that the first has left, prints
  -- the message, whatever that run draws at random and whether or not it can write.
  pub decrypt_of_encrypt :
      {key : Bytes} (key_id message : Str) (disk : Disk) (v : Vault)
      → env.argon2 passphrase env.salt ≡ some key
      → ((plain : Bytes)
          → (c : Bytes) × (crypto.seal key env.nonce plain ≡ some c)
            × (crypto.unseal key env.nonce c ≡ ok plain)
            × (16 ≤ length c))
      → length env.salt ≡ 16
      → length env.nonce ≡ 12
      → ((b : Bytes) → crypto.decode (crypto.encode b) ≡ ok b)
      → ((stored : List StoredKey)
          → (plain : Bytes) × (env.to_vec stored ≡ some plain)
            × (env.from_slice plain ≡ some stored))
      → env.writable ≡ true
      → ((k : Bytes)
          → (c : Bytes) × (crypto.seal k host.nonce message ≡ some c)
            × (crypto.unseal k host.nonce c ≡ ok message))
      → length host.nonce ≡ 12
      → host.elapsed ≤ 200
      → (chance : Chance) → chance.elapsed ≤ 200
      → host.lossy message ≡ message
      → IsKeyId host.chars host.is_alphanumeric key_id
      → length message ≤ 1024 * 1024
      → crypto.from_utf8 key_id ≡ ok key_id
      → get_vault crypto env disk.keys passphrase ≡ some v
      → (ct : Ciphertext) × (disk' : Disk) × (Cli.encrypt host passphrase key_id message disk
          ≡ some (
            disk',
            ok ((str "Ciphertext: " ++ ct.ciphertext) ∷ (str "Nonce: " ++ ct.nonce) ∷ []),
          ))
        × (Cli.decrypt (other_run host chance) passphrase key_id ct.ciphertext ct.nonce disk'
            ≡ some (disk', ok (message ∷ [])))
  decrypt_of_encrypt key_id message disk v derived cipher salted fresh base64 serde writable opens
        twelve soon chance soon' kept valid small utf8 got =
      let (ct, w, file', x, y, stored, opened, decrypted) =
        retrieve_decrypted-store_encrypted crypto env passphrase derived cipher salted fresh base64
          serde writable message host.nonce opens twelve host.elapsed chance.elapsed soon soon'
          key_id host.drawn disk.keys disk.keys v utf8 got in
      let fits : ltb (1024 * 1024) (length message) ≡ false = ground arith in
      let with_encrypt = Cli.encrypt_with host passphrase key_id message in
      let disk' : Disk = record disk { keys = file' } in
      let later = other_run host chance in
      (
        ct,
        disk',
        validated_lem host passphrase key_id _ disk valid
            ∙ ap
                (λ b.
                  Cli.exit_if b (str "Data too large (max 1MB)")
                    (Cli.with_vault host passphrase with_encrypt) disk)
                fits
            ∙ with_vault_lem host passphrase with_encrypt disk got
            ∙ ap (λ r. r >>= encrypted_lines host disk) stored,
        validated_lem later passphrase key_id _ disk' valid
            ∙ with_vault_lem later passphrase
                (Cli.decrypt_with later passphrase key_id (record ct { key_id = key_id })) disk'
                (get_vault_other crypto env chance file' passphrase ∙ opened)
            ∙ ap (λ r. r >>= decrypted_lines later disk')
                (retrieve_decrypted_other crypto env chance key_id key_id ct chance.elapsed
                    passphrase file' x
                  ∙ decrypted)
            ∙ ap (λ text. some (disk', ok (text ∷ []))) kept,
      )
