-- ===== src/PersistentVault.antt =====
-- src/persistent_vault.rs: key pairs on disk, encrypted under a passphrase.
-- The keys file is its content, `none` where it is missing or cannot be read; a write may fail,
-- which `persist` ignores. serde and the ciphers are parameters, and so is what is drawn at
-- random. `none` of a call is a panic.
pub mod Encoded
pub mod Reload
pub mod Reopen
pub mod Kept
pub mod Toy
pub mod Signing
mod Tests
use mathlib.Core.Option
use abir_guard.Base.{
  ℕ, zero, suc, ◌+◌, Bool, true, false, not, ◌||◌, Option, none, some, List, [], ◌∷◌, ◌++◌, map,
  Bytes, Str, str, ltb, if◌then◌else◌, bytes_eq, length, take, skip, Result, ok, err, ◌>>=◌, ◌>>◌,
  reject_if, ok_or, map_err,
}
use abir_guard.Kdf.{derive_key, derive_key_with_salt, salt_length}
use abir_guard.QuantumKernel
use abir_guard.QuantumKernel.{
  Crypto, Ciphertext, Drawn, Vault, export_keys, import_key, list_keypairs,
}

pub record StoredKey : Type 0 where
  pub key_id : Str
  pub public_key : Str
  pub secret_key : Str

-- The crates and the file system's answers that one call meets.
pub record Environment : Type 0 where
  pub argon2 : Str → Bytes → Option Bytes
  pub to_vec : List StoredKey → Option Bytes
  pub from_slice : Bytes → Option (List StoredKey)
  -- A fresh salt and a fresh nonce.
  pub salt : Bytes
  pub nonce : Bytes
  -- Whether a write succeeds.
  pub writable : Bool

abbrev pub stored_key : Str × Str × Str → StoredKey
stored_key (key_id, public_key, secret_key) = record {
  key_id = key_id;
  public_key = public_key;
  secret_key = secret_key;
}

-- `existing.contains(&key.key_id)`
unfoldable pub contains_id : List Str → Str → Bool
contains_id [] key_id = false
contains_id (id ∷ ids) key_id = bytes_eq id key_id || contains_id ids key_id

module _ (crypto : Crypto) where
  unfoldable pub encrypt_data : Bytes → Bytes → Bytes → Option Bytes
  encrypt_data plain key nonce = Option.map (λ ct. nonce ++ ct) (crypto.seal key nonce plain)

  unfoldable pub decrypt_data : Bytes → Bytes → Result Str Bytes
  decrypt_data blob key = do
    reject_if (ltb (length blob) (12 + 16)) (str "Encrypted blob too short")
    map_err (λ e. str "Decryption failed: " ++ e) (crypto.unseal key (take 12 blob) (skip 12 blob))

  -- `vault.import_key(...).ok()` for each key.
  unfoldable pub import_all : List StoredKey → Vault → Vault
  import_all [] v = v
  import_all (key ∷ stored) v =
      import_all stored (import_key crypto key.key_id key.public_key key.secret_key v).0

  unfoldable pub import_missing : List Str → List StoredKey → Vault → Vault
  import_missing existing [] v = v
  import_missing existing (key ∷ stored) v = import_missing existing stored (
      if contains_id existing key.key_id
      then v
      else (import_key crypto key.key_id key.public_key key.secret_key v).0)

  module _ (env : Environment) where
    -- What both readers of the file do up to the list of keys; `none` outside is a panic of the
    -- derivation, inside an early return.
    unfoldable pub read_keys : Option Bytes → Str → Option (Option (List StoredKey))
    unfolding decrypt_data derive_key_with_salt
    read_keys none passphrase = some none
    read_keys (some blob) passphrase =
        if ltb (length blob) (salt_length + (12 + 16))
        then some none
        else elim (derive_key_with_salt env.argon2 passphrase (take salt_length blob)) [
          | none ↦ none
          | some key ↦ elim (decrypt_data (skip salt_length blob) key) [
            | err e ↦ some none
            | ok plain ↦ some (env.from_slice plain)
          ]
        ]

    unfoldable pub get_vault : Option Bytes → Str → Option Vault
    unfolding read_keys import_all
    get_vault file passphrase = elim (read_keys file passphrase) [
      | none ↦ none
      | some none ↦ some QuantumKernel.new
      | some (some stored) ↦ some (import_all stored QuantumKernel.new)
    ]

    -- The content of the file that `persist` writes.
    unfoldable pub write_keys : List StoredKey → Str → Option Bytes → Option (Option Bytes)
    unfolding encrypt_data derive_key
    write_keys stored passphrase file = elim (env.to_vec stored) [
      | none ↦ some file
      | some plain ↦ elim (derive_key env.argon2 env.salt passphrase none) [
        | none ↦ none
        | some (key, salt) ↦ elim (encrypt_data plain key env.nonce) [
          | none ↦ none
          | some encrypted ↦ some (if env.writable then some (salt ++ encrypted) else file)
        ]
      ]
    ]

    -- The file after `persist`.
    unfoldable pub persist : Vault → Str → Option Bytes → Option (Option Bytes)
    unfolding write_keys
    persist v passphrase file = elim (export_keys crypto v).1 [
      | none ↦ none
      | some exported ↦ write_keys (map stored_key exported) passphrase file
    ]

    unfoldable pub load_additional_keys : Option Bytes → Str → Vault → Option Vault
    unfolding read_keys import_missing
    load_additional_keys file passphrase v = elim (read_keys file passphrase) [
      | none ↦ none
      | some none ↦ some v
      | some (some stored) ↦ elim (list_keypairs crypto v).1 [
        | none ↦ none
        | some existing ↦ some (import_missing existing stored v)
      ]
    ]

    -- The vault, the file and the result.
    unfoldable pub store_encrypted :
        Str
        → Bytes
        → Drawn
        → Bytes
        → ℕ
        → Str
        → Option Bytes
        → Vault
        → Option (Vault × Option Bytes × Result Str Ciphertext)
    unfolding persist
    store_encrypted key_id plaintext drawn nonce elapsed passphrase file v =
        let (w, outcome) = QuantumKernel.store crypto key_id plaintext drawn nonce elapsed v in
        elim outcome [
          | none ↦ none
          | some (err e) ↦ some (w, file, err e)
          | some (ok ct) ↦ Option.map (λ file'. (w, file', ok ct)) (persist w passphrase file)
        ]

    unfoldable pub retrieve_decrypted :
        Str → Ciphertext → ℕ → Str → Option Bytes → Vault → Option (Vault × Result Str Bytes)
    unfolding load_additional_keys
    retrieve_decrypted key_id ct elapsed passphrase file v =
        elim (load_additional_keys file passphrase v) [
          | none ↦ none
          | some w ↦
              let (x, outcome) = QuantumKernel.retrieve crypto key_id ct elapsed w in
              Option.map (λ r. (x, r)) outcome
        ]
