-- ===== src/Cli.antt =====
-- src/main.rs: the commands of the program, on the two files of keys that they leave to each other.
-- A command that ends gives the lines that it prints or, where it exits with 1, its message; `none`
-- is a panic.
pub mod KeyId
pub mod Session
pub mod Shares
pub mod Mldsa
pub mod Server
pub mod Main
pub mod Frame
mod Tests
use mathlib.Core.Option
use abir_guard.Base.{
  ℕ, ◌+◌, ◌*◌, Bool, true, false, not, ◌&&◌, ◌||◌, Option, none, some, List, [], ◌∷◌, ◌++◌, map,
  filter, Bytes, Str, str, ltb, ◌==◌, if◌then◌else◌, length, is_empty, Result, ok, err,
}
use abir_guard.Base.Maybe.{◌>>=◌}
use abir_guard.Cli.KeyId.{validate_key_id, starts_with_reserved}
use abir_guard.Base.Text.{decimal}
use abir_guard.MlDsa
use abir_guard.MlDsa.{MldsaKeypair, Fips204}
use abir_guard.QuantumKernel
use abir_guard.QuantumKernel.{Crypto, Ciphertext, Drawn, Vault}
use abir_guard.PersistentVault
use abir_guard.PersistentVault.{Environment, get_vault, persist}
use abir_guard.PersistentVault.Signing.{KeysText, KeysFile, missing}
use abir_guard.Shamir
use abir_guard.Shamir.Texts.{encode_shares, decode_shares}

-- What a run of the program draws on: crates, system, and Unicode by the standard library.
pub record Host : Type 0 where
  pub crypto : Crypto
  pub crate : Fips204
  pub env : Environment
  pub text : KeysText
  pub lossy : Bytes → Str
  pub chars : Str → List ℕ
  pub is_alphanumeric : ℕ → Bool
  pub fill : ℕ → ℕ → ℕ
  -- Whether there is a directory of keys that can be removed.
  pub removable : Bool
  pub drawn : Drawn
  pub nonce : Bytes
  pub elapsed : ℕ

-- The files of keys.
pub record Disk : Type 0 where
  pub keys : Option Bytes
  pub mldsa_keys : KeysFile

abbrev pub Lines : Type 0
Lines = List Str

abbrev pub Command : Type 0
Command = Disk → Option (Disk × Result Lines Lines)

-- `eprintln!` and `exit(1)` on an error, or the rest.
abbrev pub or_exit : Result Str (Unit {0}) → Str → Command → Command
or_exit (ok done) prefix rest disk = rest disk
or_exit (err e) prefix rest disk = some (disk, err ((prefix ++ e) ∷ []))

abbrev pub exit_if : Bool → Str → Command → Command
exit_if true line rest disk = some (disk, err (line ∷ []))
exit_if false line rest disk = rest disk

module _ (host : Host) where
  open host use {
    crypto, crate, env, text, lossy, chars, is_alphanumeric, fill, removable, drawn, nonce, elapsed,
  }

  abbrev pub validated : Str → Command → Command
  validated key_id rest =
      or_exit (validate_key_id chars is_alphanumeric key_id) (str "Invalid key_id: ") rest

  -- `get_vault` in front of what is done with it.
  abbrev pub with_vault : Str → (Vault → Command) → Command
  with_vault passphrase rest disk = elim (get_vault crypto env disk.keys passphrase) [
    | none ↦ none
    | some v ↦ rest v disk
  ]

  -- `persist` and then the lines.
  abbrev pub persisted : Str → Lines → Vault → Command
  persisted passphrase lines v disk =
      Option.map (λ file. (record disk { keys = file }, ok lines))
        (persist crypto env v passphrase disk.keys)

  abbrev pub generated_lines : Str → Str → Lines
  generated_lines key_id public_key =
      (str "Generated keypair: " ++ key_id) ∷ (str "Public key: " ++ public_key) ∷ []

  abbrev pub init_with : Str → Str → Vault → Command
  init_with passphrase key_id v disk =
      let (w, pair) = QuantumKernel.generate_keypair crypto key_id drawn v in
      elim pair [
        | none ↦ none
        | some (public_key, secret_key) ↦
            persisted passphrase (generated_lines key_id public_key) w disk
      ]

  abbrev pub init : Str → Str → Command
  init passphrase key_id = validated key_id (with_vault passphrase (init_with passphrase key_id))

  -- `expect` panics on an error.
  abbrev pub encrypted_lines :
      Disk → Vault × Option Bytes × Result Str Ciphertext → Option (Disk × Result Lines Lines)
  encrypted_lines disk (w, file, err e) = none
  encrypted_lines disk (w, file, ok ct) = some (
    record disk { keys = file },
    ok ((str "Ciphertext: " ++ ct.ciphertext) ∷ (str "Nonce: " ++ ct.nonce) ∷ []),
  )

  abbrev pub encrypt_with : Str → Str → Str → Vault → Command
  encrypt_with passphrase key_id message v disk =
      PersistentVault.store_encrypted crypto env key_id message drawn nonce elapsed passphrase
        disk.keys v
      >>= encrypted_lines disk

  abbrev pub encrypt : Str → Str → Str → Command
  encrypt passphrase key_id message = validated key_id (
      exit_if (ltb (1024 * 1024) (length message)) (str "Data too large (max 1MB)")
        (with_vault passphrase (encrypt_with passphrase key_id message)))

  abbrev pub decrypted_lines : Disk → Vault × Result Str Bytes → Option (Disk × Result Lines Lines)
  decrypted_lines disk (w, err e) = some (disk, err ((str "Decryption failed: " ++ e) ∷ []))
  decrypted_lines disk (w, ok plain) = some (disk, ok (lossy plain ∷ []))

  abbrev pub decrypt_with : Str → Str → Ciphertext → Vault → Command
  decrypt_with passphrase key_id ct v disk =
      PersistentVault.retrieve_decrypted crypto env key_id ct elapsed passphrase disk.keys v
      >>= decrypted_lines disk

  abbrev pub decrypt : Str → Str → Str → Str → Command
  decrypt passphrase key_id ciphertext nonce_text = validated key_id (
      with_vault passphrase (
        decrypt_with passphrase key_id
          (record { nonce = nonce_text; ciphertext = ciphertext; key_id = key_id })))

  abbrev pub bulleted : Lines → Lines
  bulleted names = map (λ name. str "  - " ++ name) names

  abbrev pub listed : Str → Str → Lines → Lines
  listed none_line some_line [] = none_line ∷ []
  listed none_line some_line (name ∷ names) = some_line ∷ bulleted (name ∷ names)

  abbrev pub stored_names : Lines → Lines
  stored_names names =
      listed (str "No keys stored") (str "Stored keys:")
        (filter (λ name. not (starts_with_reserved name)) names)

  abbrev pub list_with : Vault → Command
  list_with v disk =
      Option.map (λ names. (disk, ok (stored_names names))) (QuantumKernel.list_keypairs crypto v).1

  abbrev pub list_keys : Str → Command
  list_keys passphrase = with_vault passphrase list_with

  abbrev pub delete_with : Str → Str → Vault → Command
  delete_with passphrase key_id v =
      persisted passphrase ((str "Deleted key: " ++ key_id) ∷ [])
        (QuantumKernel.remove_keypair crypto key_id v).0

  abbrev pub delete_key : Str → Str → Command
  delete_key passphrase key_id =
      validated key_id (with_vault passphrase (delete_with passphrase key_id))

  abbrev pub clear_cache : Command
  clear_cache disk = some (
    if removable then record { keys = none; mldsa_keys = missing } else disk,
    ok (str "Vault cleared (all keys removed)" ∷ []),
  )
