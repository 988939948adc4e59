-- ===== src/Cli/Frame/Each.antt =====
-- src/main.rs: each command, and `main`, keeps the files of keys that it does not write.
use abir_guard.Base.{
  refl, Bool, true, false, inl, inr, Option, none, some, [], ◌∷◌, ◌++◌, Bytes, Str, str, Result, ok,
  err, ltb, length, ◌*◌,
}
use abir_guard.MlDsa
use abir_guard.QuantumKernel
use abir_guard.QuantumKernel.{Ciphertext, Vault}
use abir_guard.PersistentVault.{get_vault, store_encrypted, retrieve_decrypted}
use abir_guard.PersistentVault.Signing.{list_mldsa_keys}
use abir_guard.Cli
use abir_guard.Cli.Shares
use abir_guard.Cli.Mldsa
use abir_guard.Cli.KeyId.{validate_key_id}
use abir_guard.Cli.{Host, Disk, Command, Lines, or_exit}
use abir_guard.Cli.Main.{
  Commands, init, encrypt, decrypt, list_keys, delete_key, clear_cache, mcp_server, shamir_split,
  shamir_join, mldsa_init, mldsa_sign, mldsa_verify, mldsa_list, info, Process, main, command_of,
  get_passphrase, usage_lines, info_lines, run_server, message_or_line,
}
use abir_guard.Cli.Frame.{
  writes_keys, writes_mldsa_keys, EachFramed, unchanged, keys_written, after_some, elim_some,
  mapped, or_exit-EachFramed, exit_if-EachFramed, without_files-EachFramed,
}

module _ (host : Host) (process : Process) where
  open host use {crypto, env, chars, is_alphanumeric}
  open process use {sha3, value_to_string}

  module _ (keys mldsa_keys : Bool) (before : Disk) where
    validated-EachFramed :
        (key_id : Str) (rest : Command)
        → EachFramed keys mldsa_keys before (rest before)
        → EachFramed keys mldsa_keys before (Cli.validated host key_id rest before)
    validated-EachFramed key_id rest =
        or_exit-EachFramed keys mldsa_keys before (validate_key_id chars is_alphanumeric key_id)
          (str "Invalid key_id: ") rest

    with_vault-EachFramed :
        (passphrase : Str) (rest : Vault → Command)
        → ((v : Vault) → EachFramed keys mldsa_keys before (rest v before))
        → EachFramed keys mldsa_keys before (Cli.with_vault host passphrase rest before)
    with_vault-EachFramed passphrase rest =
        elim_some keys mldsa_keys before (get_vault crypto env before.keys passphrase)
          (λ v. rest v before)

  persisted-EachFramed :
      (before : Disk) (passphrase : Str) (lines : Lines) (v : Vault)
      → EachFramed true false before (Cli.persisted host passphrase lines v before)
  persisted-EachFramed before passphrase lines v =
      mapped true false before _ _ (λ file. keys_written false before file lines)

  encrypted_lines-EachFramed :
      (before : Disk) (r : Vault × Option Bytes × Result Str QuantumKernel.Ciphertext)
      → EachFramed true false before (Cli.encrypted_lines host before r)
  encrypted_lines-EachFramed before (w, file, err e) = tt
  encrypted_lines-EachFramed before (w, file, ok ct) = keys_written false before file _

  decrypted_lines-EachFramed :
      (before : Disk) (r : Vault × Result Str Bytes)
      → EachFramed false false before (Cli.decrypted_lines host before r)
  decrypted_lines-EachFramed before (w, err e) = unchanged false false before _
  decrypted_lines-EachFramed before (w, ok plain) = unchanged false false before _

  clear_cache-EachFramed :
      (before : Disk) → EachFramed true true before (Cli.clear_cache host before)
  clear_cache-EachFramed before = record {
    same_keys = inl refl;
    same_mldsa_keys = inl refl;
    undone = inl (_, refl);
  }

  init_pair-EachFramed :
      (before : Disk) (passphrase : Str) (key_id : Option Str)
      (r : Result MlDsa.MldsaError MlDsa.MldsaKeypair)
      → EachFramed false true before
          (Mldsa.init_pair host sha3 value_to_string passphrase key_id r before)
  init_pair-EachFramed before passphrase key_id (err e) = tt
  init_pair-EachFramed before passphrase none (ok kp) = unchanged false true before _
  init_pair-EachFramed before passphrase (some id) (ok kp) =
      validated-EachFramed false true before id _ (
        mapped false true before _ _ λ written. record {
          same_keys = inr refl;
          same_mldsa_keys = inl refl;
          undone = inl (_, refl);
        })

  sign_with-EachFramed :
      (before : Disk) (passphrase key_id : Str) (message : Option Bytes)
      → EachFramed false false before
          (Mldsa.sign_with host sha3 value_to_string passphrase key_id message before)
  sign_with-EachFramed before passphrase key_id none = tt
  sign_with-EachFramed before passphrase key_id (some message) =
      mapped false false before _ _ (λ r. unchanged false false before _)

  verify_decoded-EachFramed :
      (before : Disk) (passphrase key_id : Str) (message : Bytes) (r : Result Str Bytes)
      → EachFramed false false before
          (Mldsa.verify_decoded host sha3 value_to_string passphrase key_id message r before)
  verify_decoded-EachFramed before passphrase key_id message (err e) = tt
  verify_decoded-EachFramed before passphrase key_id message (ok signature) =
      mapped false false before _ _ (λ r. unchanged false false before _)

  init-EachFramed :
      (before : Disk) (passphrase key_id : Str)
      → EachFramed true false before (Cli.init host passphrase key_id before)
  init-EachFramed before passphrase key_id =
      let rest = Cli.init_with host passphrase key_id in
      validated-EachFramed true false before key_id (Cli.with_vault host passphrase rest) (
        with_vault-EachFramed true false before passphrase rest λ v.
          let (w, pair) = QuantumKernel.generate_keypair crypto key_id host.drawn v in
          elim_some true false before pair
            (λ (r : Str × Str).
              Cli.persisted host passphrase (Cli.generated_lines host key_id r.0) w before)
            (λ r. persisted-EachFramed before passphrase (Cli.generated_lines host key_id r.0) w))

  encrypt-EachFramed :
      (before : Disk) (passphrase key_id message : Str)
      → EachFramed true false before (Cli.encrypt host passphrase key_id message before)
  encrypt-EachFramed before passphrase key_id message =
      let rest = Cli.encrypt_with host passphrase key_id message in
      let large = ltb (1024 * 1024) (length message) in
      let loaded = Cli.with_vault host passphrase rest in
      validated-EachFramed true false before key_id
        (Cli.exit_if large (str "Data too large (max 1MB)") loaded)
        (exit_if-EachFramed true false before large (str "Data too large (max 1MB)") loaded (
          with_vault-EachFramed true false before passphrase rest λ v.
            after_some true false before
              (store_encrypted crypto env key_id message host.drawn host.nonce host.elapsed
                passphrase before.keys v)
              (Cli.encrypted_lines host before) (encrypted_lines-EachFramed before)))

  decrypt-EachFramed :
      (before : Disk) (passphrase key_id ciphertext nonce : Str)
      → EachFramed false false before (Cli.decrypt host passphrase key_id ciphertext nonce before)
  decrypt-EachFramed before passphrase key_id ciphertext nonce =
      let ct : Ciphertext = record { nonce = nonce; ciphertext = ciphertext; key_id = key_id } in
      let rest = Cli.decrypt_with host passphrase key_id ct in
      validated-EachFramed false false before key_id (Cli.with_vault host passphrase rest) (
        with_vault-EachFramed false false before passphrase rest λ v.
          after_some false false before
            (retrieve_decrypted crypto env key_id ct host.elapsed passphrase before.keys v)
            (Cli.decrypted_lines host before) (decrypted_lines-EachFramed before))

  list_keys-EachFramed :
      (before : Disk) (passphrase : Str)
      → EachFramed false false before (Cli.list_keys host passphrase before)
  list_keys-EachFramed before passphrase =
      with_vault-EachFramed false false before passphrase (Cli.list_with host) λ v.
        mapped false false before (QuantumKernel.list_keypairs crypto v).1
          (λ names. (before, ok (Cli.stored_names host names)))
          (λ names. unchanged false false before (ok (Cli.stored_names host names)))

  delete_key-EachFramed :
      (before : Disk) (passphrase key_id : Str)
      → EachFramed true false before (Cli.delete_key host passphrase key_id before)
  delete_key-EachFramed before passphrase key_id =
      let rest = Cli.delete_with host passphrase key_id in
      validated-EachFramed true false before key_id (Cli.with_vault host passphrase rest) (
        with_vault-EachFramed true false before passphrase rest λ v.
          persisted-EachFramed before passphrase ((str "Deleted key: " ++ key_id) ∷ [])
            (QuantumKernel.remove_keypair crypto key_id v).0)

  command_of-EachFramed :
      (before : Disk) (passphrase : Str) (command : Option Commands)
      → EachFramed
          (writes_keys command)
          (writes_mldsa_keys command)
          before
          (command_of host process passphrase command before)
  command_of-EachFramed before passphrase none =
      unchanged false false before (ok (usage_lines process.version))
  command_of-EachFramed before passphrase (some (init key_id)) =
      init-EachFramed before passphrase key_id
  command_of-EachFramed before passphrase (some (encrypt key_id message)) =
      encrypt-EachFramed before passphrase key_id message
  command_of-EachFramed before passphrase (some (decrypt key_id ciphertext nonce)) =
      decrypt-EachFramed before passphrase key_id ciphertext nonce
  command_of-EachFramed before passphrase (some list_keys) = list_keys-EachFramed before passphrase
  command_of-EachFramed before passphrase (some (delete_key key_id)) =
      delete_key-EachFramed before passphrase key_id
  command_of-EachFramed before passphrase (some clear_cache) = clear_cache-EachFramed before
  command_of-EachFramed before passphrase (some (mcp_server mode)) =
      without_files-EachFramed false false before (run_server host process mode)
  command_of-EachFramed before passphrase (some (shamir_split secret threshold shares)) =
      without_files-EachFramed false false before (Shares.shamir_split host secret threshold shares)
  command_of-EachFramed before passphrase (some (shamir_join texts)) =
      without_files-EachFramed false false before (Shares.shamir_join host texts)
  command_of-EachFramed before passphrase (some (mldsa_init key_id)) =
      init_pair-EachFramed before passphrase key_id (MlDsa.generate_keypair host.crate)
  command_of-EachFramed before passphrase (some (mldsa_sign key_id message)) =
      let given = message_or_line host process message in
      validated-EachFramed false false before key_id
        (Mldsa.sign_with host sha3 value_to_string passphrase key_id given)
        (sign_with-EachFramed before passphrase key_id given)
  command_of-EachFramed before passphrase (some (mldsa_verify key_id message signature)) =
      let decoded = crypto.decode signature in
      validated-EachFramed false false before key_id
        (Mldsa.verify_decoded host sha3 value_to_string passphrase key_id message decoded)
        (verify_decoded-EachFramed before passphrase key_id message decoded)
  command_of-EachFramed before passphrase (some mldsa_list) =
      mapped false false before
        (list_mldsa_keys crypto host.crate env host.text passphrase before.mldsa_keys)
        (λ r. (before, ok (Mldsa.list_lines host sha3 value_to_string r)))
        (λ r. unchanged false false before (ok (Mldsa.list_lines host sha3 value_to_string r)))
  command_of-EachFramed before passphrase (some info) =
      unchanged false false before (ok (info_lines process.version))

  -- Whatever command is given, with whatever arguments: unless it panics, only `init`, `encrypt`,
  -- `delete-key` and `clear-cache` can change the file of the vault, only `mldsa-init` and
  -- `clear-cache` that of the ML-DSA keys, and a command that exits with 1 changes neither.
  pub main-EachFramed :
      (key : Option Str) (command : Option Commands) (before : Disk)
      → EachFramed
          (writes_keys command)
          (writes_mldsa_keys command)
          before
          (main host process key command before)
  main-EachFramed key command before = command_of-EachFramed before (get_passphrase key) command
