-- ===== src/PersistentVault/Kept.antt =====
-- src/persistent_vault.rs: store_encrypted, and get_vault and retrieve_decrypted in a later run.
use abir_guard.Base.{
  ℕ, ◌≤◌, ◌≡◌, refl, ap, ◌∙◌, true, false, Option, some, List, [], ◌∷◌, map, Bytes, Str,
  bytes_eq_refl, length, All, Result, ok, Option-cases, inl, inr,
}
use abir_guard.QuantumKernel
use abir_guard.QuantumKernel.{
  Crypto, Ciphertext, KeyEntry, Drawn, Vault, find_key, find_or_generate, list_keypairs,
  export_keys,
}
use abir_guard.QuantumKernel.Stored.{
  decrypt-encrypt, store_lem, retrieve_lem, find_or_generate_found,
}
use abir_guard.PersistentVault.Encoded.{find_or_generate-IsEncoded}
use abir_guard.PersistentVault.Reload.{
  find_last, or_else-none, stored_entry, exported_entries, import_all-find_last,
  read_keys-write_keys,
}
use abir_guard.PersistentVault.Reopen.{
  IsLoaded, get_vault-IsLoaded, find_or_generate-IsUnique, contains_id_found, import_missing_none,
}
use abir_guard.PersistentVault.{
  StoredKey, Environment, get_vault, persist, import_all, contains_id, load_additional_keys,
  store_encrypted, retrieve_decrypted,
}

-- Each entry's identifier has a last entry.
Last : List KeyEntry → KeyEntry → Type 0
Last keys e = (s : Bytes) × (find_last e.id keys ≡ some s)

Last-cons :
    (e : KeyEntry) (keys rest : List KeyEntry) → All (Last keys) rest → All (Last (e ∷ keys)) rest
unfolding Last
Last-cons e keys [] h = tt
Last-cons e keys (r ∷ rest) h = ((h.0.0, rw (h.0.1) refl), Last-cons e keys rest h.1)

each-Last : (keys : List KeyEntry) → All (Last keys) keys
unfolding Last
each-Last [] = tt
each-Last (e ∷ keys) = (
  elim (Option-cases (find_last e.id keys)) [
    | inl fresh ↦ (e.secret, rw (fresh, find_last, bytes_eq_refl e.id) refl)
    | inr (s, found) ↦ (s, rw (found, find_last) refl)
  ],
  Last-cons e keys keys (each-Last keys),
)

contained :
    (crypto : Crypto) (ws vs : List KeyEntry)
    → ((id : Bytes) → find_key id ws ≡ find_last id vs)
    → (keys : List KeyEntry) → All (Last vs) keys
    → All
        (λ (k : StoredKey). contains_id (map (λ (e : KeyEntry). e.id) ws) k.key_id ≡ true)
        (map (stored_entry crypto) keys)
unfolding Last
contained crypto ws vs found [] h = tt
contained crypto ws vs found (e ∷ keys) h =
    (contains_id_found crypto e.id ws (found e.id ∙ h.0.1), contained crypto ws vs found keys h.1)

module _ (crypto : Crypto) (env : Environment) (passphrase : Str) {key : Bytes}
    (derived : env.argon2 passphrase env.salt ≡ some key)
    (cipher : (plain : Bytes)
      → (c : Bytes) × (crypto.seal key env.nonce plain ≡ some c)
        × (crypto.unseal key env.nonce c ≡ ok plain)
        × (16 ≤ length c))
    (salted : length env.salt ≡ 16) (fresh : length env.nonce ≡ 12)
    (base64 : (b : Bytes) → crypto.decode (crypto.encode b) ≡ ok b)
    (serde : (stored : List StoredKey)
      → (plain : Bytes) × (env.to_vec stored ≡ some plain) × (env.from_slice plain ≡ some stored))
    (writable : env.writable ≡ true) where
  -- A vault with encoded keys that is written and loaded gives each identifier its last key, and
  -- a second load of the file changes nothing.
  reopened :
      (v : Vault) (file : Option Bytes)
      → IsLoaded crypto v
      → (file' : Option Bytes) × (w : Vault) × (persist crypto env v passphrase file ≡ some file')
        × (get_vault crypto env file' passphrase ≡ some w)
        × (load_additional_keys crypto env file' passphrase w ≡ some w)
        × (w.poisoned ≡ false)
        × ((id : Bytes) → find_key id w.keys ≡ find_key id v.keys)
  unfolding persist get_vault export_keys load_additional_keys list_keypairs find_key
  reopened v file loaded_v =
      let stored = map (stored_entry crypto) v.keys in
      let (plain, encoded, decoded) = serde stored in
      let (file', written, loaded) =
        read_keys-write_keys crypto env passphrase derived cipher salted fresh stored file encoded
          decoded writable in
      let w = import_all crypto stored QuantumKernel.new in
      let each = λ (id : Bytes).
        import_all-find_last crypto id v.keys QuantumKernel.new loaded_v.encoded refl in
      let clean = (each []).0 in
      let last : (id : Bytes) → find_key id w.keys ≡ find_last id v.keys =
        λ id. (each id).1 ∙ or_else-none (find_last id v.keys) in
      let there = contained crypto w.keys v.keys last v.keys (each-Last v.keys) in
      (
        file',
        w,
        rw (loaded_v.clean, exported_entries crypto v.keys) written,
        rw (loaded, get_vault) refl,
        rw (loaded, load_additional_keys, clean)
            (ap some (import_missing_none crypto _ stored w there)),
        clean,
        λ id. last id ∙ loaded_v.unique id,
      )

  module _ (plaintext nonce : Bytes)
      (opens : (k : Bytes)
        → (c : Bytes) × (crypto.seal k nonce plaintext ≡ some c)
          × (crypto.unseal k nonce c ≡ ok plaintext))
      (twelve : length nonce ≡ 12) (elapsed elapsed' : ℕ) (soon : elapsed ≤ 200)
      (soon' : elapsed' ≤ 200) where
    -- With base64 and serde that read what they write, a key derivation and ciphers that succeed,
    -- ciphers that open what they seal, where the one of the file adds a tag of 16 bytes, a salt of
    -- 16 and nonces of 12 bytes, a disk that can be written and no call over the time limit: what
    -- `store_encrypted` encrypts in a vault that any file has given, under any identifier in UTF-8,
    -- `retrieve_decrypted` decrypts in the vault that `get_vault` gives for the file that it
    -- leaves.
    pub retrieve_decrypted-store_encrypted :
        (id : Str) (drawn : Drawn) (before file : Option Bytes) (v : Vault)
        → crypto.from_utf8 id ≡ ok id
        → get_vault crypto env before passphrase ≡ some v
        → (ct : Ciphertext) × (w : Vault) × (file' : Option Bytes) × (x : Vault) × (y : Vault)
          × (store_encrypted crypto env id plaintext drawn nonce elapsed passphrase file v
              ≡ some (w, file', ok ct))
          × (get_vault crypto env file' passphrase ≡ some x)
          × (retrieve_decrypted crypto env id ct elapsed' passphrase file' x
              ≡ some (y, ok plaintext))
    unfolding store_encrypted retrieve_decrypted
    retrieve_decrypted-store_encrypted id drawn before file v utf8 got =
        let loaded = get_vault-IsLoaded crypto env before passphrase got in
        let (keys, secret) = find_or_generate crypto id id drawn v.keys in
        let w : Vault = record v { keys = keys } in
        let (ct, encrypted, decrypted) =
          decrypt-encrypt crypto base64 nonce plaintext opens twelve elapsed elapsed' soon soon'
            secret in
        let stored =
          store_lem crypto id plaintext drawn nonce elapsed v utf8 loaded.clean encrypted in
        let after = ap (λ (r : Vault × Option (Result Str Ciphertext)). r.0) stored in
        let loaded_w : IsLoaded crypto w = record {
          clean = loaded.clean;
          encoded = find_or_generate-IsEncoded crypto base64 id id drawn v.keys loaded.encoded;
          unique = find_or_generate-IsUnique crypto id drawn v.keys loaded.unique;
        } in
        let (file', x, persisted, opened, again, clean, found) = reopened w file loaded_w in
        let there = found id ∙ find_or_generate_found crypto id drawn v.keys in
        let answer = retrieve_lem crypto id ct elapsed' x clean there decrypted in
        let y = (QuantumKernel.retrieve crypto id ct elapsed' x).0 in
        (
          ct,
          w,
          file',
          x,
          y,
          rw (stored, store_encrypted, after, persisted) refl,
          opened,
          rw (again, retrieve_decrypted, answer) refl,
        )
