-- ===== src/PersistentVault/Reload.antt =====
-- src/persistent_vault.rs: what a vault holds after it was persisted and loaded again.
use abir_guard.Base.{
  ◌≤◌, ◌≡◌, ◌≢◌, inl, inr, refl, sym, ap, ◌∙◌, Bool, true, false, Option, none, some, List, [], ◌∷◌,
  ◌++◌, map, Bytes, Str, ltb, if◌then◌else◌, bytes_eq, bytes_eq_iff, length, length-append, take,
  skip, take-append, skip-append, ok, arith, Bool-cases,
}
use abir_guard.Kdf.{derive_key, derive_key_with_salt}
use abir_guard.QuantumKernel
use abir_guard.QuantumKernel.{
  Crypto, KeyEntry, Drawn, Vault, find_key, find_or_generate, retain_others, export_keys,
  import_key,
}
use abir_guard.QuantumKernel.Calls.{Call, run}
use abir_guard.QuantumKernel.Stored.{find_key-retain_others}
use abir_guard.PersistentVault.Encoded.{IsEncoded, run-IsEncoded}
use abir_guard.PersistentVault.{
  StoredKey, Environment, encrypt_data, decrypt_data, read_keys, import_all, get_vault, stored_key,
  write_keys, persist,
}

-- The secret key of the last entry of an identifier.
abbrev pub find_last : Bytes → List KeyEntry → Option Bytes
find_last id [] = none
find_last id (entry ∷ keys) = elim (find_last id keys) [
  | some secret ↦ some secret
  | none ↦ if bytes_eq entry.id id then some entry.secret else none
]

abbrev pub or_else : Option Bytes → Option Bytes → Option Bytes
or_else (some a) other = some a
or_else none other = other

pub or_else-none : (o : Option Bytes) → or_else o none ≡ o
or_else-none none = refl
or_else-none (some a) = refl

pub find_key_snoc :
    (id : Bytes) (keys : List KeyEntry) (entry : KeyEntry)
    → find_key id (keys ++ entry ∷ [])
      ≡ or_else (find_key id keys) (if bytes_eq entry.id id then some entry.secret else none)
unfolding find_key
find_key_snoc id [] entry = ground arith
find_key_snoc id (first ∷ keys) entry = ground (arith, find_key_snoc id keys entry)

find_key_gone : (id : Bytes) (keys : List KeyEntry) → find_key id (retain_others id keys) ≡ none
unfolding find_key
find_key_gone id [] = refl
find_key_gone id (entry ∷ keys) = ground (arith, find_key_gone id keys)

-- The keys after an import, as they are found.
pub find_key_imported :
    (id : Bytes) (keys : List KeyEntry) (entry : KeyEntry)
    → find_key id (retain_others entry.id keys ++ entry ∷ [])
      ≡ (if bytes_eq entry.id id then some entry.secret else find_key id keys)
find_key_imported id keys entry = elim (Bool-cases (bytes_eq entry.id id)) [
  | inl same ↦
      let eq : entry.id ≡ id = (bytes_eq_iff entry.id id).0 same in
      let gone : find_key id (retain_others entry.id keys) ≡ none =
        ap (λ k. find_key id (retain_others k keys)) eq ∙ find_key_gone id keys in
      find_key_snoc id (retain_others entry.id keys) entry ∙ rw (gone, same)
  | inr other ↦
      let apart : entry.id ≢ id = λ e. (let x = (bytes_eq_iff entry.id id).1 e in absurd cc) in
      find_key_snoc id (retain_others entry.id keys) entry
      ∙ rw (find_key-retain_others id entry.id keys apart, other) (or_else-none (find_key id keys))
]

or_else_step :
    (last : Option Bytes) (same : Bool) (secret : Bytes) (found before : Option Bytes)
    → found ≡ (if same then some secret else before)
    → or_else last found
      ≡ or_else (elim last [ some s ↦ some s | none ↦ if same then some secret else none ]) before
or_else_step (some s) same secret found before h = refl
or_else_step none true secret found before h = h
or_else_step none false secret found before h = h

module _ (crypto : Crypto) where
  abbrev pub stored_entry : KeyEntry → StoredKey
  stored_entry entry = record {
    key_id = entry.id;
    public_key = entry.pair.public_key;
    secret_key = entry.pair.secret_key;
  }

  pub exported_entries :
      (keys : List KeyEntry)
      → map stored_key (map (λ (e : KeyEntry). (e.id, e.pair.public_key, e.pair.secret_key)) keys)
        ≡ map stored_entry keys
  exported_entries [] = refl
  exported_entries (entry ∷ keys) = ap (λ rest. stored_entry entry ∷ rest) (exported_entries keys)

  pub import_lem :
      (entry : KeyEntry) (v : Vault)
      → v.poisoned ≡ false
      → crypto.decode entry.pair.secret_key ≡ ok entry.secret
      → (import_key crypto entry.id entry.pair.public_key entry.pair.secret_key v).0
        ≡ record v { keys = retain_others entry.id v.keys ++ entry ∷ [] }
  unfolding import_key
  import_lem entry v clean decoded = ground arith

  pub import_all-find_last :
      (id : Bytes) (keys : List KeyEntry) (v : Vault)
      → IsEncoded crypto keys
      → v.poisoned ≡ false
      → let w = import_all crypto (map stored_entry keys) v in
        (w.poisoned ≡ false)
        × (find_key id w.keys ≡ or_else (find_last id keys) (find_key id v.keys))
  unfolding import_all
  import_all-find_last id [] v encoded clean = (clean, refl)
  import_all-find_last id (entry ∷ keys) v encoded clean =
      let imported = import_lem entry v clean encoded.0 in
      let next : Vault = record v { keys = retain_others entry.id v.keys ++ entry ∷ [] } in
      let (clean', found) = import_all-find_last id keys next encoded.1 clean in
      let here = find_key_imported id v.keys entry in
      let whole = ap (import_all crypto (map stored_entry keys)) imported in
      (
        ap (λ (w : Vault). w.poisoned) whole ∙ clean',
        ap (λ (w : Vault). find_key id w.keys) whole
            ∙ found
            ∙ or_else_step (find_last id keys) (bytes_eq entry.id id) entry.secret _
                (find_key id v.keys) here,
      )

  module _ (env : Environment) (passphrase : Str) {key : Bytes}
      (derived : env.argon2 passphrase env.salt ≡ some key)
      (cipher : (plain : Bytes)
        → (c : Bytes) × (crypto.seal key env.nonce plain ≡ some c)
          × (crypto.unseal key env.nonce c ≡ ok plain)
          × (16 ≤ length c))
      (salted : length env.salt ≡ 16) (fresh : length env.nonce ≡ 12) where
    pub decrypt_data-encrypt_data :
        (plain : Bytes)
        → (blob : Bytes) × (encrypt_data crypto plain key env.nonce ≡ some blob)
          × (decrypt_data crypto blob key ≡ ok plain)
          × (28 ≤ length blob)
    unfolding encrypt_data decrypt_data
    decrypt_data-encrypt_data plain =
        let (c, sealed, opened, tagged) = cipher plain in
        let nonce = env.nonce in
        let long : 28 ≤ length (nonce ++ c) = omega (arith, length-append nonce c) in
        let front : take 12 (nonce ++ c) ≡ nonce =
          ap (λ n. take n (nonce ++ c)) (sym fresh) ∙ take-append nonce c in
        let back : skip 12 (nonce ++ c) ≡ c =
          ap (λ n. skip n (nonce ++ c)) (sym fresh) ∙ skip-append nonce c in
        let enough : ltb (length (nonce ++ c)) 28 ≡ false = ground arith in
        (nonce ++ c, rw sealed, rw (enough, front, back, opened), long)

    read_keys-blob :
        (blob plain : Bytes)
        → decrypt_data crypto blob key ≡ ok plain
        → 28 ≤ length blob
        → read_keys crypto env (some (env.salt ++ blob)) passphrase ≡ some (env.from_slice plain)
    unfolding read_keys derive_key_with_salt derive_key
    read_keys-blob blob plain decrypted long =
        let salt = env.salt in
        let front : take 16 (salt ++ blob) ≡ salt =
          ap (λ n. take n (salt ++ blob)) (sym salted) ∙ take-append salt blob in
        let back : skip 16 (salt ++ blob) ≡ blob =
          ap (λ n. skip n (salt ++ blob)) (sym salted) ∙ skip-append salt blob in
        let enough : ltb (length (salt ++ blob)) 44 ≡ false =
          (let size = length-append salt blob in ground arith) in
        rw (enough, front, derived, back, decrypted)

    -- Writing a list of keys and reading the file that it leaves.
    pub read_keys-write_keys :
        (stored : List StoredKey) {plain : Bytes} (file : Option Bytes)
        → env.to_vec stored ≡ some plain
        → env.from_slice plain ≡ some stored
        → env.writable ≡ true
        → (file' : Option Bytes) × (write_keys crypto env stored passphrase file ≡ some file')
          × (read_keys crypto env file' passphrase ≡ some (some stored))
    unfolding write_keys derive_key
    read_keys-write_keys stored {plain} file encoded decoded writable =
        let (blob, encrypted, decrypted, long) = decrypt_data-encrypt_data plain in
        (
          some (env.salt ++ blob),
          rw (encoded, write_keys, derived, encrypted, writable),
          read_keys-blob blob plain decrypted long ∙ ap some decoded,
        )

    -- With base64 and serde that read what they write, a key derivation and a cipher that succeed,
    -- a cipher that opens what it seals and adds a tag of 16 bytes, a salt of 16 and a nonce of 12
    -- bytes and a disk that can be written: after any calls on a new vault that do not poison it,
    -- the file that `persist` leaves, whatever was there before, gives by `get_vault` with the same
    -- passphrase a vault in which each identifier has the key that was the last in the list for it.
    pub persist-get_vault :
        (calls : List Call) (id : Bytes) (file : Option Bytes)
        → ((b : Bytes) → crypto.decode (crypto.encode b) ≡ ok b)
        → ((stored : List StoredKey)
            → (plain : Bytes) × (env.to_vec stored ≡ some plain)
              × (env.from_slice plain ≡ some stored))
        → env.writable ≡ true
        → (run crypto calls QuantumKernel.new).poisoned ≡ false
        → (file' : Option Bytes) × (w : Vault) × (persist crypto env
              (run crypto calls QuantumKernel.new)
              passphrase
              file
            ≡ some file')
          × (get_vault crypto env file' passphrase ≡ some w)
          × (w.poisoned ≡ false)
          × (find_key id w.keys ≡ find_last id (run crypto calls QuantumKernel.new).keys)
    unfolding persist get_vault export_keys find_key
    persist-get_vault calls id file base64 serde writable clean =
        let v = run crypto calls QuantumKernel.new in
        let stored = map stored_entry v.keys in
        let (plain, encoded, decoded) = serde stored in
        let (file', written, loaded) = read_keys-write_keys stored file encoded decoded writable in
        let (clean', found) =
          import_all-find_last id v.keys QuantumKernel.new
            (run-IsEncoded crypto base64 calls QuantumKernel.new tt) refl in
        (
          file',
          import_all crypto stored QuantumKernel.new,
          rw (clean, exported_entries v.keys) written,
          rw (loaded, get_vault) refl,
          clean',
          found ∙ or_else-none (find_last id v.keys),
        )
