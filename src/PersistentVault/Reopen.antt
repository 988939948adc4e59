-- ===== src/PersistentVault/Reopen.antt =====
-- src/persistent_vault.rs: a vault that was loaded has one key for each identifier, and what was
-- encrypted with it is decrypted by a vault that is loaded later.
use abir_guard.Base.{
  ◌≡◌, ◌≢◌, inl, inr, refl, sym, ap, subst, ◌∙◌, true, false, ◌⊎◌, Option, none, some, List, [],
  ◌∷◌, ◌++◌, map, Bytes, Str, if◌then◌else◌, bytes_eq, bytes_eq_iff, All, arith, Bool-cases,
  Option-cases, Result-cases,
}
use abir_guard.QuantumKernel
use abir_guard.QuantumKernel.{
  Crypto, KeyEntry, Drawn, Vault, find_key, find_or_generate, retain_others, import_key,
}
use abir_guard.PersistentVault.{
  Environment, read_keys, get_vault, StoredKey, import_all, import_missing, contains_id,
}
use abir_guard.PersistentVault.Encoded.{IsEncoded, IsEncoded-append, IsEncoded-retain_others}
use abir_guard.PersistentVault.Reload.{
  find_last, or_else, or_else-none, find_key_snoc, find_key_imported,
}

-- The first entry of each identifier is its last one.
abbrev pub IsUnique : List KeyEntry → Type 0
IsUnique keys = (id : Bytes) → find_last id keys ≡ find_key id keys

find_last_snoc :
    (id : Bytes) (keys : List KeyEntry) (entry : KeyEntry)
    → find_last id (keys ++ entry ∷ [])
      ≡ (if bytes_eq entry.id id then some entry.secret else find_last id keys)
find_last_snoc id [] entry = refl
find_last_snoc id (first ∷ keys) entry = ground (arith, find_last_snoc id keys entry)

find_last-retain_others :
    (id other : Bytes) (keys : List KeyEntry)
    → other ≢ id
    → find_last id (retain_others other keys) ≡ find_last id keys
find_last-retain_others id other [] apart = refl
find_last-retain_others id other (entry ∷ keys) apart = ground (
  arith,
  bytes_eq_iff entry.id other,
  bytes_eq_iff entry.id id,
  find_last-retain_others id other keys apart,
)

IsUnique-imported :
    (keys : List KeyEntry) (entry : KeyEntry)
    → IsUnique keys
    → IsUnique (retain_others entry.id keys ++ entry ∷ [])
IsUnique-imported keys entry unique id =
    find_last_snoc id (retain_others entry.id keys) entry
    ∙ go (Bool-cases (bytes_eq entry.id id))
    ∙ sym (find_key_imported id keys entry)
  where
    go :
        (bytes_eq entry.id id ≡ true) ⊎ (bytes_eq entry.id id ≡ false)
        → (if bytes_eq entry.id id
            then some entry.secret
            else find_last id (retain_others entry.id keys))
          ≡ (if bytes_eq entry.id id then some entry.secret else find_key id keys)
    go (inl same) = rw same refl
    go (inr other) = rw other (
        find_last-retain_others id entry.id keys
          (λ e. (let x = (bytes_eq_iff entry.id id).1 e in absurd cc))
        ∙ unique id)

IsUnique-added :
    (keys : List KeyEntry) (entry : KeyEntry)
    → find_key entry.id keys ≡ none
    → IsUnique keys
    → IsUnique (keys ++ entry ∷ [])
IsUnique-added keys entry fresh unique id =
    find_last_snoc id keys entry
    ∙ go (Bool-cases (bytes_eq entry.id id))
    ∙ sym (find_key_snoc id keys entry)
  where
    go :
        (bytes_eq entry.id id ≡ true) ⊎ (bytes_eq entry.id id ≡ false)
        → (if bytes_eq entry.id id then some entry.secret else find_last id keys)
          ≡ or_else (find_key id keys) (if bytes_eq entry.id id then some entry.secret else none)
    go (inl same) =
        let gone : find_key id keys ≡ none =
          ap (λ k. find_key k keys) (sym ((bytes_eq_iff entry.id id).0 same)) ∙ fresh in
        rw (same, gone) refl
    go (inr other) = rw other (unique id ∙ sym (or_else-none (find_key id keys)))

module _ (crypto : Crypto) where
  -- What a load gives, and what an encryption makes of it.
  pub record IsLoaded (v : Vault) : Type 0 where
    pub clean : v.poisoned ≡ false
    pub encoded : IsEncoded crypto v.keys
    pub unique : IsUnique v.keys

  new-IsLoaded : IsLoaded QuantumKernel.new
  unfolding find_key
  new-IsLoaded = record { clean = refl; encoded = tt; unique = λ id. refl }

  import_key-IsLoaded :
      (key_id public_key secret_key : Str) (v : Vault)
      → IsLoaded v
      → IsLoaded (import_key crypto key_id public_key secret_key v).0
  unfolding import_key
  import_key-IsLoaded key_id public_key secret_key v loaded =
      elim (Result-cases (crypto.decode secret_key)) [
        | inl (e, bad) ↦ rw (bad, import_key) loaded
        | inr (secret, good) ↦
            let entry : KeyEntry = record {
              id = key_id;
              pair = record { public_key = public_key; secret_key = secret_key };
              secret = secret;
            } in
            let clean = loaded.clean in
            rw (good, import_key, clean)
              (record {
                clean = refl;
                encoded =
                    IsEncoded-append crypto (retain_others key_id v.keys) entry
                      (IsEncoded-retain_others crypto key_id v.keys loaded.encoded) good;
                unique = IsUnique-imported v.keys entry loaded.unique;
              })
      ]

  import_all-IsLoaded :
      (stored : List StoredKey) (v : Vault) → IsLoaded v → IsLoaded (import_all crypto stored v)
  unfolding import_all
  import_all-IsLoaded [] v loaded = loaded
  import_all-IsLoaded (key ∷ stored) v loaded =
      import_all-IsLoaded stored _
        (import_key-IsLoaded key.key_id key.public_key key.secret_key v loaded)

  pub get_vault-IsLoaded :
      (env : Environment) (file : Option Bytes) (passphrase : Str) {v : Vault}
      → get_vault crypto env file passphrase ≡ some v
      → IsLoaded v
  unfolding get_vault
  get_vault-IsLoaded env file passphrase {v} h = go (read_keys crypto env file passphrase) refl
    where
      go :
          (r : Option (Option (List StoredKey)))
          → read_keys crypto env file passphrase ≡ r
          → IsLoaded v
      go none e = absurd (let x = rw (e, get_vault) at h in cc)
      go (some none) e =
          (let x = rw (e, get_vault) at h in
            let same : QuantumKernel.new ≡ v = cc in subst IsLoaded same new-IsLoaded)
      go (some (some stored)) e =
          (let x = rw (e, get_vault) at h in
            let same : import_all crypto stored QuantumKernel.new ≡ v = cc in
            subst IsLoaded same (import_all-IsLoaded stored QuantumKernel.new new-IsLoaded))

  -- The keys once `store` has the one that it encrypts with.
  pub find_or_generate-IsUnique :
      (id : Bytes) (drawn : Drawn) (keys : List KeyEntry)
      → IsUnique keys
      → IsUnique (find_or_generate crypto id id drawn keys).0
  unfolding find_or_generate
  find_or_generate-IsUnique id drawn keys unique =
      let (pair, secret) = QuantumKernel.keygen crypto drawn in
      let entry : KeyEntry = record { id = id; pair = pair; secret = secret } in
      elim (Option-cases (find_key id keys)) [
        | inl fresh ↦ rw (fresh, find_or_generate) (IsUnique-added keys entry fresh unique)
        | inr (known, found) ↦ rw (found, find_or_generate) unique
      ]

  -- Each stored identifier is there, and then a second load brings nothing.
  pub contains_id_found :
      (id : Str) (keys : List KeyEntry) {secret : Bytes}
      → find_key id keys ≡ some secret
      → contains_id (map (λ (e : KeyEntry). e.id) keys) id ≡ true
  unfolding contains_id find_key
  contains_id_found id [] found = absurd cc
  contains_id_found id (entry ∷ keys) {secret = secret} found =
      ground (arith, contains_id_found id keys {secret = secret})

  pub import_missing_none :
      (existing : List Str) (stored : List StoredKey) (v : Vault)
      → All (λ (k : StoredKey). contains_id existing k.key_id ≡ true) stored
      → import_missing crypto existing stored v ≡ v
  unfolding import_missing
  import_missing_none existing [] v all = refl
  import_missing_none existing (key ∷ stored) v all =
      ap (import_missing crypto existing stored) (rw all.0 refl)
      ∙ import_missing_none existing stored v all.1
