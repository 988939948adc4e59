-- ===== src/QuantumKernel/Stored.antt =====
-- src/quantum_kernel.rs: what is stored under an identifier is retrieved under it, whatever is
-- called in between that does not replace or remove the key.
use abir_guard.Base.{
  ℕ, ◌≤◌, ◌≡◌, ◌≢◌, inl, inr, refl, ap, ◌∙◌, false, Option, none, some, List, [], ◌∷◌, ◌++◌, Bytes,
  Str, bytes_eq_iff, length, All, Result, Result-cases, ok, arith, Bool-cases, Option-cases,
}
use abir_guard.QuantumKernel
use abir_guard.QuantumKernel.{
  Crypto, Drawn, Ciphertext, KeyEntry, Vault, find_key, retain_others, find_or_generate, encrypt,
  open_with, decrypt, aes_key,
}
use abir_guard.QuantumKernel.Calls.{
  Call, generate_keypair, store, retrieve, list_keypairs, export_keys, remove_keypair, import_key,
  step, run,
}

-- A key once found stays the first one when keys are added at the end.
pub find_key-append :
    (id secret : Bytes) (keys more : List KeyEntry)
    → find_key id keys ≡ some secret
    → find_key id (keys ++ more) ≡ some secret
unfolding find_key
find_key-append id secret [] more h = absurd cc
find_key-append id secret (entry ∷ keys) more h =
    ground (arith, find_key-append id secret keys more)

-- Without the entries of another identifier the key is the same.
pub find_key-retain_others :
    (id other : Bytes) (keys : List KeyEntry)
    → other ≢ id
    → find_key id (retain_others other keys) ≡ find_key id keys
unfolding find_key
find_key-retain_others id other [] ne = refl
find_key-retain_others id other (entry ∷ keys) ne = ground (
  arith,
  bytes_eq_iff entry.id other,
  bytes_eq_iff entry.id id,
  find_key-retain_others id other keys ne,
)

-- The calls that may replace or remove the key of an identifier.
abbrev pub Leaves : Str → Call → Type 0
Leaves id (remove_keypair other) = other ≢ id
Leaves id (import_key other public_key secret_key) = other ≢ id
Leaves id c = Unit {0}

module _ (crypto : Crypto) where
  pub find_or_generate-find_key :
      (id secret key_id : Bytes) (text : Str) (drawn : Drawn) (keys : List KeyEntry)
      → find_key id keys ≡ some secret
      → find_key id (find_or_generate crypto key_id text drawn keys).0 ≡ some secret
  unfolding find_or_generate
  find_or_generate-find_key id secret key_id text drawn keys h =
      let (pair, drawn_secret) = QuantumKernel.keygen crypto drawn in
      let entry : KeyEntry = record { id = text; pair = pair; secret = drawn_secret } in
      ground (arith, find_key-append id secret keys (entry ∷ []) h)

  step-find_key :
      (id secret : Bytes) (c : Call) (v : Vault)
      → Leaves id c
      → find_key id v.keys ≡ some secret
      → find_key id (step crypto c v).0.keys ≡ some secret
  unfolding QuantumKernel.generate_keypair QuantumKernel.store QuantumKernel.retrieve
      QuantumKernel.list_keypairs QuantumKernel.export_keys QuantumKernel.remove_keypair
      QuantumKernel.import_key
  step-find_key id secret (generate_keypair other drawn) v free h =
      let (pair, drawn_secret) = QuantumKernel.keygen crypto drawn in
      let entry : KeyEntry = record { id = other; pair = pair; secret = drawn_secret } in
      ground (arith, find_key-append id secret v.keys (entry ∷ []))
  step-find_key id secret (store other plaintext drawn nonce elapsed) v free h =
      elim (Result-cases (crypto.from_utf8 other)) [
        | inl (e, bad) ↦ rw (bad, QuantumKernel.store) h
        | inr (text, good) ↦ elim (Bool-cases v.poisoned) [
          | inl locked ↦ rw (good, QuantumKernel.store, locked) h
          | inr free_lock ↦
              rw (good, QuantumKernel.store, free_lock)
                (find_or_generate-find_key id secret other text drawn v.keys h)
        ]
      ]
  step-find_key id secret (retrieve other ct elapsed) v free h = ground arith
  step-find_key id secret list_keypairs v free h = ground arith
  step-find_key id secret export_keys v free h = ground arith
  step-find_key id secret (remove_keypair other) v free h =
      ground (arith, find_key-retain_others id other v.keys free)
  step-find_key id secret (import_key other public_key secret_key) v free h =
      let entry : Bytes → KeyEntry = λ secret'. record {
        id = other;
        pair = record { public_key = public_key; secret_key = secret_key };
        secret = secret';
      } in
      elim (Result-cases (crypto.decode secret_key)) [
        | inl (e, bad) ↦ rw (bad, QuantumKernel.import_key) h
        | inr (new_secret, good) ↦ elim (Bool-cases v.poisoned) [
          | inl locked ↦ rw (good, QuantumKernel.import_key, locked) h
          | inr free_lock ↦
              rw (good, QuantumKernel.import_key, free_lock)
                (find_key-append id secret (retain_others other v.keys) (entry new_secret ∷ [])
                  (find_key-retain_others id other v.keys free ∙ h))
        ]
      ]

  run-find_key :
      (id secret : Bytes) (calls : List Call) (v : Vault)
      → All (Leaves id) calls
      → find_key id v.keys ≡ some secret
      → find_key id (run crypto calls v).keys ≡ some secret
  unfolding run
  run-find_key id secret [] v free h = h
  run-find_key id secret (c ∷ calls) v free h =
      run-find_key id secret calls (step crypto c v).0 free.1 (step-find_key id secret c v free.0 h)

  find_key-append_new :
      (id : Bytes) (keys : List KeyEntry) (entry : KeyEntry)
      → find_key id keys ≡ none
      → entry.id ≡ id
      → find_key id (keys ++ entry ∷ []) ≡ some entry.secret
  unfolding find_key
  find_key-append_new id [] entry h same = ground (arith, bytes_eq_iff entry.id id)
  find_key-append_new id (first ∷ keys) entry h same =
      ground (arith, find_key-append_new id keys entry)

  -- The key that `store` uses is the one that is found from then on.
  pub find_or_generate_found :
      (id : Bytes) (drawn : Drawn) (keys : List KeyEntry)
      → let (keys', secret) = find_or_generate crypto id id drawn keys in
        find_key id keys' ≡ some secret
  unfolding find_or_generate
  find_or_generate_found id drawn keys =
      let (pair, secret) = QuantumKernel.keygen crypto drawn in
      let entry : KeyEntry = record { id = id; pair = pair; secret = secret } in
      elim (Option-cases (find_key id keys)) [
        | inl fresh ↦ rw (fresh, find_or_generate) (find_key-append_new id keys entry fresh refl)
        | inr (known, found) ↦ rw (found, find_or_generate) found
      ]

  pub store_lem :
      (id plaintext : Bytes) (drawn : Drawn) (nonce : Bytes) (elapsed : ℕ) (v : Vault)
      {ct : Ciphertext}
      → crypto.from_utf8 id ≡ ok id
      → v.poisoned ≡ false
      → encrypt crypto nonce elapsed plaintext (find_or_generate crypto id id drawn v.keys).1
        ≡ some ct
      → QuantumKernel.store crypto id plaintext drawn nonce elapsed v
        ≡ (record v { keys = (find_or_generate crypto id id drawn v.keys).0 }, some (ok ct))
  unfolding QuantumKernel.store
  store_lem id plaintext drawn nonce elapsed v text clean encrypted =
      rw (text, QuantumKernel.store, clean, encrypted)

  pub retrieve_lem :
      (id : Bytes) (ct : Ciphertext) (elapsed : ℕ) (v : Vault) {secret plaintext : Bytes}
      → v.poisoned ≡ false
      → find_key id v.keys ≡ some secret
      → decrypt crypto elapsed ct secret ≡ some (ok plaintext)
      → (QuantumKernel.retrieve crypto id ct elapsed v).1 ≡ some (ok plaintext)
  unfolding QuantumKernel.retrieve
  retrieve_lem id ct elapsed v clean found decrypted =
      rw (clean, found, QuantumKernel.retrieve, decrypted)

  module _ (decode-encode : (b : Bytes) → crypto.decode (crypto.encode b) ≡ ok b)
      (nonce plaintext : Bytes)
      (unseal-seal : (key : Bytes)
        → (c : Bytes) × (crypto.seal key nonce plaintext ≡ some c)
          × (crypto.unseal key nonce c ≡ ok plaintext))
      (twelve : length nonce ≡ 12) (elapsed elapsed' : ℕ) (soon : elapsed ≤ 200)
      (soon' : elapsed' ≤ 200) where
    pub decrypt-encrypt :
        (secret : Bytes)
        → (ct : Ciphertext) × (encrypt crypto nonce elapsed plaintext secret ≡ some ct)
          × (decrypt crypto elapsed' ct secret ≡ some (ok plaintext))
    unfolding encrypt decrypt open_with
    decrypt-encrypt secret =
        let (c, sealed, opened) = unseal-seal (aes_key crypto secret) in
        let ct : Ciphertext = record {
          nonce = crypto.encode nonce;
          ciphertext = crypto.encode c;
          key_id = [];
        } in
        (
          ct,
          rw (sealed, encrypt) (ground arith),
          ground (arith, decode-encode nonce, decode-encode c),
        )

    -- With base64 that decodes what it encodes, a cipher that opens what it seals, a nonce of 12
    -- bytes and no call over the time limit: a vault that is not poisoned encrypts a plaintext
    -- under any identifier in UTF-8, and gives it back after any calls that neither remove nor
    -- import that identifier and do not poison the vault.
    pub retrieve-store :
        (id : Bytes) (drawn : Drawn) (calls : List Call) (v : Vault)
        → crypto.from_utf8 id ≡ ok id
        → v.poisoned ≡ false
        → All (Leaves id) calls
        → (run crypto calls
            (QuantumKernel.store crypto id plaintext drawn nonce elapsed v).0).poisoned
          ≡ false
        → (ct : Ciphertext) × ((QuantumKernel.store crypto id plaintext drawn nonce elapsed v).1
            ≡ some (ok ct))
          × ((QuantumKernel.retrieve crypto id ct elapsed' (
                run crypto calls
                  (QuantumKernel.store crypto id plaintext drawn nonce elapsed v).0)).1
              ≡ some (ok plaintext))
    retrieve-store id drawn calls v text clean free clean' =
        let (keys, secret) = find_or_generate crypto id id drawn v.keys in
        let (ct, encrypted, decrypted) = decrypt-encrypt secret in
        let w : Vault = (QuantumKernel.store crypto id plaintext drawn nonce elapsed v).0 in
        let stored = store_lem id plaintext drawn nonce elapsed v text clean encrypted in
        let there : find_key id w.keys ≡ some secret =
          ap (λ (r : Vault × Option (Result Str Ciphertext)). find_key id r.0.keys) stored
          ∙ find_or_generate_found id drawn v.keys in
        (
          ct,
          ap (λ (r : Vault × Option (Result Str Ciphertext)). r.1) stored,
          retrieve_lem id ct elapsed' (run crypto calls w) clean'
              (run-find_key id secret calls w free there) decrypted,
        )
