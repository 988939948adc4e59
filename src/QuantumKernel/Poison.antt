-- ===== src/QuantumKernel/Poison.antt =====
-- src/quantum_kernel.rs: `retrieve` decrypts with the lock held, and a nonce of the wrong length
-- makes the cipher panic there.
use abir_guard.Base.{
  ℕ, ◌≡◌, ◌≢◌, refl, true, false, none, some, List, [], ◌∷◌, Bytes, Str, length, ◌==◌, ==_iff,
  Bool-cases, inl, inr, ok, arith,
}
use abir_guard.QuantumKernel
use abir_guard.QuantumKernel.{Crypto, Drawn, Ciphertext, Vault, find_key, decrypt}
use abir_guard.QuantumKernel.Calls.{
  Call, generate_keypair, store, retrieve, list_keypairs, export_keys, remove_keypair, import_key,
  step, run,
}

module _ (crypto : Crypto) where
  -- The calls that get as far as the lock: their texts can be decoded.
  abbrev pub Locks : Call → Type 0
  Locks (store id plaintext drawn nonce elapsed) = (text : Str) × (crypto.from_utf8 id ≡ ok text)
  Locks (import_key id public_key secret_key) =
      (secret : Bytes) × (crypto.decode secret_key ≡ ok secret)
  Locks c = Unit {0}

  step-poisoned : (c : Call) (v : Vault) → v.poisoned ≡ true → ((step crypto c v).0.poisoned ≡ true)
  unfolding QuantumKernel.generate_keypair QuantumKernel.store QuantumKernel.retrieve
      QuantumKernel.list_keypairs QuantumKernel.export_keys QuantumKernel.remove_keypair
      QuantumKernel.import_key
  step-poisoned (generate_keypair id drawn) v h = ground arith
  step-poisoned (store id plaintext drawn nonce elapsed) v h = ground arith
  step-poisoned (retrieve id ct elapsed) v h = ground arith
  step-poisoned list_keypairs v h = ground arith
  step-poisoned export_keys v h = ground arith
  step-poisoned (remove_keypair id) v h = ground arith
  step-poisoned (import_key id public_key secret_key) v h = ground arith

  step_panics : (c : Call) (v : Vault) → v.poisoned ≡ true → Locks c → (step crypto c v).1 ≡ true
  unfolding QuantumKernel.generate_keypair QuantumKernel.store QuantumKernel.retrieve
      QuantumKernel.list_keypairs QuantumKernel.export_keys QuantumKernel.remove_keypair
      QuantumKernel.import_key
  step_panics (generate_keypair id drawn) v h locks = ground arith
  step_panics (store id plaintext drawn nonce elapsed) v h (text, e) =
      rw (e, QuantumKernel.store, h) refl
  step_panics (retrieve id ct elapsed) v h locks = ground arith
  step_panics list_keypairs v h locks = ground arith
  step_panics export_keys v h locks = ground arith
  step_panics (remove_keypair id) v h locks = ground arith
  step_panics (import_key id public_key secret_key) v h (secret, e) =
      rw (e, QuantumKernel.import_key, h) refl

  run-poisoned :
      (calls : List Call) (v : Vault) → v.poisoned ≡ true → (run crypto calls v).poisoned ≡ true
  unfolding run
  run-poisoned [] v h = h
  run-poisoned (c ∷ calls) v h = run-poisoned calls (step crypto c v).0 (step-poisoned c v h)

  -- One ciphertext whose nonce decodes to other than 12 bytes, given to `retrieve` under an
  -- identifier that has a key, panics and leaves the vault unusable: after any further calls, each
  -- call that comes as far as the lock panics too.
  pub retrieve_poisons :
      (id : Bytes) (ct : Ciphertext) (elapsed : ℕ) (v : Vault) (calls : List Call) (c : Call)
      {secret nonce : Bytes}
      → v.poisoned ≡ false
      → find_key id v.keys ≡ some secret
      → crypto.decode ct.nonce ≡ ok nonce
      → length nonce ≢ 12
      → Locks c
      → ((QuantumKernel.retrieve crypto id ct elapsed v).1 ≡ none)
        × ((step crypto c (run crypto calls (QuantumKernel.retrieve crypto id ct elapsed v).0)).1
            ≡ true)
  unfolding QuantumKernel.retrieve decrypt
  retrieve_poisons id ct elapsed v calls c {nonce = nonce} clean found decoded wrong locks =
      elim (Bool-cases (length nonce == 12)) [
        | inl right ↦ absurd (wrong ((==_iff (length nonce) 12).0 right))
        | inr other ↦
            rw (clean, found, QuantumKernel.retrieve, decoded, decrypt, other)
              (refl, step_panics c _ (run-poisoned calls (record v { poisoned = true }) refl) locks)
      ]
