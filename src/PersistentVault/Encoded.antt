-- ===== src/PersistentVault/Encoded.antt =====
-- src/quantum_kernel.rs: the text of each secret key in a vault decodes to the key.
use abir_guard.Base.{
  ◌≡◌, inl, inr, List, [], ◌∷◌, ◌++◌, Bytes, Str, All, Result-cases, ok, arith, Bool-cases,
}
use abir_guard.QuantumKernel
use abir_guard.QuantumKernel.{
  Crypto, KeyEntry, KeyPair, Drawn, Vault, find_key, find_or_generate, retain_others, export_keys,
  import_key,
}
use abir_guard.QuantumKernel.Calls.{
  Call, generate_keypair, store, retrieve, list_keypairs, remove_keypair, step, run,
}

module _ (crypto : Crypto) where
  -- The stored text of each secret key decodes to the key.
  abbrev pub IsEncoded : List KeyEntry → Type 0
  IsEncoded = All (λ entry. crypto.decode entry.pair.secret_key ≡ ok entry.secret)

  -- Each call keeps the stored texts decodable.
  pub IsEncoded-append :
      (keys : List KeyEntry) (entry : KeyEntry)
      → IsEncoded keys
      → crypto.decode entry.pair.secret_key ≡ ok entry.secret
      → IsEncoded (keys ++ entry ∷ [])
  IsEncoded-append [] entry h e = (e, tt)
  IsEncoded-append (first ∷ keys) entry h e = (h.0, IsEncoded-append keys entry h.1 e)

  pub IsEncoded-retain_others :
      (id : Bytes) (keys : List KeyEntry) → IsEncoded keys → IsEncoded (retain_others id keys)
  IsEncoded-retain_others id [] h = tt
  IsEncoded-retain_others id (entry ∷ keys) h = ground (arith, IsEncoded-retain_others id keys h.1)

  module _ (decode-encode : (b : Bytes) → crypto.decode (crypto.encode b) ≡ ok b) where
    pub find_or_generate-IsEncoded :
        (key_id : Bytes) (text : Str) (drawn : Drawn) (keys : List KeyEntry)
        → IsEncoded keys
        → IsEncoded (find_or_generate crypto key_id text drawn keys).0
    unfolding find_or_generate
    find_or_generate-IsEncoded key_id text drawn keys h =
        let (pair, secret) = QuantumKernel.keygen crypto drawn in
        let entry : KeyEntry = record { id = text; pair = pair; secret = secret } in
        ground (arith, IsEncoded-append keys entry h (decode-encode secret))

    step-IsEncoded : (c : Call) (v : Vault) → IsEncoded v.keys → IsEncoded (step crypto c v).0.keys
    unfolding QuantumKernel.generate_keypair QuantumKernel.store QuantumKernel.retrieve
        QuantumKernel.list_keypairs export_keys QuantumKernel.remove_keypair import_key
        find_or_generate
    step-IsEncoded (generate_keypair id drawn) v h =
        let (pair, secret) = QuantumKernel.keygen crypto drawn in
        let entry : KeyEntry = record { id = id; pair = pair; secret = secret } in
        ground (arith, IsEncoded-append v.keys entry h (decode-encode secret))
    step-IsEncoded (store id plaintext drawn nonce elapsed) v h =
        elim (Result-cases (crypto.from_utf8 id)) [
          | inl (e, bad) ↦ rw (bad, QuantumKernel.store) h
          | inr (text, good) ↦ elim (Bool-cases v.poisoned) [
            | inl locked ↦ rw (good, QuantumKernel.store, locked) h
            | inr free_lock ↦
                rw (good, QuantumKernel.store, free_lock)
                  (find_or_generate-IsEncoded id text drawn v.keys h)
          ]
        ]
    step-IsEncoded (retrieve id ct elapsed) v h = ground arith
    step-IsEncoded list_keypairs v h = ground arith
    step-IsEncoded Call.export_keys v h = ground arith
    step-IsEncoded (remove_keypair id) v h = ground (arith, IsEncoded-retain_others id v.keys h)
    step-IsEncoded (Call.import_key id public_key secret_key) v h =
        elim (Result-cases (crypto.decode secret_key)) [
          | inl (e, bad) ↦ rw (bad, import_key) h
          | inr (secret, good) ↦ elim (Bool-cases v.poisoned) [
            | inl locked ↦ rw (good, import_key, locked) h
            | inr free_lock ↦
                let pair : KeyPair = record { public_key = public_key; secret_key = secret_key } in
                rw (good, import_key, free_lock)
                  (IsEncoded-append (retain_others id v.keys)
                    (record { id = id; pair = pair; secret = secret })
                    (IsEncoded-retain_others id v.keys h) good)
          ]
        ]

    pub run-IsEncoded :
        (calls : List Call) (v : Vault) → IsEncoded v.keys → IsEncoded (run crypto calls v).keys
    unfolding run
    run-IsEncoded [] v h = h
    run-IsEncoded (c ∷ calls) v h = run-IsEncoded calls (step crypto c v).0 (step-IsEncoded c v h)
