-- ===== src/McpGateway/Roundtrip.antt =====
-- src/mcp_gateway.rs: what is encrypted by one request is decrypted by another.
use mathlib.Core.Option
use abir_guard.Base.{
  ℕ, ◌≤◌, ◌≡◌, refl, sym, ap, ◌∙◌, false, Option, none, some, List, [], ◌∷◌, All, Bytes, Str, str,
  bytes_eq, length, Result, ok, err,
}
use abir_guard.QuantumKernel
use abir_guard.QuantumKernel.{Crypto, Ciphertext, Vault}
use abir_guard.QuantumKernel.Calls
use abir_guard.QuantumKernel.Stored.{Leaves, retrieve-store}
use abir_guard.Base.Json.{Value, string, members, get}
use abir_guard.McpGateway.{
  McpRequest, McpServer, Draws, answered, encrypted, decrypted, method_of, respond, handle,
}
use abir_guard.McpGateway.Calls.{calls_of, run, run-calls_of, answered_vault}

abbrev pub request : Str → Option Value → List (Str × Value) → McpRequest
request method id params = record {
  jsonrpc = str "2.0";
  id = id;
  method = method;
  params = members params;
}

abbrev pub encrypt_request : Option Value → Str → Str → McpRequest
encrypt_request id key_id text =
    request (str "encrypt") id ((str "key_id", string key_id) ∷ (str "data", string text) ∷ [])

-- With the nonce and the ciphertext of an answer.
abbrev pub decrypt_request : Option Value → Str → Ciphertext → McpRequest
decrypt_request id key_id ct = request (str "decrypt") id (
    (str "key_id", string key_id)
    ∷ (str "ciphertext", string ct.ciphertext)
    ∷ (str "nonce", string ct.nonce)
    ∷ [])

answered_ok :
    {A : Type 0} (f : A → Value) (r : Vault × Option (Result Str A)) {a : A}
    → r.1 ≡ some (ok a)
    → (answered f r).1 ≡ some (ok (f a))
answered_ok f (v, none) h = absurd cc
answered_ok f (v, some (err e)) h = absurd cc
answered_ok f (v, some (ok a)) h = cc

-- The identifier in a ciphertext is not looked at.
retrieve_other_id :
    (crypto : Crypto) (id other : Str) (ct : Ciphertext) (elapsed : ℕ) (v : Vault)
    → (QuantumKernel.retrieve crypto id (record ct { key_id = other }) elapsed v).1
      ≡ (QuantumKernel.retrieve crypto id ct elapsed v).1
unfolding QuantumKernel.retrieve QuantumKernel.decrypt QuantumKernel.open_with
retrieve_other_id crypto id other ct elapsed v = refl

module _ (crypto : Crypto) (lossy : Bytes → Str)
    (decode-encode : (b : Bytes) → crypto.decode (crypto.encode b) ≡ ok b) (draws draws' : Draws)
    (text : Str)
    (unseal-seal : (key : Bytes)
      → (c : Bytes) × (crypto.seal key draws.nonce text ≡ some c)
        × (crypto.unseal key draws.nonce c ≡ ok text))
    (twelve : length draws.nonce ≡ 12) (soon : draws.elapsed ≤ 200)
    (soon' : draws'.elapsed ≤ 200) where
  -- With base64 that decodes what it encodes, a cipher that opens what it seals, a nonce of 12
  -- bytes, no call over the time limit and a text that is UTF-8: a server whose vault is not
  -- poisoned answers an `encrypt` request, under the id of the request, with a nonce and a
  -- ciphertext, and after any requests that neither delete the key nor poison the vault answers
  -- a `decrypt` request for these, under its id, with the text.
  pub handle-decrypt-encrypt :
      (key_id : Str) (requests : List (Draws × McpRequest)) (s : McpServer) (id id' : Option Value)
      → crypto.from_utf8 key_id ≡ ok key_id
      → lossy text ≡ text
      → s.vault.poisoned ≡ false
      → All (Leaves key_id) (calls_of requests)
      → let first = handle crypto lossy draws (encrypt_request id key_id text) s in
        (run crypto lossy requests first.0).vault.poisoned ≡ false
        → (ct : Ciphertext) × (first.1
            ≡ some (respond crypto lossy id (ok (encrypted crypto lossy ct))))
          × ((handle crypto lossy draws'
                (decrypt_request id' key_id ct)
                (run crypto lossy requests first.0)).1
              ≡ some
                  (respond crypto lossy id' (ok (members ((str "plaintext", string text) ∷ [])))))
  unfolding method_of bytes_eq get
  handle-decrypt-encrypt key_id requests s id id' utf8 kept clean leaves clean' =
      let first = handle crypto lossy draws (encrypt_request id key_id text) s in
      let stored =
        QuantumKernel.store crypto key_id text draws.drawn draws.nonce draws.elapsed s.vault in
      let same : (run crypto lossy requests first.0).vault
          ≡ Calls.run crypto (calls_of requests) stored.0 =
        (run-calls_of crypto lossy requests first.0).0
        ∙ ap (Calls.run crypto (calls_of requests))
            (answered_vault crypto lossy (encrypted crypto lossy) stored) in
      let clean_vault = ap (λ (v : Vault). v.poisoned) (sym same) ∙ clean' in
      let (ct, sealed, opened) =
        retrieve-store crypto decode-encode draws.nonce text unseal-seal twelve draws.elapsed
          draws'.elapsed soon soon' key_id draws.drawn (calls_of requests) s.vault utf8 clean leaves
          clean_vault in
      let there : (QuantumKernel.retrieve crypto key_id (record ct { key_id = key_id })
            draws'.elapsed (run crypto lossy requests first.0).vault).1
          ≡ some (ok text) =
        retrieve_other_id crypto key_id key_id ct draws'.elapsed _
        ∙ ap (λ (v : Vault). (QuantumKernel.retrieve crypto key_id ct draws'.elapsed v).1) same
        ∙ opened in
      (
        ct,
        ap (Option.map (respond crypto lossy id))
            (answered_ok (encrypted crypto lossy) stored sealed),
        ap (Option.map (respond crypto lossy id')) (answered_ok (decrypted crypto lossy) _ there)
            ∙ ap
                (λ t.
                  some (respond crypto lossy id' (ok (members ((str "plaintext", string t) ∷ [])))))
                kept,
      )
