-- ===== src/McpGateway/Secrets.antt =====
-- src/mcp_gateway.rs: what an answer gives away, and how one request stops the server.
use mathlib.Core.Option
use abir_guard.Base.{
  ◌≡◌, refl, ap, ◌∙◌, arith, true, false, Option, none, some, List, [], ◌∷◌, ◌++◌, Bytes, Str, str,
  bytes_eq, bytes_eq_refl, Result, ok,
}
use abir_guard.QuantumKernel
use abir_guard.QuantumKernel.{Crypto, Ciphertext, Vault, KeyEntry, find_key}
use abir_guard.QuantumKernel.Calls
use abir_guard.QuantumKernel.Calls.{Call, step, panics, settle}
use abir_guard.QuantumKernel.Poison.{Locks, retrieve_poisons}
use abir_guard.Base.Json.{Value, string, boolean, texts, members, get}
use abir_guard.McpGateway.{
  McpRequest, McpServer, Draws, Method, Handler, required, param, answered, decrypted, succeeded,
  method_of, dispatch, respond, handle,
}
use abir_guard.McpGateway.Calls.{
  call_of, required_call, calls_of, run, run-calls_of, answered_vault,
}
use abir_guard.McpGateway.Roundtrip.{request}

abbrev pub generate_request : Option Value → Str → McpRequest
generate_request id key_id = request (str "generate_key") id ((str "key_id", string key_id) ∷ [])

-- A request to decrypt that names no nonce.
abbrev pub bare_request : Option Value → Str → Str → McpRequest
bare_request id key_id text =
    request (str "decrypt") id
      ((str "key_id", string key_id) ∷ (str "ciphertext", string text) ∷ [])

find_key_last :
    (id : Str) (keys : List KeyEntry) (entry : KeyEntry)
    → entry.id ≡ id
    → find_key id keys ≡ none
    → find_key id (keys ++ entry ∷ []) ≡ some entry.secret
unfolding find_key
find_key_last id [] entry same fresh = rw (ap (λ k. bytes_eq k id) same ∙ bytes_eq_refl id) refl
find_key_last id (first ∷ keys) entry same fresh = ground (arith, find_key_last id keys entry same)

module _ (crypto : Crypto) (lossy : Bytes → Str) where
  -- With base64 that decodes what it encodes: a server whose vault is not poisoned and has no key
  -- for the identifier answers `generate_key` with a text that decodes to the public key of the pair
  -- that it has drawn and, beside it, one that decodes to the secret key of that pair, which is then
  -- the key of the vault for the identifier.
  pub generate_key_reveals :
      ((b : Bytes) → crypto.decode (crypto.encode b) ≡ ok b)
      → (draws : Draws) (id : Option Value) (key_id : Str) (s : McpServer)
      → s.vault.poisoned ≡ false
      → find_key key_id s.vault.keys ≡ none
      → let after = handle crypto lossy draws (generate_request id key_id) s in
        (public_text : Str) × (secret_text : Str) × (after.1
          ≡ some (
              respond crypto lossy id (
                ok (
                  members (
                    (str "key_id", string key_id)
                    ∷ (str "public_key", texts (public_text ∷ secret_text ∷ []))
                    ∷ (str "generated", boolean true)
                    ∷ [])))))
        × (crypto.decode public_text ≡ ok draws.drawn.0)
        × (crypto.decode secret_text ≡ ok draws.drawn.1)
        × (find_key key_id after.0.vault.keys ≡ some draws.drawn.1)
  unfolding method_of bytes_eq get QuantumKernel.generate_keypair
  generate_key_reveals base64 draws id key_id s clean fresh = (
    crypto.encode draws.drawn.0,
    crypto.encode draws.drawn.1,
    rw clean refl,
    base64 draws.drawn.0,
    base64 draws.drawn.1,
    rw clean (find_key_last key_id s.vault.keys _ refl fresh),
  )

  answered-panics :
      {A : Type 0} (f : A → Value) (r : Vault × Option (Result Str A))
      → panics r.1 ≡ true
      → (answered f r).1 ≡ none
  answered-panics f (v, none) h = refl
  answered-panics f (v, some a) h = absurd cc

  succeeded-panics :
      {A : Type 0} (f : A → Value) (r : Vault × Option A)
      → panics r.1 ≡ true
      → (succeeded f r).1 ≡ none
  succeeded-panics f (v, none) h = refl
  succeeded-panics f (v, some a) h = absurd cc

  required-panics :
      (o : Option Str) (msg : Str) (rest : Str → Handler) (calls : Str → List Call) (c : Call)
      (v : Vault)
      → required_call o calls ≡ c ∷ []
      → ((text : Str) → calls text ≡ c ∷ [] → (rest text v).1 ≡ none)
      → (required o msg rest v).1 ≡ none
  required-panics none msg rest calls c v h each = absurd cc
  required-panics (some text) msg rest calls c v h each = each text h

  -- The call of a list of one call.
  same_panics :
      (c d : Call) (v : Vault)
      → d ∷ [] ≡ c ∷ []
      → (step crypto c v).1 ≡ true
      → (step crypto d v).1 ≡ true
  same_panics c d v h bad = (let same : d ≡ c = cc in ap (λ e. (step crypto e v).1) same ∙ bad)

  dispatch-panics :
      (method : Method) (draws : Draws) (req : McpRequest) (c : Call) (v : Vault)
      → call_of method draws req ≡ c ∷ []
      → (step crypto c v).1 ≡ true
      → (dispatch crypto lossy method draws req v).1 ≡ none
  dispatch-panics Method.generate_key draws req c v h bad =
      required-panics (param (str "key_id") req) _ _ _ c v h
        λ id here. succeeded-panics _ _ (same_panics c _ v here bad)
  dispatch-panics Method.encrypt draws req c v h bad =
      required-panics (param (str "key_id") req) _ _ _ c v h λ id here.
        required-panics (param (str "data") req) _ _ _ c v here
          λ text there. answered-panics _ _ (same_panics c _ v there bad)
  dispatch-panics Method.decrypt draws req c v h bad =
      required-panics (param (str "key_id") req) _ _ _ c v h λ id here.
        required-panics (param (str "ciphertext") req) _ _ _ c v here
          λ text there. answered-panics _ _ (same_panics c _ v there bad)
  dispatch-panics Method.list_keys draws req c v h bad =
      succeeded-panics _ _ (same_panics c _ v h bad)
  dispatch-panics Method.delete_key draws req c v h bad =
      required-panics (param (str "key_id") req) _ _ _ c v h
        λ id here. succeeded-panics _ _ (same_panics c _ v here bad)
  dispatch-panics Method.clear_cache draws req c v h bad = absurd cc
  dispatch-panics Method.info draws req c v h bad = absurd cc
  dispatch-panics Method.unknown draws req c v h bad = absurd cc

  -- One request stops the server. With base64 that decodes the empty text to nothing: on a server
  -- whose vault is not poisoned, `decrypt` without a nonce, under an identifier that has a key,
  -- panics, and after any further requests each request whose call comes as far as the lock of the
  -- vault panics too.
  pub handle_poisons :
      (draws draws' : Draws) (id : Option Value) (key_id text : Str) (s : McpServer)
      (requests : List (Draws × McpRequest)) (req : McpRequest) (c : Call) {secret : Bytes}
      → crypto.decode [] ≡ ok []
      → s.vault.poisoned ≡ false
      → find_key key_id s.vault.keys ≡ some secret
      → call_of (method_of req.method) draws' req ≡ c ∷ []
      → Locks crypto c
      → let after = handle crypto lossy draws (bare_request id key_id text) s in
        (after.1 ≡ none)
        × ((handle crypto lossy draws' req (run crypto lossy requests after.0)).1 ≡ none)
  unfolding method_of bytes_eq get
  handle_poisons draws draws' id key_id text s requests req c base64 clean found call locks =
      let after = handle crypto lossy draws (bare_request id key_id text) s in
      let ct : Ciphertext = record { nonce = []; ciphertext = text; key_id = key_id } in
      let tried = QuantumKernel.retrieve crypto key_id ct draws.elapsed s.vault in
      let (first, later) =
        retrieve_poisons crypto key_id ct draws.elapsed s.vault (calls_of requests) c clean found
          base64 (λ e. absurd (omega (arith, e))) locks in
      let same : (run crypto lossy requests after.0).vault
          ≡ Calls.run crypto (calls_of requests) tried.0 =
        (run-calls_of crypto lossy requests after.0).0
        ∙ ap (Calls.run crypto (calls_of requests))
            (answered_vault crypto lossy (decrypted crypto lossy) tried) in
      (
        ap (Option.map (respond crypto lossy id))
            (answered-panics (decrypted crypto lossy) tried (ap panics first)),
        ap (Option.map (respond crypto lossy req.id)) (
            dispatch-panics (method_of req.method) draws' req c _ call
              (ap (λ (v : Vault). (step crypto c v).1) same ∙ later)),
      )
