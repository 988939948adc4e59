-- ===== src/McpGateway/Calls.antt =====
-- Sequences of requests: the server is its vault under the calls that the requests stand for.
use abir_guard.Base.{
  ◌+◌, ◌%◌, ◌≡◌, refl, sym, ap, ◌∙◌, arith, Option, none, some, List, [], ◌∷◌, ◌++◌, Bytes, Str,
  str, length, Result, ok, err,
}
use abir_guard.Base.Numbers.{u64}
use abir_guard.QuantumKernel.{Crypto, Vault}
use abir_guard.QuantumKernel.Calls
use abir_guard.QuantumKernel.Calls.{Call, step}
use abir_guard.Base.Json.{Value}
use abir_guard.McpGateway.{
  McpRequest, McpServer, Method, Draws, Handler, method_of, required, param, unwrap_or_empty,
  answered, succeeded, dispatch, handle,
}

abbrev pub required_call : Option Str → (Str → List Call) → List Call
required_call none rest = []
required_call (some text) rest = rest text

-- The vault's call that a request stands for, if it comes to one.
abbrev pub call_of : Method → Draws → McpRequest → List Call
call_of Method.generate_key draws req =
    required_call (param (str "key_id") req) λ id. Call.generate_keypair id draws.drawn ∷ []
call_of Method.encrypt draws req = required_call (param (str "key_id") req) λ id.
    required_call (param (str "data") req)
      λ text. Call.store id text draws.drawn draws.nonce draws.elapsed ∷ []
call_of Method.decrypt draws req = required_call (param (str "key_id") req) λ id.
    required_call (param (str "ciphertext") req) λ text.
      Call.retrieve id
        (record {
          nonce = unwrap_or_empty (param (str "nonce") req);
          ciphertext = text;
          key_id = id;
        })
        draws.elapsed
      ∷ []
call_of Method.list_keys draws req = Call.list_keypairs ∷ []
call_of Method.delete_key draws req =
    required_call (param (str "key_id") req) λ id. Call.remove_keypair id ∷ []
call_of method draws req = []

abbrev pub calls_of : List (Draws × McpRequest) → List Call
calls_of [] = []
calls_of ((draws, req) ∷ requests) = call_of (method_of req.method) draws req ++ calls_of requests

module _ (crypto : Crypto) (lossy : Bytes → Str) where
  -- A request that panics leaves what it has done.
  unfoldable pub run : List (Draws × McpRequest) → McpServer → McpServer
  run [] s = s
  run ((draws, req) ∷ requests) s = run requests (handle crypto lossy draws req s).0

  pub answered_vault :
      {A : Type 0} (f : A → Value) (r : Vault × Option (Result Str A)) → (answered f r).0 ≡ r.0
  answered_vault f (v, none) = refl
  answered_vault f (v, some (err e)) = refl
  answered_vault f (v, some (ok a)) = refl

  succeeded_vault : {A : Type 0} (f : A → Value) (r : Vault × Option A) → (succeeded f r).0 ≡ r.0
  succeeded_vault f (v, none) = refl
  succeeded_vault f (v, some a) = refl

  settled : {A : Type 0} (r : Vault × Option A) → (Calls.settle r).0 ≡ r.0
  settled (v, o) = refl

  required-run :
      (o : Option Str) (msg : Str) (rest : Str → Handler) (calls : Str → List Call) (v : Vault)
      → ((text : Str) → (rest text v).0 ≡ Calls.run crypto (calls text) v)
      → (required o msg rest v).0 ≡ Calls.run crypto (required_call o calls) v
  unfolding Calls.run
  required-run none msg rest calls v each = refl
  required-run (some text) msg rest calls v each = each text

  dispatch-run :
      (method : Method) (draws : Draws) (req : McpRequest) (v : Vault)
      → (dispatch crypto lossy method draws req v).0 ≡ Calls.run crypto (call_of method draws req) v
  unfolding Calls.run
  dispatch-run Method.generate_key draws req v =
      required-run (param (str "key_id") req) _ _ _ v λ id. succeeded_vault _ _
  dispatch-run Method.encrypt draws req v =
      required-run (param (str "key_id") req) _ _ _ v
        λ id. required-run (param (str "data") req) _ _ _ v λ text. answered_vault _ _
  dispatch-run Method.decrypt draws req v =
      required-run (param (str "key_id") req) _ _ _ v
        λ id. required-run (param (str "ciphertext") req) _ _ _ v λ text. answered_vault _ _
  dispatch-run Method.list_keys draws req v = succeeded_vault _ _
  dispatch-run Method.delete_key draws req v =
      required-run (param (str "key_id") req) _ _ _ v λ id. succeeded_vault _ _
  dispatch-run Method.clear_cache draws req v = refl
  dispatch-run Method.info draws req v = refl
  dispatch-run Method.unknown draws req v = refl

  run_append :
      (cs ds : List Call) (v : Vault)
      → Calls.run crypto (cs ++ ds) v ≡ Calls.run crypto ds (Calls.run crypto cs v)
  unfolding Calls.run
  run_append [] ds v = refl
  run_append (c ∷ cs) ds v = run_append cs ds (step crypto c v).0

  -- A server refines its vault: after any requests, of known and unknown methods, with and without
  -- their params, panicking ones among them, its vault is what the calls of the vault that the
  -- requests stand for make of the vault alone, and it has counted them, modulo 2 ^ 64.
  pub run-calls_of :
      (requests : List (Draws × McpRequest)) (s : McpServer)
      → ((run requests s).vault ≡ Calls.run crypto (calls_of requests) s.vault)
        × ((run requests s).request_count % u64 ≡ (s.request_count + length requests) % u64)
  unfolding run Calls.run
  run-calls_of [] s = (refl, omega arith)
  run-calls_of ((draws, req) ∷ requests) s =
      let next = (handle crypto lossy draws req s).0 in
      let (vault, count) = run-calls_of requests next in
      (
        vault
            ∙ ap (Calls.run crypto (calls_of requests))
                (dispatch-run (method_of req.method) draws req s.vault)
            ∙ sym
                (run_append (call_of (method_of req.method) draws req) (calls_of requests) s.vault),
        omega (arith, count),
      )
