-- ===== src/McpGateway.antt =====
-- src/mcp_gateway.rs: the JSON-RPC server over a vault. `none` is a panic. What a request draws at
-- random and the time it takes are arguments, and so is String::from_utf8_lossy.
pub mod Calls
pub mod Roundtrip
pub mod Secrets
mod Tests
use mathlib.Core.Option
use abir_guard.Base.{
  ℕ, ◌+◌, ◌%◌, Bool, true, false, Option, none, some, List, [], ◌∷◌, ◌++◌, map, Bytes, Str, str,
  bytes_eq, if◌then◌else◌, Result, ok, err, map_err,
}
use abir_guard.Base.Maybe.{◌>>=◌}
use abir_guard.Base.Numbers.{u64}
use abir_guard.QuantumKernel
use abir_guard.QuantumKernel.{Crypto, Drawn, Ciphertext, Vault}
use abir_guard.Base.Json.{Value, null, boolean, string, array, object, get, as_str, members, texts}

-- `i32`
pub data ℤ : Type 0 where
  pos : ℕ → ℤ
  negsuc : ℕ → ℤ

pub record McpError : Type 0 where
  pub code : ℤ
  pub message : Str
  pub extra : Option Value

pub record McpRequest : Type 0 where
  pub jsonrpc : Str
  pub id : Option Value
  pub method : Str
  pub params : Value

pub record McpResponse : Type 0 where
  pub jsonrpc : Str
  pub id : Option Value
  pub result : Option Value
  pub error : Option McpError

abbrev pub invalid_request : Str → McpError
invalid_request msg = record { code = negsuc 32599; message = msg; extra = none }

abbrev pub method_not_found : Str → McpError
method_not_found method = record {
  code = negsuc 32600;
  message = str "Method not found: " ++ method;
  extra = none;
}

abbrev pub invalid_params : Str → McpError
invalid_params msg = record { code = negsuc 32601; message = msg; extra = none }

abbrev pub internal_error : Str → McpError
internal_error msg = record { code = negsuc 32602; message = msg; extra = none }

-- The count is behind a mutex of its own, which nothing panics with.
pub record McpServer : Type 0 where
  pub vault : Vault
  pub request_count : ℕ

abbrev pub new : McpServer
new = record { vault = QuantumKernel.new; request_count = 0 }

-- What a call draws and takes: a key pair, a nonce and milliseconds.
pub record Draws : Type 0 where
  pub drawn : Drawn
  pub nonce : Bytes
  pub elapsed : ℕ

abbrev pub Answer : Type 0
Answer = Result McpError Value

abbrev pub Handler : Type 0
Handler = Vault → Vault × Option Answer

-- `ok_or(invalid_params(...))?` in front of a handler.
abbrev pub required : Option Str → Str → (Str → Handler) → Handler
required none msg rest v = (v, some (err (invalid_params msg)))
required (some text) msg rest v = rest text v

-- The params' `get(name).and_then(as_str)`
abbrev pub param : Str → McpRequest → Option Str
param name req = get name req.params >>= as_str

abbrev pub unwrap_or_empty : Option Str → Str
unwrap_or_empty none = []
unwrap_or_empty (some text) = text

-- What a handler makes of the vault's result, with `map_err(internal_error)`.
abbrev pub answered :
    {A : Type 0} → (A → Value) → Vault × Option (Result Str A) → Vault × Option Answer
answered f (v, none) = (v, none)
answered f (v, some (err e)) = (v, some (err (internal_error e)))
answered f (v, some (ok a)) = (v, some (ok (f a)))

abbrev pub succeeded : {A : Type 0} → (A → Value) → Vault × Option A → Vault × Option Answer
succeeded f (v, none) = (v, none)
succeeded f (v, some a) = (v, some (ok (f a)))

-- With serde_json's parser of requests.
abbrev pub parse_request : (Str → Result Str McpRequest) → Str → Result McpError McpRequest
parse_request from_str line = map_err invalid_request (from_str line)

-- The patterns of the `match` on the method.
pub data Method : Type 0 where
  generate_key encrypt decrypt list_keys delete_key clear_cache info unknown : Method

unfoldable pub method_of : Str → Method
method_of name =
    if bytes_eq name (str "generate_key")
    then generate_key
    else if bytes_eq name (str "encrypt")
    then encrypt
    else if bytes_eq name (str "decrypt")
    then decrypt
    else if bytes_eq name (str "list_keys")
    then list_keys
    else if bytes_eq name (str "delete_key")
    then delete_key
    else if bytes_eq name (str "clear_cache")
    then clear_cache
    else if bytes_eq name (str "info")
    then info
    else unknown

module _ (crypto : Crypto) (lossy : Bytes → Str) where
  -- The pair that the vault returns is an array in JSON.
  abbrev pub generated : Str → Str × Str → Value
  generated key_id (public_key, secret_key) = members (
      (str "key_id", string key_id)
      ∷ (str "public_key", texts (public_key ∷ secret_key ∷ []))
      ∷ (str "generated", boolean true)
      ∷ [])

  abbrev pub handle_generate_key : Draws → McpRequest → Handler
  handle_generate_key draws req =
      required (param (str "key_id") req) (str "key_id required") λ key_id v.
        succeeded (generated key_id) (QuantumKernel.generate_keypair crypto key_id draws.drawn v)

  abbrev pub encrypted : Ciphertext → Value
  encrypted ct = members (
      (str "nonce", string ct.nonce)
      ∷ (str "ciphertext", string ct.ciphertext)
      ∷ (str "key_id", string ct.key_id)
      ∷ [])

  abbrev pub handle_encrypt : Draws → McpRequest → Handler
  handle_encrypt draws req = required (param (str "key_id") req) (str "key_id required") λ key_id.
      required (param (str "data") req) (str "data required") λ text v.
        answered encrypted
          (QuantumKernel.store crypto key_id text draws.drawn draws.nonce draws.elapsed v)

  abbrev pub decrypted : Bytes → Value
  decrypted plain = members ((str "plaintext", string (lossy plain)) ∷ [])

  abbrev pub handle_decrypt : Draws → McpRequest → Handler
  handle_decrypt draws req = required (param (str "key_id") req) (str "key_id required") λ key_id.
      required (param (str "ciphertext") req) (str "ciphertext required") λ text v.
        answered decrypted (
          QuantumKernel.retrieve crypto key_id
            (record {
              nonce = unwrap_or_empty (param (str "nonce") req);
              ciphertext = text;
              key_id = key_id;
            })
            draws.elapsed v)

  abbrev pub handle_list_keys : Handler
  handle_list_keys v =
      succeeded (λ keys. members ((str "keys", texts keys) ∷ []))
        (QuantumKernel.list_keypairs crypto v)

  abbrev pub handle_delete_key : McpRequest → Handler
  handle_delete_key req = required (param (str "key_id") req) (str "key_id required") λ key_id v.
      succeeded
        (λ done. members ((str "deleted", boolean true) ∷ (str "key_id", string key_id) ∷ []))
        (QuantumKernel.remove_keypair crypto key_id v)

  abbrev pub handle_clear_cache : Handler
  handle_clear_cache v = (v, some (ok (members ((str "cleared", boolean true) ∷ []))))

  abbrev pub handle_info : Handler
  handle_info v = (
    v,
    some (
        ok (
          members (
            (str "name", string (str "Abir-Guard"))
            ∷ (str "version", string (str "3.3.0"))
            ∷ (str "mcp_version", string (str "1.0"))
            ∷ []))),
  )

  -- The arms of the `match` on the method.
  abbrev pub dispatch : Method → Draws → McpRequest → Handler
  dispatch generate_key draws req = handle_generate_key draws req
  dispatch encrypt draws req = handle_encrypt draws req
  dispatch decrypt draws req = handle_decrypt draws req
  dispatch list_keys draws req = handle_list_keys
  dispatch delete_key draws req = handle_delete_key req
  dispatch clear_cache draws req = handle_clear_cache
  dispatch info draws req = handle_info
  dispatch unknown draws req = λ v. (v, some (err (method_not_found req.method)))

  abbrev pub respond : Option Value → Answer → McpResponse
  respond id (ok value) = record { jsonrpc = str "2.0"; id = id; result = some value; error = none }
  respond id (err e) = record { jsonrpc = str "2.0"; id = id; result = none; error = some e }

  abbrev pub handle : Draws → McpRequest → McpServer → McpServer × Option McpResponse
  handle draws req s =
      let (v, answer) = dispatch (method_of req.method) draws req s.vault in
      (
        record { vault = v; request_count = (s.request_count + 1) % u64 },
        Option.map (respond req.id) answer,
      )
