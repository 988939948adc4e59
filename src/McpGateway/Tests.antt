-- ===== src/McpGateway/Tests.antt =====
-- Requests to a server over the toy ciphers, and witnesses.
use abir_guard.Base.{
  ◌%◌, ◌≡◌, refl, ap, true, false, Option, none, some, List, [], ◌∷◌, ◌++◌, All, Bytes, Str, str,
  err, replicate, bytes_eq, ok, arith,
}
use abir_guard.Base.Numbers.{u64}
use abir_guard.QuantumKernel
use abir_guard.QuantumKernel.{Ciphertext, Drawn, find_key}
use abir_guard.QuantumKernel.Calls
use abir_guard.QuantumKernel.Calls.{Call}
use abir_guard.QuantumKernel.Stored.{Leaves}
use abir_guard.QuantumKernel.Toy.{tag, toy, toy_opens}
use abir_guard.McpGateway
use abir_guard.Base.Json.{Value, null, boolean, number, string, members, texts, get}
use abir_guard.McpGateway.{
  McpRequest, McpServer, Draws, new, encrypted, method_of, method_not_found, invalid_params,
  respond, handle,
}
use abir_guard.McpGateway.Calls.{calls_of, run, run-calls_of}
use abir_guard.McpGateway.Roundtrip.{
  request, encrypt_request, decrypt_request, handle-decrypt-encrypt,
}
use abir_guard.McpGateway.Secrets.{
  generate_request, bare_request, generate_key_reveals, handle_poisons,
}

abbrev plain : Bytes → Str
plain b = b

abbrev draws : Draws
draws = record { drawn = (1 ∷ [], 2 ∷ 2 ∷ []); nonce = replicate 12 7; elapsed = 3 }

abbrev one : Option Value
one = some (number (str "1"))

abbrev listing : McpRequest
listing = request (str "list_keys") none []

abbrev requests : List (Draws × McpRequest)
requests =
    (draws, generate_request one (str "k"))
    ∷ (draws, request (str "sing") one [])
    ∷ (draws, request (str "encrypt") one ((str "key_id", null) ∷ []))
    ∷ (draws, listing)
    ∷ []

program : Unit {0}
unfolding bytes_eq get method_of find_key run Calls.run QuantumKernel.generate_keypair
    QuantumKernel.store QuantumKernel.retrieve QuantumKernel.list_keypairs
    QuantumKernel.remove_keypair QuantumKernel.encrypt QuantumKernel.decrypt QuantumKernel.open_with
    QuantumKernel.find_or_generate
program = tt

unknown_method :
    (handle toy plain draws (request (str "sing") one []) new).1
    ≡ some (respond toy plain one (err (method_not_found (str "sing"))))
unfolding program
unknown_method = refl

no_data :
    (handle toy plain draws
      (request (str "encrypt") one ((str "key_id", string (str "k")) ∷ []))
      new).1
    ≡ some (respond toy plain one (err (invalid_params (str "data required"))))
unfolding program
no_data = refl

-- The answer of `encrypt` names no key.
empty_key_id :
    (handle toy plain draws (encrypt_request one (str "k") (5 ∷ [])) new).1
    ≡ some (
        respond toy plain one (
          ok (
            members (
              (str "nonce", string (replicate 12 7))
              ∷ (str "ciphertext", string (5 ∷ tag))
              ∷ (str "key_id", string [])
              ∷ []))))
unfolding program
empty_key_id = refl

run-calls_of_example :
    ((run toy plain requests new).vault ≡ Calls.run toy (calls_of requests) QuantumKernel.new)
    × ((run toy plain requests new).request_count % u64 ≡ 4 % u64)
run-calls_of_example = run-calls_of toy plain requests new

requests_leave : All (Leaves (str "s")) (calls_of requests)
unfolding program
requests_leave = (tt, (tt, tt))

requests_clean :
    (run toy plain requests
      (handle toy plain draws (encrypt_request one (str "s") (5 ∷ 6 ∷ [])) new).0).vault.poisoned
    ≡ false
unfolding program
requests_clean = refl

handle-decrypt-encrypt_example :
    (ct : Ciphertext) × ((handle toy plain draws (encrypt_request one (str "s") (5 ∷ 6 ∷ [])) new).1
      ≡ some (respond toy plain one (ok (encrypted toy plain ct))))
    × ((handle toy plain draws (decrypt_request none (str "s") ct) (
          run toy plain requests
            (handle toy plain draws (encrypt_request one (str "s") (5 ∷ 6 ∷ [])) new).0)).1
        ≡ some
            (respond toy plain none (ok (members ((str "plaintext", string (5 ∷ 6 ∷ [])) ∷ [])))))
handle-decrypt-encrypt_example =
    handle-decrypt-encrypt toy plain (λ b. refl) draws draws (5 ∷ 6 ∷ [])
      (λ key. ((5 ∷ 6 ∷ []) ++ tag, refl, ap ok (toy_opens (5 ∷ 6 ∷ [])))) refl (omega arith)
      (omega arith) (str "s") requests new one none refl refl refl requests_leave requests_clean

abbrev used : McpServer
used = (handle toy plain draws (generate_request one (str "k")) new).0

generate_key_reveals_example :
    (public_text : Str) × (secret_text : Str) × ((handle toy plain draws
        (generate_request one (str "k"))
        new).1
      ≡ some (
          respond toy plain one (
            ok (
              members (
                (str "key_id", string (str "k"))
                ∷ (str "public_key", texts (public_text ∷ secret_text ∷ []))
                ∷ (str "generated", boolean true)
                ∷ [])))))
    × (toy.decode public_text ≡ ok draws.drawn.0)
    × (toy.decode secret_text ≡ ok draws.drawn.1)
    × (find_key (str "k") used.vault.keys ≡ some draws.drawn.1)
unfolding program
generate_key_reveals_example =
    generate_key_reveals toy plain (λ b. refl) draws one (str "k") new refl refl

used_clean : used.vault.poisoned ≡ false
unfolding program
used_clean = refl

has_key : find_key (str "k") used.vault.keys ≡ some (2 ∷ 2 ∷ [])
unfolding program
has_key = refl

listing_call :
    McpGateway.Calls.call_of (method_of listing.method) draws listing ≡ Call.list_keypairs ∷ []
unfolding program
listing_call = refl

handle_poisons_example :
    ((handle toy plain draws (bare_request one (str "k") (str "c")) used).1 ≡ none)
    × ((handle toy plain draws listing (
          run toy plain requests
            (handle toy plain draws (bare_request one (str "k") (str "c")) used).0)).1
        ≡ none)
handle_poisons_example =
    handle_poisons toy plain draws draws one (str "k") (str "c") used requests listing
      Call.list_keypairs refl used_clean has_key listing_call tt
