-- ===== src/Interop/Tests.antt =====
-- Tests of JSON Web Keys and DID documents, and witnesses of their theorems.
use abir_guard.Base.{
  ◌≡◌, refl, true, false, none, List, [], ◌∷◌, str, ◌⊎◌, All, is_empty, bytes_eq, bytes_eq_iff, ok,
  err,
}
use abir_guard.Interop.Jwk
use abir_guard.Interop.Jwk.{Base64Url, PqcJwk, JwkError, from_public, from_keypair, Tells}
use abir_guard.Interop.Did
use abir_guard.Interop.Did.{
  DidDocument, DidError, VerificationMethod, VerificationRelationship, new_method, has_method,
  add_verification_method, remove_method, get_method, empty_method_id,
  duplicate_verification_method,
}
use abir_guard.Interop.Did.Calls.{Call, run, Leaves}
use abir_guard.Interop.Did.Closed.{IsWellFormed}
use abir_guard.Interop.Did.References.{remove_method-add_verification_method}
use abir_guard.Interop.Codec.{plain_text, plain_text_lem}
use abir_guard.Interop.Did.Json.{to_json, from_json, from_json-to_json}

-- An encoding that is its own inverse.
abbrev plain : Base64Url
plain = record { encode = λ b. b; decode = λ s. ok s }

abbrev alice : DidDocument
alice = Did.empty_document (str "did:example:alice")

abbrev key_one : PqcJwk
key_one = record {
  kty = str "OKP";
  alg = str "ML-DSA-65";
  crv = str "ML-DSA-65";
  x = 7 ∷ 8 ∷ [];
  d = none;
  kid = none;
}

abbrev method_one : VerificationMethod
method_one = new_method (str "#key-1") (str "did:example:alice") key_one

abbrev method_two : VerificationMethod
method_two = new_method (str "#key-2") (str "did:example:alice") key_one

exported_key : from_public plain Jwk.PqcAlgorithm.ml_dsa_65 (7 ∷ 8 ∷ []) none ≡ ok key_one
unfolding from_public
exported_key = refl

empty_private_key :
    from_keypair plain Jwk.PqcAlgorithm.ml_kem_1024 (7 ∷ []) [] none ≡ err JwkError.empty_key
unfolding from_keypair
empty_private_key = refl

unknown_algorithm :
    Jwk.algorithm (record key_one { alg = str "RSA" })
    ≡ err (JwkError.unsupported_key_type (str "RSA"))
unfolding Jwk.algorithm bytes_eq
unknown_algorithm = refl

no_such_method :
    remove_method alice (str "#ghost") ≡ err (DidError.verification_method_not_found (str "#ghost"))
unfolding remove_method
no_such_method = refl

abbrev calls : List Call
calls =
    Call.add method_one
      (VerificationRelationship.authentication ∷ VerificationRelationship.key_agreement ∷ [])
    ∷ Call.remove (str "#ghost")
    ∷ []

two_relationships : (run calls alice).authentication ≡ str "#key-1" ∷ []
unfolding run bytes_eq
two_relationships = refl

-- A relationship of capability leaves no reference.
capability_is_dropped :
    add_verification_method alice method_one (VerificationRelationship.capability_invocation ∷ [])
    ≡ add_verification_method alice method_one []
unfolding add_verification_method
capability_is_dropped = refl

remove_method-add_verification_method_example :
    let before = run calls alice in
    IsWellFormed before
    × ((add_verification_method before method_two (VerificationRelationship.authentication ∷ [])
            ≡ err empty_method_id)
          × (is_empty method_two.id ≡ true)
        ⊎ ((add_verification_method before method_two (VerificationRelationship.authentication ∷ [])
              ≡ err (duplicate_verification_method method_two.id))
            × (has_method method_two.id before.verification_methods ≡ true))
        ⊎ ((after : DidDocument) × (add_verification_method before method_two
                (VerificationRelationship.authentication ∷ [])
              ≡ ok after)
            × (remove_method after method_two.id ≡ ok before)))
unfolding Did.new
remove_method-add_verification_method_example =
    remove_method-add_verification_method (str "did:example:alice") alice calls method_two
      (VerificationRelationship.authentication ∷ []) refl

Leaves-calls : All (Leaves (str "#key-3")) calls
unfolding Leaves bytes_eq
Leaves-calls = (
  tt,
  (
    (λ e.
        (let same : false ≡ true = (bytes_eq_iff (str "#ghost") (str "#key-3")).1 e in absurd cc)),
    tt,
  ),
)

-- What a new document with one key, for authentication only, is written as cannot be read back.
from_json-to_json_example :
    from_json plain_text (to_json plain_text (run calls alice)) ≡ err DidError.empty_did
unfolding run bytes_eq
from_json-to_json_example = from_json-to_json plain_text plain_text_lem (run calls alice)
