-- ===== src/Interop/Did.antt =====
-- src/interop/did.rs: DID documents, with their verification methods and references to them.
pub mod Calls
pub mod Closed
pub mod References
pub mod Json
pub mod Published
use abir_guard.Base.{
  Bool, true, false, not, ◌||◌, List, [], ◌∷◌, ◌++◌, filter, Bytes, Str, str, bytes_eq, is_empty,
  length, ◌==◌, if◌then◌else◌, Result, ok, err,
}
use abir_guard.Interop.Jwk.{PqcJwk}

pub data DidError : Type 0 where
  duplicate_verification_method : Str → DidError
  verification_method_not_found : Str → DidError
  empty_did : DidError
  empty_method_id : DidError

pub data VerificationRelationship : Type 0 where
  authentication : VerificationRelationship
  assertion_method : VerificationRelationship
  key_agreement : VerificationRelationship
  capability_invocation : VerificationRelationship
  capability_delegation : VerificationRelationship

pub record VerificationMethod : Type 0 where
  pub id : Str
  pub method_type : Str
  pub controller : Str
  pub public_key_jwk : PqcJwk

-- `VerificationMethod::new`
abbrev pub new_method : Str → Str → PqcJwk → VerificationMethod
new_method id controller jwk = record {
  id = id;
  method_type = str "JsonWebKey2020";
  controller = controller;
  public_key_jwk = jwk;
}

pub record DidDocument : Type 0 where
  pub context : List Str
  pub id : Str
  pub verification_methods : List VerificationMethod
  pub authentication : List Str
  pub assertion_method : List Str
  pub key_agreement : List Str

-- The document that `new` makes.
abbrev pub empty_document : Str → DidDocument
empty_document did = record {
  context =
      str "https://www.w3.org/ns/did/v1" ∷ str "https://w3id.org/security/suites/jws-2020/v1" ∷ [];
  id = did;
  verification_methods = [];
  authentication = [];
  assertion_method = [];
  key_agreement = [];
}

unfoldable pub new : Str → Result DidError DidDocument
new did = if is_empty did then err empty_did else ok (empty_document did)

-- `verification_methods.iter().any(|m| m.id == id)`
unfoldable pub has_method : Str → List VerificationMethod → Bool
has_method id [] = false
has_method id (m ∷ methods) = bytes_eq m.id id || has_method id methods

-- One round of the loop over the relationships.
unfoldable pub add_reference : Str → VerificationRelationship → DidDocument → DidDocument
add_reference id authentication doc = record doc { authentication = doc.authentication ++ id ∷ [] }
add_reference id assertion_method doc = record doc {
  assertion_method = doc.assertion_method ++ id ∷ [];
}
add_reference id key_agreement doc = record doc { key_agreement = doc.key_agreement ++ id ∷ [] }
add_reference id capability_invocation doc = doc
add_reference id capability_delegation doc = doc

unfoldable pub add_references : Str → List VerificationRelationship → DidDocument → DidDocument
unfolding add_reference
add_references id [] doc = doc
add_references id (rel ∷ relationships) doc =
    add_references id relationships (add_reference id rel doc)

unfoldable pub add_verification_method :
    DidDocument → VerificationMethod → List VerificationRelationship → Result DidError DidDocument
unfolding has_method add_references
add_verification_method doc method relationships =
    if is_empty method.id
    then err empty_method_id
    else if has_method method.id doc.verification_methods
    then err (duplicate_verification_method method.id)
    else ok (
        add_references method.id relationships
          (record doc { verification_methods = doc.verification_methods ++ method ∷ [] }))

unfoldable pub find_method : Str → List VerificationMethod → Result DidError VerificationMethod
find_method id [] = err (verification_method_not_found id)
find_method id (m ∷ methods) = if bytes_eq m.id id then ok m else find_method id methods

abbrev pub get_method : DidDocument → Str → Result DidError VerificationMethod
get_method doc id = find_method id doc.verification_methods

-- `retain` on the methods and on a list of references.
abbrev pub retain_methods : Str → List VerificationMethod → List VerificationMethod
retain_methods id methods = filter (λ (m : VerificationMethod). not (bytes_eq m.id id)) methods

abbrev pub retain_references : Str → List Str → List Str
retain_references id references = filter (λ (r : Str). not (bytes_eq r id)) references

-- Where it is an error, `retain` has removed nothing.
unfoldable pub remove_method : DidDocument → Str → Result DidError DidDocument
remove_method doc id =
    if length (retain_methods id doc.verification_methods) == length doc.verification_methods
    then err (verification_method_not_found id)
    else ok (record doc {
      verification_methods = retain_methods id doc.verification_methods;
      authentication = retain_references id doc.authentication;
      assertion_method = retain_references id doc.assertion_method;
      key_agreement = retain_references id doc.key_agreement;
    })
