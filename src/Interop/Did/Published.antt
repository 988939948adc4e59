-- ===== src/Interop/Did/Published.antt =====
-- src/interop: a key that was exported, added to a document and looked up in it.
use abir_guard.Base.{◌≡◌, false, Option, none, List, ◌∷◌, All, Bytes, Str, is_empty, ok}
use abir_guard.Interop.Jwk.{PqcAlgorithm, PqcJwk, Base64Url, from_public, from_public-Tells, Tells}
use abir_guard.Interop.Did.{
  DidDocument, VerificationRelationship, new_method, has_method, get_method,
}
use abir_guard.Interop.Did.Calls.{Call, run, Leaves, get_method-add_verification_method}

module _ (base64 : Base64Url) where
  -- With base64url that decodes what it encodes, a public key that is not empty is exported, and
  -- after it was added to a document under an identifier that is not empty and was free, and after
  -- any further calls that do not remove that identifier, the identifier gives the method as it was
  -- added, whose key decodes to the public key and its algorithm and has no private part.
  pub get_method-published :
      ((b : Bytes) → base64.decode (base64.encode b) ≡ ok b)
      → (alg : PqcAlgorithm) (public_key : Bytes) (kid : Option Str) (id controller : Str)
        (doc : DidDocument) (rels : List VerificationRelationship) (calls : List Call)
      → is_empty public_key ≡ false
      → is_empty id ≡ false
      → has_method id doc.verification_methods ≡ false
      → All (Leaves id) calls
      → (jwk : PqcJwk) × (from_public base64 alg public_key kid ≡ ok jwk)
        × Tells base64 alg public_key none jwk
        × (get_method (run (Call.add (new_method id controller jwk) rels ∷ calls) doc) id
            ≡ ok (new_method id controller jwk))
  get_method-published inverse alg public_key kid id controller doc rels calls full named fresh
        leaves =
      let (jwk, exported, tells) = from_public-Tells base64 inverse alg public_key kid full in
      (
        jwk,
        exported,
        tells,
        get_method-add_verification_method doc (new_method id controller jwk) rels calls named fresh
            leaves,
      )
