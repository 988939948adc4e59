-- ===== src/Interop/Did/Json.antt =====
-- src/interop/did.rs: to_json and from_json, as the attributes of serde on DidDocument make them.
use abir_guard.Base.{
  ◌≡◌, refl, ◌||◌, Option, none, some, List, [], ◌∷◌, Str, is_empty, if◌then◌else◌, Result, ok, err,
  ok_or, ◌>>=◌,
}
use abir_guard.Interop.Did.{DidError, DidDocument, VerificationMethod, empty_did}

-- The members of a document in a text: the lists of references may be missing.
pub record Members : Type 0 where
  pub context : List Str
  pub id : Str
  pub verification_methods : List VerificationMethod
  pub authentication : Option (List Str)
  pub assertion_method : Option (List Str)
  pub key_agreement : Option (List Str)

-- `serde_json`, `none` where a text has not the shape of a document.
pub record DocumentText : Type 0 where
  pub print : Members → Str
  pub parse : Str → Option Members

-- `skip_serializing_if = "Vec::is_empty"`
abbrev pub skip_if_empty : List Str → Option (List Str)
skip_if_empty [] = none
skip_if_empty (r ∷ references) = some (r ∷ references)

-- The members that `from_json` asks for: the lists have no `default` attribute, so that a missing one
-- is an error.
unfoldable pub required : Members → Result DidError DidDocument
required members = do
  authentication ← ok_or members.authentication empty_did
  assertion_method ← ok_or members.assertion_method empty_did
  key_agreement ← ok_or members.key_agreement empty_did
  ok (record {
    context = members.context;
    id = members.id;
    verification_methods = members.verification_methods;
    authentication = authentication;
    assertion_method = assertion_method;
    key_agreement = key_agreement;
  })

-- The members that `to_json` writes.
abbrev pub written : DidDocument → Members
written doc = record {
  context = doc.context;
  id = doc.id;
  verification_methods = doc.verification_methods;
  authentication = skip_if_empty doc.authentication;
  assertion_method = skip_if_empty doc.assertion_method;
  key_agreement = skip_if_empty doc.key_agreement;
}

abbrev with_references : DidDocument → List Str → List Str → List Str → DidDocument
with_references doc authentication assertion_method key_agreement = record doc {
  authentication = authentication;
  assertion_method = assertion_method;
  key_agreement = key_agreement;
}

required-written :
    (doc : DidDocument) (xs ys zs : List Str)
    → required (written (with_references doc xs ys zs)) ≡ (
        if is_empty xs || is_empty ys || is_empty zs
        then err empty_did
        else ok (with_references doc xs ys zs))
unfolding required
required-written doc [] ys zs = refl
required-written doc (x ∷ xs) [] zs = refl
required-written doc (x ∷ xs) (y ∷ ys) [] = refl
required-written doc (x ∷ xs) (y ∷ ys) (z ∷ zs) = refl

module _ (text : DocumentText) where
  abbrev pub to_json : DidDocument → Str
  to_json doc = text.print (written doc)

  unfoldable pub from_json : Str → Result DidError DidDocument
  unfolding required
  from_json json = elim (text.parse json) [ none ↦ err empty_did | some members ↦ required members ]

  -- With texts that read as they were written, a document comes back from its JSON exactly when
  -- none of its three lists of references is empty; otherwise `from_json` says `EmptyDid`,
  -- whatever the identifier is.
  pub from_json-to_json :
      ((members : Members) → text.parse (text.print members) ≡ some members)
      → (doc : DidDocument)
      → from_json (to_json doc) ≡ (
          if is_empty doc.authentication
            || is_empty doc.assertion_method
            || is_empty doc.key_agreement
          then err empty_did
          else ok doc)
  unfolding from_json
  from_json-to_json inverse doc =
      rw (from_json, inverse (written doc))
        (required-written doc doc.authentication doc.assertion_method doc.key_agreement)
