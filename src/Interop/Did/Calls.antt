-- ===== src/Interop/Did/Calls.antt =====
-- src/interop/did.rs: sequences of calls on a document, and the method that stays in it.
use abir_guard.Base.{
  ◌≡◌, ◌≢◌, refl, ◌∙◌, arith, false, List, [], ◌∷◌, ◌++◌, All, Str, bytes_eq_iff, bytes_eq_refl,
  is_empty, length, ◌==◌, Result, ok, err, Bool-cases, inl, inr,
}
use abir_guard.Interop.Did.{
  DidError, DidDocument, VerificationMethod, VerificationRelationship, has_method, add_references,
  add_verification_method, find_method, get_method, retain_methods, remove_method,
}

pub data Call : Type 0 where
  add : VerificationMethod → List VerificationRelationship → Call
  remove : Str → Call

-- The document after a call; one that is refused leaves it as it is.
abbrev pub after : DidDocument → Result DidError DidDocument → DidDocument
after doc (ok doc') = doc'
after doc (err e) = doc

unfoldable pub step : Call → DidDocument → DidDocument
unfolding add_verification_method remove_method
step (Call.add method relationships) doc =
    after doc (add_verification_method doc method relationships)
step (Call.remove id) doc = after doc (remove_method doc id)

unfoldable pub run : List Call → DidDocument → DidDocument
unfolding step
run [] doc = doc
run (c ∷ calls) doc = run calls (step c doc)

-- The call does not remove the method.
unfoldable pub Leaves : Str → Call → Type 0
Leaves id (Call.add method relationships) = Unit
Leaves id (Call.remove other) = other ≢ id

pub add_references_methods :
    (id : Str) (relationships : List VerificationRelationship) (doc : DidDocument)
    → (add_references id relationships doc).verification_methods ≡ doc.verification_methods
unfolding add_references
add_references_methods id [] doc = refl
add_references_methods id (VerificationRelationship.authentication ∷ rels) doc =
    add_references_methods id rels _
add_references_methods id (VerificationRelationship.assertion_method ∷ rels) doc =
    add_references_methods id rels _
add_references_methods id (VerificationRelationship.key_agreement ∷ rels) doc =
    add_references_methods id rels _
add_references_methods id (VerificationRelationship.capability_invocation ∷ rels) doc =
    add_references_methods id rels _
add_references_methods id (VerificationRelationship.capability_delegation ∷ rels) doc =
    add_references_methods id rels _

find_method_fresh :
    (methods : List VerificationMethod) (m : VerificationMethod)
    → has_method m.id methods ≡ false
    → find_method m.id (methods ++ m ∷ []) ≡ ok m
unfolding has_method find_method
find_method_fresh [] m fresh = rw (bytes_eq_refl m.id) refl
find_method_fresh (first ∷ methods) m fresh = ground (arith, find_method_fresh methods m)

find_method_kept :
    (id : Str) (methods : List VerificationMethod) (other m : VerificationMethod)
    → find_method id methods ≡ ok m
    → find_method id (methods ++ other ∷ []) ≡ ok m
unfolding find_method
find_method_kept id [] other m found = absurd cc
find_method_kept id (first ∷ methods) other m found =
    ground (arith, find_method_kept id methods other m)

find_method-retain_methods :
    (id other : Str) (methods : List VerificationMethod)
    → other ≢ id
    → find_method id (retain_methods other methods) ≡ find_method id methods
unfolding find_method
find_method-retain_methods id other [] apart = refl
find_method-retain_methods id other (m ∷ methods) apart = ground (
  arith,
  bytes_eq_iff m.id other,
  bytes_eq_iff m.id id,
  find_method-retain_methods id other methods apart,
)

-- A document that gives the method for its identifier.
abbrev Gives : VerificationMethod → DidDocument → Type 0
Gives m doc = find_method m.id doc.verification_methods ≡ ok m

step-Gives :
    (m : VerificationMethod) (c : Call) (doc : DidDocument)
    → Leaves m.id c
    → Gives m doc
    → Gives m (step c doc)
unfolding step Leaves add_verification_method remove_method
step-Gives m (Call.add method rels) doc leaves gives = elim (Bool-cases (is_empty method.id)) [
  | inl h ↦ rw h gives
  | inr h ↦ elim (Bool-cases (has_method method.id doc.verification_methods)) [
    | inl h' ↦ rw (h, h') gives
    | inr h' ↦
        rw (h, h', add_references_methods)
          (find_method_kept m.id doc.verification_methods method m gives)
  ]
]
step-Gives m (Call.remove id) doc leaves gives =
    elim (Bool-cases
      (length (retain_methods id doc.verification_methods) == length doc.verification_methods)) [
        | inl h ↦ rw h gives
        | inr h ↦ rw h (find_method-retain_methods m.id id doc.verification_methods leaves ∙ gives)
      ]

run-Gives :
    (m : VerificationMethod) (calls : List Call) (doc : DidDocument)
    → All (Leaves m.id) calls
    → Gives m doc
    → Gives m (run calls doc)
unfolding run
run-Gives m [] doc leaves gives = gives
run-Gives m (c ∷ calls) doc leaves gives =
    run-Gives m calls (step c doc) leaves.1 (step-Gives m c doc leaves.0 gives)

pub get_method-add_verification_method :
    (doc : DidDocument) (m : VerificationMethod) (rels : List VerificationRelationship)
    (calls : List Call)
    → is_empty m.id ≡ false
    → has_method m.id doc.verification_methods ≡ false
    → All (Leaves m.id) calls
    → get_method (run (Call.add m rels ∷ calls) doc) m.id ≡ ok m
unfolding run step add_verification_method
get_method-add_verification_method doc m rels calls named fresh leaves =
    run-Gives m calls (step (Call.add m rels) doc) leaves (
      rw (named, fresh, add_references_methods)
        (find_method_fresh doc.verification_methods m fresh))
