-- ===== src/Interop/Did/References.antt =====
-- src/interop/did.rs: what removing a method from a document takes back.
use abir_guard.Base.{
  ◌⊎◌, ◌≡◌, refl, sym, ap, ◌∙◌, arith, true, false, List, [], ◌∷◌, ◌++◌, Str, bytes_eq,
  bytes_eq_iff, bytes_eq_refl, filter, is_empty, length, length-append, ◌==◌, ok, err, Bool-cases,
  inl, inr,
}
use abir_guard.Interop.Did
use abir_guard.Interop.Did.{
  empty_document, empty_method_id, duplicate_verification_method, DidError, DidDocument,
  VerificationMethod, VerificationRelationship, has_method, add_reference, add_references,
  add_verification_method, retain_methods, retain_references, remove_method,
}
use abir_guard.Interop.Did.Closed.{IsClosed, IsWellFormed, run-IsWellFormed, new-IsWellFormed}
use abir_guard.Interop.Did.Calls.{Call, run, add_references_methods}

-- A list of references without the identifier stays as it is.
retain_references_fresh :
    (id : Str) (methods : List VerificationMethod) (references : List Str)
    → has_method id methods ≡ false
    → IsClosed methods references
    → retain_references id references ≡ references
retain_references_fresh id methods [] fresh closed = refl
retain_references_fresh id methods (r ∷ references) fresh closed =
    let rest = retain_references_fresh id methods references fresh closed.1 in
    elim (Bool-cases (bytes_eq r id)) [
      | inl same ↦
          let there = ap (λ k. has_method k methods) (sym ((bytes_eq_iff r id).0 same)) in
          let has = closed.0 in absurd cc
      | inr differs ↦ rw (filter, differs) (ap (λ xs. r ∷ xs) rest)
    ]

retain_methods_snoc :
    (methods : List VerificationMethod) (m : VerificationMethod)
    → has_method m.id methods ≡ false
    → retain_methods m.id (methods ++ m ∷ []) ≡ methods
unfolding has_method
retain_methods_snoc [] m fresh = ground (arith, bytes_eq_refl m.id)
retain_methods_snoc (first ∷ methods) m fresh = ground (arith, retain_methods_snoc methods m)

retain_references_snoc :
    (id : Str) (references : List Str)
    → retain_references id (references ++ id ∷ []) ≡ retain_references id references
retain_references_snoc id [] = ground (arith, bytes_eq_refl id)
retain_references_snoc id (r ∷ references) = ground (arith, retain_references_snoc id references)

-- What `remove_method` makes of a document that has the method.
abbrev withdrawn : Str → DidDocument → DidDocument
withdrawn id doc = record doc {
  verification_methods = retain_methods id doc.verification_methods;
  authentication = retain_references id doc.authentication;
  assertion_method = retain_references id doc.assertion_method;
  key_agreement = retain_references id doc.key_agreement;
}

withdrawn-add_references :
    (id : Str) (rels : List VerificationRelationship) (doc : DidDocument)
    → withdrawn id (add_references id rels doc) ≡ withdrawn id doc
unfolding add_references add_reference
withdrawn-add_references id [] doc = refl
withdrawn-add_references id (VerificationRelationship.authentication ∷ rels) doc =
    withdrawn-add_references id rels _
    ∙ ap (λ xs. record (withdrawn id doc) { authentication = xs })
        (retain_references_snoc id doc.authentication)
withdrawn-add_references id (VerificationRelationship.assertion_method ∷ rels) doc =
    withdrawn-add_references id rels _
    ∙ ap (λ xs. record (withdrawn id doc) { assertion_method = xs })
        (retain_references_snoc id doc.assertion_method)
withdrawn-add_references id (VerificationRelationship.key_agreement ∷ rels) doc =
    withdrawn-add_references id rels _
    ∙ ap (λ xs. record (withdrawn id doc) { key_agreement = xs })
        (retain_references_snoc id doc.key_agreement)
withdrawn-add_references id (VerificationRelationship.capability_invocation ∷ rels) doc =
    withdrawn-add_references id rels doc
withdrawn-add_references id (VerificationRelationship.capability_delegation ∷ rels) doc =
    withdrawn-add_references id rels doc

withdrawn_fresh :
    (doc : DidDocument) (m : VerificationMethod)
    → IsWellFormed doc
    → has_method m.id doc.verification_methods ≡ false
    → withdrawn m.id (record doc { verification_methods = doc.verification_methods ++ m ∷ [] })
      ≡ doc
withdrawn_fresh doc m w fresh =
    let methods = doc.verification_methods in
    simp (
      retain_methods_snoc methods m fresh,
      retain_references_fresh m.id methods doc.authentication fresh w.authentication_closed,
      retain_references_fresh m.id methods doc.assertion_method fresh w.assertion_closed,
      retain_references_fresh m.id methods doc.key_agreement fresh w.agreement_closed,
    )

-- In a document that any calls have made of a new one, each reference is to a method, and to add a
-- method, under whatever relationships, is refused exactly when its identifier is empty or taken;
-- otherwise to remove it again gives the document as it was.
pub remove_method-add_verification_method :
    (did : Str) (doc : DidDocument) (calls : List Call) (m : VerificationMethod)
    (rels : List VerificationRelationship)
    → Did.new did ≡ ok doc
    → let before = run calls doc in
      IsWellFormed before
      × ((add_verification_method before m rels ≡ err empty_method_id) × (is_empty m.id ≡ true)
          ⊎ ((add_verification_method before m rels ≡ err (duplicate_verification_method m.id))
              × (has_method m.id before.verification_methods ≡ true))
          ⊎ ((after : DidDocument) × (add_verification_method before m rels ≡ ok after)
              × (remove_method after m.id ≡ ok before)))
unfolding add_verification_method remove_method
remove_method-add_verification_method did doc calls m rels made =
    let before = run calls doc in
    let methods = before.verification_methods in
    let w = run-IsWellFormed calls doc (new-IsWellFormed did doc made) in
    let next : DidDocument = record before { verification_methods = methods ++ m ∷ [] } in
    (
      w,
      elim (Bool-cases (is_empty m.id)) [
        | inl h ↦ inl (rw h refl, h)
        | inr h ↦ elim (Bool-cases (has_method m.id methods)) [
          | inl h' ↦ inr (inl (rw (h, h') refl, h'))
          | inr h' ↦
              let after = add_references m.id rels next in
              let kept = add_references_methods m.id rels next in
              let shrinks : (length (retain_methods m.id after.verification_methods)
                    == length after.verification_methods)
                  ≡ false =
                rw (kept, retain_methods_snoc methods m h')
                  (let size = length-append methods (m ∷ []) in ground arith) in
              inr (
                inr (
                  after,
                  rw (h, h') refl,
                  rw shrinks (
                      ap ok
                        (withdrawn-add_references m.id rels next ∙ withdrawn_fresh before m w h')),
                ))
        ]
      ],
    )
