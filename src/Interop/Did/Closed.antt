-- ===== src/Interop/Did/Closed.antt =====
-- src/interop/did.rs: the references of a document are to its methods.
use abir_guard.Base.{
  ◌≡◌, ◌≢◌, refl, ap, subst, ◌∙◌, arith, true, List, [], ◌∷◌, ◌++◌, All, Str, bytes_eq,
  bytes_eq_iff, bytes_eq_refl, filter, is_empty, length, ◌==◌, ok, Bool-cases, inl, inr,
}
use abir_guard.Interop.Did
use abir_guard.Interop.Did.{
  empty_document, empty_method_id, duplicate_verification_method, DidError, DidDocument,
  VerificationMethod, VerificationRelationship, has_method, add_reference, add_references,
  add_verification_method, retain_methods, retain_references, remove_method,
}
use abir_guard.Interop.Did.Calls.{Call, step, run}

-- Each reference is to a method.
abbrev pub IsClosed : List VerificationMethod → List Str → Type 0
IsClosed methods references = All (λ (r : Str). has_method r methods ≡ true) references

pub record IsWellFormed (doc : DidDocument) : Type 0 where
  pub authentication_closed : IsClosed doc.verification_methods doc.authentication
  pub assertion_closed : IsClosed doc.verification_methods doc.assertion_method
  pub agreement_closed : IsClosed doc.verification_methods doc.key_agreement

has_method_snoc :
    (id : Str) (methods : List VerificationMethod) (m : VerificationMethod)
    → has_method id methods ≡ true
    → has_method id (methods ++ m ∷ []) ≡ true
unfolding has_method
has_method_snoc id [] m h = absurd cc
has_method_snoc id (first ∷ methods) m h = ground (arith, has_method_snoc id methods m)

pub has_method_last :
    (methods : List VerificationMethod) (m : VerificationMethod)
    → has_method m.id (methods ++ m ∷ []) ≡ true
unfolding has_method
has_method_last [] m = rw (bytes_eq_refl m.id) refl
has_method_last (first ∷ methods) m = ground (arith, has_method_last methods m)

has_method-retain_methods :
    (id other : Str) (methods : List VerificationMethod)
    → id ≢ other
    → has_method id methods ≡ true
    → has_method id (retain_methods other methods) ≡ true
unfolding has_method
has_method-retain_methods id other [] apart h = absurd cc
has_method-retain_methods id other (m ∷ methods) apart h = ground (
  arith,
  bytes_eq_iff m.id other,
  bytes_eq_iff m.id id,
  has_method-retain_methods id other methods apart,
)

IsClosed-snoc :
    (methods : List VerificationMethod) (m : VerificationMethod) (references : List Str)
    → IsClosed methods references
    → IsClosed (methods ++ m ∷ []) references
IsClosed-snoc methods m [] closed = tt
IsClosed-snoc methods m (r ∷ references) closed =
    (has_method_snoc r methods m closed.0, IsClosed-snoc methods m references closed.1)

IsClosed-append :
    (methods : List VerificationMethod) (id : Str) (references : List Str)
    → IsClosed methods references
    → has_method id methods ≡ true
    → IsClosed methods (references ++ id ∷ [])
IsClosed-append methods id [] closed has = (has, tt)
IsClosed-append methods id (r ∷ references) closed has =
    (closed.0, IsClosed-append methods id references closed.1 has)

IsClosed-retain :
    (id : Str) (methods : List VerificationMethod) (references : List Str)
    → IsClosed methods references
    → IsClosed (retain_methods id methods) (retain_references id references)
IsClosed-retain id methods [] closed = tt
IsClosed-retain id methods (r ∷ references) closed =
    let rest = IsClosed-retain id methods references closed.1 in
    elim (Bool-cases (bytes_eq r id)) [
      | inl same ↦ rw (filter, same) rest
      | inr differs ↦
          let apart : r ≢ id = λ e. (let same = (bytes_eq_iff r id).1 e in absurd cc) in
          rw (filter, differs) (has_method-retain_methods r id methods apart closed.0, rest)
    ]

add_reference-IsWellFormed :
    (id : Str) (rel : VerificationRelationship) (doc : DidDocument)
    → has_method id doc.verification_methods ≡ true
    → IsWellFormed doc
    → IsWellFormed (add_reference id rel doc)
      × ((add_reference id rel doc).verification_methods ≡ doc.verification_methods)
unfolding add_reference
add_reference-IsWellFormed id VerificationRelationship.authentication doc has w = (
  record {
    authentication_closed = IsClosed-append _ id doc.authentication w.authentication_closed has;
    assertion_closed = w.assertion_closed;
    agreement_closed = w.agreement_closed;
  },
  refl,
)
add_reference-IsWellFormed id VerificationRelationship.assertion_method doc has w = (
  record {
    authentication_closed = w.authentication_closed;
    assertion_closed = IsClosed-append _ id doc.assertion_method w.assertion_closed has;
    agreement_closed = w.agreement_closed;
  },
  refl,
)
add_reference-IsWellFormed id VerificationRelationship.key_agreement doc has w = (
  record {
    authentication_closed = w.authentication_closed;
    assertion_closed = w.assertion_closed;
    agreement_closed = IsClosed-append _ id doc.key_agreement w.agreement_closed has;
  },
  refl,
)
add_reference-IsWellFormed id VerificationRelationship.capability_invocation doc has w = (w, refl)
add_reference-IsWellFormed id VerificationRelationship.capability_delegation doc has w = (w, refl)

add_references-IsWellFormed :
    (id : Str) (rels : List VerificationRelationship) (doc : DidDocument)
    → has_method id doc.verification_methods ≡ true
    → IsWellFormed doc
    → IsWellFormed (add_references id rels doc)
unfolding add_references
add_references-IsWellFormed id [] doc has w = w
add_references-IsWellFormed id (rel ∷ rels) doc has w =
    let (w', same) = add_reference-IsWellFormed id rel doc has w in
    add_references-IsWellFormed id rels (add_reference id rel doc) (ap (has_method id) same ∙ has)
      w'

step-IsWellFormed : (c : Call) (doc : DidDocument) → IsWellFormed doc → IsWellFormed (step c doc)
unfolding step add_verification_method remove_method
step-IsWellFormed (Call.add method rels) doc w =
    let methods = doc.verification_methods in
    let next : DidDocument = record doc { verification_methods = methods ++ method ∷ [] } in
    let w' : IsWellFormed next = record {
      authentication_closed =
          IsClosed-snoc methods method doc.authentication w.authentication_closed;
      assertion_closed = IsClosed-snoc methods method doc.assertion_method w.assertion_closed;
      agreement_closed = IsClosed-snoc methods method doc.key_agreement w.agreement_closed;
    } in
    elim (Bool-cases (is_empty method.id)) [
      | inl h ↦ rw h w
      | inr h ↦ elim (Bool-cases (has_method method.id methods)) [
        | inl h' ↦ rw (h, h') w
        | inr h' ↦
            rw (h, h')
              (add_references-IsWellFormed method.id rels next (has_method_last methods method) w')
      ]
    ]
step-IsWellFormed (Call.remove id) doc w =
    let methods = doc.verification_methods in
    elim (Bool-cases (length (retain_methods id methods) == length methods)) [
      | inl h ↦ rw h w
      | inr h ↦ rw h (record {
        authentication_closed =
            IsClosed-retain id methods doc.authentication w.authentication_closed;
        assertion_closed = IsClosed-retain id methods doc.assertion_method w.assertion_closed;
        agreement_closed = IsClosed-retain id methods doc.key_agreement w.agreement_closed;
      })
    ]

pub run-IsWellFormed :
    (calls : List Call) (doc : DidDocument) → IsWellFormed doc → IsWellFormed (run calls doc)
unfolding run
run-IsWellFormed [] doc w = w
run-IsWellFormed (c ∷ calls) doc w = run-IsWellFormed calls (step c doc) (step-IsWellFormed c doc w)

-- A document that `new` has made refers to nothing.
pub new-IsWellFormed : (did : Str) (doc : DidDocument) → Did.new did ≡ ok doc → IsWellFormed doc
unfolding Did.new
new-IsWellFormed did doc made = elim (Bool-cases (is_empty did)) [
  | inl h ↦ (let eq = rw h at made in absurd cc)
  | inr h ↦
      let eq = rw h at made in
      let same : empty_document did ≡ doc = cc in
      subst IsWellFormed same
        (record { authentication_closed = tt; assertion_closed = tt; agreement_closed = tt })
]
