-- ===== src/Batch/Outcomes.antt =====
-- What the summary of a batch says of its items.
use abir_guard.Base.{
  ℕ, ◌+◌, ◌-◌, ◌≤◌, ◌≡◌, ◌↔◌, refl, ap, inl, inr, Bool, true, false, List, [], ◌∷◌, map, Bytes,
  length, length-map, is_empty, filter, ◌==◌, ==_iff, Result, ok, err, All, arith, Bool-cases,
}
use abir_guard.Batch.{
  VerifyRequest, BatchVerifyResult, SignRequest, BatchSignResult, batch_verify, batch_sign,
  or_false, to_option, is_some, all_passed, all_succeeded,
}

module _ {A : Type 0} (test : A → Bool) where
  length-filter : (xs : List A) → length (filter test xs) ≤ length xs
  length-filter [] = omega arith
  length-filter (x ∷ xs) = elim (Bool-cases (test x)) [
    | inl keep ↦ rw (keep, filter) (omega (arith, length-filter xs))
    | inr drop ↦ rw (drop, filter) (omega (arith, length-filter xs))
  ]

  -- Nothing is left out exactly when every item passes.
  left_out_iff :
      (xs : List A) → (length xs - length (filter test xs) ≡ 0) ↔ All (λ x. test x ≡ true) xs
  left_out_iff [] = (λ h. tt, λ h. omega arith)
  left_out_iff (x ∷ xs) = elim (Bool-cases (test x)) [
    | inl keep ↦ (
      (λ h. (keep, (left_out_iff xs).0 (omega (arith, (rw (keep, filter) at h))))),
      λ h. rw (keep, filter) (omega (arith, (left_out_iff xs).1 h.1)),
    )
    | inr drop ↦ (
      (λ h. absurd (omega (arith, (rw (drop, filter) at h), length-filter xs))),
      λ h. absurd (let y = h.0 in cc),
    )
  ]

-- A claim on the image of a list, item by item.
All-map :
    {A B : Type 0} (f : A → B) (P : B → Type 0) (Q : A → Type 0)
    → ((x : A) → P (f x) ↔ Q x)
    → (xs : List A) → All P (map f xs) ↔ All Q xs
All-map f P Q each [] = (λ h. tt, λ h. tt)
All-map f P Q each (x ∷ xs) =
    let rest = All-map f P Q each xs in
    (λ h. ((each x).0 h.0, rest.0 h.1), λ h. ((each x).1 h.0, rest.1 h.1))

or_false-true : {E : Type 0} (r : Result E Bool) → (or_false r ≡ true) ↔ (r ≡ ok true)
or_false-true (ok b) = (λ h. ap ok h, λ h. cc)
or_false-true (err e) = (λ h. absurd (let x = h in cc), λ h. absurd (let x = h in cc))

to_option-some :
    {E : Type 0} (r : Result E Bytes) → (is_some (to_option r) ≡ true) ↔ ((s : Bytes) × (r ≡ ok s))
to_option-some (ok s) = (λ h. (s, refl), λ h. refl)
to_option-some (err e) = (λ h. absurd (let x = h in cc), λ h. absurd (let x = h.1 in cc))

zero_test : (n : ℕ) → ((n == 0) ≡ true) ↔ (n ≡ 0)
zero_test n = ==_iff n 0

-- On a batch that is not empty `batch_verify` returns a summary: it counts every request once, as
-- passed or as failed, and says that all passed exactly when every request verifies without an
-- error.
pub batch_verify-all_passed :
    {E : Type 0} (verify : Bytes → Bytes → Bytes → Result E Bool) (requests : List VerifyRequest)
    → is_empty requests ≡ false
    → (r : BatchVerifyResult) × (batch_verify verify requests ≡ ok r)
      × (r.total ≡ length requests)
      × (r.passed + r.failed ≡ r.total)
      × ((all_passed r ≡ true)
          ↔ All (λ q. verify q.message q.signature q.verifying_key ≡ ok true) requests)
unfolding batch_verify
batch_verify-all_passed verify requests filled =
    let outcome = λ (q : VerifyRequest). or_false (verify q.message q.signature q.verifying_key) in
    let results = map outcome requests in
    let items =
      All-map outcome (λ v. v ≡ true) (λ q. verify q.message q.signature q.verifying_key ≡ ok true)
        (λ q. or_false-true (verify q.message q.signature q.verifying_key)) requests in
    let count = left_out_iff (λ v. v) results in
    let zero_iff = zero_test (length results - length (filter (λ v. v) results)) in
    (
      record {
        total = length results;
        passed = length (filter (λ v. v) results);
        failed = length results - length (filter (λ v. v) results);
        results = results;
      },
      rw filled,
      length-map outcome requests,
      omega (arith, length-filter (λ v. v) results),
      (λ h. items.0 (count.0 (zero_iff.0 h)), λ h. zero_iff.1 (count.1 (items.1 h))),
    )

-- On a batch that is not empty `batch_sign` returns a summary: it counts every request once, as
-- signed or as failed, and says that all succeeded exactly when every request is signed.
pub batch_sign-all_succeeded :
    {E : Type 0} (sign : Bytes → Bytes → Result E Bytes) (requests : List SignRequest)
    → is_empty requests ≡ false
    → (r : BatchSignResult) × (batch_sign sign requests ≡ ok r)
      × (r.total ≡ length requests)
      × (r.succeeded + r.failed ≡ r.total)
      × ((all_succeeded r ≡ true)
          ↔ All (λ q. (s : Bytes) × (sign q.message q.signing_key ≡ ok s)) requests)
unfolding batch_sign
batch_sign-all_succeeded sign requests filled =
    let outcome = λ (q : SignRequest). to_option (sign q.message q.signing_key) in
    let signatures = map outcome requests in
    let items =
      All-map outcome (λ s. is_some s ≡ true)
        (λ q. (s : Bytes) × (sign q.message q.signing_key ≡ ok s))
        (λ q. to_option-some (sign q.message q.signing_key)) requests in
    let count = left_out_iff is_some signatures in
    let zero_iff = zero_test (length signatures - length (filter is_some signatures)) in
    (
      record {
        total = length signatures;
        succeeded = length (filter is_some signatures);
        failed = length signatures - length (filter is_some signatures);
        signatures = signatures;
      },
      rw filled,
      length-map outcome requests,
      omega (arith, length-filter is_some signatures),
      (λ h. items.0 (count.0 (zero_iff.0 h)), λ h. zero_iff.1 (count.1 (items.1 h))),
    )
