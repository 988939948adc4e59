-- ===== src/Batch.antt =====
-- src/performance/batch_ops.rs: batches of ML-DSA verifications and signatures. `verify` and `sign`
-- are parameters: they are the calls of the ML-DSA crate behind src/ml_dsa.rs, and their error is
-- whatever type `E` it is.
pub mod Outcomes
mod Tests
use abir_guard.Base.{
  ℕ, ◌-◌, Bool, true, false, Option, none, some, List, [], ◌∷◌, map, Bytes, Str, length, is_empty,
  filter, if◌then◌else◌, ◌==◌, Result, ok, err,
}

pub data BatchOpsError : Type 0 where
  empty_batch : BatchOpsError
  mldsa_error : Str → BatchOpsError

pub record VerifyRequest : Type 0 where
  pub message : Bytes
  pub signature : Bytes
  pub verifying_key : Bytes

pub record BatchVerifyResult : Type 0 where
  pub total : ℕ
  pub passed : ℕ
  pub failed : ℕ
  pub results : List Bool

abbrev pub all_passed : BatchVerifyResult → Bool
all_passed r = r.failed == 0

pub record SignRequest : Type 0 where
  pub message : Bytes
  pub signing_key : Bytes

pub record BatchSignResult : Type 0 where
  pub total : ℕ
  pub succeeded : ℕ
  pub failed : ℕ
  pub signatures : List (Option Bytes)

abbrev pub all_succeeded : BatchSignResult → Bool
all_succeeded r = r.failed == 0

-- `result.unwrap_or(false)`
abbrev pub or_false : {E : Type 0} → Result E Bool → Bool
or_false (ok b) = b
or_false (err e) = false

-- `result.ok()`
abbrev pub to_option : {E : Type 0} → Result E Bytes → Option Bytes
to_option (ok a) = some a
to_option (err e) = none

abbrev pub is_some : Option Bytes → Bool
is_some none = false
is_some (some a) = true

module _ {E : Type 0} where
  unfoldable pub batch_verify :
      (Bytes → Bytes → Bytes → Result E Bool)
      → List VerifyRequest
      → Result BatchOpsError BatchVerifyResult
  batch_verify verify requests =
      if is_empty requests
      then err empty_batch
      else let results =
          map (λ req. or_false (verify req.message req.signature req.verifying_key)) requests in
        let passed = length (filter (λ v. v) results) in
        let total = length results in
        ok (record { total = total; passed = passed; failed = total - passed; results = results })

  unfoldable pub batch_sign :
      (Bytes → Bytes → Result E Bytes) → List SignRequest → Result BatchOpsError BatchSignResult
  batch_sign sign requests =
      if is_empty requests
      then err empty_batch
      else let signatures = map (λ req. to_option (sign req.message req.signing_key)) requests in
        let succeeded = length (filter is_some signatures) in
        let total = length signatures in
        ok (record {
          total = total;
          succeeded = succeeded;
          failed = total - succeeded;
          signatures = signatures;
        })
