-- ===== src/Tee/Service.antt =====
-- src/confidential_computing/attestation_service/mod.rs: one policy for the evidence of all
-- environments.
pub mod Policy
pub mod Quotes
pub mod Reports
pub mod Batches
use abir_guard.Base.{
  ℕ, ◌+◌, ◌-◌, Bool, true, false, not, ◌&&◌, ◌||◌, List, [], ◌∷◌, ◌++◌, map, Str, str, ltb, leb,
  if◌then◌else◌, is_empty, length, filter, Result, ok, err, ◌>>=◌, map_err,
}
use abir_guard.Base.Map.{Map, insert, contains}
use abir_guard.Base.Text.{decimal}
use abir_guard.Tee.Common.{
  TeeType, sgx, trust_zone, amd_sev, intel_tdx, tee_key, TeeAttestationReport,
}
use abir_guard.Tee.Sgx.{EnclaveError, Quote}
use abir_guard.Tee.Sgx.Verifier.{QuoteVerificationResult, verify_quote_standard}
use abir_guard.Tee.TrustZone.{TrustZoneError}
use abir_guard.Tee.TrustZone.Report
use abir_guard.Tee.TrustZone.Report.{TrustZoneAttestationPolicy, TrustZoneVerificationResult}

pub data AttestationServiceError : Type 0 where
  sgx_verification trust_zone_verification : Str → AttestationServiceError
  unsupported_tee : TeeType → AttestationServiceError
  policy_rejected : Str → AttestationServiceError

pub data TrustLevel : Type 0 where
  low medium high : TrustLevel

abbrev pub rank : TrustLevel → ℕ
rank low = 1
rank medium = 2
rank high = 3

abbrev pub meets_minimum : TrustLevel → TrustLevel → Bool
meets_minimum level minimum = leb (rank minimum) (rank level)

pub record AttestationRoutingPolicy : Type 0 where
  pub allowed_tees : Map TeeType (Unit {0})
  pub max_sgx_age_seconds : ℕ
  pub max_trustzone_age_seconds : ℕ
  pub minimum_trust_level : TrustLevel

abbrev pub default_routing : AttestationRoutingPolicy
default_routing = record {
  allowed_tees = insert trust_zone tt (insert sgx tt []);
  max_sgx_age_seconds = 3600;
  max_trustzone_age_seconds = 300;
  minimum_trust_level = low;
}

pub record UnifiedAttestationResult : Type 0 where
  pub tee_type : TeeType
  pub is_valid : Bool
  pub is_fresh : Bool
  pub evidence_age_seconds : ℕ
  pub trust_level : TrustLevel
  pub summary : Str

abbrev pub Verdict : Type 0
Verdict = Result AttestationServiceError UnifiedAttestationResult

pub record BatchVerificationResult : Type 0 where
  pub items : List Verdict
  pub passed : ℕ
  pub failed : ℕ

-- `{}` of a `bool`.
abbrev pub bool_text : Bool → Str
bool_text true = str "true"
bool_text false = str "false"

-- `{:?}`
abbrev pub tee_text : TeeType → Str
tee_text sgx = str "SGX"
tee_text trust_zone = str "TrustZone"
tee_text amd_sev = str "AmdSev"
tee_text intel_tdx = str "IntelTdx"

abbrev pub level_text : TrustLevel → Str
level_text low = str "Low"
level_text medium = str "Medium"
level_text high = str "High"

unfoldable pub of_quote_result : QuoteVerificationResult → UnifiedAttestationResult
of_quote_result value = record {
  tee_type = sgx;
  is_valid = value.is_valid;
  is_fresh = value.is_fresh;
  evidence_age_seconds = value.quote_age_seconds;
  trust_level =
      if value.signature_valid && (value.cert_chain_valid && is_empty value.advisories)
      then high
      else if value.signature_valid && value.cert_chain_valid
      then medium
      else low;
  summary =
      str "sgx: signature_valid="
      ++ (bool_text value.signature_valid
          ++ (str ", cert_chain_valid="
              ++ (bool_text value.cert_chain_valid
                  ++ (str ", advisories=" ++ decimal (length value.advisories)))));
}

unfoldable pub of_trustzone_result : TrustZoneVerificationResult → UnifiedAttestationResult
of_trustzone_result value = record {
  tee_type = trust_zone;
  is_valid = value.is_valid;
  is_fresh = value.is_fresh;
  evidence_age_seconds = value.report_age_seconds;
  trust_level = if value.is_valid then medium else low;
  summary = str "trustzone: expected_format=" ++ bool_text value.has_expected_format;
}

pub record AttestationService : Type 0 where
  pub tz_policy : TrustZoneAttestationPolicy
  pub routing_policy : AttestationRoutingPolicy

abbrev pub new : AttestationService
new = record { tz_policy = Report.default_policy; routing_policy = default_routing }

abbrev pub with_trustzone_policy : TrustZoneAttestationPolicy → AttestationService
with_trustzone_policy tz_policy = record { tz_policy = tz_policy; routing_policy = default_routing }

abbrev pub with_routing_policy : AttestationRoutingPolicy → AttestationService
with_routing_policy routing_policy = record {
  tz_policy = Report.default_policy;
  routing_policy = routing_policy;
}

-- The `match` for the maximum age.
unfoldable pub max_age : AttestationRoutingPolicy → TeeType → Result AttestationServiceError ℕ
max_age p sgx = ok p.max_sgx_age_seconds
max_age p trust_zone = ok p.max_trustzone_age_seconds
max_age p other =
    err (policy_rejected (str "tee type " ++ (tee_text other ++ str " has no configured age SLA")))

-- What follows once the maximum age is known.
unfoldable pub enforce_age : AttestationRoutingPolicy → UnifiedAttestationResult → ℕ → Verdict
enforce_age p result max_age =
    if ltb max_age result.evidence_age_seconds
    then err (
        policy_rejected (
          str "evidence age "
          ++ (decimal result.evidence_age_seconds
              ++ (str "s exceeds SLA "
                  ++ (decimal max_age ++ (str "s for " ++ tee_text result.tee_type))))))
    else if not (meets_minimum result.trust_level p.minimum_trust_level)
    then err (
        policy_rejected (
          str "trust level "
          ++ (level_text result.trust_level
              ++ (str " below minimum " ++ level_text p.minimum_trust_level))))
    else if not result.is_valid || not result.is_fresh
    then err (policy_rejected (str "provider verification did not return valid/fresh evidence"))
    else ok (record result { summary = result.summary ++ str "; policy=enforced" })

unfoldable pub enforce_policy : AttestationService → UnifiedAttestationResult → Verdict
unfolding max_age enforce_age
enforce_policy s result =
    if not (contains result.tee_type s.routing_policy.allowed_tees)
    then err (
        policy_rejected (
          str "tee type " ++ (tee_text result.tee_type ++ str " is not allowed by routing policy")))
    else max_age s.routing_policy result.tee_type >>= enforce_age s.routing_policy result

-- `e.to_string()`: what `thiserror` derives.
unfoldable pub enclave_error_text : EnclaveError → Str
enclave_error_text (EnclaveError.initialization_failed m) =
    str "Enclave initialization failed: " ++ m
enclave_error_text (EnclaveError.operation_failed m) = str "Enclave operation failed: " ++ m
enclave_error_text (EnclaveError.attestation_failed m) = str "Attestation failed: " ++ m
enclave_error_text (EnclaveError.quote_generation_failed m) = str "Quote generation failed: " ++ m
enclave_error_text (EnclaveError.quote_verification_failed m) =
    str "Quote verification failed: " ++ m
enclave_error_text (EnclaveError.sealed_storage_error m) = str "Sealed storage error: " ++ m
enclave_error_text (EnclaveError.invalid_state m) = str "Invalid enclave state: " ++ m
enclave_error_text (EnclaveError.communication_error m) = str "Communication error: " ++ m
enclave_error_text (EnclaveError.crypto_error m) = str "Cryptographic error: " ++ m

unfoldable pub trustzone_error_text : TrustZoneError → Str
trustzone_error_text (TrustZoneError.initialization_failed m) =
    str "TrustZone initialization failed: " ++ m
trustzone_error_text (TrustZoneError.operation_failed m) =
    str "Trusted application operation failed: " ++ m
trustzone_error_text (TrustZoneError.attestation_failed m) = str "Attestation failed: " ++ m
trustzone_error_text (TrustZoneError.invalid_state m) = str "Invalid state: " ++ m

unfoldable pub verify_sgx_quote : AttestationService → Quote → ℕ → Verdict
unfolding enforce_policy of_quote_result
verify_sgx_quote s quote now = do
  result ← map_err (λ e. sgx_verification (enclave_error_text e)) (verify_quote_standard quote now)
  enforce_policy s (of_quote_result result)

unfoldable pub verify_trustzone_report : AttestationService → TeeAttestationReport → ℕ → Verdict
unfolding enforce_policy of_trustzone_result
verify_trustzone_report s report now = do
  result ←
      map_err (λ e. trust_zone_verification (trustzone_error_text e))
        (Report.verify s.tz_policy report now)
  enforce_policy s (of_trustzone_result result)

-- The `match` on the declared type.
unfoldable pub verify_declared : TeeType → AttestationService → TeeAttestationReport → ℕ → Verdict
verify_declared trust_zone s report now = verify_trustzone_report s report now
verify_declared other s report now = err (unsupported_tee other)

unfoldable pub verify_report : AttestationService → TeeAttestationReport → ℕ → Verdict
unfolding verify_declared
verify_report s report now = verify_declared report.tee_type s report now

abbrev pub is_ok : Verdict → Bool
is_ok (ok r) = true
is_ok (err e) = false

-- The end of both batch methods.
unfoldable pub summarize : List Verdict → BatchVerificationResult
summarize items =
    let passed = length (filter is_ok items) in
    record { items = items; passed = passed; failed = length items - passed }

-- The clock is read for each item: `clock i` for the one at position `i`.
unfoldable pub verify_each {ℓ} :
    {A : Type ℓ} → (A → ℕ → Verdict) → (ℕ → ℕ) → ℕ → List A → List Verdict
verify_each verify clock i [] = []
verify_each verify clock i (x ∷ xs) = verify x (clock i) ∷ verify_each verify clock (i + 1) xs

unfoldable pub verify_reports_batch :
    AttestationService → List TeeAttestationReport → (ℕ → ℕ) → BatchVerificationResult
unfolding verify_each summarize
verify_reports_batch s reports clock = summarize (verify_each (verify_report s) clock 0 reports)

unfoldable pub verify_sgx_quotes_batch :
    AttestationService → List Quote → (ℕ → ℕ) → BatchVerificationResult
unfolding verify_each summarize
verify_sgx_quotes_batch s quotes clock = summarize (verify_each (verify_sgx_quote s) clock 0 quotes)
