-- ===== src/Tee/TrustZone/Report.antt =====
-- src/confidential_computing/trustzone/attestation.rs: the checks on a TrustZone report.
use abir_guard.Base.{
  ℕ, ◌-◌, Bool, true, false, not, ◌&&◌, [], ◌∷◌, Bytes, str, leb, ◌==◌, if◌then◌else◌, Result, ok,
  ◌>>◌, reject_if,
}
use abir_guard.Tee.Common.{TeeAttestationReport, trust_zone, tee_eq}
use abir_guard.Tee.TrustZone.{TrustZoneError, attestation_failed}

pub record TrustZoneAttestationPolicy : Type 0 where
  pub max_age_seconds : ℕ
  pub require_format_marker : Bool

abbrev pub default_policy : TrustZoneAttestationPolicy
default_policy = record { max_age_seconds = 300; require_format_marker = true }

pub record TrustZoneVerificationResult : Type 0 where
  pub is_valid : Bool
  pub is_fresh : Bool
  pub has_expected_format : Bool
  pub report_age_seconds : ℕ
  pub verified_at : ℕ

-- `xs.starts_with(prefix)`
unfoldable pub starts_with : Bytes → Bytes → Bool
starts_with xs [] = true
starts_with [] (p ∷ ps) = false
starts_with (x ∷ xs) (p ∷ ps) = x == p && starts_with xs ps

abbrev pub format_marker : Bytes
format_marker = str "TZ-ATTEST"

unfoldable pub verify :
    TrustZoneAttestationPolicy
    → TeeAttestationReport
    → ℕ
    → Result TrustZoneError TrustZoneVerificationResult
verify policy report now = do
  reject_if (not (tee_eq report.tee_type trust_zone))
      (attestation_failed (str "report tee type is not TrustZone"))
  let age = now - report.timestamp
  let is_fresh = leb age policy.max_age_seconds
  let has_expected_format =
      if policy.require_format_marker
      then starts_with report.attestation_data format_marker
      else true
  ok (record {
    is_valid = is_fresh && has_expected_format;
    is_fresh = is_fresh;
    has_expected_format = has_expected_format;
    report_age_seconds = age;
    verified_at = now;
  })

abbrev pub build_simulated_report : ℕ → TeeAttestationReport
build_simulated_report timestamp = record {
  tee_type = trust_zone;
  attestation_data = str "TZ-ATTEST:SIMULATED:OP-TEE";
  timestamp = timestamp;
}
