-- ===== src/Tee/Service/Reports.antt =====
-- src/confidential_computing/attestation_service/mod.rs: exactly which TrustZone reports the service
-- accepts, and that a session's own is not among them.
use abir_guard.Base.{
  ℕ, ◌+◌, ◌-◌, ◌≤◌, ◌≡◌, ◌≢◌, ◌⊎◌, inl, inr, refl, ap, ◌∙◌, true, false, ◌&&◌, [], ◌∷◌, ◌++◌, Bytes,
  ◌==◌, ==_iff, Bool-cases, if◌then◌else◌, leb, ok, err, arith,
}
use abir_guard.Base.Map.{contains}
use abir_guard.Tee.Common.{
  TeeType, sgx, trust_zone, amd_sev, intel_tdx, tee_key, TeeAttestationReport,
}
use abir_guard.Tee.TrustZone.Report
use abir_guard.Tee.TrustZone.Report.{TrustZoneVerificationResult, starts_with, format_marker}
use abir_guard.Tee.Service.{
  AttestationService, AttestationServiceError, UnifiedAttestationResult, medium, high,
  of_trustzone_result, enforce_policy, verify_trustzone_report, verify_report, max_age,
  verify_declared, unsupported_tee,
}
use abir_guard.Tee.TrustZone.{TrustZoneEnclave, get_attestation}
use abir_guard.Tee.Service.Policy.{Enforced, enforced, enforce_policy-cases, rank-le_medium}

starts_with_lem :
    (xs ps : Bytes)
    → ((starts_with xs ps ≡ true) × ((rest : Bytes) × (xs ≡ ps ++ rest)))
      ⊎ ((starts_with xs ps ≡ false) × ¬ ((rest : Bytes) × (xs ≡ ps ++ rest)))
unfolding starts_with
starts_with_lem xs [] = inl (refl, (xs, refl))
starts_with_lem [] (p ∷ ps) = inr (refl, λ h. (let e = h.1 in cc))
starts_with_lem (x ∷ xs) (p ∷ ps) = elim (Bool-cases (x == p)) [
  | inl e ↦ elim (starts_with_lem xs ps) [
    | inl (yes_rest, (rest, same)) ↦
        inl (rw (e, yes_rest), (rest, (let head = (==_iff x p).0 e in cc)))
    | inr (no_rest, other) ↦ inr (rw (e, no_rest), λ h. other (h.0, (let eq = h.1 in cc)))
  ]
  | inr ne ↦ inr (rw ne, λ h. (let eq = h.1 in let head : x ≡ p = cc in ground (arith)))
]

-- What a service asks of a TrustZone report.
abbrev pub AcceptsReport : AttestationService → TeeAttestationReport → ℕ → Type 0
AcceptsReport s report now =
    (report.tee_type ≡ trust_zone)
    × (contains trust_zone s.routing_policy.allowed_tees ≡ true)
    × (now ≤ report.timestamp + s.routing_policy.max_trustzone_age_seconds)
    × (now ≤ report.timestamp + s.tz_policy.max_age_seconds)
    × (s.routing_policy.minimum_trust_level ≢ high)
    × ((s.tz_policy.require_format_marker ≡ false)
        ⊎ ((rest : Bytes) × (report.attestation_data ≡ format_marker ++ rest)))

-- What the verifier says of a report that declares TrustZone.
abbrev checked : AttestationService → TeeAttestationReport → ℕ → TrustZoneVerificationResult
checked s report now =
    let format =
      if s.tz_policy.require_format_marker
      then starts_with report.attestation_data format_marker
      else true in
    record {
      is_valid = leb (now - report.timestamp) s.tz_policy.max_age_seconds && format;
      is_fresh = leb (now - report.timestamp) s.tz_policy.max_age_seconds;
      has_expected_format = format;
      report_age_seconds = now - report.timestamp;
      verified_at = now;
    }

verify_lem :
    (s : AttestationService) (report : TeeAttestationReport) (now : ℕ)
    → report.tee_type ≡ trust_zone
    → Report.verify s.tz_policy report now ≡ ok (checked s report now)
unfolding Report.verify
verify_lem s report now h = rw h refl

AcceptsReport-Enforced :
    (s : AttestationService) (report : TeeAttestationReport) (now : ℕ)
    → AcceptsReport s report now
    → Enforced s
        (of_trustzone_result (checked s report now))
        s.routing_policy.max_trustzone_age_seconds
unfolding of_trustzone_result
AcceptsReport-Enforced s report now (declared, allowed, routed, young, level, marked) = ground (
  arith,
  starts_with_lem report.attestation_data format_marker,
  rank-le_medium s.routing_policy.minimum_trust_level level,
)

Enforced-AcceptsReport :
    (s : AttestationService) (report : TeeAttestationReport) (now : ℕ)
    → report.tee_type ≡ trust_zone
    → Enforced s
        (of_trustzone_result (checked s report now))
        s.routing_policy.max_trustzone_age_seconds
    → AcceptsReport s report now
      × ((of_trustzone_result (checked s report now)).trust_level ≡ medium)
unfolding of_trustzone_result
Enforced-AcceptsReport s report now declared (allowed, young, trust, valid, fresh) =
    ground (arith, starts_with_lem report.attestation_data format_marker)

declared_cases :
    (t : TeeType) (s : AttestationService) (report : TeeAttestationReport) (now : ℕ)
    → (t ≡ trust_zone)
      ⊎ ((t ≢ trust_zone) × (verify_declared t s report now ≡ err (unsupported_tee t)))
unfolding verify_declared
declared_cases sgx s report now = inr (λ e. cc, refl)
declared_cases trust_zone s report now = inl refl
declared_cases amd_sev s report now = inr (λ e. cc, refl)
declared_cases intel_tdx s report now = inr (λ e. cc, refl)

verify_report-checked :
    (s : AttestationService) (report : TeeAttestationReport) (now : ℕ)
    → report.tee_type ≡ trust_zone
    → verify_report s report now ≡ enforce_policy s (of_trustzone_result (checked s report now))
unfolding verify_report verify_trustzone_report verify_declared
verify_report-checked s report now h =
    ap (λ t. verify_declared t s report now) h ∙ rw (verify_lem s report now h) refl

-- A report is accepted exactly when it declares TrustZone, which the policy allows, it is not older
-- than either of the two bounds, a report from the future counting as new, the policy does not ask
-- for high trust, and its data begin with the marker where that is asked for. What is accepted
-- is reported valid, fresh and of medium trust with its age; all else is an error.
pub verify_report-AcceptsReport :
    (s : AttestationService) (report : TeeAttestationReport) (now : ℕ)
    → (AcceptsReport s report now
        × ((r : UnifiedAttestationResult) × (verify_report s report now ≡ ok r)
            × (r.tee_type ≡ trust_zone)
            × (r.is_valid ≡ true)
            × (r.is_fresh ≡ true)
            × (r.trust_level ≡ medium)
            × (r.evidence_age_seconds ≡ now - report.timestamp)))
      ⊎ ((¬ AcceptsReport s report now)
          × ((e : AttestationServiceError) × (verify_report s report now ≡ err e)))
unfolding verify_report of_trustzone_result max_age
verify_report-AcceptsReport s report now = elim (declared_cases report.tee_type s report now) [
  | inl declared ↦
      rw (verify_report-checked s report now declared)
        (elim (enforce_policy-cases s (of_trustzone_result (checked s report now))
          s.routing_policy.max_trustzone_age_seconds refl) [
            | inl (good, done) ↦
                let (accepts, trusted) = Enforced-AcceptsReport s report now declared good in
                let r = enforced (of_trustzone_result (checked s report now)) in
                inl (accepts, (r, done, refl, good.3, good.4, trusted, refl))
            | inr (bad, refused) ↦
                inr (λ good. bad (AcceptsReport-Enforced s report now good), refused)
          ])
  | inr (other, refused) ↦ inr (λ good. other good.0, (_, refused))
]

-- The data of a session's own report are zeros.
unmarked :
    (e : TrustZoneEnclave) {report : TeeAttestationReport}
    → get_attestation e ≡ ok report
    → ¬ ((rest : Bytes) × (report.attestation_data ≡ format_marker ++ rest))
unfolding get_attestation
unmarked e {report} made (rest, marked) = ground arith

-- The attestation report that an initialized TrustZone session makes is refused by every service
-- that asks for the format marker, as the default one does, at any time.
pub own_report_refused :
    (e : TrustZoneEnclave) (s : AttestationService) (now : ℕ) {report : TeeAttestationReport}
    → get_attestation e ≡ ok report
    → s.tz_policy.require_format_marker ≡ true
    → (error : AttestationServiceError) × (verify_report s report now ≡ err error)
own_report_refused e s now {report} made marked = elim (verify_report-AcceptsReport s report now) [
  | inl (accepts, _) ↦ absurd (ground (arith, unmarked e made))
  | inr (_, refused) ↦ refused
]
