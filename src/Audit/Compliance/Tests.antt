-- ===== src/Audit/Compliance/Tests.antt =====
-- Reports on small logs; a ratio is a maximum in hundredths.
use abir_guard.Base.{
  ℕ, ◌*◌, ◌≡◌, refl, ◌↔◌, true, false, Bool, none, List, [], ◌∷◌, Str, str, ltb, bytes_eq, All,
  Result, ok, err,
}
use abir_guard.Audit.Log.{AuditEntry, AuditLog, Severity, info, critical}
use abir_guard.Audit.Compliance.{
  ComplianceRule, ComplianceError, ComplianceReport, max_consecutive_auth_failures,
  require_critical_on_revocation, max_revocation_to_rotation_ratio, evaluate,
  check_consecutive_auth_failures, failures_loop, check_revocation_criticality,
  check_revocation_rotation_ratio,
}
use abir_guard.Audit.Compliance.Report.{Holds, evaluate-Holds_iff}

abbrev over : ℕ → ℕ → ℕ → Bool
over revocations rotations hundredths = ltb (hundredths * rotations) (100 * revocations)

abbrev event : ℕ → Str → Severity → AuditEntry
event i action severity = record {
  index = i;
  timestamp = i;
  actor = str "a";
  action = action;
  detail = none;
  severity = severity;
  entry_hash = [];
}

abbrev log : AuditLog
log = record {
  entries =
      event 0 (str "auth.failure") info
      ∷ event 1 (str "auth.failure") info
      ∷ event 2 (str "key.revoke") critical
      ∷ event 3 (str "key.rotation") info
      ∷ [];
}

abbrev rules : List (ComplianceRule ℕ)
rules =
    max_consecutive_auth_failures 1
    ∷ require_critical_on_revocation
    ∷ max_revocation_to_rotation_ratio 100
    ∷ []

passes : Result ComplianceError (ComplianceReport ℕ) → Bool
passes (ok r) = r.passed
passes (err e) = false

flagged : passes (evaluate over log rules) ≡ false
unfolding passes evaluate check_consecutive_auth_failures failures_loop check_revocation_criticality
    check_revocation_rotation_ratio bytes_eq
flagged = refl

evaluate-Holds_iff_example :
    (report : ComplianceReport ℕ) × (evaluate over log rules ≡ ok report)
    × ((report.passed ≡ true) ↔ All (Holds over log.entries) rules)
evaluate-Holds_iff_example = evaluate-Holds_iff over log rules refl
