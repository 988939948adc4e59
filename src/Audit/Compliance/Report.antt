-- ===== src/Audit/Compliance/Report.antt =====
-- What a report that passed says of the log, rule by rule.
use abir_guard.Base.{
  ℕ, suc, ◌<◌, ◌≡◌, refl, ap, ap₂, ◌↔◌, inl, inr, arith, Bool, true, false, not, ◌&&◌, List, [],
  ◌∷◌, ◌++◌, All, length, ◌==◌, filter, Bool-cases, is_empty, if◌then◌else◌, ok,
}
use abir_guard.Audit.Log.{AuditEntry, AuditLog, Severity, info, warning, critical}
use abir_guard.Audit.Compliance.{
  ComplianceRule, max_consecutive_auth_failures, require_critical_on_revocation,
  max_revocation_to_rotation_ratio, ComplianceReport, ComplianceViolation, is_revocation,
  is_rotation, is_critical, check_rule, check_rules, check_revocation_criticality,
  check_revocation_rotation_ratio, evaluate,
}
use abir_guard.Audit.Compliance.Runs.{FailureRun, check_failures-FailureRun_iff, append-nil_parts}

module _ {Ratio : Type 0} (exceeds : ℕ → ℕ → Ratio → Bool) where
  -- What a rule asks of the entries.
  abbrev pub Holds : List AuditEntry → ComplianceRule Ratio → Type 0
  Holds entries (max_consecutive_auth_failures n) = ¬ FailureRun (suc n) entries
  Holds entries require_critical_on_revocation =
      All (λ e. is_revocation e ≡ true → e.severity ≡ critical) entries
  Holds entries (max_revocation_to_rotation_ratio r) =
      let revocations = length (filter is_revocation entries) in
      let rotations = length (filter is_rotation entries) in
      (rotations ≡ 0 → revocations ≡ 0) × (0 < rotations → exceeds revocations rotations r ≡ false)

  not_flagged :
      (a : Bool) (s : Severity) (v : ComplianceViolation Ratio)
      → ((if a && not (is_critical s) then v ∷ [] else []) ≡ []) ↔ (a ≡ true → s ≡ critical)
  not_flagged a critical v = (λ h r. refl, λ h. ground arith)
  not_flagged false info v = (λ h r. cc, λ h. refl)
  not_flagged true info v = (λ h. cc, λ h. let e = h refl in cc)
  not_flagged false warning v = (λ h r. cc, λ h. refl)
  not_flagged true warning v = (λ h. cc, λ h. let e = h refl in cc)

  criticality_iff :
      (entries : List AuditEntry)
      → (check_revocation_criticality exceeds entries ≡ [])
        ↔ All (λ e. is_revocation e ≡ true → e.severity ≡ critical) entries
  unfolding check_revocation_criticality
  criticality_iff [] = (λ h. tt, λ h. refl)
  criticality_iff (e ∷ entries) = (
    λ h.
        let (mine, rest) = append-nil_parts _ _ h in
        ((not_flagged (is_revocation e) e.severity _).0 mine, (criticality_iff entries).0 rest),
    λ h.
        ap₂ ◌++◌ ((not_flagged (is_revocation e) e.severity _).1 h.0)
          ((criticality_iff entries).1 h.1),
  )

  ratio_iff :
      (entries : List AuditEntry) (r : Ratio)
      → (check_revocation_rotation_ratio exceeds entries r ≡ [])
        ↔ Holds entries (max_revocation_to_rotation_ratio r)
  unfolding check_revocation_rotation_ratio
  ratio_iff entries r =
      (λ h. (λ none_rotated. ground arith, λ some_rotated. ground arith), λ h. by_count h)
    where
      by_count :
          Holds entries (max_revocation_to_rotation_ratio r)
          → unfold check_revocation_rotation_ratio in
            check_revocation_rotation_ratio exceeds entries r ≡ []
      by_count h = elim (Bool-cases (length (filter is_rotation entries) == 0)) [
        | inl none_rotated ↦ ground (arith, h.0 (ground arith))
        | inr some_rotated ↦ ground (arith, h.1 (ground arith))
      ]

  check_rule-Holds_iff :
      (entries : List AuditEntry) (rule : ComplianceRule Ratio)
      → (check_rule exceeds entries rule ≡ []) ↔ Holds entries rule
  check_rule-Holds_iff entries (max_consecutive_auth_failures n) =
      check_failures-FailureRun_iff exceeds entries n
  check_rule-Holds_iff entries require_critical_on_revocation = criticality_iff entries
  check_rule-Holds_iff entries (max_revocation_to_rotation_ratio r) = ratio_iff entries r

  check_rules-Holds_iff :
      (entries : List AuditEntry) (rules : List (ComplianceRule Ratio))
      → (check_rules exceeds entries rules ≡ []) ↔ All (Holds entries) rules
  check_rules-Holds_iff entries [] = (λ h. tt, λ h. refl)
  check_rules-Holds_iff entries (rule ∷ rules) = (
    λ h.
        let (mine, rest) =
          append-nil_parts (check_rule exceeds entries rule) (check_rules exceeds entries rules)
            h in
        ((check_rule-Holds_iff entries rule).0 mine, (check_rules-Holds_iff entries rules).0 rest),
    λ h.
        ap₂ ◌++◌ ((check_rule-Holds_iff entries rule).1 h.0)
          ((check_rules-Holds_iff entries rules).1 h.1),
  )

  -- On a log with entries `evaluate` returns a report, which passes exactly when each rule holds:
  -- no run of failures beyond its maximum, every revocation critical, and revocations within the
  -- ratio to rotations, with none where there is no rotation.
  pub evaluate-Holds_iff :
      (log : AuditLog) (rules : List (ComplianceRule Ratio))
      → is_empty log.entries ≡ false
      → (report : ComplianceReport Ratio) × (evaluate exceeds log rules ≡ ok report)
        × ((report.passed ≡ true) ↔ All (Holds log.entries) rules)
  unfolding evaluate
  evaluate-Holds_iff log rules filled =
      let flagged = check_rules exceeds log.entries rules in
      let iff = check_rules-Holds_iff log.entries rules in
      (
        record {
          total_entries = length log.entries;
          violations = flagged;
          passed = is_empty flagged;
        },
        rw filled,
        (λ h. iff.0 (empty_list flagged h), λ h. ap is_empty (iff.1 h)),
      )
    where
      empty_list : (l : List (ComplianceViolation Ratio)) → is_empty l ≡ true → l ≡ []
      empty_list [] h = refl
      empty_list (x ∷ l) h = cc
