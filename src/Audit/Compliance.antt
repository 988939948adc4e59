-- ===== src/Audit/Compliance.antt =====
-- src/audit/compliance.rs: rules over the entries of a log. The floating-point comparison of a
-- ratio with its maximum is a parameter; a violation's text is kept as the data that fills it in.
pub mod Runs
pub mod Report
mod Tests
use abir_guard.Base.{
  ℕ, zero, suc, ◌+◌, Bool, true, false, not, ◌&&◌, List, [], ◌∷◌, ◌++◌, Str, str, ltb, ◌==◌,
  if◌then◌else◌, bytes_eq, length, is_empty, Result, ok, err, filter,
}
use abir_guard.Audit.Log.{AuditEntry, AuditLog, Severity, info, warning, critical}

pub data ComplianceError : Type 0 where
  empty_log : ComplianceError

-- `Ratio` stands for `f64`.
pub data ComplianceRule (Ratio : Type 0) : Type 0 where
  max_consecutive_auth_failures : ℕ → ComplianceRule Ratio
  require_critical_on_revocation : ComplianceRule Ratio
  max_revocation_to_rotation_ratio : Ratio → ComplianceRule Ratio

pub data Description (Ratio : Type 0) : Type 0 where
  consecutive_failures : ℕ → ℕ → Description Ratio
  not_critical : ℕ → Severity → Description Ratio
  ratio_undefined : ℕ → Description Ratio
  ratio_exceeded : ℕ → ℕ → Ratio → Description Ratio

pub record ComplianceViolation (Ratio : Type 0) : Type 0 where
  pub description : Description Ratio
  pub entry_indices : List ℕ

pub record ComplianceReport (Ratio : Type 0) : Type 0 where
  pub total_entries : ℕ
  pub violations : List (ComplianceViolation Ratio)
  pub passed : Bool

abbrev pub is_failure : AuditEntry → Bool
is_failure e = bytes_eq e.action (str "auth.failure")

abbrev pub is_revocation : AuditEntry → Bool
is_revocation e = bytes_eq e.action (str "key.revoke")

abbrev pub is_rotation : AuditEntry → Bool
is_rotation e = bytes_eq e.action (str "key.rotation")

-- `severity == Severity::Critical`
abbrev pub is_critical : Severity → Bool
is_critical info = false
is_critical warning = false
is_critical critical = true

-- `exceeds revocations rotations max_ratio`: `revocations as f64 / rotations as f64 > max_ratio`.
module _ {Ratio : Type 0} (exceeds : ℕ → ℕ → Ratio → Bool) where
  -- The violation of a run of failures that ended, if it is too long.
  abbrev pub flag_run : ℕ → List ℕ → List (ComplianceViolation Ratio)
  flag_run max_consecutive run =
      if ltb max_consecutive (length run)
      then record {
        description = consecutive_failures (length run) max_consecutive;
        entry_indices = run;
      }
        ∷ []
      else []

  -- The loop with the run so far; the violations that it pushes, in order.
  unfoldable pub failures_loop : ℕ → List ℕ → List AuditEntry → List (ComplianceViolation Ratio)
  failures_loop max_consecutive run [] = flag_run max_consecutive run
  failures_loop max_consecutive run (entry ∷ entries) = elim (is_failure entry) [
    | true ↦ failures_loop max_consecutive (run ++ entry.index ∷ []) entries
    | false ↦ flag_run max_consecutive run ++ failures_loop max_consecutive [] entries
  ]

  unfoldable pub check_consecutive_auth_failures :
      List AuditEntry → ℕ → List (ComplianceViolation Ratio)
  check_consecutive_auth_failures entries max_consecutive = failures_loop max_consecutive [] entries

  unfoldable pub check_revocation_criticality : List AuditEntry → List (ComplianceViolation Ratio)
  check_revocation_criticality [] = []
  check_revocation_criticality (entry ∷ entries) =
      (if is_revocation entry && not (is_critical entry.severity)
        then record {
          description = not_critical entry.index entry.severity;
          entry_indices = entry.index ∷ [];
        }
          ∷ []
        else [])
      ++ check_revocation_criticality entries

  unfoldable pub check_revocation_rotation_ratio :
      List AuditEntry → Ratio → List (ComplianceViolation Ratio)
  check_revocation_rotation_ratio entries max_ratio =
      let revocations = length (filter is_revocation entries) in
      let rotations = length (filter is_rotation entries) in
      if rotations == 0 && ltb 0 revocations
      then record { description = ratio_undefined revocations; entry_indices = [] } ∷ []
      else if ltb 0 rotations && exceeds revocations rotations max_ratio
      then record {
        description = ratio_exceeded revocations rotations max_ratio;
        entry_indices = [];
      }
        ∷ []
      else []

  -- The violations that one rule adds.
  abbrev pub check_rule : List AuditEntry → ComplianceRule Ratio → List (ComplianceViolation Ratio)
  check_rule entries (max_consecutive_auth_failures n) = check_consecutive_auth_failures entries n
  check_rule entries require_critical_on_revocation = check_revocation_criticality entries
  check_rule entries (max_revocation_to_rotation_ratio r) =
      check_revocation_rotation_ratio entries r

  abbrev pub check_rules :
      List AuditEntry → List (ComplianceRule Ratio) → List (ComplianceViolation Ratio)
  check_rules entries [] = []
  check_rules entries (rule ∷ rules) = check_rule entries rule ++ check_rules entries rules

  unfoldable pub evaluate :
      AuditLog → List (ComplianceRule Ratio) → Result ComplianceError (ComplianceReport Ratio)
  evaluate log rules =
      if is_empty log.entries
      then err empty_log
      else let violations = check_rules log.entries rules in
        ok (record {
          total_entries = length log.entries;
          violations = violations;
          passed = is_empty violations;
        })
