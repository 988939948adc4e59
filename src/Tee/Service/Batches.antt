-- ===== src/Tee/Service/Batches.antt =====
-- src/confidential_computing/attestation_service/mod.rs: the counts of a batch.
use abir_guard.Base.{ℕ, ◌+◌, ◌≤◌, ◌≡◌, refl, List, [], ◌∷◌, length, filter, ok, err, arith}
use abir_guard.Tee.Service.{
  Verdict, is_ok, summarize, verify_each, verify_report, verify_reports_batch, AttestationService,
}
use abir_guard.Tee.Common.{TeeAttestationReport}

length-filter-is_ok : (items : List Verdict) → length (filter is_ok items) ≤ length items
length-filter-is_ok [] = omega arith
length-filter-is_ok (ok r ∷ items) = omega (arith, length-filter-is_ok items)
length-filter-is_ok (err e ∷ items) = omega (arith, length-filter-is_ok items)

length-verify_each {ℓ} :
    {A : Type ℓ} (verify : A → ℕ → Verdict) (clock : ℕ → ℕ) (i : ℕ) (xs : List A)
    → length (verify_each verify clock i xs) ≡ length xs
unfolding verify_each
length-verify_each verify clock i [] = refl
length-verify_each verify clock i (x ∷ xs) =
    omega (arith, length-verify_each verify clock (i + 1) xs)

-- A batch has a verdict for each report, and counts each once, passed or failed.
pub verify_reports_batch_counts :
    (s : AttestationService) (reports : List TeeAttestationReport) (clock : ℕ → ℕ)
    → let batch = verify_reports_batch s reports clock in
      (length batch.items ≡ length reports) × (batch.passed + batch.failed ≡ length reports)
unfolding verify_reports_batch summarize
verify_reports_batch_counts s reports clock =
    let items = verify_each (verify_report s) clock 0 reports in
    let all_items = length-verify_each (verify_report s) clock 0 reports in
    (all_items, omega (arith, length-filter-is_ok items, all_items))
