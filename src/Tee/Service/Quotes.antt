-- ===== src/Tee/Service/Quotes.antt =====
-- src/confidential_computing/attestation_service/mod.rs: exactly which quotes the service accepts.
use abir_guard.Base.{
  ℕ, ◌+◌, ◌-◌, ◌≤◌, ◌≡◌, ◌≢◌, ◌⊎◌, inl, inr, refl, true, false, not, ◌&&◌, [], ◌∷◌, Bytes, is_empty,
  leb, ok, err, arith,
}
use abir_guard.Base.Map.{contains}
use abir_guard.Tee.Common.{sgx, tee_key}
use abir_guard.Tee.Sgx.{Quote}
use abir_guard.Tee.Sgx.Verifier.{QuoteVerificationResult, verify_quote_standard}
use abir_guard.Tee.Service.{
  AttestationService, AttestationServiceError, UnifiedAttestationResult, high, of_quote_result,
  verify_sgx_quote, max_age,
}
use abir_guard.Tee.Service.Policy.{Enforced, enforced, enforce_policy-cases, rank-le}

-- What it asks of a quote.
abbrev pub AcceptsQuote : AttestationService → Quote → ℕ → Type 0
AcceptsQuote s quote now =
    (contains sgx s.routing_policy.allowed_tees ≡ true)
    × (quote.signature ≢ [])
    × (now ≤ quote.timestamp + s.routing_policy.max_sgx_age_seconds)
    × (now ≤ quote.timestamp + 3600)

is_empty_lem :
    (xs : Bytes) → ((is_empty xs ≡ true) × (xs ≡ [])) ⊎ ((is_empty xs ≡ false) × (xs ≢ []))
is_empty_lem [] = inl (refl, refl)
is_empty_lem (x ∷ xs) = inr (refl, λ e. cc)

-- What the standard checks say of a quote: without root certificates any chain passes.
abbrev standard : Quote → ℕ → QuoteVerificationResult
standard quote now = record {
  is_valid = not (is_empty quote.signature) && leb (now - quote.timestamp) 3600;
  signature_valid = not (is_empty quote.signature);
  cert_chain_valid = true;
  is_fresh = leb (now - quote.timestamp) 3600;
  cpu_patched = true;
  advisories = [];
  verified_at = now;
  quote_age_seconds = now - quote.timestamp;
}

verify_quote_standard_lem :
    (quote : Quote) (now : ℕ) → verify_quote_standard quote now ≡ ok (standard quote now)
unfolding verify_quote_standard
verify_quote_standard_lem quote now = ground arith

AcceptsQuote-Enforced :
    (s : AttestationService) (quote : Quote) (now : ℕ)
    → AcceptsQuote s quote now
    → Enforced s (of_quote_result (standard quote now)) s.routing_policy.max_sgx_age_seconds
unfolding of_quote_result
AcceptsQuote-Enforced s quote now (allowed, signed, young, hour) =
    ground (arith, is_empty_lem quote.signature, rank-le s.routing_policy.minimum_trust_level)

Enforced-AcceptsQuote :
    (s : AttestationService) (quote : Quote) (now : ℕ)
    → Enforced s (of_quote_result (standard quote now)) s.routing_policy.max_sgx_age_seconds
    → AcceptsQuote s quote now × ((of_quote_result (standard quote now)).trust_level ≡ high)
unfolding of_quote_result
Enforced-AcceptsQuote s quote now (allowed, young, trust, valid, fresh) =
    ground (arith, is_empty_lem quote.signature)

-- A quote is accepted exactly when SGX is allowed, the quote carries any signature at all, and it is
-- not older than the bound of the service nor than one hour; a quote from the future counts as new,
-- and its certificates are not asked for. What is accepted is reported valid, fresh and of high
-- trust with its age; all else is an error.
pub verify_sgx_quote-AcceptsQuote :
    (s : AttestationService) (quote : Quote) (now : ℕ)
    → (AcceptsQuote s quote now
        × ((r : UnifiedAttestationResult) × (verify_sgx_quote s quote now ≡ ok r)
            × (r.tee_type ≡ sgx)
            × (r.is_valid ≡ true)
            × (r.is_fresh ≡ true)
            × (r.trust_level ≡ high)
            × (r.evidence_age_seconds ≡ now - quote.timestamp)))
      ⊎ ((¬ AcceptsQuote s quote now)
          × ((e : AttestationServiceError) × (verify_sgx_quote s quote now ≡ err e)))
unfolding verify_sgx_quote of_quote_result max_age
verify_sgx_quote-AcceptsQuote s quote now =
    rw (verify_quote_standard_lem quote now)
      (elim (enforce_policy-cases s (of_quote_result (standard quote now))
        s.routing_policy.max_sgx_age_seconds refl) [
          | inl (good, done) ↦
              let (accepts, trusted) = Enforced-AcceptsQuote s quote now good in
              let r = enforced (of_quote_result (standard quote now)) in
              inl (accepts, (r, done, refl, good.3, good.4, trusted, refl))
          | inr (bad, refused) ↦ inr (λ good. bad (AcceptsQuote-Enforced s quote now good), refused)
        ])
