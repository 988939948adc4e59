-- ===== src/Tee/Service/Policy.antt =====
-- src/confidential_computing/attestation_service/mod.rs: what the routing policy asks of a result.
use abir_guard.Base.{
  ℕ, ◌≤◌, ◌≡◌, ◌≢◌, ◌⊎◌, inl, inr, refl, true, ◌++◌, str, Result-cases, ok, err, arith,
}
use abir_guard.Base.Map.{contains}
use abir_guard.Tee.Common.{tee_key}
use abir_guard.Tee.Service.{
  AttestationService, AttestationServiceError, UnifiedAttestationResult, TrustLevel, low, medium,
  high, rank, enforce_policy, max_age, enforce_age,
}

-- What the routing policy asks of a result for an environment that has a maximum age.
abbrev pub Enforced : AttestationService → UnifiedAttestationResult → ℕ → Type 0
Enforced s r m =
    (contains r.tee_type s.routing_policy.allowed_tees ≡ true)
    × (r.evidence_age_seconds ≤ m)
    × (rank s.routing_policy.minimum_trust_level ≤ rank r.trust_level)
    × (r.is_valid ≡ true)
    × (r.is_fresh ≡ true)

abbrev pub enforced : UnifiedAttestationResult → UnifiedAttestationResult
enforced r = record r { summary = r.summary ++ str "; policy=enforced" }

enforce_policy-Enforced :
    (s : AttestationService) (r : UnifiedAttestationResult) (m : ℕ)
    → max_age s.routing_policy r.tee_type ≡ ok m
    → Enforced s r m
    → enforce_policy s r ≡ ok (enforced r)
unfolding enforce_policy enforce_age
enforce_policy-Enforced s r m h (c, a, t, v, f) = rw (c, h) (ground arith)

Enforced-enforce_policy :
    (s : AttestationService) (r r' : UnifiedAttestationResult) (m : ℕ)
    → max_age s.routing_policy r.tee_type ≡ ok m
    → enforce_policy s r ≡ ok r'
    → Enforced s r m × (r' ≡ enforced r)
unfolding enforce_policy enforce_age
Enforced-enforce_policy s r r' m h e = ground arith

pub enforce_policy-cases :
    (s : AttestationService) (r : UnifiedAttestationResult) (m : ℕ)
    → max_age s.routing_policy r.tee_type ≡ ok m
    → (Enforced s r m × (enforce_policy s r ≡ ok (enforced r)))
      ⊎ ((¬ Enforced s r m) × ((e : AttestationServiceError) × (enforce_policy s r ≡ err e)))
enforce_policy-cases s r m h = elim (Result-cases (enforce_policy s r)) [
  | inl (e, refused) ↦
      inr (λ good. (let done = enforce_policy-Enforced s r m h good in absurd cc), (e, refused))
  | inr (r', done) ↦
      let good = Enforced-enforce_policy s r r' m h done in
      inl (good.0, enforce_policy-Enforced s r m h good.0)
]

pub rank-le : (l : TrustLevel) → rank l ≤ 3
rank-le low = omega arith
rank-le medium = omega arith
rank-le high = omega arith

-- Every level but the highest is met by the middle one.
pub rank-le_medium : (l : TrustLevel) → l ≢ high → rank l ≤ 2
rank-le_medium low h = omega arith
rank-le_medium medium h = omega arith
rank-le_medium high h = absurd (h refl)
