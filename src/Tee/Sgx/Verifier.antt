-- ===== src/Tee/Sgx/Verifier.antt =====
-- src/confidential_computing/sgx/quote_verifier.rs: the checks on a quote, as far as the source has
-- them: signature and chain are tested for presence.
use abir_guard.Base.{
  ℕ, ◌-◌, Bool, true, not, ◌&&◌, ◌||◌, List, [], ◌∷◌, ◌++◌, Bytes, Str, str, leb, bytes_eq,
  is_empty, all, Result, ok, ◌>>=◌,
}
use abir_guard.Base.Map.{Map}
use abir_guard.Tee.Sgx.{EnclaveError, Quote}

pub record SecurityAdvisory : Type 0 where
  pub id : Str
  pub affected_cpus : List Str
  pub description : Str
  pub severity : Str
  pub issued : Str

pub record QuoteValidationPolicy : Type 0 where
  pub max_age_seconds : ℕ
  pub require_intel_signature : Bool
  pub require_patched_cpu : Bool
  pub allowed_cpus : Map Str (Unit {0})

abbrev pub default_policy : QuoteValidationPolicy
default_policy = record {
  max_age_seconds = 3600;
  require_intel_signature = true;
  require_patched_cpu = true;
  allowed_cpus = [];
}

pub record QuoteVerificationResult : Type 0 where
  pub is_valid : Bool
  pub signature_valid : Bool
  pub cert_chain_valid : Bool
  pub is_fresh : Bool
  pub cpu_patched : Bool
  pub advisories : List SecurityAdvisory
  pub verified_at : ℕ
  pub quote_age_seconds : ℕ

pub record QuoteVerifier : Type 0 where
  pub policy : QuoteValidationPolicy
  pub intel_root_certs : List Bytes
  pub advisory_db : List SecurityAdvisory

abbrev pub new : QuoteValidationPolicy → QuoteVerifier
new policy = record { policy = policy; intel_root_certs = []; advisory_db = [] }

unfoldable pub add_intel_cert : Bytes → QuoteVerifier → QuoteVerifier
add_intel_cert cert_pem v = record v { intel_root_certs = v.intel_root_certs ++ cert_pem ∷ [] }

unfoldable pub add_advisory : SecurityAdvisory → QuoteVerifier → QuoteVerifier
add_advisory advisory v = record v { advisory_db = v.advisory_db ++ advisory ∷ [] }

unfoldable pub verify_signature : QuoteVerifier → Quote → Result EnclaveError Bool
verify_signature v quote = ok (not (is_empty quote.signature))

unfoldable pub verify_cert_chain : QuoteVerifier → Quote → Result EnclaveError Bool
verify_cert_chain v quote = ok (not (is_empty quote.cert_chain) || is_empty v.intel_root_certs)

unfoldable pub check_advisories :
    QuoteVerifier → Quote → Result EnclaveError (List SecurityAdvisory)
check_advisories v quote = ok []

unfoldable pub verify : QuoteVerifier → Quote → ℕ → Result EnclaveError QuoteVerificationResult
unfolding verify_signature verify_cert_chain check_advisories
verify v quote now = do
  let quote_age = now - quote.timestamp
  let is_fresh = leb quote_age v.policy.max_age_seconds
  signature_valid ← verify_signature v quote
  cert_chain_valid ← verify_cert_chain v quote
  advisories ← check_advisories v quote
  let cpu_patched =
      all (λ (adv : SecurityAdvisory). not (bytes_eq adv.severity (str "CRITICAL"))) advisories
  let is_valid =
      signature_valid
      && (cert_chain_valid && (is_fresh && (not v.policy.require_patched_cpu || cpu_patched)))
  ok (record {
    is_valid = is_valid;
    signature_valid = signature_valid;
    cert_chain_valid = cert_chain_valid;
    is_fresh = is_fresh;
    cpu_patched = cpu_patched;
    advisories = advisories;
    verified_at = now;
    quote_age_seconds = quote_age;
  })

unfoldable pub verify_quote_standard : Quote → ℕ → Result EnclaveError QuoteVerificationResult
unfolding verify
verify_quote_standard quote now = verify (new default_policy) quote now

unfoldable pub verify_quote_strict : Quote → ℕ → Result EnclaveError QuoteVerificationResult
unfolding verify
verify_quote_strict quote now =
    verify (new (record default_policy { max_age_seconds = 300; require_patched_cpu = true })) quote
      now
