-- ===== src/Tee/Tests.antt =====
-- Runs of the environments and of the service.
use abir_guard.Base.{
  ℕ, zero, suc, ◌-◌, ◌≡◌, ◌⊎◌, refl, true, false, Option, none, some, [], ◌∷◌, ◌++◌, Bytes, Str,
  str, replicate, length, bytes_eq, bytes_key, Result, ok, err, arith,
}
use abir_guard.Base.Map.{lookup, insert}
use abir_guard.Base.Text.{decimal}
use abir_guard.Tee.Common.{
  TeeType, sgx, trust_zone, amd_sev, intel_tdx, tee_key, SealedData, TeeAttestationReport,
}
use abir_guard.Tee.Sgx
use abir_guard.Tee.Sgx.{
  EnclaveError, Enclave, PcrValues, PcrPolicy, Quote, any, strict, dcap_config,
  sealed_storage_error,
}
use abir_guard.Tee.Sgx.Storage.{
  SealedDataBlob, SealedKeyStore, new_store, store_private_key, retrieve_private_key, can_retrieve,
  get_cached, policy_or_any,
}
use abir_guard.Tee.Sgx.Storage.Retrieval.{Matches, store-retrieve}
use abir_guard.Tee.Sgx.Verifier
use abir_guard.Tee.TrustZone
use abir_guard.Tee.TrustZone.{TrustZoneEnclave, secure_default, get_attestation}
use abir_guard.Tee.TrustZone.Report.{build_simulated_report, starts_with}
use abir_guard.Tee.TrustZone.Report
use abir_guard.Tee.TrustZone.Interface.{
  Codec, seal_data, unseal_data, dispatch_command, dispatch-seal-unseal, ok_response, err_response,
}
use abir_guard.Tee.Service.{
  AttestationServiceError, UnifiedAttestationResult, new, verify_sgx_quote, verify_report,
  unsupported_tee, high, medium,
}
use abir_guard.Tee.Service.Quotes.{AcceptsQuote, verify_sgx_quote-AcceptsQuote}
use abir_guard.Tee.Service.Reports.{AcceptsReport, verify_report-AcceptsReport}

program : Unit {0}
unfolding lookup insert bytes_eq decimal Sgx.matches_policy Sgx.is_violated Sgx.initialize
    Sgx.get_quote Sgx.seal_data Sgx.unseal_data TrustZone.initialize get_attestation starts_with
    verify_sgx_quote verify_report Report.verify Verifier.verify_quote_standard
program = tt

abbrev zeros : Bytes
zeros = 0 ∷ 0 ∷ []

abbrev platform : PcrValues
platform = record { pcr0 = zeros; pcr1 = zeros; pcr2 = 1 ∷ [] }

abbrev store : SealedKeyStore
store = new_store platform

abbrev bound_policy : Option PcrPolicy
bound_policy = some (record { pcr0 = some zeros; pcr1 = none; pcr2 = some (1 ∷ []) })

store-retrieve_example :
    (blob : SealedDataBlob) × ((store_private_key (str "k") (5 ∷ 6 ∷ []) bound_policy store).1
      ≡ ok blob)
    × (get_cached (store_private_key (str "k") (5 ∷ 6 ∷ []) bound_policy store).0.storage (str "k")
        ≡ some blob)
    × (let changed = record blob { auth_tag = 9 ∷ []; nonce = []; aad = none } in
        (Matches platform (policy_or_any bound_policy)
          × (can_retrieve store changed ≡ true)
          × (retrieve_private_key store changed ≡ ok (5 ∷ 6 ∷ [])))
        ⊎ ((¬ Matches platform (policy_or_any bound_policy))
            × (can_retrieve store changed ≡ false)
            × (retrieve_private_key store changed
                ≡ err
                    (sealed_storage_error (str "Current PCR values don't match sealing policy")))))
store-retrieve_example =
    store-retrieve (str "k") (5 ∷ 6 ∷ []) bound_policy store store (9 ∷ []) [] none

-- What the enclave seals by itself it does not give back.
enclave : Enclave
enclave = record { config = dcap_config; enclave_id = 1; is_initialized = true }

sealed_zeros : Sgx.seal_data enclave (5 ∷ 6 ∷ []) any ≡ ok (replicate 74 0)
unfolding program enclave
sealed_zeros = refl

unsealed_zeros : Sgx.unseal_data enclave (replicate 74 0) ≡ ok (0 ∷ 0 ∷ [])
unfolding program enclave
unsealed_zeros = refl

abbrev quote : Quote
quote = record {
  quote = [];
  signature = 1 ∷ [];
  cert_chain = [];
  user_data = [];
  pcr_values = platform;
  timestamp = 5000;
}

verify_sgx_quote-AcceptsQuote_example :
    (AcceptsQuote new quote 6000
      × ((r : UnifiedAttestationResult) × (verify_sgx_quote new quote 6000 ≡ ok r)
          × (r.tee_type ≡ sgx)
          × (r.is_valid ≡ true)
          × (r.is_fresh ≡ true)
          × (r.trust_level ≡ high)
          × (r.evidence_age_seconds ≡ 6000 - 5000)))
    ⊎ ((¬ AcceptsQuote new quote 6000)
        × ((e : AttestationServiceError) × (verify_sgx_quote new quote 6000 ≡ err e)))
verify_sgx_quote-AcceptsQuote_example = verify_sgx_quote-AcceptsQuote new quote 6000

verify_report-AcceptsReport_example :
    (AcceptsReport new (build_simulated_report 100) 120
      × ((r : UnifiedAttestationResult) × (verify_report new (build_simulated_report 100) 120
            ≡ ok r)
          × (r.tee_type ≡ trust_zone)
          × (r.is_valid ≡ true)
          × (r.is_fresh ≡ true)
          × (r.trust_level ≡ medium)
          × (r.evidence_age_seconds ≡ 120 - 100)))
    ⊎ ((¬ AcceptsReport new (build_simulated_report 100) 120)
        × ((e : AttestationServiceError) × (verify_report new (build_simulated_report 100) 120
              ≡ err e)))
verify_report-AcceptsReport_example =
    verify_report-AcceptsReport new (build_simulated_report 100) 120

-- An SGX report is refused as unsupported, whatever the policy allows.
sgx_report_unsupported :
    verify_report new (record { tee_type = sgx; attestation_data = []; timestamp = 0 }) 0
    ≡ err (unsupported_tee sgx)
unfolding program
sgx_report_unsupported = refl

abbrev session : TrustZoneEnclave
session = record { config = secure_default; session_id = 1; initialized = true }

abbrev own_report : TeeAttestationReport
own_report = record { tee_type = trust_zone; attestation_data = replicate 256 0; timestamp = 0 }

own_report_made : get_attestation session ≡ ok own_report
unfolding get_attestation
own_report_made = refl

-- An encoding of sealed data: each list but the last behind its length.
split_at : ℕ → Bytes → Bytes × Bytes
split_at zero xs = ([], xs)
split_at (suc n) [] = ([], [])
split_at (suc n) (x ∷ xs) = let (front, back) = split_at n xs in (x ∷ front, back)

split_at-append : (xs ys : Bytes) → split_at (length xs) (xs ++ ys) ≡ (xs, ys)
unfolding split_at
split_at-append [] ys = refl
split_at-append (x ∷ xs) ys = rw (split_at-append xs ys)

abbrev type_code : TeeType → ℕ
type_code sgx = 0
type_code trust_zone = 1
type_code amd_sev = 2
type_code intel_tdx = 3

abbrev type_of : ℕ → TeeType
type_of zero = sgx
type_of (suc zero) = trust_zone
type_of (suc (suc zero)) = amd_sev
type_of (suc (suc (suc n))) = intel_tdx

encode : SealedData → Bytes
encode s =
    type_code s.tee_type
    ∷ length s.ciphertext
    ∷ (s.ciphertext ++ length s.auth_tag ∷ (s.auth_tag ++ s.nonce))

decode_tail : TeeType → Bytes → Bytes → SealedData
decode_tail t ciphertext [] = record {
  tee_type = t;
  ciphertext = ciphertext;
  auth_tag = [];
  nonce = [];
}
decode_tail t ciphertext (n ∷ rest) =
    let (auth_tag, nonce) = split_at n rest in
    record { tee_type = t; ciphertext = ciphertext; auth_tag = auth_tag; nonce = nonce }

decode : Bytes → Result Str SealedData
decode [] = err []
decode (t ∷ []) = err []
decode (t ∷ n ∷ rest) =
    let (ciphertext, tail) = split_at n rest in ok (decode_tail (type_of t) ciphertext tail)

type_of-type_code : (t : TeeType) → type_of (type_code t) ≡ t
type_of-type_code sgx = refl
type_of-type_code trust_zone = refl
type_of-type_code amd_sev = refl
type_of-type_code intel_tdx = refl

decode-encode : (s : SealedData) → decode (encode s) ≡ ok s
unfolding decode encode decode_tail
decode-encode s = simp (split_at-append, decode_tail, type_of-type_code)

abbrev codec : Codec
codec = record {
  encode_report = λ r. ok r.attestation_data;
  encode_sealed = λ s. ok (encode s);
  decode_sealed = decode;
}

dispatch-seal-unseal_example :
    (sealed : Bytes) × (dispatch_command codec session
        (record { session_id = 1; command = seal_data; payload = 5 ∷ 6 ∷ [] })
      ≡ ok (ok_response sealed))
    × (dispatch_command codec session
          (record { session_id = 1; command = unseal_data; payload = sealed })
        ≡ ok (ok_response (5 ∷ 6 ∷ [])))
    × (dispatch_command codec session
          (record { session_id = 7; command = seal_data; payload = 8 ∷ [] })
        ≡ ok (err_response (str "session mismatch")))
dispatch-seal-unseal_example =
    dispatch-seal-unseal codec session (5 ∷ 6 ∷ []) 7 seal_data (8 ∷ [])
      (λ s. (encode s, refl, decode-encode s)) refl (omega arith)
