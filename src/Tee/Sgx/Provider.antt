-- ===== src/Tee/Sgx/Provider.antt =====
-- src/confidential_computing/sgx/attestation.rs: the two attestation providers, with the answers
-- that the source has in the place of the network's. The `async` methods run to their end in one
-- step.
use abir_guard.Base.{
  ℕ, ◌≡◌, Bool, true, Option, none, some, List, [], ◌++◌, Str, str, Result, ok, err, ◌>>=◌, ok_or,
  arith,
}
use abir_guard.Base.Text.{decimal}
use abir_guard.Tee.Sgx.{
  EnclaveError, attestation_failed, AttestationConfig, AttestationProvider, dcap, ias, Quote,
}

pub record AttestationResult : Type 0 where
  pub is_valid : Bool
  pub is_patched : Bool
  pub verified_at : ℕ
  pub quote_age_seconds : ℕ
  pub advisory_ids : List Str

pub record DcapCollateral : Type 0 where
  pub pck_cert_chain : Str
  pub pck_crl : Str
  pub root_ca_cert : Str
  pub processor_cert : Str

pub record IasAttestationReport : Type 0 where
  pub id : Str
  pub attestation_result : Str
  pub timestamp : ℕ
  pub quote_status : Str
  pub advisory_ids : List Str

pub record DcapVerifier : Type 0 where
  pub collateral_url : Str
  pub allow_outdated_pcks : Bool

unfoldable pub fetch_collateral : DcapVerifier → Quote → Result EnclaveError DcapCollateral
fetch_collateral v quote =
    ok (record { pck_cert_chain = []; pck_crl = []; root_ca_cert = []; processor_cert = [] })

-- The verdict that both providers give.
abbrev pub accepted : ℕ → AttestationResult
accepted now = record {
  is_valid = true;
  is_patched = true;
  verified_at = now;
  quote_age_seconds = 0;
  advisory_ids = [];
}

unfoldable pub verify_offline :
    DcapVerifier → Quote → DcapCollateral → ℕ → Result EnclaveError AttestationResult
verify_offline v quote collateral now = ok (accepted now)

pub record IasVerifier : Type 0 where
  pub api_key : Str

unfoldable pub get_report : IasVerifier → Quote → ℕ → Result EnclaveError IasAttestationReport
get_report v quote now = ok (record {
  id = str "report-" ++ decimal now;
  attestation_result = str "OK";
  timestamp = now;
  quote_status = str "OK";
  advisory_ids = [];
})

pub record AttestationVerifier : Type 0 where
  pub dcap : Option DcapVerifier
  pub ias : Option IasVerifier

-- By provider.
unfoldable pub from_provider :
    AttestationProvider → AttestationConfig → Result EnclaveError AttestationVerifier
from_provider dcap config = do
  collateral_url ←
      ok_or config.dcap_collateral_url (attestation_failed (str "DCAP collateral URL not provided"))
  ok (record {
    dcap = some (record {
      collateral_url = collateral_url;
      allow_outdated_pcks = config.allow_outdated_pcks;
    });
    ias = none;
  })
from_provider ias config = do
  api_key ← ok_or config.ias_api_key (attestation_failed (str "IAS API key not provided"))
  ok (record { dcap = none; ias = some (record { api_key = api_key }) })

unfoldable pub from_config : AttestationConfig → Result EnclaveError AttestationVerifier
unfolding from_provider
from_config config = from_provider config.provider config

unfoldable pub verify : AttestationVerifier → Quote → ℕ → Result EnclaveError AttestationResult
unfolding fetch_collateral verify_offline get_report
verify v quote now = elim v.dcap [
  | some d ↦ fetch_collateral d quote >>= λ collateral. verify_offline d quote collateral now
  | none ↦ elim v.ias [
    | some i ↦ get_report i quote now >>= λ report. ok (accepted now)
    | none ↦ err (attestation_failed (str "No attestation provider configured"))
  ]
]

-- A verifier that the configuration gives accepts every quote.
from_config-verify :
    (config : AttestationConfig) (quote : Quote) (now : ℕ) {v : AttestationVerifier}
    → from_config config ≡ ok v
    → verify v quote now ≡ ok (accepted now)
unfolding from_config verify
from_config-verify config quote now {v} h = ground arith
