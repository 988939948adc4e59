-- ===== src/Tee/Sgx.antt =====
-- src/confidential_computing/sgx/mod.rs: the enclave and what it attests, with placeholders for
-- the hardware as the source has them.
pub mod Storage
pub mod Verifier
pub mod Provider
use abir_guard.Base.{
  ℕ, ◌+◌, ◌-◌, Bool, true, false, not, Option, none, some, [], ◌++◌, Bytes, Str, str, ltb,
  if◌then◌else◌, bytes_eq, length, replicate, Result, ok, err, ◌>>=◌, ◌>>◌, reject_if,
}

pub data EnclaveError : Type 0 where
  initialization_failed operation_failed attestation_failed : Str → EnclaveError
  quote_generation_failed quote_verification_failed sealed_storage_error : Str → EnclaveError
  invalid_state communication_error crypto_error : Str → EnclaveError

pub data AttestationProvider : Type 0 where
  dcap ias : AttestationProvider

pub record AttestationConfig : Type 0 where
  pub provider : AttestationProvider
  pub ias_api_key : Option Str
  pub dcap_collateral_url : Option Str
  pub allow_outdated_pcks : Bool

abbrev pub dcap_config : AttestationConfig
dcap_config = record {
  provider = dcap;
  ias_api_key = none;
  dcap_collateral_url = some (str "https://api.trustedservices.intel.com/sgx/certification/v4");
  allow_outdated_pcks = false;
}

abbrev pub ias_config : Str → AttestationConfig
ias_config api_key = record {
  provider = ias;
  ias_api_key = some api_key;
  dcap_collateral_url = none;
  allow_outdated_pcks = false;
}

abbrev pub with_development_mode : AttestationConfig → AttestationConfig
with_development_mode c = record c { allow_outdated_pcks = true }

-- Each register holds 32 bytes.
pub record PcrValues : Type 0 where
  pub pcr0 : Bytes
  pub pcr1 : Bytes
  pub pcr2 : Bytes

pub record PcrPolicy : Type 0 where
  pub pcr0 : Option Bytes
  pub pcr1 : Option Bytes
  pub pcr2 : Option Bytes

abbrev pub any : PcrPolicy
any = record { pcr0 = none; pcr1 = none; pcr2 = none }

abbrev pub strict : Bytes → Bytes → Bytes → PcrPolicy
strict pcr0 pcr1 pcr2 = record { pcr0 = some pcr0; pcr1 = some pcr1; pcr2 = some pcr2 }

-- `expected.is_some_and(|expected| actual != expected)`
unfoldable pub is_violated : Option Bytes → Bytes → Bool
is_violated none actual = false
is_violated (some expected) actual = not (bytes_eq actual expected)

unfoldable pub matches_policy : PcrValues → PcrPolicy → Bool
matches_policy values policy =
    if is_violated policy.pcr0 values.pcr0
    then false
    else if is_violated policy.pcr1 values.pcr1
    then false
    else if is_violated policy.pcr2 values.pcr2
    then false
    else true

pub record Quote : Type 0 where
  pub quote : Bytes
  pub signature : Bytes
  pub cert_chain : Bytes
  pub user_data : Bytes
  pub pcr_values : PcrValues
  pub timestamp : ℕ

pub record Enclave : Type 0 where
  pub config : AttestationConfig
  pub enclave_id : ℕ
  pub is_initialized : Bool

-- `simulated` is the build's `cfg!`: a simulator feature or debug assertions.
unfoldable pub initialize : Bool → AttestationConfig → Result EnclaveError Enclave
initialize simulated config =
    if simulated
    then ok (record { config = config; enclave_id = 1; is_initialized = true })
    else err (initialization_failed (str "SGX not available on this platform"))

-- The guard at the head of each operation.
unfoldable pub require_initialized : Enclave → Result EnclaveError (Unit {0})
require_initialized e =
    reject_if (not e.is_initialized) (invalid_state (str "Enclave not initialized"))

unfoldable pub generate_keypair : Enclave → Str → Result EnclaveError (Str × Str)
unfolding require_initialized
generate_keypair e key_id = do
  require_initialized e
  ok (str "pub_" ++ key_id, str "sec_" ++ key_id)

unfoldable pub get_quote : Enclave → ℕ → Result EnclaveError Quote
unfolding require_initialized
get_quote e now = do
  require_initialized e
  ok (record {
    quote = replicate 1024 0;
    signature = replicate 256 0;
    cert_chain = [];
    user_data = replicate 32 0;
    pcr_values = record { pcr0 = replicate 32 0; pcr1 = replicate 32 0; pcr2 = replicate 32 0 };
    timestamp = now;
  })

unfoldable pub seal_data : Enclave → Bytes → PcrPolicy → Result EnclaveError Bytes
unfolding require_initialized
seal_data e plaintext policy = do require_initialized e; ok (replicate (length plaintext + 72) 0)

unfoldable pub unseal_data : Enclave → Bytes → Result EnclaveError Bytes
unfolding require_initialized
unseal_data e sealed_blob = do
  require_initialized e
  reject_if (ltb (length sealed_blob) 72) (sealed_storage_error (str "Sealed blob too short"))
  ok (replicate (length sealed_blob - 72) 0)

unfoldable pub sign : Enclave → Str → Bytes → Result EnclaveError Bytes
unfolding require_initialized
sign e key_id message = do require_initialized e; ok (replicate 4096 0)

unfoldable pub drop : Enclave → Enclave
drop e = if e.is_initialized then record e { is_initialized = false } else e
