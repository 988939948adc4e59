-- ===== src/Tee/TrustZone.antt =====
-- src/confidential_computing/trustzone/mod.rs: a TrustZone session.
pub mod Report
pub mod Interface
use abir_guard.Base.{
  ℕ, Bool, true, not, Bytes, Str, str, is_empty, replicate, Result, ok, err, ◌>>◌, ◌>>=◌, reject_if,
}
use abir_guard.Tee.Common.{
  TeeType, trust_zone, tee_eq, TeeConfig, trustzone_config, SealedData, TeeAttestationReport,
}

pub data TrustZoneError : Type 0 where
  initialization_failed operation_failed attestation_failed invalid_state : Str → TrustZoneError

pub record TrustZoneConfig : Type 0 where
  pub ta_uuid : Str
  pub require_attestation : Bool

abbrev pub secure_default : TrustZoneConfig
secure_default = record {
  ta_uuid = str "00000000-0000-0000-0000-000000000001";
  require_attestation = true;
}

pub record TrustZoneEnclave : Type 0 where
  pub config : TrustZoneConfig
  pub session_id : ℕ
  pub initialized : Bool

unfoldable pub initialize : TrustZoneConfig → Result TrustZoneError TrustZoneEnclave
initialize config = do
  reject_if (is_empty config.ta_uuid) (initialization_failed (str "TA UUID cannot be empty"))
  ok (record { config = config; session_id = 1; initialized = true })

-- The guard at the head of each operation.
unfoldable pub require_initialized : TrustZoneEnclave → Result TrustZoneError (Unit {0})
require_initialized e =
    reject_if (not e.initialized) (invalid_state (str "TrustZone session is not initialized"))

unfoldable pub get_attestation : TrustZoneEnclave → Result TrustZoneError TeeAttestationReport
unfolding require_initialized
get_attestation e = do
  require_initialized e
  ok (record { tee_type = trust_zone; attestation_data = replicate 256 0; timestamp = 0 })

unfoldable pub seal_data : TrustZoneEnclave → Bytes → Result TrustZoneError SealedData
unfolding require_initialized
seal_data e plaintext = do
  require_initialized e
  ok (record {
    tee_type = trust_zone;
    ciphertext = plaintext;
    auth_tag = replicate 16 0;
    nonce = replicate 12 0;
  })

unfoldable pub unseal_data : TrustZoneEnclave → SealedData → Result TrustZoneError Bytes
unfolding require_initialized
unseal_data e sealed = do
  require_initialized e
  reject_if (not (tee_eq sealed.tee_type trust_zone))
      (operation_failed (str "Sealed payload does not belong to TrustZone"))
  ok sealed.ciphertext

abbrev pub as_tee_config : TrustZoneEnclave → TeeConfig
as_tee_config e = trustzone_config
