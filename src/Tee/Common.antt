-- ===== src/Tee/Common.antt =====
-- src/confidential_computing/tee_common.rs: types that the environments share.
use abir_guard.Base.{ℕ, ◌≡◌, ◌↔◌, Bool, true, false, Bytes, Eq, arith}

pub data TeeType : Type 0 where
  sgx trust_zone amd_sev intel_tdx : TeeType

-- The derived `PartialEq`.
abbrev pub tee_eq : TeeType → TeeType → Bool
tee_eq sgx sgx = true
tee_eq trust_zone trust_zone = true
tee_eq amd_sev amd_sev = true
tee_eq intel_tdx intel_tdx = true
tee_eq a b = false

pub tee_eq_iff : (a b : TeeType) → (tee_eq a b ≡ true) ↔ (a ≡ b)
tee_eq_iff sgx b = ground arith
tee_eq_iff trust_zone b = ground arith
tee_eq_iff amd_sev b = ground arith
tee_eq_iff intel_tdx b = ground arith

instance abbrev pub tee_key : Eq TeeType
tee_key = record { beq = tee_eq; beq_iff = tee_eq_iff }

pub record TeeConfig : Type 0 where
  pub tee_type : TeeType
  pub debug_mode : Bool
  pub max_enclave_size : ℕ

abbrev pub sgx_config : TeeConfig
sgx_config = record { tee_type = sgx; debug_mode = false; max_enclave_size = 0x100000 }

abbrev pub trustzone_config : TeeConfig
trustzone_config = record { tee_type = trust_zone; debug_mode = false; max_enclave_size = 0x200000 }

abbrev pub with_debug : TeeConfig → TeeConfig
with_debug c = record c { debug_mode = true }

pub record SealedData : Type 0 where
  pub tee_type : TeeType
  pub ciphertext : Bytes
  pub auth_tag : Bytes
  pub nonce : Bytes

pub record TeeAttestationReport : Type 0 where
  pub tee_type : TeeType
  pub attestation_data : Bytes
  pub timestamp : ℕ
