-- ===== src/MlDsa.antt =====
-- src/ml_dsa.rs: signatures of ML-DSA-65, behind checks of lengths. The crate is a parameter.
pub mod Json
use abir_guard.Base.{
  Bool, not, Bytes, Str, str, ◌++◌, length, ◌==◌, Result, ok, ◌>>=◌, ◌>>◌, reject_if, map_err,
}

pub data MldsaError : Type 0 where
  key_gen_failed : Str → MldsaError
  signing_failed : Str → MldsaError
  verification_failed : MldsaError
  deserialization_failed : Str → MldsaError

-- The texts of the errors.
abbrev pub error_text : MldsaError → Str
error_text (key_gen_failed e) = str "key generation failed: " ++ e
error_text (signing_failed e) = str "signing failed: " ++ e
error_text verification_failed = str "verification failed"
error_text (deserialization_failed e) = str "key deserialization failed: " ++ e

pub record MldsaKeypair : Type 0 where
  pub signing_key : Bytes
  pub verifying_key : Bytes

-- The crate: keys as their bytes, the public one first, with its errors as texts.
pub record Fips204 : Type 0 where
  pub try_keygen : Result Str (Bytes × Bytes)
  pub private_key : Bytes → Result Str Bytes
  pub public_key : Bytes → Result Str Bytes
  pub try_sign : Bytes → Bytes → Result Str Bytes
  pub check : Bytes → Bytes → Bytes → Bool

module _ (crate : Fips204) where
  abbrev pub generate_keypair : Result MldsaError MldsaKeypair
  generate_keypair = do
    (pk, sk) ← map_err key_gen_failed crate.try_keygen
    ok (record { signing_key = sk; verifying_key = pk })

  unfoldable pub sign : Bytes → Bytes → Result MldsaError Bytes
  sign message signing_key = do
    reject_if (not (length signing_key == 4032))
        (deserialization_failed (str "Invalid signing key length"))
    sk ← map_err deserialization_failed (crate.private_key signing_key)
    map_err signing_failed (crate.try_sign sk message)

  unfoldable pub verify : Bytes → Bytes → Bytes → Result MldsaError Bool
  verify message signature verifying_key = do
    reject_if (not (length verifying_key == 1952))
        (deserialization_failed (str "Invalid verifying key length"))
    pk ← map_err deserialization_failed (crate.public_key verifying_key)
    reject_if (not (length signature == 3309))
        (deserialization_failed (str "Invalid signature length"))
    ok (crate.check pk message signature)
