-- ===== src/Tee/Sgx/Storage.antt =====
-- src/confidential_computing/sgx/sealed_storage.rs: blobs bound to platform registers, and their
-- cache. The cipher is the source's placeholder, which copies.
pub mod Retrieval
use abir_guard.Base.{
  ℕ, ◌+◌, Bool, not, Option, none, some, [], Bytes, Str, str, if◌then◌else◌, length, replicate,
  Result, ok, err, bytes_key,
}
use abir_guard.Base.Map.{Map, lookup, insert}
use abir_guard.Tee.Sgx.{
  EnclaveError, sealed_storage_error, PcrValues, PcrPolicy, any, matches_policy,
}

pub record SealedDataBlob : Type 0 where
  pub nonce : Bytes
  pub ciphertext : Bytes
  pub auth_tag : Bytes
  pub pcr_policy : PcrPolicy
  pub aad : Option Bytes

abbrev pub nonce_size : ℕ
nonce_size = 12

abbrev pub auth_tag_size : ℕ
auth_tag_size = 16

abbrev pub new_blob : Bytes → Bytes → Bytes → PcrPolicy → SealedDataBlob
new_blob nonce ciphertext auth_tag pcr_policy = record {
  nonce = nonce;
  ciphertext = ciphertext;
  auth_tag = auth_tag;
  pcr_policy = pcr_policy;
  aad = none;
}

abbrev pub with_aad : SealedDataBlob → Bytes → SealedDataBlob
with_aad blob aad = record blob { aad = some aad }

abbrev pub size : SealedDataBlob → ℕ
size blob = length blob.nonce + length blob.ciphertext + length blob.auth_tag

pub record SealedStorage : Type 0 where
  pub cache : Map Str SealedDataBlob
  pub current_pcr : PcrValues

abbrev pub new_storage : PcrValues → SealedStorage
new_storage pcr_values = record { cache = []; current_pcr = pcr_values }

unfoldable pub seal :
    Str → Bytes → PcrPolicy → SealedStorage → SealedStorage × Result EnclaveError SealedDataBlob
seal key_id plaintext pcr_policy s =
    let blob = new_blob (replicate nonce_size 0) plaintext (replicate auth_tag_size 0) pcr_policy in
    (record s { cache = insert key_id blob s.cache }, ok blob)

unfoldable pub unseal : SealedStorage → SealedDataBlob → Result EnclaveError Bytes
unseal s blob =
    if not (matches_policy s.current_pcr blob.pcr_policy)
    then err (sealed_storage_error (str "Current PCR values don't match sealing policy"))
    else ok blob.ciphertext

unfoldable pub cache_blob : Str → SealedDataBlob → SealedStorage → SealedStorage
cache_blob key_id blob s = record s { cache = insert key_id blob s.cache }

unfoldable pub get_cached : SealedStorage → Str → Option SealedDataBlob
get_cached s key_id = lookup key_id s.cache

unfoldable pub clear_cache : SealedStorage → SealedStorage
clear_cache s = record s { cache = [] }

abbrev pub cache_size : SealedStorage → ℕ
cache_size s = length s.cache

unfoldable pub update_pcr : PcrValues → SealedStorage → SealedStorage
update_pcr new_pcr s = record s { current_pcr = new_pcr }

-- `SealedKeyStore` has the one field `storage`.
pub record SealedKeyStore : Type 0 where
  pub storage : SealedStorage

abbrev pub new_store : PcrValues → SealedKeyStore
new_store pcr_values = record { storage = new_storage pcr_values }

-- `pcr_policy.unwrap_or_else(PcrPolicy::any)`
abbrev pub policy_or_any : Option PcrPolicy → PcrPolicy
policy_or_any none = any
policy_or_any (some policy) = policy

unfoldable pub store_private_key :
    Str
    → Bytes
    → Option PcrPolicy
    → SealedKeyStore
    → SealedKeyStore × Result EnclaveError SealedDataBlob
store_private_key key_id private_key_bytes pcr_policy k =
    let (storage, sealed) = seal key_id private_key_bytes (policy_or_any pcr_policy) k.storage in
    (record { storage = storage }, sealed)

unfoldable pub retrieve_private_key : SealedKeyStore → SealedDataBlob → Result EnclaveError Bytes
retrieve_private_key k blob = unseal k.storage blob

unfoldable pub can_retrieve : SealedKeyStore → SealedDataBlob → Bool
can_retrieve k blob = matches_policy k.storage.current_pcr blob.pcr_policy
