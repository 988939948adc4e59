-- ===== src/Revocation.antt =====
-- src/revocation.rs: the list of revoked keys, with its signature.
-- Parameters: SHA-256, and the clock, as the `timestamp` that a call reads.
pub mod Calls
pub mod Signature
mod Tests
use abir_guard.Base.{
  ℕ, ◌+◌, Bool, true, false, Option, none, some, List, [], ◌∷◌, ◌++◌, Bytes, Str, str, length,
  is_empty, get_elem?, le_bytes, bytes_eq, bytes_key, if◌then◌else◌,
}
use abir_guard.Base.Maybe.{◌>>=◌}
use abir_guard.Base.Map.{Map, lookup, insert, contains}

pub data RevocationReason : Type 0 where
  compromised rotated retired policy : RevocationReason

-- `to_string()` by `Display`.
unfoldable pub reason_text : RevocationReason → Str
reason_text compromised = str "compromised"
reason_text rotated = str "rotated"
reason_text retired = str "retired"
reason_text policy = str "policy"

pub record RevocationEntry : Type 0 where
  pub key_id : Str
  pub reason : Str
  pub timestamp : ℕ
  pub revoked_by : Str
  pub details : Str

pub record RevocationList : Type 0 where
  pub revocation_key : Bytes
  pub entries : List RevocationEntry
  pub revoked_ids : Map Str ℕ
  pub signature : Bytes

abbrev pub with_key : Bytes → RevocationList
with_key key = record { revocation_key = key; entries = []; revoked_ids = []; signature = [] }

-- What the hasher gets after the key.
unfoldable pub signed_bytes : List RevocationEntry → Bytes
signed_bytes [] = []
signed_bytes (entry ∷ entries) =
    entry.key_id ++ (entry.reason ++ (le_bytes 8 entry.timestamp ++ signed_bytes entries))

module _ (sha256 : Bytes → Bytes) where
  unfoldable pub compute_signature : RevocationList → Bytes
  compute_signature l = sha256 (l.revocation_key ++ signed_bytes l.entries)

  unfoldable pub revoke : RevocationList → Str → RevocationReason → Str → Str → ℕ → RevocationList
  revoke l key_id reason revoked_by details timestamp =
      let entry : RevocationEntry = record {
        key_id = key_id;
        reason = reason_text reason;
        timestamp = timestamp;
        revoked_by = revoked_by;
        details = details;
      } in
      let pushed = record l {
        entries = l.entries ++ entry ∷ [];
        revoked_ids = insert key_id (length l.entries) l.revoked_ids;
      } in
      record pushed { signature = compute_signature pushed }

  unfoldable pub verify_integrity : RevocationList → Bool
  verify_integrity l =
      if is_empty l.signature then true else bytes_eq (compute_signature l) l.signature

abbrev pub is_revoked : RevocationList → Str → Bool
is_revoked l key_id = contains key_id l.revoked_ids

unfoldable pub get_entry : RevocationList → Str → Option RevocationEntry
get_entry l key_id = lookup key_id l.revoked_ids >>= λ idx. get_elem? l.entries idx
