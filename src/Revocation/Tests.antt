-- ===== src/Revocation/Tests.antt =====
-- Runs of the revocation list, with a checksum in the place of SHA-256.
use abir_guard.Base.{
  ℕ, ◌+◌, ◌*◌, ◌%◌, ◌≡◌, refl, true, false, some, List, [], ◌∷◌, Bytes, Str, str, is_empty, ◌++◌,
  bytes_eq, bytes_key, le_bytes,
}
use abir_guard.Base.Map.{lookup, insert}
use abir_guard.Revocation.{
  RevocationList, with_key, compute_signature, signed_bytes, verify_integrity, revoke, get_entry,
  reason_text, compromised, rotated, policy,
}
use abir_guard.Revocation.Calls.{Request, run, latest}

checksum : Bytes → ℕ
checksum [] = 7
checksum (b ∷ bs) = (b + 31 * checksum bs) % 65521

abbrev digest : Bytes → Bytes
digest bs = le_bytes 2 (checksum bs)

program : Unit {0}
unfolding lookup insert bytes_eq le_bytes checksum run revoke compute_signature signed_bytes
    verify_integrity get_entry reason_text latest
program = tt

abbrev calls : List Request
calls =
    record {
      key_id = str "k1";
      reason = policy;
      revoked_by = str "ops";
      details = [];
      timestamp = 5;
    }
    ∷ record {
      key_id = str "k2";
      reason = rotated;
      revoked_by = str "ops";
      details = [];
      timestamp = 6;
    }
    ∷ record {
      key_id = str "k1";
      reason = compromised;
      revoked_by = str "eve";
      details = [];
      timestamp = 9;
    }
    ∷ []

abbrev key : Bytes
key = 1 ∷ 2 ∷ []

abbrev crl : RevocationList
crl = run digest calls (with_key key)

last_wins :
    get_entry crl (str "k1")
    ≡ some (record {
      key_id = str "k1";
      reason = str "compromised";
      timestamp = 9;
      revoked_by = str "eve";
      details = [];
    })
unfolding program
last_wins = refl

unsigned : verify_integrity digest (with_key key) ≡ true
unfolding program
unsigned = refl

abbrev signed_by : Str → RevocationList
signed_by who = record {
  revocation_key = key;
  entries =
      record {
        key_id = str "k1";
        reason = str "policy";
        timestamp = 5;
        revoked_by = who;
        details = [];
      }
      ∷ [];
  revoked_ids = (str "k1", 0) ∷ [];
  signature = digest (key ++ (str "k1" ++ (str "policy" ++ (le_bytes 8 5 ++ []))));
}

valid : (who : Str) → verify_integrity digest (signed_by who) ≡ true
unfolding program
valid who = refl

has_signature : is_empty (signed_by []).signature ≡ false
unfolding program
has_signature = refl
