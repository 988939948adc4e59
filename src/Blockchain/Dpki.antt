-- ===== src/Blockchain/Dpki.antt =====
-- src/blockchain/dpki.rs: entities bound to anchored keys, with a validity window.
pub mod Calls
pub mod Consistency
pub mod Invalidation
use abir_guard.Base.{
  ℕ, Bool, true, false, Option, none, some, List, [], ◌∷◌, Bytes, Str, ltb, if◌then◌else◌, is_empty,
  Result, ok, err, map_err, ok_or, reject_if, ◌>>=◌, ◌>>◌, bytes_key,
}
use abir_guard.Base.Map.{Map, lookup, insert, contains}
use abir_guard.Blockchain.Anchors
use abir_guard.Blockchain.Anchors.{
  KeyAnchorError, AnchorRegistry, register, revoke, verify_anchor_by_id,
}

pub data DpkiError : Type 0 where
  already_registered : DpkiError
  not_found : DpkiError
  expired : ℕ → ℕ → DpkiError
  not_yet_valid : ℕ → ℕ → DpkiError
  anchor_error : KeyAnchorError → DpkiError
  empty_public_key : DpkiError

pub record DpkiEntry : Type 0 where
  pub entity_id : Str
  pub key_hash : Bytes
  pub anchor_id : Str
  pub valid_from : ℕ
  pub valid_until : Option ℕ

pub record DecentralizedPki : Type 0 where
  pub entries : Map Str DpkiEntry
  pub anchors : AnchorRegistry

abbrev pub new : DecentralizedPki
new = record { entries = []; anchors = Anchors.new }

-- The second test of `is_valid_at`.
unfoldable pub check_until : ℕ → Option ℕ → Result DpkiError (Unit {0})
check_until now none = ok tt
check_until now (some until) = reject_if (ltb until now) (expired now until)

unfoldable pub is_valid_at : DpkiEntry → ℕ → Result DpkiError (Unit {0})
is_valid_at entry now =
    if ltb now entry.valid_from
    then err (not_yet_valid now entry.valid_from)
    else check_until now entry.valid_until

abbrev pub new_entry : (Bytes → Bytes) → Str → Str → Bytes → ℕ → Option ℕ → DpkiEntry
new_entry sha256 entity_id anchor_id public_key valid_from valid_until = record {
  entity_id = entity_id;
  key_hash = sha256 public_key;
  anchor_id = anchor_id;
  valid_from = valid_from;
  valid_until = valid_until;
}

unfoldable pub register_key :
    (Bytes → Bytes)
    → DecentralizedPki
    → Str
    → Bytes
    → ℕ
    → Option ℕ
    → ℕ
    → Result DpkiError (DecentralizedPki × DpkiEntry)
register_key sha256 p entity_id public_key valid_from valid_until timestamp =
    if is_empty public_key
    then err empty_public_key
    else if contains entity_id p.entries
    then err already_registered
    else (map_err anchor_error (register sha256 p.anchors public_key entity_id timestamp)
        >>= λ done.
            let entry =
              new_entry sha256 entity_id done.1.anchor_id public_key valid_from valid_until in
            ok (record { entries = insert entity_id entry p.entries; anchors = done.0 }, entry))

unfoldable pub resolve : DecentralizedPki → Str → ℕ → Result DpkiError DpkiEntry
resolve p entity_id now = do
  entry ← ok_or (lookup entity_id p.entries) not_found
  is_valid_at entry now
  _ ← map_err anchor_error (verify_anchor_by_id p.anchors entry.anchor_id)
  ok entry

unfoldable pub invalidate : DecentralizedPki → Str → Result DpkiError DecentralizedPki
invalidate p entity_id = do
  entry ← ok_or (lookup entity_id p.entries) not_found
  anchors ← map_err anchor_error (revoke p.anchors entry.anchor_id entity_id)
  ok (record p { anchors = anchors })
