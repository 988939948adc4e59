-- ===== src/Blockchain/Anchors.antt =====
-- src/blockchain/key_anchor.rs: the registry of key anchors. `sha256` is a parameter, and so is
-- what it hashes to in hexadecimal: an anchor's id is `hex_encode` of the digest.
pub mod Lifecycle
pub mod Ownership
use abir_guard.Base.{
  ℕ, ◌+◌, ◌-◌, ◌/◌, ◌%◌, Bool, true, false, not, Option, none, some, List, [], ◌∷◌, ◌++◌, Bytes,
  Str, ltb, if◌then◌else◌, bytes_eq, bytes_key, length, is_empty, Result, ok, err,
}
use abir_guard.Base.Map.{Map, lookup, insert, contains}

pub data KeyAnchorError : Type 0 where
  already_anchored : KeyAnchorError
  not_found : KeyAnchorError
  revoked : KeyAnchorError
  owner_mismatch : Str → Str → KeyAnchorError
  empty_public_key : KeyAnchorError

pub record KeyAnchor : Type 0 where
  pub anchor_id : Str
  pub key_hash : Bytes
  pub owner_id : Str
  pub timestamp : ℕ
  pub is_revoked : Bool

pub record AnchorRegistry : Type 0 where
  pub anchors : Map Str KeyAnchor

abbrev pub new : AnchorRegistry
new = record { anchors = [] }

-- One hexadecimal digit, lower case.
unfoldable pub hex_digit : ℕ → ℕ
hex_digit d = if ltb d 10 then d + b'0' else d - 10 + b'a'

-- `format!("{b:02x}")` for each byte.
unfoldable pub hex_encode : Bytes → Str
unfolding hex_digit
hex_encode [] = []
hex_encode (b ∷ bs) = hex_digit (b / 16) ∷ hex_digit (b % 16) ∷ hex_encode bs

module _ (sha256 : Bytes → Bytes) where
  abbrev pub anchor_id_of : Bytes → Str
  anchor_id_of public_key = hex_encode (sha256 public_key)

  abbrev pub new_anchor : Bytes → Str → ℕ → KeyAnchor
  new_anchor public_key owner_id timestamp = record {
    anchor_id = anchor_id_of public_key;
    key_hash = sha256 public_key;
    owner_id = owner_id;
    timestamp = timestamp;
    is_revoked = false;
  }

  abbrev pub matches_key : KeyAnchor → Bytes → Bool
  matches_key anchor public_key = bytes_eq anchor.key_hash (sha256 public_key)

  unfoldable pub register :
      AnchorRegistry → Bytes → Str → ℕ → Result KeyAnchorError (AnchorRegistry × KeyAnchor)
  register r public_key owner_id timestamp =
      if is_empty public_key
      then err empty_public_key
      else let anchor = new_anchor public_key owner_id timestamp in
        if contains anchor.anchor_id r.anchors
        then err already_anchored
        else ok (record { anchors = insert anchor.anchor_id anchor r.anchors }, anchor)

-- The anchor is changed in place, under the id that the caller gives.
unfoldable pub revoke : AnchorRegistry → Str → Str → Result KeyAnchorError AnchorRegistry
revoke r anchor_id requesting_owner = elim (lookup anchor_id r.anchors) [
  | none ↦ err not_found
  | some anchor ↦
      if not (bytes_eq anchor.owner_id requesting_owner)
      then err (owner_mismatch anchor.owner_id requesting_owner)
      else ok
          (record { anchors = insert anchor_id (record anchor { is_revoked = true }) r.anchors })
]

abbrev pub lookup_anchor : AnchorRegistry → Str → Option KeyAnchor
lookup_anchor r anchor_id = lookup anchor_id r.anchors

unfoldable pub verify_anchor_by_id : AnchorRegistry → Str → Result KeyAnchorError KeyAnchor
verify_anchor_by_id r anchor_id = elim (lookup anchor_id r.anchors) [
  | none ↦ err not_found
  | some anchor ↦ if anchor.is_revoked then err revoked else ok anchor
]

unfoldable pub verify_anchor :
    (Bytes → Bytes) → AnchorRegistry → Bytes → Result KeyAnchorError KeyAnchor
verify_anchor sha256 r public_key = elim (lookup (anchor_id_of sha256 public_key) r.anchors) [
  | none ↦ err not_found
  | some anchor ↦ if anchor.is_revoked then err revoked else ok anchor
]
