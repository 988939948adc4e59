-- ===== src/Rotation.antt =====
-- src/rotation.rs: usage counts and ages of keys, and when a key is due for rotation.
-- The clock is a parameter: `now` is what a call reads. Counters are `u64` and wrap, as in the
-- release profile.
pub mod Usage
mod Tests
use abir_guard.Base.{
  ℕ, ◌+◌, ◌-◌, ◌%◌, Bool, true, false, ◌&&◌, ◌||◌, Option, none, some, List, [], Str, ltb, leb,
  if◌then◌else◌, length, bytes_key,
}
use abir_guard.Base.Map.{Map, lookup, insert}
use abir_guard.Base.Numbers.{u64}

pub record KeyMetadata : Type 0 where
  pub key_id : Str
  pub created_at : ℕ
  pub last_used_at : ℕ
  pub encrypt_count : ℕ
  pub decrypt_count : ℕ
  pub max_lifetime_seconds : ℕ
  pub max_operations : ℕ
  pub is_expired : Bool
  pub rotated_to : Str

unfoldable pub total_operations : KeyMetadata → ℕ
total_operations meta = (meta.encrypt_count + meta.decrypt_count) % u64

-- `now.saturating_sub(self.created_at)`
unfoldable pub age_seconds : KeyMetadata → ℕ → ℕ
age_seconds meta now = now - meta.created_at

unfoldable pub should_expire : KeyMetadata → ℕ → Bool
should_expire meta now =
    if ltb 0 meta.max_lifetime_seconds && ltb meta.max_lifetime_seconds (age_seconds meta now)
    then true
    else if ltb 0 meta.max_operations && leb meta.max_operations (total_operations meta)
    then true
    else false

unfoldable pub record_encrypt : KeyMetadata → ℕ → KeyMetadata
record_encrypt meta now = record meta {
  encrypt_count = (meta.encrypt_count + 1) % u64;
  last_used_at = now;
}

unfoldable pub record_decrypt : KeyMetadata → ℕ → KeyMetadata
record_decrypt meta now = record meta {
  decrypt_count = (meta.decrypt_count + 1) % u64;
  last_used_at = now;
}

pub record KeyRotationManager : Type 0 where
  pub metadata : Map Str KeyMetadata
  pub default_max_lifetime : ℕ
  pub default_max_operations : ℕ

abbrev pub new : ℕ → ℕ → KeyRotationManager
new default_max_lifetime default_max_operations = record {
  metadata = [];
  default_max_lifetime = default_max_lifetime;
  default_max_operations = default_max_operations;
}

-- `option.unwrap_or(default)`
abbrev pub unwrap_or : Option ℕ → ℕ → ℕ
unwrap_or none default = default
unwrap_or (some n) default = n

abbrev pub fresh_metadata : KeyRotationManager → Str → Option ℕ → Option ℕ → ℕ → KeyMetadata
fresh_metadata m key_id max_lifetime max_operations now = record {
  key_id = key_id;
  created_at = now;
  last_used_at = now;
  encrypt_count = 0;
  decrypt_count = 0;
  max_lifetime_seconds = unwrap_or max_lifetime m.default_max_lifetime;
  max_operations = unwrap_or max_operations m.default_max_operations;
  is_expired = false;
  rotated_to = [];
}

unfoldable pub register_key :
    KeyRotationManager → Str → Option ℕ → Option ℕ → ℕ → KeyRotationManager
register_key m key_id max_lifetime max_operations now = record m {
  metadata = insert key_id (fresh_metadata m key_id max_lifetime max_operations now) m.metadata;
}

unfoldable pub record_usage : KeyRotationManager → Str → Bool → ℕ → KeyRotationManager
record_usage m key_id is_encrypt now = elim (lookup key_id m.metadata) [
  | none ↦ m
  | some meta ↦ record m {
    metadata =
        insert key_id (if is_encrypt then record_encrypt meta now else record_decrypt meta now)
          m.metadata;
  }
]

unfoldable pub needs_rotation : KeyRotationManager → Str → ℕ → Bool
needs_rotation m key_id now = elim (lookup key_id m.metadata) [
  | none ↦ false
  | some meta ↦ should_expire meta now
]

unfoldable pub expire_key : KeyRotationManager → Str → Str → KeyRotationManager
expire_key m key_id rotated_to = elim (lookup key_id m.metadata) [
  | none ↦ m
  | some meta ↦ record m {
    metadata =
        insert key_id (record meta { is_expired = true; rotated_to = rotated_to }) m.metadata;
  }
]

abbrev pub get_metadata : KeyRotationManager → Str → Option KeyMetadata
get_metadata m key_id = lookup key_id m.metadata

abbrev pub key_count : KeyRotationManager → ℕ
key_count m = length m.metadata
