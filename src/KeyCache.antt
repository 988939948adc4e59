-- ===== src/KeyCache.antt =====
-- src/performance/key_cache.rs: a bounded cache of derived keys, first in first out.
-- Parameters: SHA-256, Argon2id (see Kdf) and `String::from_utf8_lossy`. `none` is a panic: of the
-- derivation, or of the slice of a 32-byte key.
pub mod Bounded
pub mod Calls
pub mod Faithful
pub mod Panics
mod Tests
use abir_guard.Base.{
  ℕ, zero, suc, ◌+◌, ◌≡◌, ◌↔◌, refl, ap, Bool, true, false, not, ◌&&◌, ◌||◌, Option, none, some,
  List, [], ◌∷◌, ◌++◌, Bytes, Str, ltb, leb, ◌==◌, ==_iff, if◌then◌else◌, bytes_eq, bytes_eq_iff,
  bytes_eq_refl, subst, length, Result, ok, err, arith, Eq, filter, is_empty,
}
use abir_guard.Base.Maybe.{◌>>=◌}
use abir_guard.Base.Map.{Map, lookup, insert, remove, contains}
use abir_guard.Base.Numbers.{saturating_add}
use abir_guard.Kdf.{derive_key}

pub data CacheError : Type 0 where
  invalid_output_length : CacheError
  invalid_capacity : CacheError
  derivation_failed : Str → CacheError

pub record CacheStats : Type 0 where
  pub size : ℕ
  pub capacity : ℕ
  pub total_hits : ℕ
  pub total_misses : ℕ

pub record CacheKey : Type 0 where
  pub password_hash : Bytes
  pub salt_hash : Bytes
  pub output_len : ℕ

-- The derived `PartialEq`: field by field.
unfoldable pub key_eq : CacheKey → CacheKey → Bool
key_eq a b =
    bytes_eq a.password_hash b.password_hash
    && (bytes_eq a.salt_hash b.salt_hash && a.output_len == b.output_len)

pub key_eq_iff : (a b : CacheKey) → (key_eq a b ≡ true) ↔ (a ≡ b)
unfolding key_eq
key_eq_iff a b = (
  λ h.
      let password : a.password_hash ≡ b.password_hash =
        ground (arith, bytes_eq_iff a.password_hash b.password_hash) in
      let salt : a.salt_hash ≡ b.salt_hash = ground (arith, bytes_eq_iff a.salt_hash b.salt_hash) in
      let len : a.output_len ≡ b.output_len = ground (arith, ==_iff a.output_len b.output_len) in
      cc (password, salt, len),
  λ h.
      subst (λ x. key_eq a x ≡ true) h
        (rw (
          bytes_eq_refl a.password_hash,
          bytes_eq_refl a.salt_hash,
          (==_iff a.output_len a.output_len).1 refl,
        )),
)

instance abbrev pub cache_key : Eq CacheKey
cache_key = record { beq = key_eq; beq_iff = key_eq_iff }

pub record CacheEntry : Type 0 where
  pub key_bytes : Bytes
  pub hits : ℕ

pub record DerivedKeyCache : Type 0 where
  pub capacity : ℕ
  pub entries : Map CacheKey CacheEntry
  pub order : List CacheKey
  pub total_hits : ℕ
  pub total_misses : ℕ

unfoldable pub new : ℕ → Result CacheError DerivedKeyCache
new capacity =
    if capacity == 0
    then err invalid_capacity
    else ok
        (record { capacity = capacity; entries = []; order = []; total_hits = 0; total_misses = 0 })

-- `bytes[..n].to_vec()`
unfoldable pub slice_to : Bytes → ℕ → Option Bytes
slice_to bytes zero = some []
slice_to [] (suc n) = none
slice_to (b ∷ bytes) (suc n) = do rest ← slice_to bytes n; some (b ∷ rest)

-- The oldest entry goes when the cache is full.
unfoldable pub evict : DerivedKeyCache → DerivedKeyCache
evict c = if leb c.capacity (length c.entries) then pop c else c
  where
    pop : DerivedKeyCache → DerivedKeyCache
    pop c = elim c.order [
      | [] ↦ c
      | oldest ∷ order ↦ record c { entries = remove oldest c.entries; order = order }
    ]

abbrev pub store : CacheKey → Bytes → DerivedKeyCache → DerivedKeyCache
store key key_bytes c = record c {
  entries = insert key (record { key_bytes = key_bytes; hits = 0 }) c.entries;
  order = c.order ++ key ∷ [];
}

abbrev pub hit : CacheKey → CacheEntry → DerivedKeyCache → DerivedKeyCache
hit key entry c = record c {
  entries = insert key (record entry { hits = saturating_add entry.hits 1 }) c.entries;
  total_hits = saturating_add c.total_hits 1;
}

-- The derivation on a miss, and the slice of its key.
unfoldable pub derive :
    (Str → Bytes → Option Bytes) → (Bytes → Str) → Bytes → Bytes → ℕ → Option Bytes
derive argon2 lossy password salt output_len = do
  full ← derive_key argon2 [] (lossy password) (some salt)
  slice_to full.0 output_len

module _ (sha256 : Bytes → Bytes) where
  abbrev pub key_of : Bytes → Bytes → ℕ → CacheKey
  key_of password salt output_len = record {
    password_hash = sha256 password;
    salt_hash = sha256 salt;
    output_len = output_len;
  }

  unfoldable pub invalidate : DerivedKeyCache → Bytes → Bytes → ℕ → DerivedKeyCache × Bool
  invalidate c password salt output_len =
      let key = key_of password salt output_len in
      if contains key c.entries
      then (
        record c {
          entries = remove key c.entries;
          order = filter (λ k. not (key_eq k key)) c.order;
        },
        true,
      )
      else (c, false)

  module _ (argon2 : Str → Bytes → Option Bytes) (lossy : Bytes → Str) where
    unfoldable pub get_or_derive :
        DerivedKeyCache → Bytes → Bytes → ℕ → Option (DerivedKeyCache × Result CacheError Bytes)
    get_or_derive c password salt output_len =
        if output_len == 0 || ltb 64 output_len
        then some (c, err invalid_output_length)
        else let key = key_of password salt output_len in
          elim (lookup key c.entries) [
            | some entry ↦ some (hit key entry c, ok entry.key_bytes)
            | none ↦ derive argon2 lossy password salt output_len >>= λ key_bytes.
                let missed = record c { total_misses = saturating_add c.total_misses 1 } in
                some (store key key_bytes (evict missed), ok key_bytes)
          ]

unfoldable pub clear : DerivedKeyCache → DerivedKeyCache
clear c = record c { entries = []; order = [] }

unfoldable pub stats : DerivedKeyCache → CacheStats
stats c = record {
  size = length c.entries;
  capacity = c.capacity;
  total_hits = c.total_hits;
  total_misses = c.total_misses;
}
