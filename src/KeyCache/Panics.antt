-- ===== src/KeyCache/Panics.antt =====
-- Lengths that the guard of `get_or_derive` lets through and the 32-byte key does not have.
use abir_guard.Base.{
  ℕ, zero, suc, ◌≤◌, ◌<◌, ◌≡◌, refl, inl, inr, false, ◌||◌, Option, none, some, [], ◌∷◌, Bytes, Str,
  ltb, ◌==◌, length, arith, Option-cases,
}
use abir_guard.Base.Map.{lookup}
use abir_guard.Kdf.{derive_key}
use abir_guard.KeyCache.{DerivedKeyCache, cache_key, key_of, get_or_derive, derive, slice_to}

slice_to_long : (bytes : Bytes) (n : ℕ) → length bytes < n → slice_to bytes n ≡ none
unfolding slice_to
slice_to_long bytes zero h = absurd (omega arith)
slice_to_long [] (suc n) h = refl
slice_to_long (b ∷ bytes) (suc n) h = rw (slice_to_long bytes n (omega arith))

-- On an output length from 33 to 64, which the guard accepts, `get_or_derive` panics whenever the
-- key is not in the cache, given that Argon2id gives 32 bytes where it gives a key.
pub get_panics :
    (sha256 : Bytes → Bytes) (argon2 : Str → Bytes → Option Bytes) (lossy : Bytes → Str)
    (c : DerivedKeyCache) (password salt : Bytes) (len : ℕ)
    → ((passphrase : Str) (s : Bytes) (key : Bytes)
        → argon2 passphrase s ≡ some key
        → length key ≡ 32)
    → 32 < len
    → len ≤ 64
    → lookup (key_of sha256 password salt len) c.entries ≡ none
    → get_or_derive sha256 argon2 lossy c password salt len ≡ none
unfolding get_or_derive derive derive_key
get_panics sha256 argon2 lossy c password salt len sized long fits absent =
    let guard : (len == 0 || ltb 64 len) ≡ false = ground arith in
    elim (Option-cases (argon2 (lossy password) salt)) [
      | inl failed ↦ rw (guard, absent, get_or_derive, failed)
      | inr (key, derived) ↦
          let short =
            slice_to_long key len (omega (arith, sized (lossy password) salt key derived)) in
          rw (guard, absent, get_or_derive, derived, short)
    ]
