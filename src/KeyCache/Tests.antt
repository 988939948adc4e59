-- ===== src/KeyCache/Tests.antt =====
-- Runs of the cache, with a checksum in the place of SHA-256 and a toy derivation.
use abir_guard.Base.{
  ℕ, ◌+◌, ◌*◌, ◌%◌, ◌≤◌, ◌≡◌, refl, sym, ap, ◌∙◌, ◌⊎◌, Option, none, some, List, [], ◌∷◌, Bytes,
  Str, str, bytes_eq, Result, ok, err, arith, le_bytes, length-le_bytes, length,
}
use abir_guard.Base.Hash.{Collision}
use abir_guard.Base.Map.{lookup, insert, remove}
use abir_guard.Base.Map.Distinct.{keys, IsDistinct}
use abir_guard.Base.Numbers.{saturating_add}
use abir_guard.Kdf.{derive_key}
use abir_guard.KeyCache
use abir_guard.KeyCache.{
  DerivedKeyCache, CacheKey, cache_key, key_eq, key_of, get_or_derive, derive, slice_to, evict,
  stats, new, invalidate, clear,
}
use abir_guard.KeyCache.Calls.{Call, run, run-IsBounded}
use abir_guard.KeyCache.Faithful.{get-derive}
use abir_guard.KeyCache.Panics.{get_panics}

checksum : Bytes → ℕ
checksum [] = 7
checksum (b ∷ bs) = (b + 31 * checksum bs) % 65521

abbrev digest : Bytes → Bytes
digest bs = le_bytes 2 (checksum bs)

-- A derivation of 32 bytes; salts must not be empty.
abbrev toy : Str → Bytes → Option Bytes
toy passphrase [] = none
toy passphrase (s ∷ salt) = some (le_bytes 32 (checksum passphrase * 65521 + checksum (s ∷ salt)))

abbrev plain : Bytes → Str
plain bs = bs

toy_size : (p : Str) (s : Bytes) (key : Bytes) → toy p s ≡ some key → length key ≡ 32
toy_size p [] key h = absurd (let x = h in cc)
toy_size p (s ∷ salt) key h =
    let eq : le_bytes 32 (checksum p * 65521 + checksum (s ∷ salt)) ≡ key = (let x = h in cc) in
    ap length (sym eq) ∙ length-le_bytes 32 (checksum p * 65521 + checksum (s ∷ salt))

program : Unit {0}
unfolding lookup insert remove bytes_eq le_bytes checksum run get_or_derive derive derive_key
    slice_to evict invalidate clear key_eq saturating_add new
program = tt

abbrev empty : DerivedKeyCache
empty = record { capacity = 2; entries = []; order = []; total_hits = 0; total_misses = 0 }

abbrev calls : List Call
calls =
    Call.get (str "a") (1 ∷ []) 4
    ∷ Call.get (str "b") (1 ∷ []) 4
    ∷ Call.get (str "a") (1 ∷ []) 4
    ∷ Call.get (str "c") (1 ∷ []) 2
    ∷ Call.invalidate (str "b") (1 ∷ []) 4
    ∷ []

abbrev outcome : Option DerivedKeyCache → DerivedKeyCache
outcome none = empty
outcome (some c) = c

abbrev full : DerivedKeyCache
full = outcome (run digest toy plain calls empty)

made : new 2 ≡ ok empty
unfolding program
made = refl

ran : run digest toy plain calls empty ≡ some full
unfolding program
ran = refl

counts : (full.total_hits ≡ 1) × (full.total_misses ≡ 3) × (length full.entries ≡ 1)
unfolding program
counts = (refl, refl, refl)

run-IsBounded_example :
    ((stats full).size ≤ 2)
    × ((stats full).capacity ≡ 2)
    × (full.order ≡ keys full.entries)
    × IsDistinct full.entries
run-IsBounded_example = run-IsBounded digest toy plain calls 2 empty full made ran

abbrev returned :
    Option (DerivedKeyCache × Result KeyCache.CacheError Bytes) → DerivedKeyCache × Bytes
returned (some (c, ok bytes)) = (c, bytes)
returned (some (c, err e)) = (c, [])
returned none = (empty, [])

abbrev got : DerivedKeyCache × Bytes
got = returned (get_or_derive digest toy plain full (str "c") (1 ∷ []) 2)

hit_again : get_or_derive digest toy plain full (str "c") (1 ∷ []) 2 ≡ some (got.0, ok got.1)
unfolding program
hit_again = refl

get-derive_example : Collision digest ⊎ (derive toy plain (str "c") (1 ∷ []) 2 ≡ some got.1)
get-derive_example =
    get-derive digest toy plain calls 2 empty full got.0 (str "c") (1 ∷ []) got.1 2 made ran
      hit_again

absent : lookup (key_of digest (str "a") (1 ∷ []) 48) empty.entries ≡ none
unfolding program
absent = refl

get_panics_example : get_or_derive digest toy plain empty (str "a") (1 ∷ []) 48 ≡ none
get_panics_example =
    get_panics digest toy plain empty (str "a") (1 ∷ []) 48 toy_size (omega arith) (omega arith)
      absent
