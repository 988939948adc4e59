-- ===== src/KeyCache/Calls.antt =====
-- Sequences of calls on the cache. A call that panics ends the sequence.
use mathlib.Core.Option
use abir_guard.Base.{
  ℕ, ◌≤◌, ◌<◌, ◌≡◌, refl, subst, ◌∙◌, ◌⊎◌, inl, inr, ◌||◌, Option, none, some, List, [], ◌∷◌, Bytes,
  Str, ltb, ◌==◌, Result, ok, err, arith, Bool-cases, Option-cases,
}
use abir_guard.Base.Maybe.{◌>>=◌, >>=-eq-some}
use abir_guard.Base.Map.{lookup, contains}
use abir_guard.Base.Map.Distinct.{keys, IsDistinct}
use abir_guard.Base.Numbers.{saturating_add}
use abir_guard.KeyCache
use abir_guard.KeyCache.{
  DerivedKeyCache, CacheKey, CacheEntry, CacheError, CacheStats, cache_key, key_of, evict, store,
  hit, get_or_derive, derive, clear, stats, new, invalid_output_length,
}
use abir_guard.KeyCache.Bounded.{
  IsBounded, evict-IsBounded, store-IsBounded, hit-IsBounded, remove-IsBounded,
}

pub data Call : Type 0 where
  get : Bytes → Bytes → ℕ → Call
  invalidate : Bytes → Bytes → ℕ → Call
  clear_all : Call

some-injective : {c d : DerivedKeyCache} → some c ≡ some d → c ≡ d
some-injective e = cc

pub ok-injective :
    {c d : DerivedKeyCache} → Path (Result CacheError DerivedKeyCache) (ok c) (ok d) → c ≡ d
ok-injective e = cc

-- The cache when a miss is counted.
abbrev pub missed : DerivedKeyCache → DerivedKeyCache
missed c = record c { total_misses = saturating_add c.total_misses 1 }

module _ (sha256 : Bytes → Bytes) (argon2 : Str → Bytes → Option Bytes) (lossy : Bytes → Str) where
  abbrev pub step : Call → DerivedKeyCache → Option DerivedKeyCache
  step (Call.get password salt len) c =
      Option.map (λ done. done.0) (get_or_derive sha256 argon2 lossy c password salt len)
  step (Call.invalidate password salt len) c =
      some (KeyCache.invalidate sha256 c password salt len).0
  step Call.clear_all c = some (clear c)

  unfoldable pub run : List Call → DerivedKeyCache → Option DerivedKeyCache
  run [] c = some c
  run (call ∷ calls) c = step call c >>= run calls

  -- The outcomes of `get_or_derive`: refused, a hit, a panic, a miss.
  pub get_outcome :
      (c : DerivedKeyCache) (password salt : Bytes) (len : ℕ)
      → (get_or_derive sha256 argon2 lossy c password salt len
          ≡ some (c, err invalid_output_length))
        ⊎ ((e : CacheEntry) × (lookup (key_of sha256 password salt len) c.entries ≡ some e)
            × (get_or_derive sha256 argon2 lossy c password salt len
                ≡ some (hit (key_of sha256 password salt len) e c, ok e.key_bytes)))
        ⊎ (get_or_derive sha256 argon2 lossy c password salt len ≡ none)
        ⊎ ((bytes : Bytes) × (lookup (key_of sha256 password salt len) c.entries ≡ none)
            × (derive argon2 lossy password salt len ≡ some bytes)
            × (get_or_derive sha256 argon2 lossy c password salt len
                ≡ some
                    (store (key_of sha256 password salt len) bytes (evict (missed c)), ok bytes)))
  unfolding get_or_derive
  get_outcome c password salt len = elim (Bool-cases (len == 0 || ltb 64 len)) [
    | inl bad ↦ inl (rw bad)
    | inr good ↦ elim (Option-cases (lookup (key_of sha256 password salt len) c.entries)) [
      | inr (e, found) ↦ inr (inl (e, found, rw (good, found, get_or_derive)))
      | inl absent ↦ elim (Option-cases (derive argon2 lossy password salt len)) [
        | inl panic ↦ inr (inr (inl (rw (good, absent, get_or_derive, panic))))
        | inr (bytes, derived) ↦
            inr (inr (inr (bytes, absent, derived, rw (good, absent, get_or_derive, derived))))
      ]
    ]
  ]

  -- An invariant of the cache: what a hit, a miss, an invalidation and a clearing keep.
  module _ (P : DerivedKeyCache → Type 0)
      (on_hit : (c : DerivedKeyCache) (k : CacheKey) (e : CacheEntry)
        → P c
        → lookup k c.entries ≡ some e
        → P (hit k e c))
      (on_miss : (c : DerivedKeyCache) (password salt : Bytes) (len : ℕ) (bytes : Bytes)
        → P c
        → lookup (key_of sha256 password salt len) c.entries ≡ none
        → derive argon2 lossy password salt len ≡ some bytes
        → P (store (key_of sha256 password salt len) bytes (evict (missed c))))
      (on_invalidate : (c : DerivedKeyCache) (password salt : Bytes) (len : ℕ)
        → P c
        → P (KeyCache.invalidate sha256 c password salt len).0)
      (on_clear : (c : DerivedKeyCache) → P c → P (clear c)) where
    step_keeps : (call : Call) (c d : DerivedKeyCache) → P c → step call c ≡ some d → P d
    step_keeps (Call.get password salt len) c d h done = elim (get_outcome c password salt len) [
      | inl e ↦ subst P (some-injective (rw e at done)) h
      | inr (inl (entry, found, e)) ↦
          subst P (some-injective (rw e at done))
            (on_hit c (key_of sha256 password salt len) entry h found)
      | inr (inr (inl e)) ↦ absurd (let x = rw e at done in cc)
      | inr (inr (inr (bytes, absent, derived, e))) ↦
          subst P (some-injective (rw e at done))
            (on_miss c password salt len bytes h absent derived)
    ]
    step_keeps (Call.invalidate password salt len) c d h done =
        subst P (some-injective done) (on_invalidate c password salt len h)
    step_keeps Call.clear_all c d h done = subst P (some-injective done) (on_clear c h)

    pub run_keeps : (calls : List Call) (c d : DerivedKeyCache) → P c → run calls c ≡ some d → P d
    unfolding run
    run_keeps [] c d h done = subst P (some-injective done) h
    run_keeps (call ∷ calls) c d h done =
        let (next, first, rest) = >>=-eq-some (step call c) (run calls) done in
        run_keeps calls next d (step_keeps call c next h first) rest

-- The cache keeps its invariant and its capacity, which is not zero.
abbrev Sized : ℕ → DerivedKeyCache → Type 0
Sized capacity c = IsBounded c × (c.capacity ≡ capacity) × (0 < capacity)

new-Sized : (capacity : ℕ) (c : DerivedKeyCache) → new capacity ≡ ok c → Sized capacity c
unfolding new
new-Sized capacity c made = elim (Bool-cases (capacity == 0)) [
  | inl zero_given ↦ absurd (let x = rw zero_given at made in cc)
  | inr positive ↦
      subst (Sized capacity) (ok-injective (rw positive at made))
        (record { distinct = tt; queued = refl; bounded = omega arith }, refl, ground arith)
]

-- Room is made, and the new key goes in.
miss-Sized :
    (capacity : ℕ) (c : DerivedKeyCache) (k : CacheKey) (bytes : Bytes)
    → Sized capacity c
    → lookup k c.entries ≡ none
    → Sized capacity (store k bytes (evict (missed c)))
miss-Sized capacity c k bytes (b, same, positive) absent =
    let counted : IsBounded (missed c) = record {
      distinct = b.distinct;
      queued = b.queued;
      bounded = b.bounded;
    } in
    let (made, kept, room, out) =
      evict-IsBounded (missed c) k (omega (arith, same)) counted absent in
    (
      store-IsBounded (evict (missed c)) k bytes made (omega (arith, kept, room)) out,
      kept ∙ same,
      positive,
    )

clear-Sized : (capacity : ℕ) (c : DerivedKeyCache) → Sized capacity c → Sized capacity (clear c)
unfolding clear
clear-Sized capacity c (b, same, positive) =
    (record { distinct = tt; queued = refl; bounded = omega arith }, same, positive)

invalidate-Sized :
    (sha256 : Bytes → Bytes) (capacity : ℕ) (c : DerivedKeyCache) (password salt : Bytes) (len : ℕ)
    → Sized capacity c
    → Sized capacity (KeyCache.invalidate sha256 c password salt len).0
unfolding KeyCache.invalidate
invalidate-Sized sha256 capacity c password salt len (b, same, positive) =
    elim (Bool-cases (contains (key_of sha256 password salt len) c.entries)) [
      | inl there ↦
          rw there (remove-IsBounded c (key_of sha256 password salt len) b, same, positive)
      | inr absent ↦ rw absent (b, same, positive)
    ]

-- Whatever calls are made on a new cache, as long as none panics: it keeps its capacity, it never
-- holds more entries than that, and its queue lists the keys of its entries, each once.
pub run-IsBounded :
    (sha256 : Bytes → Bytes) (argon2 : Str → Bytes → Option Bytes) (lossy : Bytes → Str)
    (calls : List Call) (capacity : ℕ) (c d : DerivedKeyCache)
    → new capacity ≡ ok c
    → run sha256 argon2 lossy calls c ≡ some d
    → ((stats d).size ≤ capacity)
      × ((stats d).capacity ≡ capacity)
      × (d.order ≡ keys d.entries)
      × IsDistinct d.entries
unfolding stats
run-IsBounded sha256 argon2 lossy calls capacity c d made done =
    let (b, same, positive) : Sized capacity d =
      run_keeps sha256 argon2 lossy (Sized capacity)
        (λ c k e (b, same, positive) found. (hit-IsBounded c k e b found, same, positive))
        (λ c password salt len bytes h absent derived.
          miss-Sized capacity c (key_of sha256 password salt len) bytes h absent)
        (λ c password salt len h. invalidate-Sized sha256 capacity c password salt len h)
        (λ c h. clear-Sized capacity c h) calls c d (new-Sized capacity c made) done in
    ((let h = b.bounded in omega arith), same, b.queued, b.distinct)
