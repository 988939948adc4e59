-- ===== src/KeyCache/Faithful.antt =====
-- A cached key is the key that a derivation would give.
use abir_guard.Base.{
  ℕ, ◌≡◌, refl, sym, ap, subst, ◌∙◌, ◌⊎◌, inl, inr, Option, none, some, List, [], ◌∷◌, Bytes, Str,
  ok, Bool-cases, leb, length, ◌==◌,
}
use abir_guard.Base.Hash.{Collision, same_or_Collision}
use abir_guard.Base.Map.{Map, lookup, insert, remove, contains, lookup-insert, lookup-remove}
use abir_guard.KeyCache
use abir_guard.KeyCache.{
  DerivedKeyCache, CacheKey, CacheEntry, CacheError, cache_key, key_eq, key_eq_iff, key_of, evict,
  store, hit, get_or_derive, derive, clear, new,
}
use abir_guard.KeyCache.Calls.{Call, run, run_keeps, missed, get_outcome, ok-injective}

order-cases :
    (l : List CacheKey) → (l ≡ []) ⊎ ((k : CacheKey) × (ks : List CacheKey) × (l ≡ k ∷ ks))
order-cases [] = inl refl
order-cases (k ∷ ks) = inr (k, ks, refl)

evict_entries :
    (c : DerivedKeyCache)
    → ((evict c).entries ≡ c.entries) ⊎ ((k : CacheKey) × ((evict c).entries ≡ remove k c.entries))
unfolding evict
evict_entries c = elim (Bool-cases (leb c.capacity (length c.entries))) [
  | inr room ↦ inl (rw room)
  | inl full ↦ elim (order-cases c.order) [
    | inl none_there ↦ inl (rw (full, none_there))
    | inr (k, ks, some_there) ↦ inr (k, rw (full, some_there))
  ]
]

module _ (sha256 : Bytes → Bytes) (argon2 : Str → Bytes → Option Bytes) (lossy : Bytes → Str) where
  -- Bytes under a key that were derived from inputs with the key's hashes.
  pub record WasDerived (k : CacheKey) (bytes : Bytes) : Type 0 where
    pub password : Bytes
    pub salt : Bytes
    pub hashed : k ≡ key_of sha256 password salt k.output_len
    pub derived : derive argon2 lossy password salt k.output_len ≡ some bytes

  abbrev pub IsFaithful : Map CacheKey CacheEntry → Type 0
  IsFaithful m = (k : CacheKey) (e : CacheEntry) → lookup k m ≡ some e → WasDerived k e.key_bytes

  IsFaithful-insert :
      (k : CacheKey) (e : CacheEntry) (m : Map CacheKey CacheEntry)
      → WasDerived k e.key_bytes
      → IsFaithful m
      → IsFaithful (insert k e m)
  IsFaithful-insert k e m own good j f h = elim (Bool-cases (key_eq k j)) [
    | inl same ↦
        let there : some e ≡ some f = sym (lookup-insert k j e m ∙ rw same) ∙ h in
        let is_new : e ≡ f = cc in
        subst (λ i. WasDerived i f.key_bytes) ((key_eq_iff k j).0 same)
          (subst (λ (g : CacheEntry). WasDerived k g.key_bytes) is_new own)
    | inr other ↦ good j f (sym (lookup-insert k j e m ∙ rw other) ∙ h)
  ]

  IsFaithful-remove :
      (k : CacheKey) (m : Map CacheKey CacheEntry) → IsFaithful m → IsFaithful (remove k m)
  IsFaithful-remove k m good j f h = elim (Bool-cases (key_eq k j)) [
    | inl same ↦ (let x : none ≡ some f = sym (lookup-remove k j m ∙ rw same) ∙ h in absurd cc)
    | inr other ↦ good j f (sym (lookup-remove k j m ∙ rw other) ∙ h)
  ]

  IsFaithful-evict : (c : DerivedKeyCache) → IsFaithful c.entries → IsFaithful (evict c).entries
  IsFaithful-evict c good = elim (evict_entries c) [
    | inl same ↦ subst IsFaithful (sym same) good
    | inr (k, gone) ↦ subst IsFaithful (sym gone) (IsFaithful-remove k c.entries good)
  ]

  IsFaithful-invalidate :
      (c : DerivedKeyCache) (password salt : Bytes) (len : ℕ)
      → IsFaithful c.entries
      → IsFaithful (KeyCache.invalidate sha256 c password salt len).0.entries
  unfolding KeyCache.invalidate
  IsFaithful-invalidate c password salt len good =
      elim (Bool-cases (contains (key_of sha256 password salt len) c.entries)) [
        | inl there ↦ rw there (IsFaithful-remove (key_of sha256 password salt len) c.entries good)
        | inr absent ↦ rw absent good
      ]

  IsFaithful-clear : (c : DerivedKeyCache) → IsFaithful (clear c).entries
  unfolding clear lookup
  IsFaithful-clear c k e h = absurd (let x = h in cc)

  IsFaithful-new : (capacity : ℕ) (c : DerivedKeyCache) → new capacity ≡ ok c → IsFaithful c.entries
  unfolding new lookup
  IsFaithful-new capacity c made = elim (Bool-cases (capacity == 0)) [
    | inl zero_given ↦ absurd (let x = rw zero_given at made in cc)
    | inr positive ↦
        subst (λ (d : DerivedKeyCache). IsFaithful d.entries) (ok-injective (rw positive at made))
          (λ k e h. absurd (let x = h in cc))
  ]

  -- After any calls on a new cache, a key that `get_or_derive` returns, from the cache or not, is
  -- the one that the derivation gives for that password, salt and length, or else there are two
  -- different inputs with one SHA-256 hash.
  pub get-derive :
      (calls : List Call) (capacity : ℕ) (c d e : DerivedKeyCache) (password salt bytes : Bytes)
      (len : ℕ)
      → new capacity ≡ ok c
      → run sha256 argon2 lossy calls c ≡ some d
      → get_or_derive sha256 argon2 lossy d password salt len ≡ some (e, ok bytes)
      → Collision sha256 ⊎ (derive argon2 lossy password salt len ≡ some bytes)
  get-derive calls capacity c d e password salt bytes len made done got =
      let good : IsFaithful d.entries =
        run_keeps sha256 argon2 lossy (λ c. IsFaithful c.entries)
          (λ c k entry h found. IsFaithful-insert k _ c.entries (h k entry found) h)
          (λ c p s n b h absent derived.
            IsFaithful-insert (key_of sha256 p s n) _ (evict (missed c)).entries
              (record { password = p; salt = s; hashed = refl; derived = derived })
              (IsFaithful-evict (missed c) h))
          IsFaithful-invalidate (λ c h. IsFaithful-clear c) calls c d
          (IsFaithful-new capacity c made) done in
      elim (get_outcome sha256 argon2 lossy d password salt len) [
        | inl x ↦ absurd (let y = sym x ∙ got in cc)
        | inr (inl (entry, found, x)) ↦
            let eq : entry.key_bytes ≡ bytes = (let y = sym x ∙ got in cc) in
            let w = good (key_of sha256 password salt len) entry found in
            let passwords : sha256 password ≡ sha256 w.password =
              ap (λ (k : CacheKey). k.password_hash) w.hashed in
            let salts : sha256 salt ≡ sha256 w.salt = ap (λ (k : CacheKey). k.salt_hash) w.hashed in
            elim (same_or_Collision sha256 password w.password passwords) [
              | inl collision ↦ inl collision
              | inr same ↦ elim (same_or_Collision sha256 salt w.salt salts) [
                | inl collision ↦ inl collision
                | inr same' ↦ inr (rw (same, same') w.derived ∙ ap some eq)
              ]
            ]
        | inr (inr (inl x)) ↦ absurd (let y = sym x ∙ got in cc)
        | inr (inr (inr (b, absent, derived, x))) ↦
            let eq : b ≡ bytes = (let y = sym x ∙ got in cc) in inr (derived ∙ ap some eq)
      ]
