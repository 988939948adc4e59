-- ===== src/KeyCache/Bounded.antt =====
-- The cache never holds more than its capacity, and its queue lists the cached keys.
use abir_guard.Base.{
  suc, ◌≤◌, ◌<◌, ◌≡◌, refl, sym, ap, subst, ◌∙◌, ◌⊎◌, inl, inr, not, none, some, [], ◌∷◌, ◌++◌,
  Bytes, leb, length, length-map, arith, filter, Bool-cases,
}
use abir_guard.Base.Map.{
  Map, lookup, remove, contains_of_none, contains_of_some, length-insert, length-remove,
}
use abir_guard.Base.Map.Distinct.{keys, IsDistinct, insert-IsDistinct, remove-IsDistinct}
use abir_guard.Base.Map.Order.{keys-insert_new, keys-insert_old, keys-remove, remove_first}
use abir_guard.Base.Numbers.{saturating_add}
use abir_guard.KeyCache.{
  DerivedKeyCache, CacheKey, CacheEntry, cache_key, key_eq, evict, store, hit,
}

-- The entries have different keys, no more than the capacity, and the queue lists them in order.
pub record IsBounded (c : DerivedKeyCache) : Type 0 where
  pub distinct : IsDistinct c.entries
  pub queued : c.order ≡ keys c.entries
  pub bounded : length c.entries ≤ c.capacity

length-keys : (m : Map CacheKey CacheEntry) → length (keys m) ≡ length m
length-keys m = length-map (λ e. e.0) m

entries-cases :
    (m : Map CacheKey CacheEntry)
    → (m ≡ [])
      ⊎ ((k : CacheKey) × (e : CacheEntry) × (rest : Map CacheKey CacheEntry) × (m ≡ (k, e) ∷ rest))
entries-cases [] = inl refl
entries-cases ((k, e) ∷ rest) = inr (k, e, rest, refl)

-- There was room, or the first key goes.
pub evict_outcome :
    (c : DerivedKeyCache)
    → 0 < c.capacity
    → IsBounded c
    → ((length c.entries < c.capacity) × (evict c ≡ c))
      ⊎ ((k : CacheKey) × (e : CacheEntry) × (rest : Map CacheKey CacheEntry) × (c.entries
            ≡ (k, e) ∷ rest)
          × (evict c ≡ record c { entries = rest; order = keys rest }))
unfolding evict
evict_outcome c positive b = elim (Bool-cases (leb c.capacity (length c.entries))) [
  | inr room ↦ inl (ground arith, rw room)
  | inl full ↦ elim (entries-cases c.entries) [
    | inl none_there ↦ absurd (let n : length c.entries ≡ 0 = ap length none_there in ground arith)
    | inr (k, e, rest, some_there) ↦
        let order : c.order ≡ k ∷ keys rest = b.queued ∙ ap keys some_there in
        let fresh = (subst IsDistinct some_there b.distinct).0 in
        let left : remove k c.entries ≡ rest =
          ap (remove k) some_there ∙ remove_first k e rest fresh in
        inr (
          k,
          e,
          rest,
          some_there,
          rw (full, order) (ap (λ m. record c { entries = m; order = keys rest }) left),
        )
  ]
]

-- After an eviction there is room, and no key has come.
pub evict-IsBounded :
    (c : DerivedKeyCache) (k : CacheKey)
    → 0 < c.capacity
    → IsBounded c
    → lookup k c.entries ≡ none
    → IsBounded (evict c)
      × ((evict c).capacity ≡ c.capacity)
      × (length (evict c).entries < c.capacity)
      × (lookup k (evict c).entries ≡ none)
unfolding lookup
evict-IsBounded c k positive b out = elim (evict_outcome c positive b) [
  | inl (room, same) ↦ rw same (b, refl, room, out)
  | inr (first, e, rest, there, gone) ↦
      let size : length c.entries ≡ suc (length rest) = ap length there in
      let d = subst IsDistinct there b.distinct in
      rw gone (
        record { distinct = d.1; queued = refl; bounded = (let h = b.bounded in omega arith) },
        refl,
        (let h = b.bounded in omega arith),
        lookup_tail first k e rest (ap (lookup k) (sym there) ∙ out),
      )
]
  where
    lookup_tail :
        (j k : CacheKey) (e : CacheEntry) (m : Map CacheKey CacheEntry)
        → lookup k ((j, e) ∷ m) ≡ none
        → lookup k m ≡ none
    lookup_tail j k e m h = elim (Bool-cases (key_eq j k)) [
      | inl same ↦ absurd (let x = rw same at h in cc)
      | inr other ↦ rw other at h
    ]

pub store-IsBounded :
    (c : DerivedKeyCache) (k : CacheKey) (bytes : Bytes)
    → IsBounded c
    → length c.entries < c.capacity
    → lookup k c.entries ≡ none
    → IsBounded (store k bytes c)
store-IsBounded c k bytes b room out =
    let entry : CacheEntry = record { key_bytes = bytes; hits = 0 } in
    record {
      distinct = insert-IsDistinct k entry c.entries b.distinct;
      queued = ap (λ l. l ++ k ∷ []) b.queued ∙ sym (keys-insert_new k entry c.entries out);
      bounded =
          (let grown = length-insert k entry c.entries in
            let fresh = contains_of_none k c.entries out in ground arith);
    }

pub hit-IsBounded :
    (c : DerivedKeyCache) (k : CacheKey) (entry : CacheEntry)
    → IsBounded c
    → lookup k c.entries ≡ some entry
    → IsBounded (hit k entry c)
hit-IsBounded c k entry b found = record {
  distinct = insert-IsDistinct k _ c.entries b.distinct;
  queued = b.queued ∙ sym (keys-insert_old k _ c.entries found);
  bounded =
      (let same = length-insert k (record entry { hits = saturating_add entry.hits 1 }) c.entries in
        let there = contains_of_some k c.entries found in let h = b.bounded in ground arith);
}

pub remove-IsBounded :
    (c : DerivedKeyCache) (k : CacheKey)
    → IsBounded c
    → IsBounded
        (record c { entries = remove k c.entries; order = filter (λ j. not (key_eq j k)) c.order })
remove-IsBounded c k b = record {
  distinct = remove-IsDistinct k c.entries b.distinct;
  queued = ap (filter (λ j. not (key_eq j k))) b.queued ∙ sym (keys-remove k c.entries);
  bounded = (let fewer = length-remove k c.entries in let h = b.bounded in omega arith);
}
