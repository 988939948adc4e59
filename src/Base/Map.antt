-- ===== src/Base/Map.antt =====
-- `HashMap<K, V>` as an association list with one entry for each key: an insertion replaces the
-- value in place or appends, a removal drops the entry. Nothing here fixes an iteration order.
pub mod Distinct
pub mod Order
use abir_guard.Base.Tests.{if◌then◌else◌, Bool-cases}
use abir_guard.Base.Lists.{length}
use abir_guard.Base.Keys.{Eq}
use Prim.Native.Nat.{◌+◌, ◌≤◌}
use mathlib.Core.Bool.{Bool, true, false}
use mathlib.Core.List.{List, [], ◌∷◌}
use mathlib.Core.Logic.{◌≢◌, inl, inr}
use mathlib.Core.Option.{Option, none, some}
use mathlib.Core.Path.{◌≡◌, refl, ap, ◌∙◌}
use native.Mathlib.Omega.{arith}

abbrev pub Map {ℓ κ} : Type ℓ → Type κ → Type (ℓ ⊔ κ)
Map K V = List (K × V)

pub beq_refl {ℓ} : {K : Type ℓ} (e : Eq K) (k : K) → e.beq k k ≡ true
beq_refl e k = (e.beq_iff k k).1 refl

pub beq_ne {ℓ} : {K : Type ℓ} (e : Eq K) (k j : K) → k ≢ j → e.beq k j ≡ false
beq_ne e k j h = elim (Bool-cases (e.beq k j)) [
  | inl same ↦ absurd (h ((e.beq_iff k j).0 same))
  | inr other ↦ other
]

module _ {ℓ κ} {K : Type ℓ} {V : Type κ} ⦃e : Eq K⦄ where
  unfoldable pub lookup : K → Map K V → Option V
  lookup k [] = none
  lookup k ((key, value) ∷ rest) = if e.beq key k then some value else lookup k rest

  unfoldable pub insert : K → V → Map K V → Map K V
  insert k v [] = (k, v) ∷ []
  insert k v ((key, old) ∷ rest) =
      if e.beq key k then (k, v) ∷ rest else (key, old) ∷ insert k v rest

  unfoldable pub remove : K → Map K V → Map K V
  remove k [] = []
  remove k ((key, old) ∷ rest) = if e.beq key k then remove k rest else (key, old) ∷ remove k rest

  -- `map.contains_key(k)`
  abbrev pub contains : K → Map K V → Bool
  contains k m = elim (lookup k m) [ none ↦ false | some _ ↦ true ]

  pub contains_of_none : (k : K) (m : Map K V) → lookup k m ≡ none → contains k m ≡ false
  contains_of_none k m h = ground arith

  pub contains_of_some : (k : K) (m : Map K V) {v : V} → lookup k m ≡ some v → contains k m ≡ true
  contains_of_some k m h = ground arith

  pub lookup-insert :
      (k j : K) (v : V) (m : Map K V)
      → lookup j (insert k v m) ≡ (if e.beq k j then some v else lookup j m)
  unfolding lookup insert
  lookup-insert k j v [] = refl
  lookup-insert k j v ((key, old) ∷ rest) =
      ground (lookup-insert k j v rest, e.beq_iff key j, e.beq_iff key k, e.beq_iff k j, arith)

  pub lookup-remove :
      (k j : K) (m : Map K V) → lookup j (remove k m) ≡ (if e.beq k j then none else lookup j m)
  unfolding lookup remove
  lookup-remove k j [] = ground arith
  lookup-remove k j ((i, w) ∷ m) =
      ground (arith, e.beq_iff k j, e.beq_iff i k, e.beq_iff i j, lookup-remove k j m)

  -- An insertion of a new key makes the map longer by one, any other keeps its length.
  pub length-insert :
      (k : K) (v : V) (m : Map K V)
      → length (insert k v m) ≡ (if contains k m then length m else length m + 1)
  unfolding lookup insert
  length-insert k v [] = omega arith
  length-insert k v ((i, w) ∷ m) = ground (arith, length-insert k v m)

  pub length-remove : (k : K) (m : Map K V) → length (remove k m) ≤ length m
  unfolding remove
  length-remove k [] = omega arith
  length-remove k ((key, old) ∷ rest) = ground (arith, length-remove k rest)

  -- An insertion keeps the keys that there are.
  pub contains-insert :
      (k j : K) (v : V) (m : Map K V) → contains j m ≡ true → contains j (insert k v m) ≡ true
  contains-insert k j v m h = ground (arith, lookup-insert k j v m)

  -- A key that is not there differs from one that is.
  pub absent_ne :
      (k j : K) {v : V} (m : Map K V) → contains k m ≡ false → lookup j m ≡ some v → k ≢ j
  absent_ne k j m out found same =
      (let x = ap (λ i. contains i m) same ∙ contains_of_some j m found in cc)

  pub lookup-insert_self : (k : K) (v : V) (m : Map K V) → lookup k (insert k v m) ≡ some v
  lookup-insert_self k v m = rw (lookup-insert k k v m, beq_refl e k)

  pub lookup-insert_ne :
      (k j : K) (v : V) (m : Map K V) → k ≢ j → lookup j (insert k v m) ≡ lookup j m
  lookup-insert_ne k j v m h = rw (lookup-insert k j v m, beq_ne e k j h)

  pub lookup-remove_self : (k : K) (m : Map K V) → lookup k (remove k m) ≡ none
  lookup-remove_self k m = rw (lookup-remove k k m, beq_refl e k)

  pub lookup-remove_ne : (k j : K) (m : Map K V) → k ≢ j → lookup j (remove k m) ≡ lookup j m
  lookup-remove_ne k j m h = rw (lookup-remove k j m, beq_ne e k j h)

  pub contains-insert_self : (k : K) (v : V) (m : Map K V) → contains k (insert k v m) ≡ true
  contains-insert_self k v m = contains_of_some k (insert k v m) (lookup-insert_self k v m)
