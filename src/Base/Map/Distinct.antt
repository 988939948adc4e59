-- ===== src/Base/Map/Distinct.antt =====
-- Maps with one entry for each key, and what depends on their entries alone.
use abir_guard.Base.Tests.{Bool-cases}
use abir_guard.Base.Lists.{Str}
use abir_guard.Base.Keys.{Eq, bytes_key}
use abir_guard.Base.Map.{
  Map, lookup, insert, remove, beq_refl, lookup-insert_ne, lookup-remove, lookup-remove_ne,
}
use abir_guard.Base.Words.{sort, insert_sorted, insert_sorted_comm}
use mathlib.Core.Bool.{false}
use mathlib.Core.List.{List, [], ◌∷◌, map}
use mathlib.Core.Logic.{◌≢◌, inl, inr}
use mathlib.Core.Option.{none, some}
use mathlib.Core.Path.{◌≡◌, refl, sym, ap, ◌∙◌}
use native.Mathlib.Omega.{arith}

abbrev pub keys {ℓ κ} : {K : Type ℓ} {V : Type κ} → Map K V → List K
keys m = map (λ entry. entry.0) m

ne_of_beq {ℓ} : {K : Type ℓ} ⦃e : Eq K⦄ (a b : K) → e.beq a b ≡ false → b ≢ a
ne_of_beq ⦃e⦄ a b other eq = (let y = (e.beq_iff a b).1 (sym eq) in cc)

module _ {ℓ κ} {K : Type ℓ} {V : Type κ} ⦃e : Eq K⦄ where
  abbrev pub IsDistinct : Map K V → Type κ
  IsDistinct [] = Unit
  IsDistinct ((k, v) ∷ m) = (lookup k m ≡ none) × IsDistinct m

  pub insert-IsDistinct : (k : K) (v : V) (m : Map K V) → IsDistinct m → IsDistinct (insert k v m)
  unfolding insert lookup
  insert-IsDistinct k v [] d = (refl, tt)
  insert-IsDistinct k v ((key, old) ∷ rest) d = elim (Bool-cases (e.beq key k)) [
    | inl same ↦ rw same (ap (λ j. lookup j rest) (sym ((e.beq_iff key k).0 same)) ∙ d.0, d.1)
    | inr other ↦ rw other (
      lookup-insert_ne k key v rest (ne_of_beq key k other) ∙ d.0,
      insert-IsDistinct k v rest d.1,
    )
  ]

  pub remove_absent : (k : K) (m : Map K V) → lookup k m ≡ none → remove k m ≡ m
  unfolding lookup remove
  remove_absent k [] h = refl
  remove_absent k ((key, old) ∷ rest) h = ground (arith, remove_absent k rest)

  pub remove-IsDistinct : (k : K) (m : Map K V) → IsDistinct m → IsDistinct (remove k m)
  unfolding remove lookup
  remove-IsDistinct k [] d = tt
  remove-IsDistinct k ((key, old) ∷ rest) d = elim (Bool-cases (e.beq key k)) [
    | inl same ↦ rw same (remove-IsDistinct k rest d.1)
    | inr other ↦
        rw other
          (lookup-remove_ne k key rest (ne_of_beq key k other) ∙ d.0, remove-IsDistinct k rest d.1)
  ]

-- The text keys of a map in order: a key that it has can be put in its place first.
sort-remove {ℓ} :
    {V : Type ℓ} (k : Str) (v : V) (m : Map Str V)
    → IsDistinct m
    → lookup k m ≡ some v
    → sort (keys m) ≡ insert_sorted k (sort (keys (remove k m)))
unfolding sort lookup remove
sort-remove k v [] d h = cc
sort-remove k v ((key, old) ∷ rest) d h = elim (Bool-cases (bytes_key.beq key k)) [
  | inl same ↦
      let eq = (bytes_key.beq_iff key k).0 same in
      rw same (
        ap (λ j. insert_sorted j (sort (keys rest))) eq
        ∙ ap (λ r. insert_sorted k (sort (keys r)))
            (sym (remove_absent k rest (ap (λ j. lookup j rest) (sym eq) ∙ d.0))))
  | inr other ↦ rw other (
      ap (insert_sorted key) (sort-remove k v rest d.1 (rw other at h))
      ∙ insert_sorted_comm key k (sort (keys (remove k rest))))
]

lookup_head {ℓ} : {V : Type ℓ} (k : Str) (v : V) (m : Map Str V) → lookup k ((k, v) ∷ m) ≡ some v
unfolding lookup
lookup_head k v m = rw (beq_refl bytes_key k)

-- What is left of two maps that answer alike when a key goes.
lookup_rest {ℓ} :
    {V : Type ℓ} (k : Str) (v : V) (m n : Map Str V)
    → lookup k m ≡ none
    → ((j : Str) → lookup j ((k, v) ∷ m) ≡ lookup j n)
    → (j : Str) → lookup j m ≡ lookup j (remove k n)
unfolding lookup
lookup_rest k v m n absent h j = elim (Bool-cases (bytes_key.beq k j)) [
  | inl same ↦
      ap (λ i. lookup i m) (sym ((bytes_key.beq_iff k j).0 same))
      ∙ absent
      ∙ sym (lookup-remove k j n ∙ rw same)
  | inr other ↦ rw other at (h j) ∙ sym (lookup-remove k j n ∙ rw other)
]

-- Two maps that answer every lookup alike have the same keys in order.
pub sort-keys {ℓ} :
    {V : Type ℓ} (m n : Map Str V)
    → IsDistinct m
    → IsDistinct n
    → ((k : Str) → lookup k m ≡ lookup k n)
    → sort (keys m) ≡ sort (keys n)
unfolding sort lookup
sort-keys [] [] d c h = refl
sort-keys [] ((k, v) ∷ n) d c h = absurd (let x = h k ∙ lookup_head k v n in cc)
sort-keys ((k, v) ∷ m) n d c h =
    ap (insert_sorted k)
      (sort-keys m (remove k n) d.1 (remove-IsDistinct k n c) (lookup_rest k v m n d.0 h))
    ∙ sym (sort-remove k v n c (sym (h k) ∙ lookup_head k v m))
