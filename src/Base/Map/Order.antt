-- ===== src/Base/Map/Order.antt =====
-- The keys of a map in the order in which they came.
use abir_guard.Base.Tests.{Bool-cases}
use abir_guard.Base.Lists.{filter}
use abir_guard.Base.Keys.{Eq}
use abir_guard.Base.Map.{Map, lookup, insert, remove, beq_refl}
use abir_guard.Base.Map.Distinct.{keys, remove_absent}
use mathlib.Core.Bool.{Bool, true, false, not}
use mathlib.Core.List.{List, [], ◌∷◌, ◌++◌}
use mathlib.Core.Logic.{inl, inr}
use mathlib.Core.Option.{none, some}
use mathlib.Core.Path.{◌≡◌, refl, sym, ap, ◌∙◌}

filter_keep {ℓ} :
    {A : Type ℓ} (p : A → Bool) (x : A) (xs : List A)
    → p x ≡ true
    → filter p (x ∷ xs) ≡ x ∷ filter p xs
filter_keep p x xs h = rw (h, filter)

filter_drop {ℓ} :
    {A : Type ℓ} (p : A → Bool) (x : A) (xs : List A)
    → p x ≡ false
    → filter p (x ∷ xs) ≡ filter p xs
filter_drop p x xs h = rw (h, filter)

module _ {ℓ κ} {K : Type ℓ} {V : Type κ} ⦃e : Eq K⦄ where
  -- A new key goes to the end.
  pub keys-insert_new :
      (k : K) (v : V) (m : Map K V) → lookup k m ≡ none → keys (insert k v m) ≡ keys m ++ k ∷ []
  unfolding lookup insert
  keys-insert_new k v [] h = refl
  keys-insert_new k v ((key, old) ∷ rest) h = elim (Bool-cases (e.beq key k)) [
    | inl same ↦ absurd (let x = rw same at h in cc)
    | inr other ↦ rw other (ap (λ l. key ∷ l) (keys-insert_new k v rest (rw other at h)))
  ]

  -- A key that is there keeps its place.
  pub keys-insert_old :
      (k : K) (v : V) {w : V} (m : Map K V) → lookup k m ≡ some w → keys (insert k v m) ≡ keys m
  unfolding lookup insert
  keys-insert_old k v [] h = absurd (let x = h in cc)
  keys-insert_old k v ((key, old) ∷ rest) h = elim (Bool-cases (e.beq key k)) [
    | inl same ↦ rw same (ap (λ j. j ∷ keys rest) (sym ((e.beq_iff key k).0 same)))
    | inr other ↦ rw other (ap (λ l. key ∷ l) (keys-insert_old k v rest (rw other at h)))
  ]

  pub keys-remove :
      (k : K) (m : Map K V) → keys (remove k m) ≡ filter (λ j. not (e.beq j k)) (keys m)
  unfolding remove
  keys-remove k [] = refl
  keys-remove k ((key, old) ∷ rest) = elim (Bool-cases (e.beq key k)) [
    | inl same ↦ rw same (
        keys-remove k rest ∙ sym (filter_drop (λ j. not (e.beq j k)) key (keys rest) (ap not same)))
    | inr other ↦ rw other (
        ap (λ l. key ∷ l) (keys-remove k rest)
        ∙ sym (filter_keep (λ j. not (e.beq j k)) key (keys rest) (ap not other)))
  ]

  -- Removal of the first key.
  pub remove_first : (k : K) (v : V) (m : Map K V) → lookup k m ≡ none → remove k ((k, v) ∷ m) ≡ m
  unfolding remove
  remove_first k v m h = rw (beq_refl e k) (remove_absent k m h)
