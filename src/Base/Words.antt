-- ===== src/Base/Words.antt =====
-- Texts in the order of `str`, byte by byte, and `sort_unstable` on them. The keys that are sorted
-- here are all different, so that a stable and an unstable sort agree.
use abir_guard.Base.{
  ◌≡◌, refl, Bool, true, false, List, [], ◌∷◌, Str, ltb, ◌==◌, if◌then◌else◌, arith, length, ◌+◌,
}

unfoldable pub str_less : Str → Str → Bool
str_less [] [] = false
str_less [] (b ∷ t) = true
str_less (a ∷ s) [] = false
str_less (a ∷ s) (b ∷ t) = if ltb a b then true else if a == b then str_less s t else false

unfoldable pub insert_sorted : Str → List Str → List Str
insert_sorted x [] = x ∷ []
insert_sorted x (y ∷ ys) = if str_less x y then x ∷ y ∷ ys else y ∷ insert_sorted x ys

unfoldable pub sort : List Str → List Str
sort [] = []
sort (x ∷ xs) = insert_sorted x (sort xs)

pub str_less-asym : (s t : Str) → str_less s t ≡ true → str_less t s ≡ false
unfolding str_less
str_less-asym [] [] h = refl
str_less-asym [] (b ∷ t) h = refl
str_less-asym (a ∷ s) [] h = cc
str_less-asym (a ∷ s) (b ∷ t) h = ground (arith, str_less-asym s t)

pub str_less-connected : (s t : Str) → str_less s t ≡ false → str_less t s ≡ false → s ≡ t
unfolding str_less
str_less-connected [] [] h g = refl
str_less-connected [] (b ∷ t) h g = cc
str_less-connected (a ∷ s) [] h g = cc
str_less-connected (a ∷ s) (b ∷ t) h g = ground (arith, str_less-connected s t)

pub str_less_trans : (s t u : Str) → str_less s t ≡ true → str_less t u ≡ true → str_less s u ≡ true
unfolding str_less
str_less_trans [] [] u h g = g
str_less_trans [] (b ∷ t) [] h g = g
str_less_trans [] (b ∷ t) (c ∷ u) h g = refl
str_less_trans (a ∷ s) [] u h g = cc
str_less_trans (a ∷ s) (b ∷ t) [] h g = cc
str_less_trans (a ∷ s) (b ∷ t) (c ∷ u) h g = ground (arith, str_less_trans s t u)

pub insert_sorted_comm :
    (x y : Str) (l : List Str)
    → insert_sorted x (insert_sorted y l) ≡ insert_sorted y (insert_sorted x l)
unfolding insert_sorted
insert_sorted_comm x y [] =
    ground (arith, str_less-asym x y, str_less-asym y x, str_less-connected x y)
insert_sorted_comm x y (z ∷ l) = ground (
  arith,
  insert_sorted_comm x y l,
  str_less-asym x y,
  str_less-asym y x,
  str_less-connected x y,
  str_less_trans x y z,
  str_less_trans y x z,
)

length-insert_sorted : (x : Str) (l : List Str) → length (insert_sorted x l) ≡ length l + 1
unfolding insert_sorted
length-insert_sorted x [] = refl
length-insert_sorted x (y ∷ ys) = ground (arith, length-insert_sorted x ys)

pub length-sort : (l : List Str) → length (sort l) ≡ length l
unfolding sort
length-sort [] = refl
length-sort (x ∷ xs) = omega (arith, length-insert_sorted x (sort xs), length-sort xs)
