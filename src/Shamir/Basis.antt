-- ===== src/Shamir/Basis.antt =====
-- The inner loop of `reconstruct`: it skips the share at its own position, and computes the
-- numerator and the denominator of the weight of a point.
use mathlib.Core.List.{append_assoc}
use native.Mathlib.Nat.{mul_assoc}
use abir_guard.Base.{
  ℕ, ◌+◌, ◌-◌, ◌*◌, ◌%◌, ◌^◌, ◌<◌, ◌≡◌, refl, ap, ◌∙◌, ◌≢◌, arith, Bool, List, [], ◌∷◌, ◌++◌, All,
  length, length-append, inl, inr, true, false, Bool-cases, ◌==◌, if◌then◌else◌,
}
use abir_guard.Shamir.{Share, basis_loop, u16}
use abir_guard.Shamir.Field.{◌≈◌, ≈-mul, mul_mod}
use abir_guard.Shamir.Inverse.{mul_residues}
use abir_guard.Shamir.Ratio.{gap, gap_inverse, gap-unit, ratio, ratio-gap}
use abir_guard.Shamir.Interpolate.{Avoids, Distinct, weight, weight_cons, weight_nil}

abbrev pub indices : List Share → List ℕ
indices [] = []
indices (s ∷ ss) = s.index ∷ indices ss

-- In the list from position `j` on, position `i` is the one that holds the point `x`.
abbrev pub SkipsAt : ℕ → ℕ → ℕ → List Share → Type 0
SkipsAt i x j [] = Unit
SkipsAt i x j (s ∷ ss) = ((i == j) ≡ (s.index == x)) × SkipsAt i x (j + 1) ss

skips_after : (i x j : ℕ) (ss : List Share) → i < j → Avoids x (indices ss) → SkipsAt i x j ss
skips_after i x j [] h a = tt
skips_after i x j (s ∷ ss) h a =
    (ground (arith, a.0.1), skips_after i x (j + 1) ss (omega arith) a.1)

skips_at :
    (i j : ℕ) (before : List Share) (s : Share) (after : List Share)
    → i ≡ j + length before
    → Distinct (indices (before ++ s ∷ after))
    → SkipsAt i s.index j (before ++ s ∷ after)
skips_at i j [] s after e d = (ground arith, skips_after i s.index (j + 1) after (omega arith) d.1)
skips_at i j (b ∷ before) s after e d = (
  ground (arith, avoids_middle b.index before s after d.1),
  skips_at i (j + 1) before s after (omega arith) d.2,
)
  where
    avoids_middle :
        (x : ℕ) (before : List Share) (s : Share) (after : List Share)
        → Avoids x (indices (before ++ s ∷ after))
        → s.index ≢ x
    avoids_middle x [] s after a = a.0.1
    avoids_middle x (b ∷ before) s after a = avoids_middle x before s after a.1

-- Each position of a list with distinct points skips exactly its own point.
abbrev pub Positions : List Share → ℕ → List Share → Type 0
Positions all_shares i [] = Unit
Positions all_shares i (s ∷ ss) = SkipsAt i s.index 0 all_shares × Positions all_shares (i + 1) ss

Positions-from :
    (before after all_shares : List Share) (i : ℕ)
    → before ++ after ≡ all_shares
    → i ≡ length before
    → Distinct (indices all_shares)
    → Positions all_shares i after
Positions-from before [] all_shares i e p d = tt
Positions-from before (s ∷ after) all_shares i e p d = (
  rw (← e) (skips_at i 0 before s after (omega arith) (rw e d)),
  Positions-from (before ++ s ∷ []) after all_shares (i + 1)
      (append_assoc before (s ∷ []) after ∙ e) (omega (arith, length-append before (s ∷ []))) d,
)

pub Positions-Distinct : (ss : List Share) → Distinct (indices ss) → Positions ss 0 ss
Positions-Distinct ss d = Positions-from [] ss ss 0 refl refl d

-- The products that the loop computes, over the points that differ from `x`.
pub numerators : ℕ → List ℕ → ℕ
numerators x [] = 1
numerators x (y ∷ ys) = (if y == x then 1 else 251 - y) * numerators x ys

pub denominators : ℕ → List ℕ → ℕ
denominators x [] = 1
denominators x (y ∷ ys) = (if y == x then 1 else gap x y) * denominators x ys

pub cofactors : ℕ → List ℕ → ℕ
cofactors x [] = 1
cofactors x (y ∷ ys) = (if y == x then 1 else gap_inverse x y) * cofactors x ys

module _ (x y : ℕ) (lx : x < 251) (ly : y < 251) where
  unit_factor : (if y == x then 1 else gap x y) * (if y == x then 1 else gap_inverse x y) ≈ 1
  unit_factor = elim (Bool-cases (y == x)) [
    | inl same ↦ rw same
    | inr other ↦ rw other (gap-unit x y lx ly (ground arith))
  ]

  ratio_factor :
      (if y == x then 1 else ratio x y) * (if y == x then 1 else gap x y)
      ≈ (if y == x then 1 else 251 - y)
  ratio_factor = elim (Bool-cases (y == x)) [
    | inl same ↦ rw same
    | inr other ↦ rw other (ratio-gap x y lx ly (ground arith))
  ]

pub denominators-cofactors :
    (x : ℕ) (ys : List ℕ) → x < 251 → All (λ y. y < 251) ys → denominators x ys * cofactors x ys ≈ 1
unfolding denominators cofactors
denominators-cofactors x [] lx h = refl
denominators-cofactors x (y ∷ ys) lx h = omega (
  arith,
  ≈-mul ((if y == x then 1 else gap x y) * (if y == x then 1 else gap_inverse x y)) 1
      (denominators x ys * cofactors x ys) 1 (unit_factor x y lx h.0)
      (denominators-cofactors x ys lx h.1),
)

pub weight-denominators :
    (x : ℕ) (ys : List ℕ)
    → x < 251
    → All (λ y. y < 251) ys
    → weight x ys * denominators x ys ≈ numerators x ys
unfolding denominators numerators
weight-denominators x [] lx h = rw (weight_nil x)
weight-denominators x (y ∷ ys) lx h =
    let g : ℕ = if y == x then 1 else gap x y in
    rw (weight_cons x y ys) (
      omega (
        arith,
        ≈-mul ((if y == x then 1 else ratio x y) * g) (if y == x then 1 else 251 - y)
            (weight x ys * denominators x ys) (numerators x ys) (ratio_factor x y lx h.0)
            (weight-denominators x ys lx h.1),
      ))

pub record Computes (x n d : ℕ) (points : List ℕ) (r : ℕ × ℕ) : Type 0 where
  pub numerator : r.0 ≈ n * numerators x points
  pub denominator : r.1 ≈ d * denominators x points
  pub small_numerator : r.0 < 251
  pub small_denominator : r.1 < 251

-- One round keeps the product, or multiplies it by the next factor.
round_lem :
    (b c : Bool) (n t v : ℕ)
    → b ≡ c
    → n < 251
    → t ≡ v % 251
    → ((if b then n else u16 (n * t) % 251) ≈ n * (if c then 1 else v))
      × ((if b then n else u16 (n * t) % 251) < 251)
round_lem true true n t v bc ln e = (omega arith, ln)
round_lem false false n t v bc ln e = (
  omega (arith, mul_residues n t ln (omega arith), ap (λ (s : ℕ). n * s % 251) e, mul_mod n v),
  omega arith,
)
round_lem true false n t v bc ln e = cc
round_lem false true n t v bc ln e = cc

pub basis_loop-Computes :
    (i x j : ℕ) (ss : List Share) (n d : ℕ)
    → x < 251
    → n < 251
    → d < 251
    → All (λ y. y < 251) (indices ss)
    → SkipsAt i x j ss
    → Computes x n d (indices ss) (basis_loop i x j ss n d)
unfolding basis_loop numerators denominators
basis_loop-Computes i x j [] n d lx ln ld h k = omega arith
basis_loop-Computes i x j (s ∷ ss) n d lx ln ld h k =
    let y = s.index in
    let fn : ℕ = if y == x then 1 else 251 - y in
    let fd : ℕ = if y == x then 1 else gap x y in
    let ns = numerators x (indices ss) in
    let ds = denominators x (indices ss) in
    let rn =
      round_lem (i == j) (y == x) n (u16 (251 + 2 ^ 16 - y) % 251) (251 - y) k.0 ln (omega arith) in
    let rd =
      round_lem (i == j) (y == x) d (u16 (x + 251 + 2 ^ 16 - y) % 251) (gap x y) k.0 ld
        (omega arith) in
    let rest = basis_loop-Computes i x (j + 1) ss _ _ lx rn.1 rd.1 h.1 k.1 in
    record {
      numerator =
          rest.numerator
          ∙ ≈-mul _ (n * fn) ns ns rn.0 refl
          ∙ ap (λ (t : ℕ). t % 251) (mul_assoc n fn ns);
      denominator =
          rest.denominator
          ∙ ≈-mul _ (d * fd) ds ds rd.0 refl
          ∙ ap (λ (t : ℕ). t % 251) (mul_assoc d fd ds);
      small_numerator = rest.small_numerator;
      small_denominator = rest.small_denominator;
    }
