-- ===== src/Shamir/Recover.antt =====
-- `reconstruct` interpolates at 0: on shares at distinct points it never panics, and each byte of
-- its result is the weighted sum of the shares' bytes.
use native.Mathlib.Nat.{mod-mod}
use abir_guard.Base.{
  ℕ, zero, suc, ◌+◌, ◌*◌, ◌%◌, ◌<◌, ◌≡◌, refl, ap, ◌∙◌, arith, List, [], ◌∷◌, All, get_elem?,
  Option, some,
}
use abir_guard.Shamir.{Share, basis_loop, byte_loop, gf_inv, u8, u16}
use abir_guard.Shamir.Field.{◌≈◌, ≈-mul_left, ≈-mul, ≈-cancel, inverse, inverse_lem, mul-inverse}
use abir_guard.Shamir.Inverse.{mul_residues, gf_inv-inverse}
use abir_guard.Shamir.Interpolate.{Distinct, weight, weighted, weighted_nil, weighted_cons}
use abir_guard.Shamir.Basis.{
  indices, Positions, denominators, cofactors, denominators-cofactors, weight-denominators,
  Computes, basis_loop-Computes, Positions-Distinct,
}

-- The shares hold the values of `f`, modulo 251, in their byte `k`.
abbrev pub Carries : (ℕ → ℕ) → ℕ → List Share → Type 0
Carries f k = All (λ s. get_elem? s.data_bytes k ≡ some (f s.index % 251))

unit_pos : (b e : ℕ) → e * b ≈ 1 → 0 < b
unit_pos zero e h = absurd (omega arith)
unit_pos (suc b) e h = omega arith

inverse-lt : (a : ℕ) → inverse a < 251
inverse-lt a = rw (inverse_lem a) (omega arith)

-- What the code computes for one share is the weight of its point.
coefficient :
    (x : ℕ) (points : List ℕ) (r : ℕ × ℕ)
    → x < 251
    → All (λ y. y < 251) points
    → Computes x 1 1 points r
    → (gf_inv (u8 (r.1)) ≡ some (inverse (r.1)))
      × (u16 (r.0 * inverse (r.1)) % 251 ≈ weight x points)
coefficient x points (n, b) lx lp c =
    let d = denominators x points in
    let e = cofactors x points in
    let w = weight x points in
    let inv = inverse b in
    let unit = denominators-cofactors x points lx lp in
    let pos : 0 < b = unit_pos b e (omega (arith, ≈-mul_left e b (1 * d) c.denominator)) in
    let lb : b < 251 = c.small_denominator in
    let small : u8 b ≡ b = omega arith in
    let coef = u16 (n * inv) % 251 in
    let whole = mul_residues n inv c.small_numerator (inverse-lt b) in
    (
      ap gf_inv small ∙ gf_inv-inverse b pos lb,
      ≈-cancel coef w d e unit (
          omega (
            arith,
            ≈-mul coef (n * inv) d b (omega (arith, whole)) (omega (arith, c.denominator)),
            ≈-mul_left n (b * inv) 1 (mul-inverse b (omega arith)),
            c.numerator,
            weight-denominators x points lx lp,
          )),
    )

-- A byte of the result, with the shares before position `i` already summed up.
pub record Sums (f : ℕ → ℕ) (xs points : List ℕ) (result : ℕ) (o : Option ℕ) : Type 0 where
  pub value : ℕ
  pub returns : o ≡ some value
  pub small : value < 251
  pub sum : value ≈ result + weighted f xs points

byte_loop-Sums :
    (f : ℕ → ℕ) (all_shares : List Share) (k i : ℕ) (ss : List Share) (result : ℕ)
    → All (λ y. y < 251) (indices all_shares)
    → All (λ y. y < 251) (indices ss)
    → Positions all_shares i ss
    → Carries f k ss
    → result < 251
    → Sums f (indices ss) (indices all_shares) result (byte_loop all_shares k i ss result)
unfolding byte_loop
byte_loop-Sums f all_shares k i [] result la ls p c lr = record {
  value = result;
  returns = refl;
  small = lr;
  sum = rw (weighted_nil f (indices all_shares)) (omega arith);
}
byte_loop-Sums f all_shares k i (s ∷ ss) result la ls p c lr =
    let x = s.index in
    let points = indices all_shares in
    let computed =
      basis_loop-Computes i x 0 all_shares 1 1 ls.0 (omega arith) (omega arith) la p.0 in
    let basis = basis_loop i x 0 all_shares 1 1 in
    let found = coefficient x points basis ls.0 la computed in
    let coef = u16 (basis.0 * inverse (basis.1)) % 251 in
    let y = f x % 251 in
    let term = u16 (coef * y) % 251 in
    let next = u16 (result + term) % 251 in
    let rest = byte_loop-Sums f all_shares k (i + 1) ss next la ls.1 p.1 c.1 (omega arith) in
    record {
      value = rest.value;
      returns = rw (c.0, found.0) rest.returns;
      small = rest.small;
      sum = rw (weighted_cons f x (indices ss) points) (
          omega (
            arith,
            rest.sum,
            mul_residues coef y (omega arith) (omega arith),
            ≈-mul coef (weight x points) y (f x) found.1 (mod-mod (f x) 251),
          ));
    }

Distinct-small : (xs : List ℕ) → Distinct xs → All (λ y. y < 251) xs
Distinct-small [] d = tt
Distinct-small (x ∷ xs) d = (d.0, Distinct-small xs d.2)

pub byte-Sums :
    (f : ℕ → ℕ) (k : ℕ) (ss : List Share)
    → Distinct (indices ss)
    → Carries f k ss
    → Sums f (indices ss) (indices ss) 0 (byte_loop ss k 0 ss 0)
byte-Sums f k ss d c =
    let small = Distinct-small (indices ss) d in
    byte_loop-Sums f ss k 0 ss 0 small small (Positions-Distinct ss d) c (omega arith)
