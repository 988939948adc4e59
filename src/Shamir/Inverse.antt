-- ===== src/Shamir/Inverse.antt =====
-- `gf_inv`: the square-and-multiply loop is a power, so it inverts modulo 251.
use native.Mathlib.Nat.{pow-zero, pow-suc, mod-mod}
use abir_guard.Base.{
  ℕ, zero, suc, ◌+◌, ◌*◌, ◌/◌, ◌%◌, ◌^◌, ◌<◌, ◌≡◌, ap, ◌∙◌, sym, arith, inl, inr, Bool-cases, some,
  ltb, ◌==◌, if◌then◌else◌,
}
use abir_guard.Shamir.{gf_inv, gf_inv_loop, u16}
use abir_guard.Shamir.Field.{◌≈◌, ≈-mul, inverse, inverse_lem, mul-inverse}

-- A product of residues fits 16 bits.
pub mul_residues : (a b : ℕ) → a < 251 → b < 251 → u16 (a * b) % 251 ≡ a * b % 251
mul_residues a b h k = let fits : a * b < 65536 = grind arith in omega arith

bytes_fit : (a b : ℕ) → a < 256 → b < 256 → u16 (a * b) % 251 ≡ a * b % 251
bytes_fit a b h k = let fits : a * b < 65536 = grind arith in omega arith

mod-pow : (b q : ℕ) → (b % 251) ^ q ≈ b ^ q
mod-pow b zero = rw (pow-zero (b % 251), pow-zero b)
mod-pow b (suc q) =
    rw (pow-suc (b % 251) q, pow-suc b q)
      (≈-mul ((b % 251) ^ q) (b ^ q) (b % 251) b (mod-pow b q) (mod-mod b 251))

pow_square : (b q : ℕ) → (b * b) ^ q ≡ b ^ (q + q)
pow_square b zero = rw (pow-zero (b * b)) (sym (ap (λ (t : ℕ). b ^ t) (omega arith) ∙ pow-zero b))
pow_square b (suc q) =
    let e : suc q + suc q ≡ suc (suc (q + q)) = omega arith in
    rw (e, pow-suc (b * b) q, pow-suc b (suc (q + q)), pow-suc b (q + q), pow_square b q)
      (omega arith)

-- One round: the exponent is halved and the base is squared.
pow_half : (b e : ℕ) → b ^ e ≡ (if e % 2 == 1 then b else 1) * (b * b) ^ (e / 2)
pow_half b e = elim (Bool-cases (e % 2 == 1)) [
  | inl odd ↦
      let d : e ≡ suc (e / 2 + e / 2) = ground arith in
      rw (odd, pow_square b (e / 2)) (ap (λ t. b ^ t) d ∙ pow-suc b (e / 2 + e / 2) ∙ omega arith)
  | inr even ↦
      let d : e ≡ e / 2 + e / 2 = ground arith in
      rw (even, pow_square b (e / 2)) (ap (λ t. b ^ t) d ∙ omega arith)
]

module _ (r b e : ℕ) (lr : r < 251) (lb : b < 256) where
  next_result : ℕ
  next_result = if e % 2 == 1 then u16 (r * b) % 251 else r

  next_result_lem : next_result ≈ r * (if e % 2 == 1 then b else 1)
  unfolding next_result
  next_result_lem = ground (arith, bytes_fit r b)

  next_result-lt : next_result < 251
  unfolding next_result
  next_result-lt = ground arith

  round_lem : next_result * (u16 (b * b) % 251) ^ (e / 2) ≈ r * b ^ e
  round_lem =
      let c : ℕ = if e % 2 == 1 then b else 1 in
      let squares = (b * b) ^ (e / 2) in
      rw (bytes_fit b b lb lb, pow_half b e)
        (≈-mul next_result (r * c) (((b * b) % 251) ^ (e / 2)) squares next_result_lem
            (mod-pow (b * b) (e / 2))
          ∙ omega arith)

-- From a result below 251 and a base below 256 the loop ends, with the result times the power of
-- the base modulo 251: any fuel above the exponent is enough.
pub gf_inv_loop-pow :
    (fuel r b e : ℕ)
    → e < fuel
    → r < 251
    → b < 256
    → gf_inv_loop fuel r b e ≡ some (r * b ^ e % 251)
unfolding gf_inv_loop next_result
gf_inv_loop-pow zero r b e h lr lb = absurd (omega arith)
gf_inv_loop-pow (suc fuel) r b e h lr lb = elim (Bool-cases (ltb 0 e)) [
  | inl more ↦
      rw (more, gf_inv_loop)
        (gf_inv_loop-pow fuel (next_result r b e lr lb) (u16 (b * b) % 251) (e / 2) (ground arith)
            (next_result-lt r b e lr lb) (omega arith)
          ∙ ap some (round_lem r b e lr lb))
  | inr done ↦
      let e0 : e ≡ 0 = ground arith in
      rw (done, gf_inv_loop, e0, pow-zero b) (ap some (omega arith))
]

-- `gf_inv` returns for every byte that is not zero, with the power of Fermat's theorem.
pub gf_inv-pow : (a : ℕ) → 0 < a → a < 256 → gf_inv a ≡ some (a ^ 249 % 251)
unfolding gf_inv
gf_inv-pow a pos la =
    let run = gf_inv_loop-pow 250 1 a 249 (omega arith) (omega arith) la in ground (arith, run)

pub gf_inv-inverse : (a : ℕ) → 0 < a → a < 251 → gf_inv a ≡ some (inverse a)
gf_inv-inverse a pos la =
    rw inverse_lem (gf_inv-pow a pos (omega arith) ∙ ap (λ t. some (t ^ 249 % 251)) (omega arith))

-- For a residue a that is not 0, `gf_inv` returns a residue r with a * r congruent to 1 modulo 251.
pub gf_inv-unit :
    (a : ℕ) → 0 < a → a < 251 → (r : ℕ) × (gf_inv a ≡ some r) × (r < 251) × (a * r % 251 ≡ 1)
gf_inv-unit a pos la =
    (inverse a, gf_inv-inverse a pos la, rw inverse_lem (omega arith), mul-inverse a (omega arith))
