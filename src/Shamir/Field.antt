-- ===== src/Shamir/Field.antt =====
-- Arithmetic modulo 251: congruence, and inverses by Fermat's little theorem.
use native.Mathlib.Nat.{div-add-mod, mod-lt, mod-mod}
use abir_guard.Base.{
  ℕ, zero, suc, ◌*◌, ◌%◌, ◌^◌, ◌<◌, ◌≡◌, refl, ap, ◌∙◌, sym, Bool, true, false, arith, ◌==◌,
  if◌then◌else◌,
}

infix 4 ◌≈◌
abbrev pub ◌≈◌ : ℕ → ℕ → Type 0
a ≈ b = a % 251 ≡ b % 251

pub mul_mod : (c a : ℕ) → c * (a % 251) ≈ c * a
mul_mod c a = omega (arith, ap (λ (t : ℕ). c * t) (div-add-mod a 251))

pub ≈-mul_left : (c a b : ℕ) → a ≈ b → c * a ≈ c * b
≈-mul_left c a b h = sym (mul_mod c a) ∙ ap (λ (t : ℕ). (c * t) % 251) h ∙ mul_mod c b

pub ≈-mul : (a b c d : ℕ) → a ≈ b → c ≈ d → a * c ≈ b * d
≈-mul a b c d p q = omega (arith, ≈-mul_left c a b p, ≈-mul_left b c d q)

-- Over a range, a check of every value.
passes : (ℕ → Bool) → ℕ → Bool
passes test zero = true
passes test (suc limit) = if test limit then passes test limit else false

passes-lt : (test : ℕ → Bool) (limit a : ℕ) → passes test limit ≡ true → a < limit → test a ≡ true
unfolding passes
passes-lt test zero a run few = absurd (omega arith)
passes-lt test (suc limit) a run few = ground (arith, passes-lt test limit a)

-- The inverse of a residue that is not zero.
pub inverse : ℕ → ℕ
inverse a = (a % 251) ^ 249 % 251

pub inverse_lem : (a : ℕ) → inverse a ≡ (a % 251) ^ 249 % 251
unfolding inverse
inverse_lem a = refl

fermat_table : passes (λ a. if a == 0 then true else a * (a ^ 249 % 251) % 251 == 1) 251 ≡ true
unfolding passes
fermat_table = refl

pub mul-inverse : (a : ℕ) → 0 < a % 251 → a * inverse a ≈ 1
unfolding inverse
mul-inverse a h =
    let r = a % 251 in
    let checked = passes-lt _ 251 r fermat_table (mod-lt a (omega arith)) in
    omega (arith, ≈-mul_left ((a % 251) ^ 249 % 251) r a (mod-mod a 251), unit r h checked)
  where
    unit :
        (r : ℕ)
        → 0 < r
        → (if r == 0 then true else r * (r ^ 249 % 251) % 251 == 1) ≡ true
        → r * (r ^ 249 % 251) % 251 ≡ 1
    unit r p e = ground arith

-- A unit cancels.
pub ≈-cancel : (u v d e : ℕ) → d * e ≈ 1 → u * d ≈ v * d → u ≈ v
≈-cancel u v d e unit h = omega (
  arith,
  ≈-mul_left e (u * d) (v * d) h,
  ≈-mul_left u (d * e) 1 unit,
  ≈-mul_left v (d * e) 1 unit,
)
