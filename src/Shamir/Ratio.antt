-- ===== src/Shamir/Ratio.antt =====
-- The factor (0 - y) / (x - y) of a Lagrange basis polynomial, and the identities that it meets
-- modulo 251.
use abir_guard.Base.{ℕ, ◌+◌, ◌-◌, ◌*◌, ◌<◌, ◌≡◌, ◌≢◌, ap, arith}
use abir_guard.Shamir.Field.{◌≈◌, ≈-mul_left, ≈-cancel, inverse, mul-inverse}

-- x - y, and its inverse.
abbrev pub gap : ℕ → ℕ → ℕ
gap x y = x + 251 - y

abbrev pub gap_inverse : ℕ → ℕ → ℕ
gap_inverse x y = inverse (gap x y)

pub gap-unit : (x y : ℕ) → x < 251 → y < 251 → x ≢ y → gap x y * gap_inverse x y ≈ 1
gap-unit x y p q ne = mul-inverse (gap x y) (omega arith)

pub ratio : ℕ → ℕ → ℕ
ratio x y = (251 - y) * gap_inverse x y

pub ratio-gap : (x y : ℕ) → x < 251 → y < 251 → x ≢ y → ratio x y * gap x y ≈ 251 - y
unfolding ratio
ratio-gap x y p q ne =
    omega (arith, ≈-mul_left (251 - y) (gap x y * gap_inverse x y) 1 (gap-unit x y p q ne))

-- w (x - y) = -y, with no subtraction.
pub ratio_law : (x y : ℕ) → x < 251 → y < 251 → x ≢ y → ratio x y * x + y ≈ ratio x y * y
ratio_law x y p q ne =
    let w = ratio x y in
    let e : gap x y + y ≡ x + 251 = omega arith in
    omega (arith, ratio-gap x y p q ne, ap (λ (t : ℕ). w * t) e)

-- Two numbers with the same product by x - y are congruent.
gap-cancel : (u v x y : ℕ) → x < 251 → y < 251 → x ≢ y → u * x + v * y ≈ v * x + u * y → u ≈ v
gap-cancel u v x y p q ne h =
    let e : gap x y + y ≡ x + 251 = omega arith in
    ≈-cancel u v (gap x y) (gap_inverse x y) (gap-unit x y p q ne)
      (omega (arith, ap (λ (t : ℕ). u * t) e, ap (λ (t : ℕ). v * t) e))

module _ (a b : ℕ) (la : a < 251) (lb : b < 251) (ab : a ≢ b) where
  pub ratio_sum : ratio a b + ratio b a ≈ 1
  ratio_sum =
      gap-cancel (ratio a b + ratio b a) 1 a b la lb ab
        (omega (arith, ratio_law a b la lb ab, ratio_law b a lb la (λ e. ab (omega arith))))

  ratio_balance : ratio a b * a + ratio b a * b ≈ 0
  ratio_balance =
      omega (arith, ratio_law a b la lb ab, ≈-mul_left b (ratio a b + ratio b a) 1 ratio_sum)

  -- Two factors at one point split into the two single factors.
  pub ratio_split :
      (x : ℕ)
      → x < 251
      → x ≢ a
      → x ≢ b
      → ratio x a * ratio x b ≈ ratio a b * ratio x a + ratio b a * ratio x b
  ratio_split x lx xa xb =
      let p = ratio x a in
      let q = ratio x b in
      let s = ratio a b in
      let t = ratio b a in
      let u = p * q in
      let v = s * p + t * q in
      let law_a = ratio_law x a lx la xa in
      let law_b = ratio_law x b lx lb xb in
      gap-cancel u v x a lx la xa (
        gap-cancel (u * x + v * a) (v * x + u * a) x b lx lb xb (
          omega (
            arith,
            ≈-mul_left (q * x) (p * x + a) (p * a) law_a,
            ≈-mul_left (q * b) (p * x + a) (p * a) law_a,
            ≈-mul_left a (q * x + b) (q * b) law_b,
            ≈-mul_left (s * x) (p * x + a) (p * a) law_a,
            ≈-mul_left (s * b) (p * x + a) (p * a) law_a,
            ≈-mul_left (t * x) (q * x + b) (q * b) law_b,
            ≈-mul_left (t * a) (q * x + b) (q * b) law_b,
            ≈-mul_left (a * b) (s + t) 1 ratio_sum,
            ≈-mul_left x (s * a + t * b) 0 ratio_balance,
          )))
