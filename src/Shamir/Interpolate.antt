-- ===== src/Shamir/Interpolate.antt =====
-- Lagrange interpolation at 0 modulo 251, over any list of distinct points, as a weighted sum.
use abir_guard.Base.{
  ℕ, ◌+◌, ◌*◌, ◌≤◌, ◌<◌, ◌≡◌, refl, ◌≢◌, arith, List, [], ◌∷◌, Bytes, All, length, ◌==◌,
  if◌then◌else◌,
}
use abir_guard.Shamir.Field.{◌≈◌, ≈-mul_left}
use abir_guard.Shamir.Ratio.{ratio, ratio_law, ratio_sum, ratio_split}

-- Points below 251 that differ from `x`, and lists of pairwise distinct points.
abbrev pub Avoids : ℕ → List ℕ → Type 0
Avoids x = All (λ y. (y < 251) × (y ≢ x))

abbrev pub Distinct : List ℕ → Type 0
Distinct [] = Unit
Distinct (x ∷ xs) = (x < 251) × Avoids x xs × Distinct xs

-- The product of the ratios at `x` over the other points.
pub weight : ℕ → List ℕ → ℕ
weight x [] = 1
weight x (y ∷ ys) = (if y == x then 1 else ratio x y) * weight x ys

-- The sum of f x weight over the first list, each weight over the second.
pub weighted : (ℕ → ℕ) → List ℕ → List ℕ → ℕ
weighted f [] points = 0
weighted f (x ∷ xs) points = f x * weight x points + weighted f xs points

-- The polynomial with the given coefficients, lowest first.
pub eval : Bytes → ℕ → ℕ
eval [] x = 0
eval (c ∷ cs) x = c + x * eval cs x

pub eval_nil : (x : ℕ) → eval [] x ≡ 0
unfolding eval
eval_nil x = refl

pub eval_cons : (c : ℕ) (cs : Bytes) (x : ℕ) → eval (c ∷ cs) x ≡ c + x * eval cs x
unfolding eval
eval_cons c cs x = refl

pub weight_cons :
    (x y : ℕ) (ys : List ℕ) → weight x (y ∷ ys) ≡ (if y == x then 1 else ratio x y) * weight x ys
unfolding weight
weight_cons x y ys = refl

pub weight_nil : (x : ℕ) → weight x [] ≡ 1
unfolding weight
weight_nil x = refl

pub weighted_nil : (f : ℕ → ℕ) (points : List ℕ) → weighted f [] points ≡ 0
unfolding weighted
weighted_nil f points = refl

pub weighted_cons :
    (f : ℕ → ℕ) (x : ℕ) (xs points : List ℕ)
    → weighted f (x ∷ xs) points ≡ f x * weight x points + weighted f xs points
unfolding weighted
weighted_cons f x xs points = refl

weight_self : (x : ℕ) (points : List ℕ) → weight x (x ∷ points) ≡ weight x points
unfolding weight
weight_self x points = ground arith

weight_other :
    (x a : ℕ) (points : List ℕ) → x ≢ a → weight x (a ∷ points) ≡ ratio x a * weight x points
unfolding weight
weight_other x a points ne = ground arith

-- Sums over `xs` in which the weight gets one more factor, or two.
one_more : (ℕ → ℕ) → ℕ → List ℕ → List ℕ → ℕ
one_more f a [] points = 0
one_more f a (x ∷ xs) points = f x * (ratio x a * weight x points) + one_more f a xs points

weighted-one_more :
    (f : ℕ → ℕ) (a : ℕ) (xs points : List ℕ)
    → Avoids a xs
    → weighted f xs (a ∷ points) ≡ one_more f a xs points
unfolding weighted one_more
weighted-one_more f a [] points h = refl
weighted-one_more f a (x ∷ xs) points h =
    let rest = weighted-one_more f a xs points h.1 in rw (weight_other x a points h.0.1, rest)

two_more : ℕ → ℕ → List ℕ → List ℕ → ℕ
two_more a b [] points = 0
two_more a b (x ∷ xs) points = ratio x a * (ratio x b * weight x points) + two_more a b xs points

weighted-two_more :
    (a b : ℕ) (xs points : List ℕ)
    → Avoids a xs
    → Avoids b xs
    → weighted (λ _. 1) xs (a ∷ b ∷ points) ≡ two_more a b xs points
unfolding weighted two_more
weighted-two_more a b [] points h k = refl
weighted-two_more a b (x ∷ xs) points h k =
    let rest = weighted-two_more a b xs points h.1 k.1 in
    rw (weight_other x a (b ∷ points) h.0.1, weight_other x b points k.0.1, rest) (omega arith)

two_more_split :
    (a b : ℕ)
    → a < 251
    → b < 251
    → a ≢ b
    → (xs points : List ℕ) → Avoids a xs
    → Avoids b xs
    → two_more a b xs points
      ≈ ratio a b * one_more (λ _. 1) a xs points + ratio b a * one_more (λ _. 1) b xs points
unfolding two_more one_more
two_more_split a b la lb ab [] points h k = omega arith
two_more_split a b la lb ab (x ∷ xs) points h k =
    let w = weight x points in
    omega (
      arith,
      two_more_split a b la lb ab xs points h.1 k.1,
      ≈-mul_left w (ratio x a * ratio x b) (ratio a b * ratio x a + ratio b a * ratio x b)
          (ratio_split a b la lb ab x h.0.0 h.0.1 k.0.1),
    )

weighted-cons :
    (f : ℕ → ℕ) (a : ℕ) (xs : List ℕ)
    → Avoids a xs
    → weighted f (a ∷ xs) (a ∷ xs) ≡ f a * weight a xs + one_more f a xs xs
unfolding weighted
weighted-cons f a xs h = rw (weight_self a xs, weighted-one_more f a xs xs h)

weights_expand :
    (a b : ℕ) (xs : List ℕ)
    → Avoids a (b ∷ xs)
    → Distinct (b ∷ xs)
    → weighted (λ _. 1) (a ∷ b ∷ xs) (a ∷ b ∷ xs)
      ≡ ratio a b * weight a xs + (ratio b a * weight b xs + two_more a b xs xs)
unfolding weighted
weights_expand a b xs h d =
    let ab : a ≢ b = omega arith in
    rw
      (
        weight_self a (b ∷ xs),
        weight_other a b xs ab,
        weight_other b a (b ∷ xs) h.0.1,
        weight_self b xs,
        weighted-two_more a b xs xs h.1 d.1,
      )
      (omega arith)

-- The weights at 0 sum to one.
pub weights_sum :
    (a : ℕ) (xs : List ℕ)
    → a < 251
    → Avoids a xs
    → Distinct xs
    → weighted (λ _. 1) (a ∷ xs) (a ∷ xs) ≈ 1
unfolding weighted weight
weights_sum a [] la h d = ground arith
weights_sum a (b ∷ xs) la h d =
    let lb = d.0 in
    let ab : a ≢ b = omega arith in
    let sum_a = weights_sum a xs la h.1 d.2 in
    let sum_b = weights_sum b xs lb d.1 d.2 in
    let wa = weight a xs in
    let wb = weight b xs in
    let oa = one_more (λ _. 1) a xs xs in
    let ob = one_more (λ _. 1) b xs xs in
    omega (
      arith,
      weights_expand a b xs h d,
      ratio_sum a b la lb ab,
      two_more_split a b la lb ab xs xs h.1 d.1,
      ≈-mul_left (ratio a b) (1 * wa + oa) 1 (rw (weighted-cons (λ _. 1) a xs h.1) at sum_a),
      ≈-mul_left (ratio b a) (1 * wb + ob) 1 (rw (weighted-cons (λ _. 1) b xs d.1) at sum_b),
    )

weighted-eval_nil : (xs points : List ℕ) → weighted (eval []) xs points ≡ 0
unfolding weighted eval
weighted-eval_nil [] points = refl
weighted-eval_nil (x ∷ xs) points = omega (arith, weighted-eval_nil xs points)

one_more-eval_cons :
    (c : ℕ) (cs : Bytes) (a : ℕ) (xs points : List ℕ)
    → one_more (eval (c ∷ cs)) a xs points
      ≡ c * one_more (λ _. 1) a xs points + one_more (λ x. x * eval cs x) a xs points
unfolding one_more eval
one_more-eval_cons c cs a [] points = omega arith
one_more-eval_cons c cs a (x ∷ xs) points = omega (arith, one_more-eval_cons c cs a xs points)

-- A factor x under the sum turns into a, up to the sum without the extra ratio.
one_more_shift :
    (g : ℕ → ℕ) (a : ℕ) (xs points : List ℕ)
    → a < 251
    → Avoids a xs
    → one_more (λ x. x * g x) a xs points + a * weighted g xs points ≈ a * one_more g a xs points
unfolding one_more weighted
one_more_shift g a [] points la h = omega arith
one_more_shift g a (x ∷ xs) points la h = omega (
  arith,
  one_more_shift g a xs points la h.1,
  ≈-mul_left (g x * weight x points) (ratio x a * x + a) (ratio x a * a)
      (ratio_law x a h.0.0 la h.0.1),
)

-- At as many distinct points as it has coefficients, or more, the values of a polynomial give
-- back its value at 0.
pub interpolate :
    (cs : Bytes) (points : List ℕ)
    → Distinct points
    → length cs ≤ length points
    → weighted (eval cs) points points ≈ eval cs 0
unfolding weighted eval
interpolate [] points d h = rw (weighted-eval_nil points points)
interpolate (c ∷ cs) [] d h = absurd (omega arith)
interpolate (c ∷ cs) (a ∷ xs) d h =
    let g = eval cs in
    let whole = interpolate cs (a ∷ xs) d (omega arith) in
    let part = interpolate cs xs d.2 (omega arith) in
    let ones = weights_sum a xs d.0 d.1 d.2 in
    let wa = weight a xs in
    let o1 = one_more (λ _. 1) a xs xs in
    omega (
      arith,
      weighted-cons (eval (c ∷ cs)) a xs d.1,
      one_more-eval_cons c cs a xs xs,
      one_more_shift g a xs xs d.0 d.1,
      ≈-mul_left c (1 * wa + o1) 1 (rw (weighted-cons (λ _. 1) a xs d.1) at ones),
      ≈-mul_left a (g a * wa + one_more g a xs xs) (g 0) (rw (weighted-cons g a xs d.1) at whole),
      ≈-mul_left a (weighted g xs xs) (g 0) part,
    )
