-- ===== src/Shamir/Polynomial.antt =====
-- The evaluation loop of `split`, and the range of its coefficients.
use abir_guard.Base.{
  ℕ, suc, ◌+◌, ◌-◌, ◌*◌, ◌%◌, ◌<◌, ◌≡◌, ap, ◌∙◌, arith, [], ◌∷◌, map, All, length, Bytes,
  length-map, length-tabulate,
}
use abir_guard.Shamir.{eval_loop, coefficients, get_random_bytes, u8, u16}
use abir_guard.Shamir.Field.{◌≈◌, ≈-mul_left}
use abir_guard.Shamir.Inverse.{mul_residues}
use abir_guard.Shamir.Interpolate.{eval, eval_nil, eval_cons}

abbrev pub Residues : Bytes → Type 0
Residues = All (λ c. c < 251)

pub eval_loop_lem :
    (cs : Bytes) (x y x_pow : ℕ)
    → Residues cs
    → x < 251
    → y < 251
    → x_pow < 251
    → (eval_loop cs x y x_pow < 251) × (eval_loop cs x y x_pow ≈ y + x_pow * eval cs x)
unfolding eval_loop
eval_loop_lem [] x y p h lx ly lp = (ly, rw (eval_nil x) (omega arith))
eval_loop_lem (c ∷ cs) x y p h lx ly lp =
    let term = u16 (c * p) % 251 in
    let y' = u16 (y + term) % 251 in
    let p' = u16 (p * x) % 251 in
    let (small, value) = eval_loop_lem cs x y' p' h.1 lx (omega arith) (omega arith) in
    (
      small,
      rw (eval_cons c cs x) (
          omega (
            arith,
            value,
            mul_residues c p h.0 lp,
            ≈-mul_left (eval cs x) p' (p * x) (omega (arith, mul_residues p x lp lx)),
          )),
    )

pub random_coefficients : (rs : Bytes) → Residues (map (λ b. u8 (b % (251 - 1) + 1)) rs)
random_coefficients [] = tt
random_coefficients (r ∷ rs) = (omega arith, random_coefficients rs)

-- The value that a share gets, for a byte of the secret.
pub eval-coefficients :
    (b : ℕ) (rs : Bytes) (x : ℕ)
    → b < 251
    → x < 251
    → u8 (eval_loop (coefficients b rs) x 0 1) ≡ eval (coefficients b rs) x % 251
unfolding coefficients
eval-coefficients b rs x lb lx =
    let (small, value) =
      eval_loop_lem (b ∷ map (λ r. u8 (r % 250 + 1)) rs) x 0 1 (lb, random_coefficients rs) lx
        (omega arith) (omega arith) in
    omega arith

pub length-coefficients :
    (b : ℕ) (fill : ℕ → ℕ → ℕ) (k n : ℕ)
    → length (coefficients b (get_random_bytes fill k n)) ≡ suc n
unfolding coefficients get_random_bytes
length-coefficients b fill k n = ap suc (length-map _ _ ∙ length-tabulate n 0 (fill k))

-- The polynomial of a byte has that byte at 0.
pub eval-coefficients_zero : (b : ℕ) (rs : Bytes) → eval (coefficients b rs) 0 ≡ b
unfolding coefficients
eval-coefficients_zero b rs = rw eval_cons (omega arith)
