-- ===== src/Shamir.antt =====
-- src/shamir.rs: the (t, n) threshold scheme over GF(251).
-- `none` is a panic: a failed `assert!`, a zero to invert, a read out of range. Products and sums
-- of `u16` values wrap at 2 ^ 16 and casts to `u8` at 2 ^ 8, as in the release profile. The random
-- bytes are a parameter: `fill call pos` is byte `pos` of the buffer that call number `call` gets.
pub mod Field
pub mod Ratio
pub mod Interpolate
pub mod Inverse
pub mod Basis
pub mod Recover
pub mod Deal
pub mod Polynomial
pub mod Roundtrip
pub mod Numbered
pub mod Secret
pub mod Leak
pub mod Texts
mod Tests
use mathlib.Core.Option
use abir_guard.Base.{
  ℕ, zero, suc, ◌+◌, ◌-◌, ◌*◌, ◌/◌, ◌%◌, ◌^◌, Bool, true, false, not, Option, none, some, List, [],
  ◌∷◌, map, Bytes, ltb, ◌==◌, if◌then◌else◌, get_elem?, length, tabulate, all,
}
use abir_guard.Base.Maybe.{◌>>=◌}

abbrev pub u8 : ℕ → ℕ
u8 n = n % 2 ^ 8

abbrev pub u16 : ℕ → ℕ
u16 n = n % 2 ^ 16

abbrev pub prime : ℕ
prime = 251

pub get_random_bytes : (ℕ → ℕ → ℕ) → ℕ → ℕ → Bytes
get_random_bytes fill call n = tabulate n 0 (fill call)

pub record Share : Type 0 where
  pub index : ℕ
  pub data_bytes : Bytes

-- The `while` loop of `gf_inv`; `none` when the fuel runs out.
pub gf_inv_loop : ℕ → ℕ → ℕ → ℕ → Option ℕ
gf_inv_loop zero result base exp = none
gf_inv_loop (suc fuel) result base exp = elim (ltb 0 exp) [
  | true ↦
      gf_inv_loop fuel (if exp % 2 == 1 then u16 (result * base) % prime else result)
        (u16 (base * base) % prime) (exp / 2)
  | false ↦ some result
]

pub gf_inv : ℕ → Option ℕ
gf_inv a = if a == 0 then none else Option.map u8 (gf_inv_loop 250 1 a (prime - 2))

-- The loop over the coefficients that evaluates the polynomial at `x`.
pub eval_loop : Bytes → ℕ → ℕ → ℕ → ℕ
eval_loop [] x y x_pow = y
eval_loop (coeff ∷ coeffs) x y x_pow =
    eval_loop coeffs x (u16 (y + u16 (coeff * x_pow) % prime) % prime) (u16 (x_pow * x) % prime)

-- `coeffs[0]` is the secret byte, the others are random and never zero.
pub coefficients : ℕ → Bytes → Bytes
coefficients b1 rand_bytes = b1 ∷ map (λ b. u8 (b % (prime - 1) + 1)) rand_bytes

-- `share.data[byte_idx] = y`, which panics out of range.
pub write_at : Bytes → ℕ → ℕ → Option Bytes
write_at [] i y = none
write_at (x ∷ xs) zero y = some (y ∷ xs)
write_at (x ∷ xs) (suc i) y = do rest ← write_at xs i y; some (x ∷ rest)

-- The loop over the shares for one byte of the secret.
pub write_shares : Bytes → ℕ → List Share → Option (List Share)
write_shares coeffs byte_idx [] = some []
write_shares coeffs byte_idx (share ∷ shares) = do
  written ← write_at share.data_bytes byte_idx (u8 (eval_loop coeffs share.index 0 1))
  rest ← write_shares coeffs byte_idx shares
  some (record share { data_bytes = written } ∷ rest)

-- The loop over the bytes of the secret.
pub split_loop : (ℕ → ℕ → ℕ) → ℕ → ℕ → Bytes → List Share → Option (List Share)
split_loop fill threshold byte_idx [] shares = some shares
split_loop fill threshold byte_idx (secret_byte ∷ secret) shares = do
  let rand_bytes = get_random_bytes fill byte_idx (threshold - 1)
  shares' ← write_shares (coefficients secret_byte rand_bytes) byte_idx shares
  split_loop fill threshold (byte_idx + 1) secret shares'

pub empty_share : ℕ → ℕ → Share
empty_share len i = record { index = u8 (i + 1); data_bytes = tabulate len 0 (λ _. 0) }

pub split : (ℕ → ℕ → ℕ) → Bytes → ℕ → ℕ → Option (List Share)
split fill secret threshold num_shares =
    if ltb threshold 2
    then none
    else if ltb num_shares threshold
    then none
    else if ltb 250 num_shares
    then none
    else if not (all (λ b. ltb b prime) secret)
    then none
    else split_loop fill threshold 0 secret (tabulate num_shares 0 (empty_share (length secret)))

-- The inner loop of `reconstruct`, at position `j`: numerator and denominator.
pub basis_loop : ℕ → ℕ → ℕ → List Share → ℕ → ℕ → ℕ × ℕ
basis_loop i xi j [] numerator denominator = (numerator, denominator)
basis_loop i xi j (share_j ∷ shares) numerator denominator =
    let xj = share_j.index in
    basis_loop i xi (j + 1) shares
      (if i == j then numerator else u16 (numerator * (u16 (prime + 2 ^ 16 - xj) % prime)) % prime)
      (if i == j
        then denominator
        else u16 (denominator * (u16 (xi + prime + 2 ^ 16 - xj) % prime)) % prime)

-- The loop over the shares for one byte, at position `i`; `all` are the shares.
pub byte_loop : List Share → ℕ → ℕ → List Share → ℕ → Option ℕ
byte_loop all_shares byte_idx i [] result = some result
byte_loop all_shares byte_idx i (share_i ∷ shares) result = do
  let xi = share_i.index
  yi ← get_elem? share_i.data_bytes byte_idx
  let basis = basis_loop i xi 0 all_shares 1 1
  inverse ← gf_inv (u8 (basis.1))
  let lagrange_coef = u16 (basis.0 * inverse) % prime
  let term = u16 (lagrange_coef * yi) % prime
  byte_loop all_shares byte_idx (i + 1) shares (u16 (result + term) % prime)

-- The loop over the bytes, with `left` rounds to go.
pub reconstruct_loop : List Share → ℕ → ℕ → Option Bytes
reconstruct_loop shares byte_idx zero = some []
reconstruct_loop shares byte_idx (suc left) = do
  result ← byte_loop shares byte_idx 0 shares 0
  rest ← reconstruct_loop shares (byte_idx + 1) left
  some (u8 result ∷ rest)

pub reconstruct : List Share → Option Bytes
reconstruct [] = none
reconstruct (first ∷ shares) = reconstruct_loop (first ∷ shares) 0 (length first.data_bytes)
