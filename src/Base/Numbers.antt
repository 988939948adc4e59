-- ===== src/Base/Numbers.antt =====
-- The machine integers that several parts share.
use abir_guard.Base.Tests.{if◌then◌else◌, ltb}
use Prim.Native.Nat.{ℕ, zero, suc, ◌+◌, ◌-◌, ◌*◌, ◌/◌, ◌%◌, ◌^◌, ◌<◌}
use mathlib.Core.Path.{◌≡◌}
use native.Mathlib.Nat.{pow-zero, pow-suc}
use native.Mathlib.Omega.{arith}

-- The bound of `u64`, and of `usize` on a 64-bit target.
abbrev pub u64 : ℕ
u64 = 18446744073709551616

-- `a.saturating_add(b)` on `u64`.
unfoldable pub saturating_add : ℕ → ℕ → ℕ
saturating_add a b = if ltb (a + b) u64 then a + b else u64 - 1

-- `a ^ b` on words of `bits` bits.
unfoldable pub xor : ℕ → ℕ → ℕ → ℕ
xor zero a b = 0
xor (suc bits) a b = (a + b) % 2 + 2 * xor bits (a / 2) (b / 2)

pub xor-lt : (bits a b : ℕ) → xor bits a b < 2 ^ bits
unfolding xor
xor-lt zero a b = omega (arith, pow-zero 2)
xor-lt (suc bits) a b = omega (arith, pow-suc 2 bits, xor-lt bits (a / 2) (b / 2))

pub xor-xor : (bits a b : ℕ) → a < 2 ^ bits → xor bits (xor bits a b) b ≡ a
unfolding xor
xor-xor zero a b h = omega (arith, pow-zero 2)
xor-xor (suc bits) a b h =
    let rest = xor-xor bits (a / 2) (b / 2) (omega (arith, pow-suc 2 bits)) in
    let half : ((a + b) % 2 + 2 * xor bits (a / 2) (b / 2)) / 2 ≡ xor bits (a / 2) (b / 2) =
      omega arith in
    rw (half, rest) (omega arith)
