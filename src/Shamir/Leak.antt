-- ===== src/Shamir/Leak.antt =====
-- The random coefficients are never zero, so that the shares are not uniform: with a threshold of
-- two a share excludes one value of each byte of the secret.
use abir_guard.Base.{
  ℕ, ◌+◌, ◌*◌, ◌%◌, ◌≤◌, ◌<◌, ◌≡◌, ap, ◌≢◌, arith, List, [], ◌∷◌, Bytes, get_elem?, some, tabulate,
}
use abir_guard.Shamir.{Share, split, coefficients, get_random_bytes, u8}
use abir_guard.Shamir.Field.{≈-cancel, inverse, mul-inverse}
use abir_guard.Shamir.Interpolate.{eval, eval_nil, eval_cons}
use abir_guard.Shamir.Polynomial.{Residues}
use abir_guard.Shamir.Roundtrip.{split-Dealt, Residues-get}

-- A line with a slope that is not zero never returns to its value at 0.
line_moves : (b c x : ℕ) → 0 < c → c < 251 → 0 < x → x < 251 → (b + x * c) % 251 ≢ b % 251
line_moves b c x pc lc px lx h =
    let unit = mul-inverse x (omega arith) in
    let flat = ≈-cancel c 0 x (inverse x) unit (omega arith) in absurd (omega arith)

poly_moves :
    (fill : ℕ → ℕ → ℕ) (j b x : ℕ)
    → b < 251
    → 0 < x
    → x < 251
    → eval (coefficients b (get_random_bytes fill j 1)) x % 251 ≢ b
unfolding coefficients get_random_bytes tabulate
poly_moves fill j b x lb px lx h =
    let c = u8 (fill j 0 % 250 + 1) in
    let slope : eval (c ∷ []) x ≡ c = rw (eval_cons c [] x, eval_nil x) (omega arith) in
    let value : eval (b ∷ c ∷ []) x ≡ b + x * c = rw (eval_cons b (c ∷ []) x, slope) in
    line_moves b c x (omega arith) (omega arith) px lx (omega arith)

-- Of a secret of bytes below 251, dealt with a threshold of 2 to between 2 and 250 holders, no
-- share has a byte in common with the secret at the same place: whoever holds one share knows one
-- value that each byte of the secret does not have.
pub share-ne-secret :
    (fill : ℕ → ℕ → ℕ) (secret : Bytes) (num_shares i j b : ℕ) {shares : List Share} {s : Share}
    → 2 ≤ num_shares
    → num_shares ≤ 250
    → Residues secret
    → split fill secret 2 num_shares ≡ some shares
    → i < num_shares
    → get_elem? shares i ≡ some s
    → get_elem? secret j ≡ some b
    → get_elem? s.data_bytes j ≢ some b
share-ne-secret fill secret n i j b {shares} {s} two most r dealt h got at same =
    let (shares', dealt', each) = split-Dealt fill secret 2 n (omega arith) two most r in
    let (s', got', d) = each i h in
    let same_shares : shares' ≡ shares = cc in
    let same_share : s' ≡ s = cc (ap (λ t. get_elem? t i) same_shares) in
    let value : eval (coefficients b (get_random_bytes fill j 1)) s'.index % 251 ≡ b =
      cc (d.value j b at, ap (λ t. get_elem? t.data_bytes j) same_share) in
    let point = d.point in
    poly_moves fill j b s'.index (Residues-get secret j b r at) (omega arith) (omega arith) value
