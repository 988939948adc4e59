-- ===== src/Shamir/Numbered.antt =====
-- How many shares `split` deals, and under which numbers.
use abir_guard.Base.{
  ℕ, zero, suc, ◌+◌, ◌≤◌, ◌≡◌, refl, ap₂, ◌∙◌, arith, List, [], ◌∷◌, length, Bytes, some, tabulate,
}
use abir_guard.Shamir.{Share, split, empty_share}
use abir_guard.Shamir.Basis.{indices}
use abir_guard.Shamir.Deal.{Each, Filled, split_loop-Filled}
use abir_guard.Shamir.Polynomial.{Residues}
use abir_guard.Shamir.Roundtrip.{Sized-empty, all-Residues}

-- The numbers of n shares.
abbrev pub numbers : ℕ → List ℕ
numbers n = tabulate n 0 (λ i. i + 1)

-- The loops of `split` keep the numbers of the shares.
indices-Filled :
    (fill : ℕ → ℕ → ℕ) (threshold k : ℕ) (secret : Bytes) (ss ts : List Share)
    → Each (Filled fill threshold k secret) ss ts
    → indices ts ≡ indices ss
indices-Filled fill threshold k secret [] [] each = refl
indices-Filled fill threshold k secret [] (t ∷ ts) each = absurd each
indices-Filled fill threshold k secret (s ∷ ss) [] each = absurd each
indices-Filled fill threshold k secret (s ∷ ss) (t ∷ ts) each =
    ap₂ (λ i is. i ∷ is) each.0.same_index (indices-Filled fill threshold k secret ss ts each.1)

indices-empty :
    (len n i : ℕ)
    → n + i ≤ 255
    → indices (tabulate n i (empty_share len)) ≡ tabulate n i (λ j. j + 1)
unfolding tabulate empty_share
indices-empty len zero i small = refl
indices-empty len (suc n) i small =
    ap₂ (λ j js. j ∷ js) (omega arith) (indices-empty len n (i + 1) (omega arith))

-- On valid arguments `split` deals `num_shares` shares, numbered from 1 on.
pub split-indices :
    (fill : ℕ → ℕ → ℕ) (secret : Bytes) (threshold n : ℕ)
    → 2 ≤ threshold
    → threshold ≤ n
    → n ≤ 250
    → Residues secret
    → (shares : List Share) × (split fill secret threshold n ≡ some shares)
      × (indices shares ≡ numbers n)
unfolding split
split-indices fill secret threshold n two enough most r =
    let start = tabulate n 0 (empty_share (length secret)) in
    let (shares, dealt, each) =
      split_loop-Filled fill threshold 0 (length secret) secret start (omega arith)
        (Sized-empty fill secret threshold n 0) in
    (
      shares,
      ground (arith, all-Residues secret r, dealt),
      indices-Filled fill threshold 0 secret start shares each
          ∙ indices-empty (length secret) n 0 (omega arith),
    )
