-- ===== src/Shamir/Secret.antt =====
-- `split` and `reconstruct` together, and the arguments on which `split` panics.
use abir_guard.Base.{
  ℕ, ◌≤◌, ◌<◌, ◌≡◌, refl, ◌⊎◌, inl, inr, arith, List, [], ◌∷◌, all, length, Bytes, false, get_elem?,
  Option, none, some, ltb,
}
use abir_guard.Base.Maybe.{◌>>=◌}
use abir_guard.Shamir.{Share, split, reconstruct, prime}
use abir_guard.Shamir.Polynomial.{Residues}
use abir_guard.Shamir.Roundtrip.{Dealt, Hand, Chosen, split-Dealt, Hand-reconstruct}

-- The shares that a caller hands in: those at the given positions, in that order.
abbrev pub pick : List Share → List ℕ → Option (List Share)
pick shares [] = some []
pick shares (i ∷ is) = do s ← get_elem? shares i; rest ← pick shares is; some (s ∷ rest)

module _ (fill : ℕ → ℕ → ℕ) (secret : Bytes) (threshold : ℕ) where
  pub pick-Hand :
      (n : ℕ) (shares : List Share) (is : List ℕ)
      → ((i : ℕ)
          → i < n
          → (s : Share) × (get_elem? shares i ≡ some s) × Dealt fill secret threshold i s)
      → Chosen n is
      → (ss : List Share) × (pick shares is ≡ some ss) × Hand fill secret threshold is ss
  pick-Hand n shares [] all_dealt c = ([], refl, tt)
  pick-Hand n shares (i ∷ is) all_dealt c =
      let (s, got, dealt) = all_dealt i c.0 in
      let (ss, picked, hand) = pick-Hand n shares is all_dealt c.2 in
      (s ∷ ss, rw (got, picked), (dealt, hand))

  -- For a secret of bytes below 251 and 2 ≤ threshold ≤ num_shares ≤ 250, `split` deals shares,
  -- and `reconstruct` returns the secret from those at any `threshold` or more different
  -- positions, in any order, whatever the random bytes are.
  pub reconstruct-split :
      (num_shares : ℕ) (is : List ℕ)
      → 2 ≤ threshold
      → threshold ≤ num_shares
      → num_shares ≤ 250
      → Residues secret
      → Chosen num_shares is
      → threshold ≤ length is
      → (shares ss : List Share) × (split fill secret threshold num_shares ≡ some shares)
        × (pick shares is ≡ some ss)
        × (reconstruct ss ≡ some secret)
  reconstruct-split n is two enough most r c size =
      let (shares, dealt, each) = split-Dealt fill secret threshold n two enough most r in
      let (ss, picked, hand) = pick-Hand n shares is each c in
      (
        shares,
        ss,
        dealt,
        picked,
        Hand-reconstruct fill secret threshold n is ss two most r c hand size,
      )

-- Some byte does not fit the field.
abbrev pub HasLarge : Bytes → Type 0
HasLarge [] = ⊥
HasLarge (b ∷ bs) = (251 ≤ b) ⊎ HasLarge bs

HasLarge-all : (bs : Bytes) → HasLarge bs → all (λ b. ltb b prime) bs ≡ false
HasLarge-all [] h = absurd h
HasLarge-all (b ∷ bs) (inl h) = ground arith
HasLarge-all (b ∷ bs) (inr h) = ground (arith, HasLarge-all bs h)

-- `split` panics on a threshold below 2, on fewer shares than the threshold, on more than 250
-- shares, and on a secret with a byte above 250.
pub split_panics :
    (fill : ℕ → ℕ → ℕ) (secret : Bytes) (threshold num_shares : ℕ)
    → (threshold < 2) ⊎ (num_shares < threshold) ⊎ (250 < num_shares) ⊎ HasLarge secret
    → split fill secret threshold num_shares ≡ none
unfolding split
split_panics fill secret threshold n (inl h) = ground arith
split_panics fill secret threshold n (inr (inl h)) = ground arith
split_panics fill secret threshold n (inr (inr (inl h))) = ground arith
split_panics fill secret threshold n (inr (inr (inr h))) = ground (arith, HasLarge-all secret h)
