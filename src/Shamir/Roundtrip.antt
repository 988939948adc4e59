-- ===== src/Shamir/Roundtrip.antt =====
-- Any `threshold` or more of the shares that `split` deals give the secret back.
use abir_guard.Base.{
  ℕ, zero, suc, ◌+◌, ◌-◌, ◌%◌, ◌≤◌, ◌<◌, ◌≡◌, refl, ap, ◌∙◌, sym, ◌≢◌, arith, List, [], ◌∷◌, All,
  all, length, Bytes, true, get_elem?, some, tabulate, get_elem?-tabulate, length-tabulate, ltb,
}
use abir_guard.Shamir.{
  Share, split, reconstruct, reconstruct_loop, byte_loop, coefficients, get_random_bytes,
  empty_share, prime,
}
use abir_guard.Shamir.Deal.{Sized, Filled, Each-get, split_loop-Filled}
use abir_guard.Shamir.Interpolate.{Distinct, Avoids, eval, interpolate}
use abir_guard.Shamir.Polynomial.{
  Residues, eval-coefficients, length-coefficients, eval-coefficients_zero,
}
use abir_guard.Shamir.Basis.{indices}
use abir_guard.Shamir.Recover.{Carries, byte-Sums}

pub all-Residues : (bs : Bytes) → Residues bs → all (λ b. ltb b prime) bs ≡ true
all-Residues [] h = refl
all-Residues (b ∷ bs) h = ground (arith, all-Residues bs h.1)

pub Residues-get : (bs : Bytes) (j b : ℕ) → Residues bs → get_elem? bs j ≡ some b → b < 251
Residues-get [] j b h e = cc
Residues-get (x ∷ bs) zero b h e = let same : x ≡ b = cc in omega arith
Residues-get (x ∷ bs) (suc j) b h e = Residues-get bs j b h.1 e

-- Different positions below `n`.
abbrev pub Chosen : ℕ → List ℕ → Type 0
Chosen n [] = Unit
Chosen n (i ∷ is) = (i < n) × All (λ j. j ≢ i) is × Chosen n is

module _ (fill : ℕ → ℕ → ℕ) (secret : Bytes) (threshold : ℕ) where
  -- The polynomial of byte `j`.
  abbrev pub poly : ℕ → ℕ → Bytes
  poly j b = coefficients b (get_random_bytes fill j (threshold - 1))

  -- The share at position `i`: the values at i + 1 of the polynomials of all bytes.
  pub record Dealt (i : ℕ) (s : Share) : Type 0 where
    pub point : s.index ≡ i + 1
    pub size : length s.data_bytes ≡ length secret
    pub value :
        (j b : ℕ)
        → get_elem? secret j ≡ some b
        → get_elem? s.data_bytes j ≡ some (eval (poly j b) s.index % 251)

  Filled-Dealt :
      (i : ℕ) (t : Share)
      → i < 250
      → Residues secret
      → Filled fill threshold 0 secret (empty_share (length secret) i) t
      → Dealt i t
  unfolding empty_share
  Filled-Dealt i t h r f =
      let point : t.index ≡ i + 1 = f.same_index ∙ omega arith in
      record {
        point = point;
        size = f.same_length ∙ length-tabulate (length secret) 0 _;
        value = λ j b e.
            f.filled j j b (omega arith) e
            ∙ ap some (
                eval-coefficients b _ _ (Residues-get secret j b r e) (omega arith)
                ∙ ap (λ x. eval (poly j b) x % 251) (sym f.same_index));
      }

  pub Sized-empty : (n i : ℕ) → Sized (length secret) (tabulate n i (empty_share (length secret)))
  unfolding tabulate empty_share
  Sized-empty zero i = tt
  Sized-empty (suc n) i = (length-tabulate (length secret) 0 _, Sized-empty n (i + 1))

  -- On valid arguments `split` does not panic, and deals `num_shares` shares.
  pub split-Dealt :
      (num_shares : ℕ)
      → 2 ≤ threshold
      → threshold ≤ num_shares
      → num_shares ≤ 250
      → Residues secret
      → (shares : List Share) × (split fill secret threshold num_shares ≡ some shares)
        × ((i : ℕ) → i < num_shares → (s : Share) × (get_elem? shares i ≡ some s) × Dealt i s)
  unfolding split
  split-Dealt n two enough most r =
      let start = tabulate n 0 (empty_share (length secret)) in
      let (shares, dealt, each) =
        split_loop-Filled fill threshold 0 (length secret) secret start (omega arith)
          (Sized-empty n 0) in
      (
        shares,
        ground (arith, all-Residues secret r, dealt),
        λ i h.
            let (s, got, filled) = Each-get (Filled fill threshold 0 secret) start shares i each (
              get_elem?-tabulate n 0 i (empty_share (length secret)) h
              ∙ ap (λ k. some (empty_share (length secret) k)) (omega arith)) in
            (s, got, Filled-Dealt i s (omega arith) r filled),
      )

  -- Shares at the given positions.
  abbrev pub Hand : List ℕ → List Share → Type 0
  Hand [] [] = Unit
  Hand [] (s ∷ ss) = ⊥
  Hand (i ∷ is) [] = ⊥
  Hand (i ∷ is) (s ∷ ss) = Dealt i s × Hand is ss

  Hand-length : (is : List ℕ) (ss : List Share) → Hand is ss → length (indices ss) ≡ length is
  Hand-length [] [] h = refl
  Hand-length [] (s ∷ ss) h = absurd h
  Hand-length (i ∷ is) [] h = absurd h
  Hand-length (i ∷ is) (s ∷ ss) h = ap suc (Hand-length is ss h.1)

  Hand-Avoids :
      (i x n : ℕ) (is : List ℕ) (ss : List Share)
      → n ≤ 250
      → x ≡ i + 1
      → All (λ j. j ≢ i) is
      → Chosen n is
      → Hand is ss
      → Avoids x (indices ss)
  Hand-Avoids i x n [] [] most p ne c h = tt
  Hand-Avoids i x n [] (s ∷ ss) most p ne c h = absurd h
  Hand-Avoids i x n (j ∷ is) [] most p ne c h = absurd h
  Hand-Avoids i x n (j ∷ is) (s ∷ ss) most p ne c h =
      let point = h.0.point in
      let small = c.0 in
      let other = ne.0 in
      ((omega arith, λ e. other (omega arith)), Hand-Avoids i x n is ss most p ne.1 c.2 h.1)

  Hand-Distinct :
      (n : ℕ) (is : List ℕ) (ss : List Share)
      → n ≤ 250
      → Chosen n is
      → Hand is ss
      → Distinct (indices ss)
  Hand-Distinct n [] [] most c h = tt
  Hand-Distinct n [] (s ∷ ss) most c h = absurd h
  Hand-Distinct n (i ∷ is) [] most c h = absurd h
  Hand-Distinct n (i ∷ is) (s ∷ ss) most c h =
      let point = h.0.point in
      let small = c.0 in
      (
        omega arith,
        Hand-Avoids i s.index n is ss most point c.1 c.2 h.1,
        Hand-Distinct n is ss most c.2 h.1,
      )

  Hand-Carries :
      (j b : ℕ) (is : List ℕ) (ss : List Share)
      → get_elem? secret j ≡ some b
      → Hand is ss
      → Carries (eval (poly j b)) j ss
  Hand-Carries j b [] [] e h = tt
  Hand-Carries j b [] (s ∷ ss) e h = absurd h
  Hand-Carries j b (i ∷ is) [] e h = absurd h
  Hand-Carries j b (i ∷ is) (s ∷ ss) e h = (h.0.value j b e, Hand-Carries j b is ss e h.1)

  module _ (n : ℕ) (is : List ℕ) (ss : List Share) (two : 2 ≤ threshold) (most : n ≤ 250)
      (r : Residues secret) (c : Chosen n is) (h : Hand is ss)
      (enough : threshold ≤ length is) where
    byte_recovered : (j b : ℕ) → get_elem? secret j ≡ some b → byte_loop ss j 0 ss 0 ≡ some b
    byte_recovered j b e =
        let f = eval (poly j b) in
        let d = Hand-Distinct n is ss most c h in
        let sums = byte-Sums f j ss d (Hand-Carries j b is ss e h) in
        let size : length (poly j b) ≤ length (indices ss) =
          omega (arith, length-coefficients b fill j (threshold - 1), Hand-length is ss h) in
        let at_zero = interpolate (poly j b) (indices ss) d size in
        let same : sums.value ≡ b = omega (
          arith,
          sums.sum,
          sums.small,
          at_zero,
          Residues-get secret j b r e,
          eval-coefficients_zero b (get_random_bytes fill j (threshold - 1)),
        ) in
        sums.returns ∙ ap some same

    loop_recovers :
        (k : ℕ) (rest : Bytes)
        → ((i b : ℕ) → get_elem? rest i ≡ some b → get_elem? secret (k + i) ≡ some b)
        → Residues rest
        → reconstruct_loop ss k (length rest) ≡ some rest
    unfolding reconstruct_loop
    loop_recovers k [] reads rr = refl
    loop_recovers k (b ∷ rest) reads rr =
        let first = byte_recovered k b (ap (get_elem? secret) (omega arith) ∙ reads 0 b refl) in
        let others =
          loop_recovers (k + 1) rest
            (λ i x e. ap (get_elem? secret) (omega arith) ∙ reads (suc i) x e) rr.1 in
        rw (first, others) (ap (λ x. some (x ∷ rest)) (omega arith))

  pub Hand-reconstruct :
      (n : ℕ) (is : List ℕ) (ss : List Share)
      → 2 ≤ threshold
      → n ≤ 250
      → Residues secret
      → Chosen n is
      → Hand is ss
      → threshold ≤ length is
      → reconstruct ss ≡ some secret
  unfolding reconstruct
  Hand-reconstruct n [] ss two most r c h enough = absurd (omega arith)
  Hand-reconstruct n (i ∷ is) [] two most r c h enough = absurd h
  Hand-reconstruct n (i ∷ is) (s ∷ ss) two most r c h enough = rw (h.0.size) (
      loop_recovers n (i ∷ is) (s ∷ ss) two most r c h enough 0 secret
        (λ j b e. ap (get_elem? secret) (omega arith) ∙ e) r)
