-- ===== src/Qkd/Sample.antt =====
-- src/qkd/mod.rs: the Fisher-Yates shuffle draws positions that are in range and all different.
use abir_guard.Base.{
  ℕ, zero, suc, ◌+◌, ◌-◌, ◌%◌, ◌≤◌, ◌<◌, ◌≡◌, refl, sym, ap, ◌∙◌, some, List, [], ◌∷◌, length,
  get_elem?, get_elem?-tabulate, length-tabulate, length-take, tabulate, take, ◌==◌, if◌then◌else◌,
  arith,
}
use abir_guard.Qkd.{
  QkdError, Source, ◌>>=◌, pure, next_u64, or_panic, set, swap, shuffle_loop, random_unique_indices,
}
use abir_guard.Qkd.Runs.{
  Returns, Returns-resume, Returns-or_panic, Returns-IsDraw, IsSourceError, IsDraw,
}

module _ {A : Type 0} where
  pub get_elem?-set :
      (xs : List A) (i k : ℕ) (v : A)
      → i < length xs
      → get_elem? (set xs i v) k ≡ (if i == k then some v else get_elem? xs k)
  get_elem?-set [] i k v h = absurd (omega arith)
  get_elem?-set (x ∷ xs) zero zero v h = refl
  get_elem?-set (x ∷ xs) zero (suc k) v h = ground arith
  get_elem?-set (x ∷ xs) (suc i) zero v h = ground arith
  get_elem?-set (x ∷ xs) (suc i) (suc k) v h = ground (arith, get_elem?-set xs i k v (omega arith))

  pub length-set : (xs : List A) (i : ℕ) (v : A) → length (set xs i v) ≡ length xs
  length-set [] i v = refl
  length-set (x ∷ xs) zero v = refl
  length-set (x ∷ xs) (suc i) v = ap suc (length-set xs i v)

  pub get_elem?-lt : (xs : List A) (i : ℕ) → i < length xs → (a : A) × (get_elem? xs i ≡ some a)
  get_elem?-lt [] i h = absurd (omega arith)
  get_elem?-lt (x ∷ xs) zero h = (x, refl)
  get_elem?-lt (x ∷ xs) (suc i) h = get_elem?-lt xs i (omega arith)

  pub lt-get_elem? : (xs : List A) (i : ℕ) (a : A) → get_elem? xs i ≡ some a → i < length xs
  lt-get_elem? [] i a h = absurd cc
  lt-get_elem? (x ∷ xs) zero a h = omega arith
  lt-get_elem? (x ∷ xs) (suc i) a h = omega (arith, lt-get_elem? xs i a h)

-- Different positions hold different numbers, all below a bound.
abbrev pub IsDistinct : List ℕ → Type 0
IsDistinct xs = (i j a : ℕ) → get_elem? xs i ≡ some a → get_elem? xs j ≡ some a → i ≡ j

abbrev pub IsBelow : ℕ → List ℕ → Type 0
IsBelow len xs = (i a : ℕ) → get_elem? xs i ≡ some a → a < len

pub record IsArranged (len : ℕ) (xs : List ℕ) : Type 0 where
  pub full : length xs ≡ len
  pub below : IsBelow len xs
  pub distinct : IsDistinct xs

-- Where a position comes from in a swap.
abbrev origin : ℕ → ℕ → ℕ → ℕ
origin i j k = if j == k then i else if i == k then j else k

origin-injective : (i j p q : ℕ) → origin i j p ≡ origin i j q → p ≡ q
origin-injective i j p q h = ground arith

get_elem?-swapped :
    (xs : List ℕ) (i j a b k : ℕ)
    → get_elem? xs i ≡ some a
    → get_elem? xs j ≡ some b
    → get_elem? (set (set xs i b) j a) k ≡ get_elem? xs (origin i j k)
get_elem?-swapped xs i j a b k ha hb =
    let hi = lt-get_elem? xs i a ha in
    let hj = lt-get_elem? xs j b hb in
    let inner = get_elem?-set xs i k b hi in
    let outer = get_elem?-set (set xs i b) j k a (omega (arith, length-set xs i b)) in
    outer ∙ ground (arith, inner)

swap-IsArranged :
    (len : ℕ) (xs : List ℕ) (i j : ℕ)
    → IsArranged len xs
    → i < len
    → j < len
    → (ys : List ℕ) × (swap xs i j ≡ some ys) × IsArranged len ys
unfolding swap
swap-IsArranged len xs i j arranged hi hj =
    let (a, ha) = get_elem?-lt xs i (omega (arith, arranged.full)) in
    let (b, hb) = get_elem?-lt xs j (omega (arith, arranged.full)) in
    let ys = set (set xs i b) j a in
    let from = λ (k : ℕ). get_elem?-swapped xs i j a b k ha hb in
    (
      ys,
      rw (ha, swap, hb),
      record {
        full = length-set (set xs i b) j a ∙ length-set xs i b ∙ arranged.full;
        below = λ k c h. arranged.below (origin i j k) c (sym (from k) ∙ h);
        distinct = λ p q c hp hq. origin-injective i j p q (
            arranged.distinct (origin i j p) (origin i j q) c (sym (from p) ∙ hp)
              (sym (from q) ∙ hq));
      },
    )

get_elem?-range : (n i k a : ℕ) → get_elem? (tabulate n i (λ j. j)) k ≡ some a → a ≡ i + k
get_elem?-range n i k a h =
    let inside = lt-get_elem? (tabulate n i (λ j. j)) k a h in
    let found =
      get_elem?-tabulate n i k (λ j. j) (omega (arith, length-tabulate n i (λ (j : ℕ). j))) in
    (let same : some (i + k) ≡ some a = sym found ∙ h in ground arith)

range-IsArranged : (n : ℕ) → IsArranged n (tabulate n 0 (λ i. i))
range-IsArranged n = record {
  full = length-tabulate n 0 (λ i. i);
  below = λ i a h. omega (
    arith,
    get_elem?-range n 0 i a h,
    lt-get_elem? (tabulate n 0 (λ i. i)) i a h,
    length-tabulate n 0 (λ (i : ℕ). i),
  );
  distinct = λ i j a hi hj. omega (arith, get_elem?-range n 0 i a hi, get_elem?-range n 0 j a hj);
}

get_elem?-take :
    (n k a : ℕ) (xs : List ℕ) → get_elem? (take n xs) k ≡ some a → get_elem? xs k ≡ some a
get_elem?-take zero k a xs h = absurd cc
get_elem?-take (suc n) k a [] h = absurd cc
get_elem?-take (suc n) zero a (x ∷ xs) h = h
get_elem?-take (suc n) (suc k) a (x ∷ xs) h = get_elem?-take n k a xs h

module _ {S : Type 0} (Names : QkdError → Type 0) (next : Source S)
    (named : (e : QkdError) → IsSourceError next e → Names e) where
  shuffle_loop-IsArranged :
      (k len : ℕ) (xs : List ℕ) (s : S)
      → k < len
      → IsArranged len xs
      → Returns Names (IsArranged len) (shuffle_loop next k xs s)
  unfolding shuffle_loop
  shuffle_loop-IsArranged zero len xs s h arranged = arranged
  shuffle_loop-IsArranged (suc k) len xs s h arranged =
      Returns-resume Names (IsDraw next) (IsArranged len) (next_u64 next s)
        (λ r. or_panic (swap xs (suc k) (r % (suc k + 1))) >>= shuffle_loop next k)
        (Returns-IsDraw Names next s named)
        λ r t drawn.
          let (ys, swapped, arranged') =
            swap-IsArranged len xs (suc k) (r % (suc k + 1)) arranged h (omega arith) in
          Returns-or_panic Names (IsArranged len) (swap xs (suc k) (r % (suc k + 1))) ys
            (shuffle_loop next k) t swapped
            (shuffle_loop-IsArranged k len ys t (omega arith) arranged')

  -- A sample: as many positions as asked for, in range and all different.
  abbrev pub IsSample : ℕ → ℕ → List ℕ → Type 0
  IsSample len sample_size indices =
      (length indices ≡ sample_size) × IsBelow len indices × IsDistinct indices

  take-IsSample :
      (len n : ℕ) (xs : List ℕ) → n ≤ len → IsArranged len xs → IsSample len n (take n xs)
  take-IsSample len n xs h arranged = (
    length-take n xs (omega (arith, arranged.full)),
    λ i a e. arranged.below i a (get_elem?-take n i a xs e),
    λ i j a e e'. arranged.distinct i j a (get_elem?-take n i a xs e) (get_elem?-take n j a xs e'),
  )

  pub random_unique_indices-IsSample :
      (len n : ℕ) (s : S)
      → 0 < len
      → n ≤ len
      → Returns Names (IsSample len n) (random_unique_indices next len n s)
  unfolding random_unique_indices
  random_unique_indices-IsSample len n s some_bits enough =
      Returns-resume Names (IsArranged len) (IsSample len n)
        (shuffle_loop next (len - 1) (tabulate len 0 (λ i. i)) s) (λ xs. pure (take n xs))
        (shuffle_loop-IsArranged (len - 1) len (tabulate len 0 (λ i. i)) s (omega arith)
          (range-IsArranged len))
        (λ xs t arranged. take-IsSample len n xs enough arranged)
