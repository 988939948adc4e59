-- ===== src/Qkd/Estimate.antt =====
-- src/qkd/mod.rs: what the parts of a session give, and the figures of its report.
use abir_guard.Base.{
  ℕ, zero, suc, ◌+◌, ◌≤◌, ◌<◌, ◌≡◌, ◌≢◌, refl, sym, ap, ap₂, ◌∙◌, Bool, true, false, some, List, [],
  ◌∷◌, ◌++◌, Bytes, length, length-append, get_elem?, replicate, All, ◌==◌, ==_iff, if◌then◌else◌,
  arith,
}
use mathlib.Core.List.{append_assoc}
use abir_guard.Qkd.{set, mark, count_mismatches, unsampled}
use abir_guard.Qkd.Sample.{
  IsDistinct, IsBelow, get_elem?-set, length-set, get_elem?-lt, lt-get_elem?,
}

-- The positions that are not marked.
abbrev pub unmarked : List Bool → ℕ
unmarked [] = 0
unmarked (true ∷ flags) = unmarked flags
unmarked (false ∷ flags) = suc (unmarked flags)

unmarked-set :
    (flags : List Bool) (i : ℕ)
    → get_elem? flags i ≡ some false
    → suc (unmarked (set flags i true)) ≡ unmarked flags
unmarked-set [] i h = absurd cc
unmarked-set (true ∷ flags) zero h = absurd cc
unmarked-set (false ∷ flags) zero h = refl
unmarked-set (true ∷ flags) (suc i) h = unmarked-set flags i h
unmarked-set (false ∷ flags) (suc i) h = ap suc (unmarked-set flags i h)

abbrev pub AllFresh : List Bool → List ℕ → Type 0
AllFresh flags indices = (k i : ℕ) → get_elem? indices k ≡ some i → get_elem? flags i ≡ some false

AllFresh-set :
    (flags : List Bool) (i : ℕ) (indices : List ℕ)
    → AllFresh flags (i ∷ indices)
    → IsDistinct (i ∷ indices)
    → AllFresh (set flags i true) indices
AllFresh-set flags i indices fresh distinct k j h =
    let apart : i ≢ j = λ same.
      (let eq = distinct zero (suc k) i refl (h ∙ ap some (sym same)) in absurd (omega arith)) in
    let inside = lt-get_elem? flags i false (fresh zero i refl) in
    get_elem?-set flags i j true inside ∙ ground (arith, fresh (suc k) j h)

-- Different positions that are not marked yet can all be marked, and are so many fewer then.
pub mark_lem :
    (flags : List Bool) (indices : List ℕ)
    → AllFresh flags indices
    → IsDistinct indices
    → (marked : List Bool) × (mark flags indices ≡ some marked)
      × (length marked ≡ length flags)
      × (unmarked marked + length indices ≡ unmarked flags)
unfolding mark
mark_lem flags [] fresh distinct = (flags, refl, refl, omega arith)
mark_lem flags (i ∷ indices) fresh distinct =
    let (marked, done, size, left) =
      mark_lem (set flags i true) indices (AllFresh-set flags i indices fresh distinct)
        (λ p q a hp hq. (let eq = distinct (suc p) (suc q) a hp hq in omega arith)) in
    let here = fresh zero i refl in
    (
      marked,
      rw (here, mark) done,
      size ∙ length-set flags i true,
      omega (arith, left, unmarked-set flags i here),
    )

pub count_mismatches_lem :
    (alice bob : Bytes) (indices : List ℕ)
    → length alice ≡ length bob
    → IsBelow (length alice) indices
    → (n : ℕ) × (count_mismatches alice bob indices ≡ some n) × (n ≤ length indices)
unfolding count_mismatches
count_mismatches_lem alice bob [] same below = (0, refl, omega arith)
count_mismatches_lem alice bob (i ∷ indices) same below =
    let (a, ha) = get_elem?-lt alice i (below zero i refl) in
    let (b, hb) = get_elem?-lt bob i (omega (arith, below zero i refl)) in
    let (n, rest, small) =
      count_mismatches_lem alice bob indices same (λ k j h. below (suc k) j h) in
    (
      (if a == b then n else n + 1),
      rw (ha, count_mismatches, hb, count_mismatches, rest),
      ground arith,
    )

-- Equal bits do not mismatch.
pub count_mismatches_same :
    (bits : Bytes) (indices : List ℕ)
    → IsBelow (length bits) indices
    → count_mismatches bits bits indices ≡ some 0
unfolding count_mismatches
count_mismatches_same bits [] below = refl
count_mismatches_same bits (i ∷ indices) below =
    let (a, ha) = get_elem?-lt bits i (below zero i refl) in
    let rest = count_mismatches_same bits indices (λ k j h. below (suc k) j h) in
    rw (ha, count_mismatches, ha, count_mismatches, rest, (==_iff a a).1 refl)

get_elem?-middle :
    (front back : List Bool) (f : Bool) → get_elem? (front ++ f ∷ back) (length front) ≡ some f
get_elem?-middle [] back f = refl
get_elem?-middle (x ∷ front) back f = get_elem?-middle front back f

unsampled_shift :
    (front flags : List Bool) (bits : Bytes) (f : Bool) (key : Bytes)
    → unsampled ((front ++ f ∷ []) ++ flags) (length (front ++ f ∷ [])) bits ≡ some key
    → unsampled (front ++ f ∷ flags) (length front + 1) bits ≡ some key
unsampled_shift front flags bits f key rest =
    sym (
      ap₂ (λ flags' i. unsampled flags' i bits) (append_assoc front (f ∷ []) flags)
        (length-append front (f ∷ [])))
    ∙ rest

-- The bits that are left are as many as the positions not marked, and are among the bits given.
pub unsampled_lem :
    (P : ℕ → Type 0) (front flags : List Bool) (bits : Bytes)
    → length flags ≡ length bits
    → All P bits
    → (key : Bytes) × (unsampled (front ++ flags) (length front) bits ≡ some key)
      × (length key ≡ unmarked flags)
      × All P key
unfolding unsampled
unsampled_lem P front [] [] size good = ([], refl, refl, tt)
unsampled_lem P front (f ∷ flags) [] size good = absurd (omega arith)
unsampled_lem P front [] (b ∷ bits) size good = absurd (omega arith)
unsampled_lem P front (true ∷ flags) (b ∷ bits) size good =
    let (key, rest, count, among) =
      unsampled_lem P (front ++ true ∷ []) flags bits (omega arith) good.1 in
    let rest' = unsampled_shift front flags bits true key rest in
    (key, rw (get_elem?-middle front flags true, unsampled, rest'), count, among)
unsampled_lem P front (false ∷ flags) (b ∷ bits) size good =
    let (key, rest, count, among) =
      unsampled_lem P (front ++ false ∷ []) flags bits (omega arith) good.1 in
    let rest' = unsampled_shift front flags bits false key rest in
    (
      b ∷ key,
      rw (get_elem?-middle front flags false, unsampled, rest'),
      ap suc count,
      (good.0, among),
    )

-- A fresh vector of flags.
pub fresh_flags :
    (n : ℕ) (indices : List ℕ) → IsBelow n indices → AllFresh (replicate n false) indices
fresh_flags n indices below k i h = get_elem?-replicate n i (below k i h)
  where
    get_elem?-replicate : (n i : ℕ) → i < n → get_elem? (replicate n false) i ≡ some false
    get_elem?-replicate zero i h = absurd (omega arith)
    get_elem?-replicate (suc n) zero h = refl
    get_elem?-replicate (suc n) (suc i) h = get_elem?-replicate n i (omega arith)

pub unmarked-replicate :
    (n : ℕ) → (unmarked (replicate n false) ≡ n) × (length (replicate n false) ≡ n)
unmarked-replicate zero = (refl, refl)
unmarked-replicate (suc n) = (let (a, b) = unmarked-replicate n in (ap suc a, ap suc b))
