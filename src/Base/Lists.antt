-- ===== src/Base/Lists.antt =====
-- Lists measured and indexed by native numbers, bytes and texts.
use Prim.Native.Char.{code}
use Prim.Native.Nat.{ℕ, zero, suc, ◌+◌, ◌*◌, ◌/◌, ◌%◌, ◌^◌, ◌<◌, ◌≤◌}
use native.Mathlib.Nat.{pow-zero, pow-suc}
use Prim.Native.String.{String}
use mathlib.Core.Bool.{Bool, true, false, ◌&&◌}
use mathlib.Core.List.{List, [], ◌∷◌, ◌++◌, map}
use mathlib.Core.Option.{Option, none, some}
use mathlib.Core.Path.{◌≡◌, refl, sym, ap, ◌∙◌}
use native.Mathlib.Omega.{arith}

-- `Vec<u8>` and `&[u8]`.
abbrev pub Bytes : Type 0
Bytes = List ℕ

-- A Rust `String` is the list of its UTF-8 bytes.
abbrev pub Str : Type 0
Str = List ℕ

-- An ASCII literal.
abbrev pub str : String → Str
str String.[] = []
str (String.◌∷◌ c s) = code c ∷ str s

module _ {ℓ} {A : Type ℓ} where
  abbrev pub length : List A → ℕ
  length [] = 0
  length (x ∷ xs) = suc (length xs)

  abbrev pub is_empty : List A → Bool
  is_empty [] = true
  is_empty (x ∷ xs) = false

  abbrev pub get_elem? : List A → ℕ → Option A
  get_elem? [] i = none
  get_elem? (x ∷ xs) zero = some x
  get_elem? (x ∷ xs) (suc i) = get_elem? xs i

  abbrev pub replicate : ℕ → A → List A
  replicate zero a = []
  replicate (suc n) a = a ∷ replicate n a

  -- `xs.truncate(n)`
  abbrev pub take : ℕ → List A → List A
  take zero xs = []
  take (suc n) [] = []
  take (suc n) (x ∷ xs) = x ∷ take n xs

  -- `&xs[n..]`
  abbrev pub skip : ℕ → List A → List A
  skip zero xs = xs
  skip (suc n) [] = []
  skip (suc n) (x ∷ xs) = skip n xs

  pub take-append : (xs ys : List A) → take (length xs) (xs ++ ys) ≡ xs
  take-append [] ys = refl
  take-append (x ∷ xs) ys = ap (λ zs. x ∷ zs) (take-append xs ys)

  pub skip-append : (xs ys : List A) → skip (length xs) (xs ++ ys) ≡ ys
  skip-append [] ys = refl
  skip-append (x ∷ xs) ys = skip-append xs ys

  pub length-take : (n : ℕ) (xs : List A) → n ≤ length xs → length (take n xs) ≡ n
  length-take zero xs h = refl
  length-take (suc n) [] h = absurd (omega arith)
  length-take (suc n) (x ∷ xs) h = ap suc (length-take n xs (omega arith))

  pub length-append : (xs ys : List A) → length (xs ++ ys) ≡ length xs + length ys
  length-append [] ys = omega arith
  length-append (x ∷ xs) ys = omega (arith, length-append xs ys)

module _ {ℓ} {A : Type ℓ} where
  pub length-map {κ} : {B : Type κ} (f : A → B) (xs : List A) → length (map f xs) ≡ length xs
  length-map f [] = refl
  length-map f (x ∷ xs) = ap suc (length-map f xs)

  -- `[f i, f (i + 1), …]`, `n` values.
  unfoldable pub tabulate : ℕ → ℕ → (ℕ → A) → List A
  tabulate zero i f = []
  tabulate (suc n) i f = f i ∷ tabulate n (i + 1) f

  pub length-tabulate : (n i : ℕ) (f : ℕ → A) → length (tabulate n i f) ≡ n
  unfolding tabulate
  length-tabulate zero i f = refl
  length-tabulate (suc n) i f = ap suc (length-tabulate n (i + 1) f)

  pub get_elem?-tabulate :
      (n i k : ℕ) (f : ℕ → A) → k < n → get_elem? (tabulate n i f) k ≡ some (f (i + k))
  unfolding tabulate
  get_elem?-tabulate zero i k f h = absurd (omega arith)
  get_elem?-tabulate (suc n) i zero f h = ap (λ j. some (f j)) (omega arith)
  get_elem?-tabulate (suc n) i (suc k) f h =
      get_elem?-tabulate n (i + 1) k f (omega arith) ∙ ap (λ j. some (f j)) (omega arith)

  abbrev pub All {κ} : (A → Type κ) → List A → Type κ
  All P [] = Unit
  All P (x ∷ xs) = P x × All P xs

  -- `xs.iter().all(p)`
  abbrev pub all : (A → Bool) → List A → Bool
  all p [] = true
  all p (x ∷ xs) = p x && all p xs

  -- `xs.iter().filter(p)`
  abbrev pub filter : (A → Bool) → List A → List A
  filter p [] = []
  filter p (x ∷ xs) = elim (p x) [ true ↦ x ∷ filter p xs | false ↦ filter p xs ]

-- `n.to_le_bytes()` of a number of `w` bytes.
unfoldable pub le_bytes : ℕ → ℕ → Bytes
le_bytes zero n = []
le_bytes (suc w) n = n % 256 ∷ le_bytes w (n / 256)

pub length-le_bytes : (w n : ℕ) → length (le_bytes w n) ≡ w
unfolding le_bytes
length-le_bytes zero n = refl
length-le_bytes (suc w) n = ap suc (length-le_bytes w (n / 256))

-- `from_le_bytes` is a left inverse, so that a number is determined by its bytes.
of_le_bytes : Bytes → ℕ
of_le_bytes [] = 0
of_le_bytes (b ∷ bs) = b + 256 * of_le_bytes bs

of_le_bytes-le_bytes : (w n : ℕ) → n < 256 ^ w → of_le_bytes (le_bytes w n) ≡ n
unfolding of_le_bytes le_bytes
of_le_bytes-le_bytes zero n h = omega (arith, pow-zero 256)
of_le_bytes-le_bytes (suc w) n h =
    let rest = of_le_bytes-le_bytes w (n / 256) (omega (arith, pow-suc 256 w)) in omega arith

pub le_bytes-injective :
    (w n m : ℕ) → n < 256 ^ w → m < 256 ^ w → le_bytes w n ≡ le_bytes w m → n ≡ m
le_bytes-injective w n m hn hm e =
    sym (of_le_bytes-le_bytes w n hn) ∙ ap of_le_bytes e ∙ of_le_bytes-le_bytes w m hm

-- A prefix of known length splits off.
pub append-cancel {ℓ} :
    {A : Type ℓ} (xs ys us vs : List A)
    → length xs ≡ length ys
    → xs ++ us ≡ ys ++ vs
    → (xs ≡ ys) × (us ≡ vs)
append-cancel [] [] us vs l e = (refl, e)
append-cancel [] (y ∷ ys) us vs l e = absurd (omega arith)
append-cancel (x ∷ xs) [] us vs l e = absurd (omega arith)
append-cancel (x ∷ xs) (y ∷ ys) us vs l e =
    let rest : xs ++ us ≡ ys ++ vs = cc in
    let first : x ≡ y = cc in
    let parts = append-cancel xs ys us vs (omega arith) rest in (cc (parts.0), parts.1)
