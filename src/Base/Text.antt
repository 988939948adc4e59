-- ===== src/Base/Text.antt =====
-- `{}` of an unsigned integer, its decimal digits, and `parse::<u8>()`.
use native.Mathlib.Nat.{pow-zero, pow-suc}
use abir_guard.Base.{
  ℕ, zero, suc, ◌+◌, ◌-◌, ◌*◌, ◌/◌, ◌%◌, ◌^◌, ◌<◌, ◌≤◌, ◌≡◌, ◌≢◌, refl, false, ◌&&◌, ◌||◌, not, All,
  is_empty, Result, ok, err, str, ltb, ap, ◌∙◌, Bool-cases, inl, inr, [], ◌∷◌, ◌++◌, Str, ◌==◌,
  if◌then◌else◌, arith,
}

-- At most `fuel` digits.
digits : ℕ → ℕ → Str
digits zero n = []
digits (suc fuel) n =
    if n / 10 == 0 then (48 + n) ∷ [] else digits fuel (n / 10) ++ (48 + n % 10) ∷ []

-- A `u64` has at most 20.
unfoldable pub decimal : ℕ → Str
unfolding digits
decimal n = digits 20 n

-- The characters of digits.
abbrev pub IsDigit : ℕ → Type 0
IsDigit c = (48 ≤ c) × (c ≤ 57)

All-append : (a b : Str) → All IsDigit a → All IsDigit b → All IsDigit (a ++ b)
All-append [] b p q = q
All-append (c ∷ a) b p q = (p.0, All-append a b p.1 q)

digits-IsDigit : (fuel n : ℕ) → All IsDigit (digits fuel n)
unfolding digits
digits-IsDigit zero n = tt
digits-IsDigit (suc fuel) n = elim (Bool-cases (n / 10 == 0)) [
  | inl one ↦ rw one ((omega arith, ground arith), tt)
  | inr more ↦ rw more (
      All-append (digits fuel (n / 10)) ((48 + n % 10) ∷ []) (digits-IsDigit fuel (n / 10))
        ((omega arith, omega arith), tt))
]

-- The number that digits after `acc` stand for.
pub read_digits : ℕ → Str → ℕ
read_digits acc [] = acc
read_digits acc (c ∷ cs) = read_digits (acc * 10 + (c - 48)) cs

read_digits-append :
    (acc : ℕ) (a b : Str) → read_digits acc (a ++ b) ≡ read_digits (read_digits acc a) b
unfolding read_digits
read_digits-append acc [] b = refl
read_digits-append acc (c ∷ cs) b = read_digits-append (acc * 10 + (c - 48)) cs b

-- As much fuel as the number has digits is enough.
read_digits-digits : (fuel n : ℕ) → n < 10 ^ fuel → read_digits 0 (digits fuel n) ≡ n
unfolding read_digits digits
read_digits-digits zero n h = omega (arith, pow-zero 10)
read_digits-digits (suc fuel) n h = elim (Bool-cases (n / 10 == 0)) [
  | inl one ↦ rw one (ground arith)
  | inr more ↦
      let rest = read_digits-digits fuel (n / 10) (omega (arith, pow-suc 10 fuel)) in
      rw more
        (read_digits-append 0 (digits fuel (n / 10)) ((48 + n % 10) ∷ []) ∙ rw rest (omega arith))
]

-- The digits of a number below 10 ^ 20, as each `u64` is, stand for the number.
pub read_digits-decimal : (n : ℕ) → n < 10 ^ 20 → read_digits 0 (decimal n) ≡ n
unfolding decimal
read_digits-decimal n h = read_digits-digits 20 n h

-- The loop of `u8::from_str`: a character that is no digit goes before a number that is too large.
unfoldable parse_loop : ℕ → Str → Result Str ℕ
parse_loop acc [] = ok acc
parse_loop acc (c ∷ cs) =
    let rest = parse_loop (acc * 10 + (c - 48)) cs in
    if ltb c 48 || ltb 57 c
    then err (str "invalid digit found in string")
    else if ltb 255 (acc * 10 + (c - 48))
    then err (str "number too large to fit in target type")
    else rest

-- A sign is read where something follows it.
unfoldable pub parse_u8 : Str → Result Str ℕ
unfolding parse_loop
parse_u8 [] = err (str "cannot parse integer from empty string")
parse_u8 (c ∷ cs) = if c == 43 && not (is_empty cs) then parse_loop 0 cs else parse_loop 0 (c ∷ cs)

read_digits_grows : (acc : ℕ) (cs : Str) → acc ≤ read_digits acc cs
unfolding read_digits
read_digits_grows acc [] = omega arith
read_digits_grows acc (c ∷ cs) = omega (arith, read_digits_grows (acc * 10 + (c - 48)) cs)

parse_loop_digits :
    (acc : ℕ) (cs : Str)
    → All IsDigit cs
    → read_digits acc cs ≤ 255
    → parse_loop acc cs ≡ ok (read_digits acc cs)
unfolding parse_loop read_digits
parse_loop_digits acc [] p small = refl
parse_loop_digits acc (c ∷ cs) p small =
    let rest = parse_loop_digits (acc * 10 + (c - 48)) cs p.1 small in
    let grows = read_digits_grows (acc * 10 + (c - 48)) cs in
    let (low, high) = p.0 in ground (arith, rest)

parse_u8_digits :
    (cs : Str)
    → All IsDigit cs
    → cs ≢ []
    → read_digits 0 cs ≤ 255
    → parse_u8 cs ≡ ok (read_digits 0 cs)
unfolding parse_u8
parse_u8_digits [] p some_digit small = absurd (some_digit refl)
parse_u8_digits (c ∷ cs) p some_digit small =
    let whole = parse_loop_digits 0 (c ∷ cs) p small in
    let sign : (c == 43) ≡ false = (let low = p.0.0 in ground arith) in rw sign whole

append_nonempty : (a : Str) (c : ℕ) → a ++ c ∷ [] ≢ []
append_nonempty [] c = λ e. absurd cc
append_nonempty (x ∷ a) c = λ e. absurd cc

digits_nonempty : (fuel n : ℕ) → digits (suc fuel) n ≢ []
unfolding digits
digits_nonempty fuel n = elim (Bool-cases (n / 10 == 0)) [
  | inl one ↦ rw one (λ e. absurd cc)
  | inr more ↦ rw more (append_nonempty (digits fuel (n / 10)) (48 + n % 10))
]

pub decimal-IsDigit : (n : ℕ) → All IsDigit (decimal n)
unfolding decimal
decimal-IsDigit n = digits-IsDigit 20 n

-- A `u8` is read from its digits.
pub parse_u8-decimal : (n : ℕ) → n < 256 → parse_u8 (decimal n) ≡ ok n
unfolding decimal
parse_u8-decimal n h =
    let value = read_digits-decimal n (omega arith) in
    parse_u8_digits (digits 20 n) (digits-IsDigit 20 n) (digits_nonempty 19 n)
      (omega (arith, value))
    ∙ ap ok value
