-- ===== src/Qkd/Sifting.antt =====
-- src/qkd/mod.rs: what a transmission over any entropy source sifts.
use abir_guard.Base.{
  ℕ, zero, suc, ◌+◌, ◌%◌, ◌≤◌, ◌<◌, ◌≡◌, ◌⊎◌, inl, inr, refl, sym, ap, ◌∙◌, true, Option, none,
  some, [], ◌∷◌, ◌++◌, Bytes, length, length-append, subst, All, ◌==◌, if◌then◌else◌, arith,
  Bool-cases,
}
use abir_guard.Base.Numbers.{xor}
use abir_guard.Qkd.{
  QkdError, insufficient_sifted_bits, Floats, Source, ◌>>=◌, pure, next_u64, next_bit, Basis,
  random, basis_eq, rectilinear, diagonal, next_unit_f64, maybe_flip, QuantumChannel, receive,
  transmit, transmit_loop, push,
}
use abir_guard.Qkd.Runs.{Returns, Returns-resume, Returns-IsDraw, IsSourceError, IsDraw}

module _ (floats : Floats) {S : Type 0} (next : Source S) where
  open floats use {Float, less, at_most, ratio}

  -- The errors of a session: too few bits with equal bases, or what the source reports.
  abbrev pub Names : QkdError → Type 0
  Names e = (e ≡ insufficient_sifted_bits) ⊎ IsSourceError next e

  module _ (channel : QuantumChannel floats) where
    -- The number from which a draw of the channel is made.
    abbrev DrawnFrom : Float → Type 0
    DrawnFrom draw = (x : ℕ) × IsDraw next x × (draw ≡ floats.unit_of x)

    -- A number that the source gives, and on which the channel flips.
    abbrev pub CanFlip : Type 0
    CanFlip =
        (x : ℕ) × IsDraw next x × (less (floats.unit_of x) channel.bit_flip_probability ≡ true)

    -- The bit that Alice sends, and what Bob reads of it in the same basis.
    abbrev pub Sent : ℕ → ℕ → Type 0
    Sent a b = (a < 2) × ((a ≡ b) ⊎ CanFlip)

    abbrev pub SentPair : Option (ℕ × ℕ) → Type 0
    SentPair none = Unit {0}
    SentPair (some pair) = Sent pair.0 pair.1

    abbrev pub AllSent : Bytes → Bytes → Type 0
    AllSent [] [] = Unit {0}
    AllSent [] (b ∷ ys) = ⊥
    AllSent (a ∷ xs) [] = ⊥
    AllSent (a ∷ xs) (b ∷ ys) = Sent a b × AllSent xs ys

    AllSent-append :
        (xs ys : Bytes) (a b : ℕ) → AllSent xs ys → Sent a b → AllSent (xs ++ a ∷ []) (ys ++ b ∷ [])
    AllSent-append [] [] a b h s = (s, tt)
    AllSent-append [] (y ∷ ys) a b h s = absurd h
    AllSent-append (x ∷ xs) [] a b h s = absurd h
    AllSent-append (x ∷ xs) (y ∷ ys) a b h s = (h.0, AllSent-append xs ys a b h.1 s)

    pub length-AllSent : (xs ys : Bytes) → AllSent xs ys → length xs ≡ length ys
    length-AllSent [] [] h = refl
    length-AllSent [] (b ∷ ys) h = absurd h
    length-AllSent (a ∷ xs) [] h = absurd h
    length-AllSent (a ∷ xs) (b ∷ ys) h = ap suc (length-AllSent xs ys h.1)

    pub AllSent-bits : (xs ys : Bytes) → AllSent xs ys → All (λ a. a < 2) xs
    AllSent-bits [] ys h = tt
    AllSent-bits (a ∷ xs) [] h = absurd h
    AllSent-bits (a ∷ xs) (b ∷ ys) h = (h.0.0, AllSent-bits xs ys h.1)

    pub AllSent-same : (xs ys : Bytes) → AllSent xs ys → (xs ≡ ys) ⊎ CanFlip
    AllSent-same [] [] h = inl refl
    AllSent-same [] (b ∷ ys) h = absurd h
    AllSent-same (a ∷ xs) [] h = absurd h
    AllSent-same (a ∷ xs) (b ∷ ys) h = elim h.0.1 [
      | inr flips ↦ inr flips
      | inl e ↦ elim (AllSent-same xs ys h.1) [
        | inr flips ↦ inr flips
        | inl rest ↦ inl (rw (e, rest))
      ]
    ]

    pub named : (e : QkdError) → IsSourceError next e → Names e
    named e h = inr h

    next_bit-Returns : (s : S) → Returns Names (λ b. b < 2) (next_bit next s)
    unfolding next_bit
    next_bit-Returns s =
        Returns-resume Names (IsDraw next) (λ b. b < 2) (next_u64 next s) (λ x. pure (x % 2))
          (Returns-IsDraw Names next s named) (λ x t h. omega arith)

    random-Returns : (s : S) → Returns Names (λ (b : Basis). Unit {0}) (random next s)
    unfolding random
    random-Returns s =
        Returns-resume Names (λ b. b < 2) (λ (b : Basis). Unit {0}) (next_bit next s)
          (λ b. pure (if b == 0 then rectilinear else diagonal)) (next_bit-Returns s) (λ b t h. tt)

    maybe_flip-Returns :
        (bit : ℕ) (s : S)
        → Returns Names (λ b. (bit ≡ b) ⊎ CanFlip) (maybe_flip floats channel next bit s)
    unfolding maybe_flip next_unit_f64
    maybe_flip-Returns bit s =
        Returns-resume Names DrawnFrom (λ b. (bit ≡ b) ⊎ CanFlip) (next_unit_f64 floats next s)
          (λ draw. pure (if less draw channel.bit_flip_probability then xor 8 bit 1 else bit))
          (Returns-resume Names (IsDraw next) DrawnFrom (next_u64 next s)
            (λ x. pure (floats.unit_of x)) (Returns-IsDraw Names next s named)
            (λ x t h. (x, h, refl)))
          λ draw t (x, h, from). elim (Bool-cases (less draw channel.bit_flip_probability)) [
            | inl flips ↦
                inr (x, h, ap (λ d. less d channel.bit_flip_probability) (sym from) ∙ flips)
            | inr stays ↦ inl (rw stays)
          ]

    receive-Returns :
        (a : ℕ) (p q : Basis) (s : S)
        → a < 2
        → Returns Names SentPair (receive floats channel next a p q s)
    unfolding receive
    receive-Returns a p q s bit = elim (Bool-cases (basis_eq p q)) [
      | inl same ↦ rw same (
          Returns-resume Names (λ b. (a ≡ b) ⊎ CanFlip) SentPair
            (maybe_flip floats channel next a s) (λ b. pure (some (a, b))) (maybe_flip-Returns a s)
            (λ b t h. (bit, h)))
      | inr other ↦ rw other (
          Returns-resume Names (λ b. b < 2) SentPair (next_bit next s)
            (λ x. maybe_flip floats channel next x >>= λ b. pure none) (next_bit-Returns s)
            λ x t h.
              Returns-resume Names (λ b. (x ≡ b) ⊎ CanFlip) SentPair
                (maybe_flip floats channel next x t) (λ b. pure none) (maybe_flip-Returns x t)
                (λ b u g. tt))
    ]

    transmit-Returns : (s : S) → Returns Names SentPair (transmit floats channel next s)
    unfolding transmit
    transmit-Returns s =
        Returns-resume Names (λ b. b < 2) SentPair (next_bit next s)
          (λ a. random next >>= λ p. random next >>= receive floats channel next a p)
          (next_bit-Returns s)
          λ a t bit.
            Returns-resume Names (λ (b : Basis). Unit {0}) SentPair (random next t)
              (λ p. random next >>= receive floats channel next a p) (random-Returns t)
              λ p u h.
                Returns-resume Names (λ (b : Basis). Unit {0}) SentPair (random next u)
                  (receive floats channel next a p) (random-Returns u)
                  (λ q v g. receive-Returns a p q v bit)

    -- The bits of a transmission of at most `n` qubits.
    abbrev pub Sifted : ℕ → Bytes × Bytes → Type 0
    Sifted n pair = AllSent pair.0 pair.1 × (length pair.0 ≤ n)

    push-Sifted :
        (n : ℕ) (pair : Bytes × Bytes) (o : Option (ℕ × ℕ))
        → Sifted n pair
        → SentPair o
        → Sifted (n + 1) (push floats pair o)
    push-Sifted n pair none h s = (h.0, omega (arith, h.1))
    push-Sifted n pair (some (a, b)) h s =
        (AllSent-append pair.0 pair.1 a b h.0 s, omega (arith, h.1, length-append pair.0 (a ∷ [])))

    pub transmit_loop-Returns :
        (n k : ℕ) (pair : Bytes × Bytes) (s : S)
        → Sifted k pair
        → Returns Names (Sifted (k + n)) (transmit_loop floats channel next n pair s)
    unfolding transmit_loop
    transmit_loop-Returns zero k pair s h = (h.0, omega (arith, h.1))
    transmit_loop-Returns (suc n) k pair s h =
        Returns-resume Names SentPair (Sifted (k + suc n)) (transmit floats channel next s)
          (λ o. transmit_loop floats channel next n (push floats pair o)) (transmit-Returns s)
          λ o t sent.
            let rest =
              transmit_loop-Returns n (k + 1) (push floats pair o) t
                (push-Sifted k pair o h sent) in
            subst
              (λ m.
                Returns Names (Sifted m)
                  (transmit_loop floats channel next n (push floats pair o) t))
              (omega arith) rest
