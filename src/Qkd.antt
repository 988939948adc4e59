-- ===== src/Qkd.antt =====
-- src/qkd/mod.rs: the BB84 simulation. A run takes an entropy source and returns it with a result;
-- `none` is a panic, of an index that is out of range. The operations on `f64` are a parameter.
pub mod Runs
pub mod Sample
pub mod Estimate
pub mod Sifting
pub mod Session
mod Tests
use abir_guard.Base.{
  ℕ, zero, suc, ◌+◌, ◌-◌, ◌*◌, ◌/◌, ◌%◌, ◌^◌, Bool, true, false, not, Option, none, some, List, [],
  ◌∷◌, ◌++◌, Bytes, ltb, ◌==◌, if◌then◌else◌, length, get_elem?, replicate, tabulate, take, Result,
  ok, err,
}
use mathlib.Core.Option
use abir_guard.Base.Numbers.{xor}

pub data QkdError : Type 0 where
  empty_transmission invalid_sample_size invalid_noise_probability : QkdError
  invalid_max_qber insufficient_sifted_bits entropy_exhausted : QkdError

-- A call with an entropy source of type `S`.
abbrev pub Run : Type 0 → Type 0 → Type 0
Run S A = S → Option (S × Result QkdError A)

abbrev pub resume :
    {S A B : Type 0}
    → Option (S × Result QkdError A)
    → (A → Run S B)
    → Option (S × Result QkdError B)
resume none f = none
resume (some (s, ok a)) f = f a s
resume (some (s, err e)) f = some (s, err e)

infixl 5 ◌>>=◌
abbrev pub ◌>>=◌ : {S A B : Type 0} → Run S A → (A → Run S B) → Run S B
(m >>= f) s = resume (m s) f

abbrev pub pure : {S A : Type 0} → A → Run S A
pure a s = some (s, ok a)

abbrev pub throw : {S A : Type 0} → QkdError → Run S A
throw e s = some (s, err e)

-- What an index gives, or a panic.
abbrev pub or_panic : {S A : Type 0} → Option A → Run S A
or_panic none s = none
or_panic (some a) s = some (s, ok a)

-- `EntropySource`: the next 64 random bits.
abbrev pub Source : Type 0 → Type 0
Source S = S → S × Result QkdError ℕ

abbrev pub next_u64 : {S : Type 0} → Source S → Run S ℕ
next_u64 next s = some (next s)

unfoldable pub next_bit : {S : Type 0} → Source S → Run S ℕ
next_bit next = next_u64 next >>= λ x. pure (x % 2)

-- `f64` as the code uses it.
pub record Floats : Type 1 where
  pub Float : Type 0
  -- `(x as f64) / ((u64::MAX as f64) + 1.0)`
  pub unit_of : ℕ → Float
  -- `(a as f64) / (b as f64)`
  pub ratio : ℕ → ℕ → Float
  pub less : Float → Float → Bool
  pub at_most : Float → Float → Bool
  -- `(0.0..=1.0).contains(&x)`
  pub in_unit : Float → Bool

pub record XorShift64 : Type 0 where
  pub state : ℕ

abbrev pub from_seed : ℕ → XorShift64
from_seed seed = record { state = if seed == 0 then 0x9E3779B97F4A7C15 else seed }

-- `x << k` on `u64`.
abbrev pub shl : ℕ → ℕ → ℕ
shl x k = x * 2 ^ k % 2 ^ 64

unfoldable pub xor_shift_next : Source XorShift64
xor_shift_next g =
    let x = xor 64 g.state (shl g.state 13) in
    let y = xor 64 x (x / 2 ^ 7) in let z = xor 64 y (shl y 17) in (record { state = z }, ok z)

pub data Basis : Type 0 where
  rectilinear diagonal : Basis

-- The derived `PartialEq`.
abbrev pub basis_eq : Basis → Basis → Bool
basis_eq rectilinear rectilinear = true
basis_eq diagonal diagonal = true
basis_eq a b = false

unfoldable pub random : {S : Type 0} → Source S → Run S Basis
unfolding next_bit
random next = next_bit next >>= λ b. pure (if b == 0 then rectilinear else diagonal)

-- `idx.swap(i, j)`: both positions are read, and then written.
abbrev pub set : {A : Type 0} → List A → ℕ → A → List A
set [] i v = []
set (x ∷ xs) zero v = v ∷ xs
set (x ∷ xs) (suc i) v = x ∷ set xs i v

unfoldable pub swap : List ℕ → ℕ → ℕ → Option (List ℕ)
swap idx i j = elim (get_elem? idx i) [
  | none ↦ none
  | some a ↦ elim (get_elem? idx j) [ none ↦ none | some b ↦ some (set (set idx i b) j a) ]
]

-- The rounds of the shuffle for `i` from `k` down to 1.
unfoldable pub shuffle_loop : {S : Type 0} → Source S → ℕ → List ℕ → Run S (List ℕ)
shuffle_loop next zero idx = pure idx
shuffle_loop next (suc k) idx = do
  r ← next_u64 next
  shuffled ← or_panic (swap idx (suc k) (r % (suc k + 1)))
  shuffle_loop next k shuffled

unfoldable pub random_unique_indices : {S : Type 0} → Source S → ℕ → ℕ → Run S (List ℕ)
unfolding shuffle_loop
random_unique_indices next len sample_size = do
  idx ← shuffle_loop next (len - 1) (tabulate len 0 (λ i. i))
  pure (take sample_size idx)

-- `for &idx in &sample_indices { is_sample[idx] = true; }`
unfoldable pub mark : List Bool → List ℕ → Option (List Bool)
mark is_sample [] = some is_sample
mark is_sample (idx ∷ indices) = elim (get_elem? is_sample idx) [
  | none ↦ none
  | some _ ↦ mark (set is_sample idx true) indices
]

-- The number of sampled positions at which the bits differ.
unfoldable pub count_mismatches : Bytes → Bytes → List ℕ → Option ℕ
count_mismatches alice bob [] = some 0
count_mismatches alice bob (i ∷ indices) = elim (get_elem? alice i) [
  | none ↦ none
  | some a ↦ elim (get_elem? bob i) [
    | none ↦ none
    | some b ↦ Option.map (λ n. if a == b then n else n + 1) (count_mismatches alice bob indices)
  ]
]

-- The bits from position `i` on that were not sampled.
unfoldable pub unsampled : List Bool → ℕ → Bytes → Option Bytes
unsampled is_sample i [] = some []
unsampled is_sample i (bit ∷ bits) = elim (get_elem? is_sample i) [
  | none ↦ none
  | some sampled ↦
      Option.map (λ rest. if sampled then rest else bit ∷ rest) (unsampled is_sample (i + 1) bits)
]

module _ (floats : Floats) where
  open floats use {Float, unit_of, ratio, less, at_most, in_unit}

  unfoldable pub next_unit_f64 : {S : Type 0} → Source S → Run S Float
  next_unit_f64 next = next_u64 next >>= λ x. pure (unit_of x)

  pub record QuantumChannel : Type 0 where
    pub bit_flip_probability : Float

  unfoldable pub new_channel : Float → Result QkdError QuantumChannel
  new_channel p =
      if not (in_unit p)
      then err invalid_noise_probability
      else ok (record { bit_flip_probability = p })

  unfoldable pub maybe_flip : {S : Type 0} → QuantumChannel → Source S → ℕ → Run S ℕ
  unfolding next_unit_f64
  maybe_flip channel next bit = do
    draw ← next_unit_f64 next
    pure (if less draw channel.bit_flip_probability then xor 8 bit 1 else bit)

  pub record QkdParameters : Type 0 where
    pub qubit_count : ℕ
    pub sample_size : ℕ
    pub max_qber : Float

  pub record QkdSessionReport : Type 0 where
    pub raw_bits : ℕ
    pub sifted_bits : ℕ
    pub sampled_bits : ℕ
    pub mismatches : ℕ
    pub qber : Float
    pub accepted : Bool
    pub final_key_bits : Bytes

  pub record Bb84Simulator : Type 0 where
    pub params : QkdParameters
    pub channel : QuantumChannel

  unfoldable pub new : QkdParameters → QuantumChannel → Result QkdError Bb84Simulator
  new params channel =
      if params.qubit_count == 0
      then err empty_transmission
      else if params.sample_size == 0
      then err invalid_sample_size
      else if not (in_unit params.max_qber)
      then err invalid_max_qber
      else ok (record { params = params; channel = channel })

  -- What Bob reads of a bit, and what both keep of it.
  unfoldable pub receive :
      {S : Type 0} → QuantumChannel → Source S → ℕ → Basis → Basis → Run S (Option (ℕ × ℕ))
  unfolding next_bit maybe_flip
  receive channel next alice_bit alice_basis bob_basis = do
    ideal_bob_bit ← if basis_eq alice_basis bob_basis then pure alice_bit else next_bit next
    bob_bit ← maybe_flip channel next ideal_bob_bit
    pure (if basis_eq alice_basis bob_basis then some (alice_bit, bob_bit) else none)

  -- One qubit: the bits that both have, where the bases agree.
  unfoldable pub transmit : {S : Type 0} → QuantumChannel → Source S → Run S (Option (ℕ × ℕ))
  unfolding next_bit random receive
  transmit channel next = do
    alice_bit ← next_bit next
    alice_basis ← random next
    bob_basis ← random next
    receive channel next alice_bit alice_basis bob_basis

  -- The bits of both after the round.
  abbrev pub push : Bytes × Bytes → Option (ℕ × ℕ) → Bytes × Bytes
  push sifted none = sifted
  push sifted (some pair) = (sifted.0 ++ pair.0 ∷ [], sifted.1 ++ pair.1 ∷ [])

  unfoldable pub transmit_loop :
      {S : Type 0} → QuantumChannel → Source S → ℕ → Bytes × Bytes → Run S (Bytes × Bytes)
  transmit_loop channel next zero sifted = pure sifted
  transmit_loop channel next (suc n) sifted = do
    pair ← transmit channel next
    transmit_loop channel next n (push sifted pair)

  -- The report for the sampled positions.
  unfoldable pub figures :
      {S : Type 0} → QkdParameters → Bytes × Bytes → List ℕ → Run S QkdSessionReport
  figures params (alice, bob) indices = do
    is_sample ← or_panic (mark (replicate (length alice) false) indices)
    mismatches ← or_panic (count_mismatches alice bob indices)
    final_key_bits ← or_panic (unsampled is_sample 0 alice)
    pure (record {
      raw_bits = params.qubit_count;
      sifted_bits = length alice;
      sampled_bits = params.sample_size;
      mismatches = mismatches;
      qber = ratio mismatches params.sample_size;
      accepted = at_most (ratio mismatches params.sample_size) params.max_qber;
      final_key_bits = final_key_bits;
    })

  -- What follows the transmission.
  unfoldable pub estimate :
      {S : Type 0} → QkdParameters → Source S → Bytes × Bytes → Run S QkdSessionReport
  unfolding figures
  estimate params next pair = do
    indices ← random_unique_indices next (length pair.0) params.sample_size
    figures params pair indices

  unfoldable pub run : {S : Type 0} → Bb84Simulator → Source S → Run S QkdSessionReport
  unfolding estimate
  run simulator next = do
    sifted ← transmit_loop simulator.channel next simulator.params.qubit_count ([], [])
    if ltb (length sifted.0) simulator.params.sample_size
        then throw insufficient_sifted_bits
        else estimate simulator.params next sifted
