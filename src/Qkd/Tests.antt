-- ===== src/Qkd/Tests.antt =====
-- A session with fractions in the place of `f64`.
use abir_guard.Base.{
  ℕ, ◌*◌, ◌^◌, ◌≡◌, refl, Option, none, some, [], ◌∷◌, Bytes, ltb, leb, ok, tabulate, arith,
}
use abir_guard.Base.Numbers.{xor}
use abir_guard.Qkd
use abir_guard.Qkd.{
  Floats, QuantumChannel, QkdParameters, QkdSessionReport, Bb84Simulator, XorShift64, from_seed,
  xor_shift_next, new, run, insufficient_sifted_bits,
}
use abir_guard.Qkd.Runs.{Returns}
use abir_guard.Qkd.Sifting.{Names, CanFlip}
use abir_guard.Qkd.Session.{IsReport, run-IsReport}

abbrev fractions : Floats
fractions = record {
  Float = ℕ × ℕ;
  unit_of = λ x. (x, 2 ^ 64);
  ratio = λ a b. (a, b);
  less = λ x y. ltb (x.0 * y.1) (y.0 * x.1);
  at_most = λ x y. leb (x.0 * y.1) (y.0 * x.1);
  in_unit = λ x. leb x.0 x.1;
}

program : Unit {0}
unfolding xor tabulate xor_shift_next new run Qkd.next_bit Qkd.random Qkd.swap Qkd.shuffle_loop
    Qkd.random_unique_indices Qkd.mark Qkd.count_mismatches Qkd.unsampled Qkd.next_unit_f64
    Qkd.maybe_flip Qkd.receive Qkd.transmit Qkd.transmit_loop Qkd.figures Qkd.estimate
program = tt

abbrev params : QkdParameters fractions
params = record { qubit_count = 12; sample_size = 2; max_qber = (11, 100) }

abbrev quiet : QuantumChannel fractions
quiet = record { bit_flip_probability = (0, 1) }

quiet_never_flips : ¬ CanFlip fractions xor_shift_next quiet
quiet_never_flips flips = (let few = flips.2 in absurd (ground arith))

abbrev simulator : Bb84Simulator fractions
simulator = record { params = params; channel = quiet }

simulator_made : new fractions params quiet ≡ ok simulator
unfolding program
simulator_made = refl

run-IsReport_example :
    Returns
      (Names fractions xor_shift_next)
      (IsReport fractions xor_shift_next quiet params)
      (run fractions simulator xor_shift_next (from_seed 7))
run-IsReport_example =
    run-IsReport fractions xor_shift_next params quiet simulator (from_seed 7) simulator_made

-- Five of twelve bits are sifted, two of them are compared, and three make the key.
abbrev figures_of : QkdSessionReport fractions → ℕ × ℕ × Bytes
figures_of r = (r.sifted_bits, r.mismatches, r.final_key_bits)

session : Option (ℕ × ℕ × Bytes)
session = elim (run fractions simulator xor_shift_next (from_seed 7)) [
  | some (g, ok r) ↦ some (figures_of r)
  | _ ↦ none
]

session_figures : session ≡ some (5, 0, 1 ∷ 1 ∷ 0 ∷ [])
unfolding program session
session_figures = refl
