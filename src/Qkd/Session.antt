-- ===== src/Qkd/Session.antt =====
-- src/qkd/mod.rs: the outcome of a whole session over any entropy source.
use abir_guard.Base.{
  ℕ, ◌+◌, ◌≤◌, ◌<◌, ◌≡◌, ◌⊎◌, inl, inr, refl, sym, ap, ◌∙◌, false, some, List, [], Bytes, length,
  subst, replicate, All, ltb, if◌then◌else◌, ok, arith, Bool-cases,
}
use abir_guard.Qkd.{
  insufficient_sifted_bits, Floats, Source, throw, QuantumChannel, QkdParameters, QkdSessionReport,
  Bb84Simulator, new, transmit_loop, figures, estimate, run, random_unique_indices,
  count_mismatches,
}
use abir_guard.Qkd.Runs.{Returns, Returns-resume}
use abir_guard.Qkd.Sample.{IsSample, IsBelow, random_unique_indices-IsSample}
use abir_guard.Qkd.Estimate.{
  fresh_flags, unmarked-replicate, mark_lem, count_mismatches_lem, count_mismatches_same,
  unsampled_lem,
}
use abir_guard.Qkd.Sifting.{
  Names, CanFlip, AllSent, Sifted, length-AllSent, AllSent-bits, AllSent-same, named,
  transmit_loop-Returns,
}

module _ (floats : Floats) {S : Type 0} (next : Source S) where
  open floats use {Float, less, at_most, ratio}

  module _ (channel : QuantumChannel floats) where
    no_mismatch :
        (xs ys : Bytes) (indices : List ℕ) (m : ℕ)
        → AllSent floats next channel xs ys
        → IsBelow (length xs) indices
        → count_mismatches xs ys indices ≡ some m
        → (m ≡ 0) ⊎ CanFlip floats next channel
    no_mismatch xs ys indices m sent below counting =
        elim (AllSent-same floats next channel xs ys sent) [
          | inr flips ↦ inr flips
          | inl same ↦
              let none_here = count_mismatches_same xs indices below in
              let same_count : some m ≡ some 0 =
                sym counting ∙ ap (λ zs. count_mismatches xs zs indices) (sym same) ∙ none_here in
              inl (ground arith)
        ]

    -- What holds of the report of a session with some parameters.
    abbrev pub IsReport : QkdParameters floats → QkdSessionReport floats → Type 0
    IsReport params r =
        (r.raw_bits ≡ params.qubit_count)
        × (r.sifted_bits ≤ r.raw_bits)
        × (r.sampled_bits ≡ params.sample_size)
        × (length r.final_key_bits + r.sampled_bits ≡ r.sifted_bits)
        × All (λ b. b < 2) r.final_key_bits
        × (r.mismatches ≤ r.sampled_bits)
        × ((r.mismatches ≡ 0) ⊎ CanFlip floats next channel)
        × (r.accepted ≡ at_most (ratio r.mismatches params.sample_size) params.max_qber)

    figures-Returns :
        (params : QkdParameters floats) (pair : Bytes × Bytes) (indices : List ℕ) (s : S)
        → Sifted floats next channel params.qubit_count pair
        → IsSample
            (Names floats next)
            next
            (named floats next channel)
            (length pair.0)
            params.sample_size
            indices
        → Returns (Names floats next) (IsReport params) (figures floats params pair indices s)
    unfolding figures
    figures-Returns params (xs, ys) indices s (sent, few) (size, below, distinct) =
        let n = length xs in
        let (all_unmarked, flags_size) = unmarked-replicate n in
        let (marked, marking, marked_size, left) =
          mark_lem (replicate n false) indices (fresh_flags n indices below) distinct in
        let (m, counting, small) =
          count_mismatches_lem xs ys indices (length-AllSent floats next channel xs ys sent)
            below in
        let (key, keeping, key_size, bits) =
          unsampled_lem (λ b. b < 2) [] marked xs (omega arith)
            (AllSent-bits floats next channel xs ys sent) in
        rw (marking, counting, keeping)
          (
            refl,
            few,
            refl,
            omega arith,
            bits,
            omega arith,
            no_mismatch xs ys indices m sent below counting,
            refl,
          )

    estimate-Returns :
        (params : QkdParameters floats) (pair : Bytes × Bytes) (s : S)
        → 0 < params.sample_size
        → params.sample_size ≤ length pair.0
        → Sifted floats next channel params.qubit_count pair
        → Returns (Names floats next) (IsReport params) (estimate floats params next pair s)
    unfolding estimate
    estimate-Returns params pair s sampled enough sifted =
        let n = length pair.0 in
        Returns-resume (Names floats next)
          (IsSample (Names floats next) next (named floats next channel) n params.sample_size)
          (IsReport params) (random_unique_indices next n params.sample_size s)
          (figures floats params pair)
          (random_unique_indices-IsSample (Names floats next) next (named floats next channel) n
            params.sample_size s (omega arith) enough)
          (λ indices t sample. figures-Returns params pair indices t sifted sample)

  new-fields :
      (params : QkdParameters floats) (channel : QuantumChannel floats)
      {simulator : Bb84Simulator floats}
      → new floats params channel ≡ ok simulator
      → (simulator ≡ record { params = params; channel = channel }) × (0 < params.sample_size)
  unfolding new
  new-fields params channel h = ground arith

  -- A session of a simulator that `new` has made, over any entropy source, never panics. It ends
  -- with an error of the source, with too few sifted bits, or with a report in which the sampled
  -- bits and those of the key make up the sifted ones, which are at most as many as the qubits;
  -- the key is of bits; the mismatches are at most as many as the samples, and there is none
  -- unless the source gives, in some state, a number whose fraction is less than the channel's
  -- probability of a flip; and the session is accepted exactly if the rate of mismatches is at most
  -- `max_qber`.
  pub run-IsReport :
      (params : QkdParameters floats) (channel : QuantumChannel floats)
      (simulator : Bb84Simulator floats) (s : S)
      → new floats params channel ≡ ok simulator
      → Returns (Names floats next) (IsReport channel params) (run floats simulator next s)
  unfolding run
  run-IsReport params channel simulator s made =
      let (same, sampled) = new-fields params channel made in
      let n = params.qubit_count in
      rw same (
        Returns-resume (Names floats next) (Sifted floats next channel n) (IsReport channel params)
          (transmit_loop floats channel next n ([], []) s)
          (λ sifted.
            if ltb (length sifted.0) params.sample_size
            then throw insufficient_sifted_bits
            else estimate floats params next sifted)
          (subst
            (λ m.
              Returns (Names floats next) (Sifted floats next channel m)
                (transmit_loop floats channel next n ([], []) s))
            (omega arith)
            (transmit_loop-Returns floats next channel n 0 ([], []) s (tt, omega arith)))
          λ sifted t good. elim (Bool-cases (ltb (length sifted.0) params.sample_size)) [
            | inl few ↦ rw few (inl refl)
            | inr enough ↦
                rw enough (estimate-Returns channel params sifted t sampled (ground arith) good)
          ])
