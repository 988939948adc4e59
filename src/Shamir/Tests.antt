-- ===== src/Shamir/Tests.antt =====
-- Runs of the scheme on small inputs.
use abir_guard.Base.{
  ℕ, ◌+◌, ◌*◌, ◌%◌, ◌^◌, ◌≡◌, refl, ◌≢◌, arith, List, [], ◌∷◌, ◌++◌, Bytes, Str, str, Result, ok,
  err, none, some, get_elem?, tabulate,
}
use abir_guard.Shamir.{
  Share, split, split_loop, write_shares, write_at, coefficients, eval_loop, get_random_bytes,
  empty_share, reconstruct, reconstruct_loop, byte_loop, basis_loop, gf_inv, gf_inv_loop,
}
use abir_guard.Shamir.Inverse.{gf_inv_loop-pow}
use abir_guard.Shamir.Secret.{pick, reconstruct-split}
use abir_guard.Shamir.Texts.{decode_share}
use abir_guard.Shamir.Leak.{share-ne-secret}

program : Unit {0}
unfolding split split_loop write_shares write_at coefficients eval_loop get_random_bytes empty_share
    reconstruct reconstruct_loop byte_loop basis_loop gf_inv gf_inv_loop tabulate
program = tt

abbrev noise : ℕ → ℕ → ℕ
noise call pos = (call * 7 + pos * 13 + 5) % 256

abbrev secret : Bytes
secret = 97 ∷ 0 ∷ 250 ∷ []

abbrev first : Share
first = record { index = 1; data_bytes = 103 ∷ 13 ∷ 19 ∷ [] }

abbrev two_shares : List Share
two_shares = first ∷ record { index = 2; data_bytes = 109 ∷ 26 ∷ 39 ∷ [] } ∷ []

dealt_shares : split noise secret 2 2 ≡ some two_shares
unfolding program
dealt_shares = refl

recovered : reconstruct two_shares ≡ some secret
unfolding program
recovered = refl

one_is_not_enough : reconstruct (record { index = 1; data_bytes = 103 ∷ [] } ∷ []) ≡ some (103 ∷ [])
unfolding program
one_is_not_enough = refl

-- Two shares at the same point: the code inverts zero.
same_point :
    reconstruct
      (record { index = 1; data_bytes = 5 ∷ [] } ∷ record { index = 1; data_bytes = 6 ∷ [] } ∷ [])
    ≡ none
unfolding program
same_point = refl

reconstruct-split_example :
    (shares ss : List Share) × (split noise secret 2 3 ≡ some shares)
    × (pick shares (2 ∷ 0 ∷ []) ≡ some ss)
    × (reconstruct ss ≡ some secret)
reconstruct-split_example =
    reconstruct-split noise secret 2 3 (2 ∷ 0 ∷ []) (omega arith) (omega arith) (omega arith)
      (omega arith) (omega arith) (omega arith)

gf_inv_loop-pow_example : gf_inv_loop 250 1 7 249 ≡ some (1 * 7 ^ 249 % 251)
gf_inv_loop-pow_example = gf_inv_loop-pow 250 1 7 249 (omega arith) (omega arith) (omega arith)

-- An encoding that is its own inverse.
abbrev plain : Bytes → Str
plain b = b

abbrev plain_back : Str → Result Str Bytes
plain_back t = ok t

no_colon : decode_share plain plain_back (str "1") ≡ err (str "Invalid share format: " ++ str "1")
unfolding decode_share
no_colon = refl

large_index :
    decode_share plain plain_back (str "256:x")
    ≡ err (str "Invalid index: " ++ str "number too large to fit in target type")
unfolding decode_share
large_index = refl

share-ne-secret_example : get_elem? first.data_bytes 0 ≢ some 97
share-ne-secret_example =
    share-ne-secret noise secret 2 0 0 97 {shares = two_shares} {s = first} (omega arith)
      (omega arith) (omega arith) dealt_shares (omega arith) refl refl
