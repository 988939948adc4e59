-- ===== src/QuantumKernel/Tests.antt =====
-- Runs of the vault over the toy ciphers, and witnesses.
use abir_guard.Base.{
  ◌≡◌, refl, ap, true, false, some, List, [], ◌∷◌, ◌++◌, Bytes, str, replicate, bytes_eq, ok, err,
  All, arith,
}
use abir_guard.QuantumKernel
use abir_guard.QuantumKernel.Toy.{tag, toy, toy_opens}
use abir_guard.QuantumKernel.{Crypto, Drawn, Ciphertext, Vault, new, find_key}
use abir_guard.QuantumKernel.Calls.{
  Call, generate_keypair, store, list_keypairs, remove_keypair, run,
}
use abir_guard.QuantumKernel.Kem
use abir_guard.QuantumKernel.Stored.{Leaves, retrieve-store}

program : Unit {0}
unfolding bytes_eq find_key run QuantumKernel.generate_keypair QuantumKernel.store
    QuantumKernel.retrieve QuantumKernel.list_keypairs QuantumKernel.remove_keypair
    QuantumKernel.encrypt QuantumKernel.decrypt QuantumKernel.open_with
    QuantumKernel.find_or_generate
program = tt

abbrev drawn : Drawn
drawn = (1 ∷ [], 2 ∷ 2 ∷ [])

abbrev nonce : Bytes
nonce = replicate 12 7

abbrev calls : List Call
calls =
    generate_keypair (str "k") (3 ∷ [], 4 ∷ [])
    ∷ remove_keypair (str "other")
    ∷ store (str "k2") (9 ∷ []) drawn nonce 3
    ∷ list_keypairs
    ∷ []

calls_leave : All (Leaves (str "k")) calls
calls_leave = (tt, ((λ e. absurd (let x = e in cc)), (tt, (tt, tt))))

calls_clean :
    (run toy calls (QuantumKernel.store toy (str "k") (5 ∷ 6 ∷ []) drawn nonce 3 new).0).poisoned
    ≡ false
unfolding program
calls_clean = refl

retrieve-store_example :
    (ct : Ciphertext) × ((QuantumKernel.store toy (str "k") (5 ∷ 6 ∷ []) drawn nonce 3 new).1
      ≡ some (ok ct))
    × ((QuantumKernel.retrieve toy
          (str "k")
          ct
          4
          (run toy calls (QuantumKernel.store toy (str "k") (5 ∷ 6 ∷ []) drawn nonce 3 new).0)).1
        ≡ some (ok (5 ∷ 6 ∷ [])))
retrieve-store_example =
    retrieve-store toy (λ b. refl) nonce (5 ∷ 6 ∷ [])
      (λ key. ((5 ∷ 6 ∷ []) ++ tag, refl, ap ok (toy_opens (5 ∷ 6 ∷ [])))) refl 3 4 (omega arith)
      (omega arith) (str "k") drawn calls new refl refl calls_leave calls_clean

-- The first of two pairs for one identifier is the one in use.
abbrev twice : Vault
twice =
    run toy
      (generate_keypair (str "k") (1 ∷ [], 2 ∷ [])
        ∷ generate_keypair (str "k") (3 ∷ [], 4 ∷ [])
        ∷ [])
      new

first_in_use : find_key (str "k") twice.keys ≡ some (2 ∷ [])
unfolding program
first_in_use = refl

twice_clean : twice.poisoned ≡ false
unfolding program
twice_clean = refl

abbrev malformed : Ciphertext
malformed = record { nonce = 1 ∷ 2 ∷ []; ciphertext = []; key_id = [] }

-- A toy ML-KEM, whose shared secret is the randomness.
abbrev toy_kem : Kem.MlKem
toy_kem = record {
  is_key = λ pk. true;
  encapsulate = λ pk random. (replicate 1568 0, random);
  decapsulate = λ seed ct. [];
}

short_public_key :
    Kem.encapsulate toy toy_kem (1 ∷ []) 3 (1 ∷ 2 ∷ []) ≡ err (str "Invalid public key length")
unfolding Kem.encapsulate
short_public_key = refl

short_ciphertext :
    Kem.decapsulate toy toy_kem 3 (1 ∷ []) (replicate 64 0) ≡ err (str "Invalid ciphertext length")
unfolding Kem.decapsulate
short_ciphertext = refl
