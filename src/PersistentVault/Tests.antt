-- ===== src/PersistentVault/Tests.antt =====
-- A round trip over toy ciphers and a plain encoding of the keys.
use abir_guard.Base.{
  ◌≡◌, refl, ap, true, false, Option, none, some, List, [], ◌∷◌, ◌++◌, Bytes, Str, str, length,
  length-append, bytes_eq, ok, err, map, arith,
}
use abir_guard.QuantumKernel
use abir_guard.QuantumKernel.Toy.{tag, toy, toy_opens}
use abir_guard.QuantumKernel.{Crypto, Vault, new, find_key}
use abir_guard.QuantumKernel.Calls.{Call, generate_keypair, run}
use abir_guard.PersistentVault.{persist, get_vault}
use abir_guard.MlDsa.{MldsaKeypair}
use abir_guard.PersistentVault.Signing.{
  KeysFile, missing, find_pair, load_mldsa_keys, persist_mldsa_keys, list_mldsa_keys,
  sign_with_vault, verify_with_vault,
}
use abir_guard.PersistentVault.Signing.Roundtrip.{verify_with_vault-sign_with_vault}
use abir_guard.PersistentVault.Toy.{
  env, write_all, read_all-write_all, write_pairs_text, read_pairs_text-write_pairs_text,
  pairs_text, toy_crate, toy_pair, Signs-toy_pair,
}
use abir_guard.PersistentVault.Reload.{find_last, persist-get_vault}

abbrev calls : List Call
calls =
    generate_keypair (str "k") (1 ∷ [], 2 ∷ []) ∷ generate_keypair (str "k") (3 ∷ [], 4 ∷ []) ∷ []

program : Unit {0}
unfolding bytes_eq find_key run QuantumKernel.generate_keypair
program = tt

clean : (run toy calls new).poisoned ≡ false
unfolding program
clean = refl

persist-get_vault_example :
    (file' : Option Bytes) × (w : Vault) × (persist toy env (run toy calls new) (str "pass") none
      ≡ some file')
    × (get_vault toy env file' (str "pass") ≡ some w)
    × (w.poisoned ≡ false)
    × (find_key (str "k") w.keys ≡ find_last (str "k") (run toy calls new).keys)
persist-get_vault_example =
    persist-get_vault toy env (str "pass") refl
      (λ plain.
        (plain ++ tag, refl, ap ok (toy_opens plain), omega (arith, length-append plain tag)))
      refl refl calls (str "k") none (λ b. refl)
      (λ ks. (length ks ∷ write_all ks, refl, ap some (read_all-write_all ks))) refl clean

-- The pair in use before is not the one in use after.
first_before : find_key (str "k") (run toy calls new).keys ≡ some (2 ∷ [])
unfolding program
first_before = refl

second_after : find_last (str "k") (run toy calls new).keys ≡ some (4 ∷ [])
unfolding program
second_after = refl

abbrev pairs : List (Str × MldsaKeypair)
pairs = (str "s", toy_pair) ∷ []

found_pair : find_pair (str "s") pairs ≡ some toy_pair
unfolding find_pair bytes_eq
found_pair = refl

no_file :
    load_mldsa_keys toy toy_crate env pairs_text (str "pass") missing
    ≡ some (err (str "ML-DSA keys file not found"))
unfolding load_mldsa_keys
no_file = refl

verify_with_vault-sign_with_vault_example :
    (file' : KeysFile) × (signature : Bytes) × (persist_mldsa_keys toy toy_crate env pairs_text
        pairs
        (str "pass")
        missing
      ≡ some (file', ok tt))
    × (list_mldsa_keys toy toy_crate env pairs_text (str "pass") file'
        ≡ some (ok (map (λ (id, pair). id) pairs)))
    × (sign_with_vault toy toy_crate env pairs_text (str "s") (1 ∷ 2 ∷ []) (str "pass") file'
        ≡ some (ok signature))
    × (verify_with_vault toy toy_crate env pairs_text
          (str "s")
          (1 ∷ 2 ∷ [])
          signature
          (str "pass")
          file'
        ≡ some (ok true))
verify_with_vault-sign_with_vault_example =
    verify_with_vault-sign_with_vault toy toy_crate env pairs_text (λ b. refl) (str "pass") refl
      (λ plain.
        (plain ++ tag, refl, ap ok (toy_opens plain), omega (arith, length-append plain tag)))
      refl refl
      (λ ks. (length ks ∷ write_pairs_text ks, refl, ap ok (read_pairs_text-write_pairs_text ks)))
      refl refl pairs missing (str "s") toy_pair (1 ∷ 2 ∷ []) found_pair Signs-toy_pair
