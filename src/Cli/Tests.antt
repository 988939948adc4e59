-- ===== src/Cli/Tests.antt =====
-- Runs of the commands over toy ciphers, and witnesses.
use abir_guard.Base.{
  Result, ◌*◌, ◌%◌, ◌+◌, ◌≡◌, ◌≢◌, ◌↔◌, refl, ap, arith, true, false, ◌&&◌, none, some, List, [],
  ◌∷◌, ◌++◌, Str, str, leb, bytes_eq, bytes_eq_iff, length, length-append, replicate, ok, err,
}
use abir_guard.Shamir.{Share}
use abir_guard.Shamir.Secret.{pick}
use abir_guard.QuantumKernel.{Ciphertext, Vault}
use abir_guard.QuantumKernel
use abir_guard.QuantumKernel.Toy.{tag, toy, toy_opens}
use abir_guard.PersistentVault.{get_vault}
use abir_guard.PersistentVault.Signing.{missing, no_key}
use abir_guard.PersistentVault.Toy.{
  env, write_all, read_all-write_all, write_pairs_text, read_pairs_text-write_pairs_text,
  pairs_text, toy_crate, toy_pair,
}
use abir_guard.Cli
use abir_guard.Cli.{Host, Disk}
use abir_guard.Cli.KeyId.{
  IsKeyId, validate_key_id, validate_key_id-IsKeyId, has_foreign, starts_with_reserved,
}
use abir_guard.Base.Json.{null}
use abir_guard.McpGateway
use abir_guard.McpGateway.{Draws, McpRequest}
use abir_guard.Cli.Server.{
  run_stdio_server, lines_of, answers, requests_of, run_stdio_server-answers,
}
use abir_guard.Cli.Main.{delete_key, Process, main}
use abir_guard.Cli.Frame.{EachFramed}
use abir_guard.Cli.Frame.Each.{main-EachFramed}
use abir_guard.Cli.Session.{Chance, other_run, decrypt_of_encrypt}
use abir_guard.Cli.Shares.{
  split_lines, texts_of, shamir_split, shamir_join, shamir_split_outcome, SplitOutcome,
  shamir_join-shamir_split,
}
use abir_guard.Cli.Mldsa.{
  generated_lines, stored_lines, sign_lines, mldsa_init, mldsa_sign, mldsa_list,
  mldsa_init_overwrites,
}

abbrev host : Host
host = record {
  crypto = toy;
  crate = toy_crate;
  env = env;
  text = pairs_text;
  lossy = λ b. b;
  chars = λ t. t;
  is_alphanumeric = λ c. leb 97 c && leb c 122;
  fill = λ call pos. (call * 7 + pos * 13 + 5) % 256;
  removable = true;
  drawn = (1 ∷ [], 2 ∷ 2 ∷ []);
  nonce = replicate 12 9;
  elapsed = 3;
}

abbrev new_disk : Disk
new_disk = record { keys = none; mldsa_keys = missing }

program : Unit {0}
unfolding validate_key_id has_foreign starts_with_reserved bytes_eq get_vault
program = tt

bad_key :
    validate_key_id host.chars host.is_alphanumeric (str "bad key!")
    ≡ err (str "key_id must be alphanumeric, hyphens, or underscores only")
unfolding program
bad_key = refl

reserved_key :
    validate_key_id host.chars host.is_alphanumeric (str "__x")
    ≡ err (str "key_id cannot start with __ (reserved for system)")
unfolding program
reserved_key = refl

no_file_to_load : get_vault toy env none (str "pass") ≡ some QuantumKernel.new
unfolding program
no_file_to_load = refl

validate_key_id-IsKeyId_example :
    (validate_key_id host.chars host.is_alphanumeric (str "a-b") ≡ ok tt)
    ↔ IsKeyId host.chars host.is_alphanumeric (str "a-b")
validate_key_id-IsKeyId_example =
    validate_key_id-IsKeyId host.chars host.is_alphanumeric (str "a-b")

a_valid : IsKeyId host.chars host.is_alphanumeric (str "a")
unfolding program
a_valid = (validate_key_id-IsKeyId host.chars host.is_alphanumeric (str "a")).0 refl

b_valid : IsKeyId host.chars host.is_alphanumeric (str "b")
unfolding program
b_valid = (validate_key_id-IsKeyId host.chars host.is_alphanumeric (str "b")).0 refl

-- A later run, which draws other numbers and cannot write.
abbrev chance : Chance
chance = record {
  salt = [];
  file_nonce = replicate 12 8;
  writable = false;
  fill = λ call pos. 0;
  removable = false;
  drawn = (7 ∷ [], 8 ∷ []);
  nonce = replicate 12 4;
  elapsed = 150;
}

decrypt_of_encrypt_example :
    (ct : Ciphertext) × (disk' : Disk) × (Cli.encrypt host
        (str "pass")
        (str "a")
        (5 ∷ 6 ∷ [])
        new_disk
      ≡ some (disk', ok ((str "Ciphertext: " ++ ct.ciphertext) ∷ (str "Nonce: " ++ ct.nonce) ∷ [])))
    × (Cli.decrypt (other_run host chance) (str "pass") (str "a") ct.ciphertext ct.nonce disk'
        ≡ some (disk', ok ((5 ∷ 6 ∷ []) ∷ [])))
decrypt_of_encrypt_example =
    decrypt_of_encrypt host (str "pass") (str "a") (5 ∷ 6 ∷ []) new_disk QuantumKernel.new refl
      (λ plain.
        (plain ++ tag, refl, ap ok (toy_opens plain), omega (arith, length-append plain tag)))
      refl refl (λ b. refl)
      (λ ks. (length ks ∷ write_all ks, refl, ap some (read_all-write_all ks))) refl
      (λ k. ((5 ∷ 6 ∷ []) ++ tag, refl, ap ok (toy_opens (5 ∷ 6 ∷ [])))) refl (omega arith) chance
      (omega arith) refl a_valid (omega arith) refl no_file_to_load

abbrev secret : Str
secret = 97 ∷ 0 ∷ 250 ∷ []

-- Three shares are printed.
shamir_split_outcome_example : SplitOutcome host secret 2 3 (shamir_split host secret 2 3)
shamir_split_outcome_example = shamir_split_outcome host secret 2 3 (omega arith)

shamir_join-shamir_split_example :
    (dealt ss : List Share) × (shamir_split host secret 2 3
      ≡ some (ok (split_lines secret 2 3 (texts_of host dealt))))
    × (pick dealt (2 ∷ 0 ∷ []) ≡ some ss)
    × (shamir_join host (texts_of host ss) ≡ some (ok (secret ∷ [])))
shamir_join-shamir_split_example =
    shamir_join-shamir_split host (λ b. refl) secret 2 3 (2 ∷ 0 ∷ []) (omega arith) (omega arith)
      (omega arith) (omega arith) refl (omega arith) (omega arith)

a-ne-b : str "a" ≢ str "b"
unfolding bytes_eq
a-ne-b e = (let same : false ≡ true = (bytes_eq_iff (str "a") (str "b")).1 e in absurd cc)

mldsa_init_overwrites_example :
    (disk' : Disk) × (mldsa_init host (λ b. b) (λ value. []) (str "pass") (some (str "a")) new_disk
      ≡ some (
        disk',
        ok (
            generated_lines host (λ b. b) (λ value. []) toy_pair
            ++ stored_lines host (λ b. b) (λ value. []) (str "a") toy_pair (ok tt)),
      ))
    × (mldsa_list host (λ b. b) (λ value. []) (str "pass") disk'
        ≡ some (disk', ok (str "Stored ML-DSA keys:" ∷ (str "  - " ++ str "a") ∷ [])))
    × (mldsa_sign host (λ b. b) (λ value. []) (str "pass") (str "b") (some (1 ∷ [])) disk'
        ≡ some (
          disk',
          sign_lines host (λ b. b) (λ value. []) (str "b") (1 ∷ []) (err (no_key (str "b"))),
        ))
mldsa_init_overwrites_example =
    mldsa_init_overwrites host (λ b. b) (λ value. []) (str "pass") refl
      (λ plain.
        (plain ++ tag, refl, ap ok (toy_opens plain), omega (arith, length-append plain tag)))
      refl refl (λ b. refl)
      (λ ks. (length ks ∷ write_pairs_text ks, refl, ap ok (read_pairs_text-write_pairs_text ks)))
      refl refl toy_pair (str "a") (str "b") (1 ∷ []) new_disk refl a_valid b_valid a-ne-b

abbrev process : Process
process = record {
  sha3 = λ b. b;
  value_to_string = λ value. [];
  version = str "3.0.0";
  line = some [];
  input = [];
  is_blank = λ line. false;
  from_str = λ line. err line;
  to_string = λ response. ok [];
}

main-EachFramed_example :
    EachFramed true false new_disk
      (main host process (some (str "pass")) (some (delete_key (str "a"))) new_disk)
main-EachFramed_example =
    main-EachFramed host process (some (str "pass")) (some (delete_key (str "a"))) new_disk

abbrev draws : Draws
draws = record { drawn = (1 ∷ [], 2 ∷ 2 ∷ []); nonce = replicate 12 9; elapsed = 3 }

-- Lines are requests for what follows their first byte; an empty one is malformed.
abbrev from_line : Str → Result Str McpRequest
from_line (c ∷ name) = ok (record { jsonrpc = str "2.0"; id = none; method = name; params = null })
from_line [] = err (str "EOF")

-- A malformed line and a request.
abbrev typed : List (Draws × Result Str Str)
typed = (draws, ok []) ∷ (draws, ok (str "*list_keys")) ∷ []

run_stdio_server-answers_example :
    run_stdio_server toy (λ b. b) (λ line. false) from_line (λ response. ok []) typed McpGateway.new
    ≡ lines_of
        (λ response. ok [])
        (answers toy (λ b. b) (requests_of (λ line. false) from_line typed) McpGateway.new)
run_stdio_server-answers_example =
    run_stdio_server-answers toy (λ b. b) (λ line. false) from_line (λ response. ok []) typed
      McpGateway.new
