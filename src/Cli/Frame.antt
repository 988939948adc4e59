-- ===== src/Cli/Frame.antt =====
-- src/main.rs: what the commands leave of the files of keys.
pub mod Each
use mathlib.Core.Option
use abir_guard.Base.{
  ◌≡◌, refl, Bool, true, false, inl, inr, ◌⊎◌, Option, none, some, [], ◌∷◌, ◌++◌, Bytes, Str, str,
  Result, ok, err, ltb, length, ◌*◌,
}
use abir_guard.Base.Maybe.{◌>>=◌}
use abir_guard.MlDsa
use abir_guard.QuantumKernel
use abir_guard.QuantumKernel.{Ciphertext, Vault}
use abir_guard.PersistentVault.{get_vault, store_encrypted, retrieve_decrypted}
use abir_guard.PersistentVault.Signing.{list_mldsa_keys}
use abir_guard.Cli
use abir_guard.Cli.Shares
use abir_guard.Cli.Mldsa
use abir_guard.Cli.KeyId.{validate_key_id}
use abir_guard.Cli.{Host, Disk, Command, Lines, or_exit}
use abir_guard.Cli.Main.{
  Commands, init, encrypt, decrypt, list_keys, delete_key, clear_cache, mcp_server, shamir_split,
  shamir_join, mldsa_init, mldsa_sign, mldsa_verify, mldsa_list, info, Process, main, command_of,
  get_passphrase, without_files, usage_lines, info_lines, run_server, message_or_line,
}

-- The commands that write the file of the vault.
abbrev pub writes_keys : Option Commands → Bool
writes_keys (some (init key_id)) = true
writes_keys (some (encrypt key_id message)) = true
writes_keys (some (delete_key key_id)) = true
writes_keys (some clear_cache) = true
writes_keys command = false

-- The commands that write the file of the ML-DSA keys.
abbrev pub writes_mldsa_keys : Option Commands → Bool
writes_mldsa_keys (some (mldsa_init key_id)) = true
writes_mldsa_keys (some clear_cache) = true
writes_mldsa_keys command = false

-- The files of a command that may write one, the other or neither, and nothing where it fails.
pub record IsFramed (keys mldsa_keys : Bool) (before : Disk) (r : Disk × Result Lines Lines)
    : Type 0 where
  pub same_keys : (keys ≡ true) ⊎ (r.0.keys ≡ before.keys)
  pub same_mldsa_keys : (mldsa_keys ≡ true) ⊎ (r.0.mldsa_keys ≡ before.mldsa_keys)
  pub undone : ((lines : Lines) × (r.1 ≡ ok lines)) ⊎ (r.0 ≡ before)

-- A command that panics has no outcome to speak of.
abbrev pub EachFramed : Bool → Bool → Disk → Option (Disk × Result Lines Lines) → Type 0
EachFramed keys mldsa_keys before none = Unit {0}
EachFramed keys mldsa_keys before (some r) = IsFramed keys mldsa_keys before r

pub unchanged :
    (keys mldsa_keys : Bool) (before : Disk) (outcome : Result Lines Lines)
    → IsFramed keys mldsa_keys before (before, outcome)
unchanged keys mldsa_keys before outcome = record {
  same_keys = inr refl;
  same_mldsa_keys = inr refl;
  undone = inr refl;
}

pub keys_written :
    (mldsa_keys : Bool) (before : Disk) (file : Option Bytes) (lines : Lines)
    → IsFramed true mldsa_keys before (record before { keys = file }, ok lines)
keys_written mldsa_keys before file lines = record {
  same_keys = inl refl;
  same_mldsa_keys = inr refl;
  undone = inl (lines, refl);
}

module _ (keys mldsa_keys : Bool) (before : Disk) where
  pub after_some :
      {A : Type 0} (o : Option A) (rest : A → Option (Disk × Result Lines Lines))
      → ((x : A) → EachFramed keys mldsa_keys before (rest x))
      → EachFramed keys mldsa_keys before (o >>= rest)
  after_some none rest each = tt
  after_some (some x) rest each = each x

  pub elim_some :
      {A : Type 0} (o : Option A) (rest : A → Option (Disk × Result Lines Lines))
      → ((x : A) → EachFramed keys mldsa_keys before (rest x))
      → EachFramed keys mldsa_keys before (elim o [ none ↦ none | some x ↦ rest x ])
  elim_some none rest each = tt
  elim_some (some x) rest each = each x

  pub mapped :
      {A : Type 0} (o : Option A) (f : A → Disk × Result Lines Lines)
      → ((x : A) → IsFramed keys mldsa_keys before (f x))
      → EachFramed keys mldsa_keys before (Option.map f o)
  mapped none f each = tt
  mapped (some x) f each = each x

  pub or_exit-EachFramed :
      (r : Result Str (Unit {0})) (prefix : Str) (rest : Command)
      → EachFramed keys mldsa_keys before (rest before)
      → EachFramed keys mldsa_keys before (or_exit r prefix rest before)
  or_exit-EachFramed (ok done) prefix rest framed = framed
  or_exit-EachFramed (err e) prefix rest framed = unchanged keys mldsa_keys before _

  pub exit_if-EachFramed :
      (b : Bool) (line : Str) (rest : Command)
      → EachFramed keys mldsa_keys before (rest before)
      → EachFramed keys mldsa_keys before (Cli.exit_if b line rest before)
  exit_if-EachFramed true line rest framed = unchanged keys mldsa_keys before _
  exit_if-EachFramed false line rest framed = framed

  pub without_files-EachFramed :
      (o : Option (Result Lines Lines)) → EachFramed keys mldsa_keys before (without_files o before)
  without_files-EachFramed none = tt
  without_files-EachFramed (some outcome) = unchanged keys mldsa_keys before outcome
