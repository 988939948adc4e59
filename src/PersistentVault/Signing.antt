-- ===== src/PersistentVault/Signing.antt =====
-- src/persistent_vault.rs: ML-DSA key pairs on disk, and signing and verifying with them.
-- `none` is a panic, of Argon2id or of the cipher.
pub mod Roundtrip
use mathlib.Core.Option
use abir_guard.Base.{
  ◌+◌, Bool, true, false, Option, none, some, List, [], ◌∷◌, ◌++◌, map, Bytes, Str, str, ltb,
  if◌then◌else◌, bytes_eq, length, take, skip, Result, ok, err, ◌>>=◌, ◌>>◌, map_err, ok_or,
}
use abir_guard.Kdf.{derive_key, derive_key_with_salt, salt_length}
use abir_guard.MlDsa.{MldsaKeypair, Fips204, sign, verify, error_text}
use abir_guard.QuantumKernel.{Crypto}
use abir_guard.PersistentVault.{Environment, encrypt_data, decrypt_data}

pub record StoredMldsaKey : Type 0 where
  pub key_id : Str
  pub signing_key_b64 : Str
  pub verifying_key_b64 : Str

-- serde_json on the list of keys, and the directory that a write needs.
pub record KeysText : Type 0 where
  pub to_vec : List StoredMldsaKey → Result Str Bytes
  pub from_slice : Bytes → Result Str (List StoredMldsaKey)
  pub create_dir_all : Result Str Unit
  -- What a failing write says.
  pub write_error : Str

pub data KeysFile : Type 0 where
  missing : KeysFile
  unreadable : Str → KeysFile
  content : Bytes → KeysFile

abbrev pub NamedPair : Type 0
NamedPair = Str × MldsaKeypair

-- `keypairs.iter().find(|(id, _)| id == key_id)`
unfoldable pub find_pair : Str → List NamedPair → Option MldsaKeypair
find_pair key_id [] = none
find_pair key_id ((id, pair) ∷ keypairs) =
    if bytes_eq id key_id then some pair else find_pair key_id keypairs

-- "ML-DSA key '{}' not found"
abbrev pub no_key : Str → Str
no_key key_id = str "ML-DSA key '" ++ (key_id ++ str "' not found")

module _ (crypto : Crypto) (crate : Fips204) (env : Environment) (text : KeysText) where
  open crypto use {encode, decode}

  abbrev pub stored_pair : NamedPair → StoredMldsaKey
  stored_pair (key_id, kp) = record {
    key_id = key_id;
    signing_key_b64 = encode kp.signing_key;
    verifying_key_b64 = encode kp.verifying_key;
  }

  -- From the serialised list on.
  unfoldable pub write_pairs : Bytes → Str → KeysFile → Option (KeysFile × Result Str Unit)
  unfolding encrypt_data derive_key
  write_pairs plain passphrase file = elim (derive_key env.argon2 env.salt passphrase none) [
    | none ↦ none
    | some (key, salt) ↦ elim (encrypt_data crypto plain key env.nonce) [
      | none ↦ none
      | some encrypted ↦
          if env.writable
          then some (content (salt ++ encrypted), ok tt)
          else some (file, err text.write_error)
    ]
  ]

  abbrev pub serialized : List NamedPair → Result Str Bytes
  serialized keypairs = text.create_dir_all >> text.to_vec (map stored_pair keypairs)

  abbrev pub persist_serialized :
      Str → KeysFile → Result Str Bytes → Option (KeysFile × Result Str Unit)
  persist_serialized passphrase file (err e) = some (file, err e)
  persist_serialized passphrase file (ok plain) = write_pairs plain passphrase file

  abbrev pub persist_mldsa_keys :
      List NamedPair → Str → KeysFile → Option (KeysFile × Result Str Unit)
  persist_mldsa_keys keypairs passphrase file =
      persist_serialized passphrase file (serialized keypairs)

  abbrev pub decoded_pair : StoredMldsaKey → Result Str NamedPair
  decoded_pair sk = do
    signing_key ← decode sk.signing_key_b64
    verifying_key ← decode sk.verifying_key_b64
    ok (sk.key_id, record { signing_key = signing_key; verifying_key = verifying_key })

  -- `collect` into a `Result`.
  unfoldable pub decoded_pairs : List StoredMldsaKey → Result Str (List NamedPair)
  decoded_pairs [] = ok []
  decoded_pairs (sk ∷ stored) = do
    pair ← decoded_pair sk
    pairs ← decoded_pairs stored
    ok (pair ∷ pairs)

  abbrev pub parsed_pairs : Bytes → Result Str (List NamedPair)
  parsed_pairs plain =
      map_err (λ e. str "Failed to deserialize: " ++ e) (text.from_slice plain) >>= decoded_pairs

  unfoldable pub load_mldsa_keys : Str → KeysFile → Option (Result Str (List NamedPair))
  unfolding decrypt_data derive_key_with_salt decoded_pairs
  load_mldsa_keys passphrase missing = some (err (str "ML-DSA keys file not found"))
  load_mldsa_keys passphrase (unreadable e) = some (err e)
  load_mldsa_keys passphrase (content blob) =
      if ltb (length blob) (salt_length + (12 + 16))
      then some (err (str "Encrypted blob too short"))
      else elim (derive_key_with_salt env.argon2 passphrase (take salt_length blob)) [
        | none ↦ none
        | some key ↦ some (decrypt_data crypto (skip salt_length blob) key >>= parsed_pairs)
      ]

  -- What the calls do with the loaded keys.
  abbrev pub sign_loaded : Str → Bytes → Result Str (List NamedPair) → Result Str Bytes
  sign_loaded key_id message loaded = do
    keypairs ← loaded
    kp ← ok_or (find_pair key_id keypairs) (no_key key_id)
    map_err (λ e. str "Signing failed: " ++ error_text e) (sign crate message kp.signing_key)

  abbrev pub verify_loaded : Str → Bytes → Bytes → Result Str (List NamedPair) → Result Str Bool
  verify_loaded key_id message signature loaded = do
    keypairs ← loaded
    kp ← ok_or (find_pair key_id keypairs) (no_key key_id)
    map_err (λ e. str "Verification failed: " ++ error_text e)
        (verify crate message signature kp.verifying_key)

  abbrev pub list_loaded : Result Str (List NamedPair) → Result Str (List Str)
  list_loaded loaded = loaded >>= λ keypairs. ok (map (λ (id, kp). id) keypairs)

  abbrev pub sign_with_vault : Str → Bytes → Str → KeysFile → Option (Result Str Bytes)
  sign_with_vault key_id message passphrase file =
      Option.map (sign_loaded key_id message) (load_mldsa_keys passphrase file)

  abbrev pub verify_with_vault : Str → Bytes → Bytes → Str → KeysFile → Option (Result Str Bool)
  verify_with_vault key_id message signature passphrase file =
      Option.map (verify_loaded key_id message signature) (load_mldsa_keys passphrase file)

  abbrev pub list_mldsa_keys : Str → KeysFile → Option (Result Str (List Str))
  list_mldsa_keys passphrase file = Option.map list_loaded (load_mldsa_keys passphrase file)
