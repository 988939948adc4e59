-- ===== src/QuantumKernel.antt =====
-- src/quantum_kernel.rs: the cipher and the vault of key pairs.
-- The vault's mutex is a flag: a panic while the lock is held poisons it, and from then on each
-- `lock().unwrap()` panics. `none` is a panic. What a call draws at random, and how many
-- milliseconds it takes, are arguments.
pub mod Calls
pub mod Stored
pub mod Poison
pub mod Kem
pub mod Toy
mod Tests
use mathlib.Core.Option
use abir_guard.Base.{
  ℕ, Bool, true, false, not, Option, none, some, List, [], ◌∷◌, ◌++◌, map, filter, Bytes, Str, str,
  ltb, ◌==◌, if◌then◌else◌, bytes_eq, length, Result, ok, err, ◌>>=◌, ◌>>◌, reject_if,
}
use abir_guard.Base.Text.{decimal}

abbrev pub handshake_timeout_ms : ℕ
handshake_timeout_ms = 200

abbrev pub domain : Bytes
domain = str "Abir-Guard-Hybrid-2026"

pub record KeyPair : Type 0 where
  pub public_key : Str
  pub secret_key : Str

pub record Ciphertext : Type 0 where
  pub nonce : Str
  pub ciphertext : Str
  pub key_id : Str

-- The crates, and `String::from_utf8`: base64, HKDF over SHA3-256 of a salt, a secret and a label,
-- and AES-256-GCM of a key and a nonce, `none` where the encryption reports an error.
pub record Crypto : Type 0 where
  pub encode : Bytes → Str
  pub decode : Str → Result Str Bytes
  pub hkdf : Bytes → Bytes → Bytes → Bytes
  pub seal : Bytes → Bytes → Bytes → Option Bytes
  pub unseal : Bytes → Bytes → Bytes → Result Str Bytes
  pub from_utf8 : Bytes → Result Str Str

-- A key pair of the ML-KEM crate, as the bytes of its public key and its seed.
abbrev pub Drawn : Type 0
Drawn = Bytes × Bytes

-- `(id, pair, secret key)`
pub record KeyEntry : Type 0 where
  pub id : Str
  pub pair : KeyPair
  pub secret : Bytes

pub record Vault : Type 0 where
  pub keys : List KeyEntry
  pub poisoned : Bool

abbrev pub new : Vault
new = record { keys = []; poisoned = false }

-- A method on the vault that may panic.
abbrev pub Method : Type 0 → Type 0
Method A = Vault → Vault × Option A

-- `self.keys.lock().unwrap()` and what follows under the lock.
abbrev pub with_lock : {A : Type 0} → Method A → Method A
with_lock body v = if v.poisoned then (v, none) else body v

-- `keys.iter().find(|(id, _, _)| ...)`: the secret key of the first entry.
unfoldable pub find_key : Bytes → List KeyEntry → Option Bytes
find_key id [] = none
find_key id (entry ∷ keys) = if bytes_eq entry.id id then some entry.secret else find_key id keys

-- `keys.retain(|(id, _, _)| id != key_id)`
abbrev pub retain_others : Str → List KeyEntry → List KeyEntry
retain_others key_id keys = filter (λ (entry : KeyEntry). not (bytes_eq entry.id key_id)) keys

-- "Security watchdog: ... took {}ms (threshold: {}ms)"
abbrev pub watchdog_message : ℕ → Str
watchdog_message elapsed =
    str "Security watchdog: decryption took "
    ++ (decimal elapsed ++ (str "ms (threshold: " ++ (decimal handshake_timeout_ms ++ str "ms)")))

module _ (crypto : Crypto) where
  open crypto use {encode, decode, hkdf, seal, unseal, from_utf8}

  abbrev pub keygen : Drawn → KeyPair × Bytes
  keygen drawn = (record { public_key = encode drawn.0; secret_key = encode drawn.1 }, drawn.1)

  abbrev pub aes_key : Bytes → Bytes
  aes_key secret = hkdf domain secret (str "aes-key")

  unfoldable pub encrypt : Bytes → ℕ → Bytes → Bytes → Option Ciphertext
  encrypt nonce elapsed plaintext secret = elim (seal (aes_key secret) nonce plaintext) [
    | none ↦ none
    | some ciphertext ↦
        if ltb handshake_timeout_ms elapsed
        then none
        else some (record { nonce = encode nonce; ciphertext = encode ciphertext; key_id = [] })
  ]

  -- Once the nonce is read.
  unfoldable pub open_with : Bytes → ℕ → Ciphertext → Bytes → Result Str Bytes
  open_with nonce elapsed ct secret = do
    ciphertext ← decode ct.ciphertext
    plaintext ← unseal (aes_key secret) nonce ciphertext
    reject_if (ltb handshake_timeout_ms elapsed) (watchdog_message elapsed)
    ok plaintext

  -- `Nonce::from_slice` panics unless it gets 12 bytes.
  unfoldable pub decrypt : ℕ → Ciphertext → Bytes → Option (Result Str Bytes)
  decrypt elapsed ct secret = elim (decode ct.nonce) [
    | err e ↦ some (err e)
    | ok nonce ↦ if not (length nonce == 12) then none else some (open_with nonce elapsed ct secret)
  ]

  unfoldable pub generate_keypair : Str → Drawn → Method (Str × Str)
  generate_keypair key_id drawn = with_lock λ v.
      let (pair, secret) = keygen drawn in
      (
        record v { keys = v.keys ++ record { id = key_id; pair = pair; secret = secret } ∷ [] },
        some (pair.public_key, pair.secret_key),
      )

  -- The secret key that `store` encrypts with, and the keys once it has it.
  unfoldable pub find_or_generate : Bytes → Str → Drawn → List KeyEntry → List KeyEntry × Bytes
  find_or_generate key_id key_id_str drawn keys = elim (find_key key_id keys) [
    | some secret ↦ (keys, secret)
    | none ↦
        let (pair, secret) = keygen drawn in
        (keys ++ record { id = key_id_str; pair = pair; secret = secret } ∷ [], secret)
  ]

  unfoldable pub store : Bytes → Bytes → Drawn → Bytes → ℕ → Method (Result Str Ciphertext)
  unfolding find_or_generate encrypt
  store key_id plaintext drawn nonce elapsed v = elim (from_utf8 key_id) [
    | err e ↦ (v, some (err e))
    | ok key_id_str ↦
        with_lock
          (λ w.
            let (keys, secret) = find_or_generate key_id key_id_str drawn w.keys in
            (record w { keys = keys }, Option.map ok (encrypt nonce elapsed plaintext secret)))
          v
  ]

  -- The lock is held while the vault decrypts.
  abbrev pub holding_lock : {A : Type 0} → Option A → Method A
  holding_lock none v = (record v { poisoned = true }, none)
  holding_lock (some a) v = (v, some a)

  unfoldable pub retrieve : Bytes → Ciphertext → ℕ → Method (Result Str Bytes)
  unfolding decrypt
  retrieve key_id ct elapsed = with_lock λ v. elim (find_key key_id v.keys) [
    | none ↦ (v, some (err (str "Key not found")))
    | some secret ↦ holding_lock (decrypt elapsed ct secret) v
  ]

  unfoldable pub list_keypairs : Method (List Str)
  list_keypairs = with_lock λ v. (v, some (map (λ (entry : KeyEntry). entry.id) v.keys))

  unfoldable pub remove_keypair : Str → Method (Unit {0})
  remove_keypair key_id = with_lock λ v. (record v { keys = retain_others key_id v.keys }, some tt)

  unfoldable pub export_keys : Method (List (Str × Str × Str))
  export_keys = with_lock λ v. (
    v,
    some (
        map (λ (entry : KeyEntry). (entry.id, entry.pair.public_key, entry.pair.secret_key))
          v.keys),
  )

  unfoldable pub import_key : Str → Str → Str → Method (Result Str (Unit {0}))
  import_key key_id public_key secret_key v = elim (decode secret_key) [
    | err e ↦ (v, some (err e))
    | ok secret ↦
        with_lock
          (λ w.
            let pair : KeyPair = record { public_key = public_key; secret_key = secret_key } in
            (
              record w {
                keys =
                    retain_others key_id w.keys
                    ++ record { id = key_id; pair = pair; secret = secret } ∷ [];
              },
              some (ok tt),
            ))
          v
  ]
