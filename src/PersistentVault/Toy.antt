-- ===== src/PersistentVault/Toy.antt =====
-- A plain encoding of keys, an environment and a toy signature crate, for the tests.
use abir_guard.Base.{
  ℕ, zero, suc, ◌≡◌, refl, ap, ap₂, true, Option, none, some, List, [], ◌∷◌, ◌++◌, Bytes, Str, str,
  length, replicate, take, skip, take-append, skip-append, bytes_eq, bytes_eq_refl, Result, ok, err,
}
use abir_guard.MlDsa.{MldsaKeypair, Fips204}
use abir_guard.PersistentVault.Signing.{StoredMldsaKey, KeysText}
use abir_guard.PersistentVault.Signing.Roundtrip.{Signs}
use abir_guard.PersistentVault.{StoredKey, Environment}

-- Each text behind its length.
pub write_text : Str → Bytes → Bytes
write_text t rest = length t ∷ (t ++ rest)

pub read_text : Bytes → Bytes × Bytes
read_text [] = ([], [])
read_text (n ∷ rest) = (take n rest, skip n rest)

pub read_text-write_text : (t : Str) (rest : Bytes) → read_text (write_text t rest) ≡ (t, rest)
unfolding read_text write_text
read_text-write_text t rest = ap₂ (λ a b. (a, b)) (take-append t rest) (skip-append t rest)

pub write_all : List StoredKey → Bytes
write_all [] = []
write_all (k ∷ ks) =
    write_text k.key_id (write_text k.public_key (write_text k.secret_key (write_all ks)))

pub read_all : ℕ → Bytes → List StoredKey
read_all zero bytes = []
read_all (suc n) bytes =
    let (key_id, a) = read_text bytes in
    let (public_key, b) = read_text a in
    let (secret_key, c) = read_text b in
    record { key_id = key_id; public_key = public_key; secret_key = secret_key } ∷ read_all n c

pub read_all-write_all : (ks : List StoredKey) → read_all (length ks) (write_all ks) ≡ ks
unfolding read_all write_all
read_all-write_all [] = refl
read_all-write_all (k ∷ ks) = simp (read_text-write_text, read_all-write_all ks)

abbrev pub from_slice : Bytes → Option (List StoredKey)
from_slice [] = none
from_slice (n ∷ bytes) = some (read_all n bytes)

abbrev pub env : Environment
env = record {
  argon2 = λ passphrase salt. some (passphrase ++ salt);
  to_vec = λ ks. some (length ks ∷ write_all ks);
  from_slice = from_slice;
  salt = replicate 16 3;
  nonce = replicate 12 7;
  writable = true;
}

pub write_pairs_text : List StoredMldsaKey → Bytes
write_pairs_text [] = []
write_pairs_text (k ∷ ks) =
    write_text k.key_id
      (write_text k.signing_key_b64 (write_text k.verifying_key_b64 (write_pairs_text ks)))

pub read_pairs_text : ℕ → Bytes → List StoredMldsaKey
read_pairs_text zero bytes = []
read_pairs_text (suc n) bytes =
    let (key_id, a) = read_text bytes in
    let (signing_key, b) = read_text a in
    let (verifying_key, c) = read_text b in
    record { key_id = key_id; signing_key_b64 = signing_key; verifying_key_b64 = verifying_key }
    ∷ read_pairs_text n c

pub read_pairs_text-write_pairs_text :
    (ks : List StoredMldsaKey) → read_pairs_text (length ks) (write_pairs_text ks) ≡ ks
unfolding read_pairs_text write_pairs_text
read_pairs_text-write_pairs_text [] = refl
read_pairs_text-write_pairs_text (k ∷ ks) =
    simp (read_text-write_text, read_pairs_text-write_pairs_text ks)

abbrev pub pairs_from_slice : Bytes → Result Str (List StoredMldsaKey)
pairs_from_slice [] = err (str "EOF")
pairs_from_slice (n ∷ bytes) = ok (read_pairs_text n bytes)

abbrev pub pairs_text : KeysText
pairs_text = record {
  to_vec = λ ks. ok (length ks ∷ write_pairs_text ks);
  from_slice = pairs_from_slice;
  create_dir_all = ok tt;
  write_error = str "disk full";
}

-- One signature that all keys make.
abbrev pub stamp : Bytes
stamp = replicate 3309 1

abbrev pub toy_crate : Fips204
toy_crate = record {
  try_keygen = ok (replicate 1952 2, replicate 4032 3);
  private_key = λ b. ok b;
  public_key = λ b. ok b;
  try_sign = λ sk message. ok stamp;
  check = λ pk message signature. bytes_eq signature stamp;
}

abbrev pub toy_pair : MldsaKeypair
toy_pair = record { signing_key = replicate 4032 3; verifying_key = replicate 1952 2 }

pub length-replicate : (n c : ℕ) → length (replicate n c) ≡ n
length-replicate zero c = refl
length-replicate (suc n) c = ap suc (length-replicate n c)

pub Signs-toy_pair : Signs toy_crate toy_pair
Signs-toy_pair = record {
  private_length = length-replicate 4032 3;
  public_length = length-replicate 1952 2;
  accepted = λ message. (
    toy_pair.signing_key,
    toy_pair.verifying_key,
    stamp,
    refl,
    refl,
    refl,
    length-replicate 3309 1,
    bytes_eq_refl stamp,
  );
}
