-- ===== src/Kdf.antt =====
-- src/kdf.rs: key derivation from a passphrase. Argon2id with the fixed parameters is `argon2`, of
-- an external crate; where it reports an error the code panics, which is `none`.
use abir_guard.Base.{ℕ, Option, none, some, [], Bytes, Str}
use abir_guard.Base.Maybe.{◌>>=◌}

abbrev pub argon2_key_length : ℕ
argon2_key_length = 32

-- The salt that is given, or else the random one.
abbrev pub salt_or : Bytes → Option Bytes → Bytes
salt_or fresh none = fresh
salt_or fresh (some salt) = salt

unfoldable pub derive_key :
    (Str → Bytes → Option Bytes) → Bytes → Str → Option Bytes → Option (Bytes × Bytes)
derive_key argon2 fresh passphrase salt = do
  let salt_bytes = salt_or fresh salt
  key ← argon2 passphrase salt_bytes
  some (key, salt_bytes)

abbrev pub salt_length : ℕ
salt_length = 16

-- Nothing is drawn when the salt is given.
unfoldable pub derive_key_with_salt : (Str → Bytes → Option Bytes) → Str → Bytes → Option Bytes
unfolding derive_key
derive_key_with_salt argon2 passphrase salt = do
  (key, _) ← derive_key argon2 [] passphrase (some salt)
  some key
