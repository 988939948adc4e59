-- ===== src/QuantumKernel/Kem.antt =====
-- src/quantum_kernel.rs: ML-KEM-1024 encapsulation and decapsulation, behind checks of lengths and
-- the watchdog. The crate is a parameter; what a call draws and its milliseconds are arguments.
use abir_guard.Base.{
  ℕ, ◌≤◌, ◌≡◌, ap, arith, Bool, true, false, not, Bytes, Str, str, ◌++◌, length, ◌==◌, ltb,
  bytes_eq, bytes_eq_refl, Result, ok, ◌>>=◌, ◌>>◌, reject_if,
}
use abir_guard.Base.Text.{decimal}
use abir_guard.QuantumKernel.{Crypto, Drawn, keygen, handshake_timeout_ms}

-- The crate, on bytes: whether a public key is one, a ciphertext with its shared secret from a
-- public key and randomness, and the shared secret from a seed and a ciphertext.
pub record MlKem : Type 0 where
  pub is_key : Bytes → Bool
  pub encapsulate : Bytes → Bytes → Bytes × Bytes
  pub decapsulate : Bytes → Bytes → Bytes

-- "Security watchdog: ... took {}ms (threshold: {}ms)"
abbrev pub kem_watchdog_message : Str → ℕ → Str
kem_watchdog_message what elapsed =
    str "Security watchdog: "
    ++ (what
        ++ (str " took "
            ++ (decimal elapsed
                ++ (str "ms (threshold: " ++ (decimal handshake_timeout_ms ++ str "ms)")))))

module _ (crypto : Crypto) (kem : MlKem) where
  unfoldable pub encapsulate : Bytes → ℕ → Str → Result Str (Bytes × Bytes)
  encapsulate random elapsed public_key_b64 = do
    pk_bytes ← crypto.decode public_key_b64
    reject_if (not (length pk_bytes == 1568)) (str "Invalid public key length")
    reject_if (not (kem.is_key pk_bytes)) (str "Invalid public key")
    reject_if (ltb handshake_timeout_ms elapsed)
        (kem_watchdog_message (str "encapsulation") elapsed)
    ok (kem.encapsulate pk_bytes random)

  unfoldable pub decapsulate : ℕ → Bytes → Str → Result Str Bytes
  decapsulate elapsed ciphertext secret_key_b64 = do
    sk_bytes ← crypto.decode secret_key_b64
    reject_if (not (length sk_bytes == 64)) (str "Invalid secret key length")
    reject_if (not (length ciphertext == 1568)) (str "Invalid ciphertext length")
    reject_if (ltb handshake_timeout_ms elapsed)
        (kem_watchdog_message (str "decapsulation") elapsed)
    ok (kem.decapsulate sk_bytes ciphertext)

  unfoldable pub ml_kem_roundtrip : Drawn → Bytes → ℕ → ℕ → Result Str Bool
  unfolding encapsulate decapsulate
  ml_kem_roundtrip drawn random elapsed elapsed' = do
    (ct, ss1) ← encapsulate random elapsed (keygen crypto drawn).0.public_key
    ss2 ← decapsulate elapsed' ct (keygen crypto drawn).0.secret_key
    ok (bytes_eq ss1 ss2)

  -- With base64 that decodes what it encodes and a drawn pair of the right lengths for which the
  -- crate decapsulates what it encapsulates: two calls within the time limit agree on the secret.
  ml_kem_roundtrip_lem :
      ((b : Bytes) → crypto.decode (crypto.encode b) ≡ ok b)
      → (pk seed random : Bytes) (elapsed elapsed' : ℕ) → length pk ≡ 1568
      → length seed ≡ 64
      → kem.is_key pk ≡ true
      → length (kem.encapsulate pk random).0 ≡ 1568
      → kem.decapsulate seed (kem.encapsulate pk random).0 ≡ (kem.encapsulate pk random).1
      → elapsed ≤ 200
      → elapsed' ≤ 200
      → ml_kem_roundtrip (pk, seed) random elapsed elapsed' ≡ ok true
  unfolding ml_kem_roundtrip encapsulate decapsulate
  ml_kem_roundtrip_lem base64 pk seed random elapsed elapsed' pk_size seed_size key ct_size agree
        fast fast' =
      let slow : ltb 200 elapsed ≡ false = ground arith in
      let slow' : ltb 200 elapsed' ≡ false = ground arith in
      rw (base64 pk, pk_size, key, slow, base64 seed, seed_size, ct_size, slow', agree)
        (ap ok (bytes_eq_refl (kem.encapsulate pk random).1))
