-- ===== src/Revocation/Signature.antt =====
-- What the signature of the list covers.
use abir_guard.Base.{
  ◌≡◌, refl, sym, ap, ◌∙◌, ◌⊎◌, inl, inr, true, false, List, [], ◌∷◌, Bytes, is_empty, bytes_eq_iff,
  bytes_eq_refl, bytes_key, append-cancel, length, Bool-cases,
}
use abir_guard.Base.Hash.{Collision, same_or_Collision}
use abir_guard.Revocation.{
  RevocationList, RevocationEntry, compute_signature, signed_bytes, verify_integrity, revoke,
}
use abir_guard.Revocation.Calls.{Request, apply_to, run}

-- The texts that are signed agree, entry by entry.
abbrev pub SameSigned : List RevocationEntry → List RevocationEntry → Type 0
SameSigned [] [] = Unit
SameSigned [] (f ∷ fs) = ⊥
SameSigned (e ∷ es) [] = ⊥
SameSigned (e ∷ es) (f ∷ fs) =
    ((e.key_id ≡ f.key_id) × (e.reason ≡ f.reason) × (e.timestamp ≡ f.timestamp)) × SameSigned es fs

signed_bytes-SameSigned :
    (es fs : List RevocationEntry) → SameSigned es fs → signed_bytes es ≡ signed_bytes fs
unfolding signed_bytes
signed_bytes-SameSigned [] [] s = refl
signed_bytes-SameSigned [] (f ∷ fs) s = absurd s
signed_bytes-SameSigned (e ∷ es) [] s = absurd s
signed_bytes-SameSigned (e ∷ es) (f ∷ fs) s =
    rw (s.0.0, s.0.1, s.0.2, signed_bytes-SameSigned es fs s.1)

module _ (sha256 : Bytes → Bytes) where
  signed_after :
      (l : RevocationList) (c : Request) → verify_integrity sha256 (apply_to sha256 l c) ≡ true
  unfolding verify_integrity revoke compute_signature
  signed_after l c = elim (Bool-cases (is_empty (apply_to sha256 l c).signature)) [
    | inl unsigned ↦ rw unsigned
    | inr signed ↦ rw signed (bytes_eq_refl (apply_to sha256 l c).signature)
  ]

  -- A list that verifies still does after any further revocations.
  pub run-verify_integrity :
      (calls : List Request) (l : RevocationList)
      → verify_integrity sha256 l ≡ true
      → verify_integrity sha256 (run sha256 calls l) ≡ true
  unfolding run
  run-verify_integrity [] l h = h
  run-verify_integrity (c ∷ calls) l h =
      run-verify_integrity calls (apply_to sha256 l c) (signed_after l c)

  signature_of :
      (l : RevocationList)
      → is_empty l.signature ≡ false
      → verify_integrity sha256 l ≡ true
      → compute_signature sha256 l ≡ l.signature
  unfolding verify_integrity
  signature_of l signed h =
      (bytes_eq_iff (compute_signature sha256 l) l.signature).0 (rw signed at h)

  -- Two lists of one key that both verify under the same signature, which is not empty, hold the
  -- same signed text, key ids, reasons and timestamps one after the other, or else there are two
  -- different inputs with one SHA-256 hash.
  pub verify_integrity-signed :
      (l m : RevocationList)
      → l.revocation_key ≡ m.revocation_key
      → l.signature ≡ m.signature
      → is_empty l.signature ≡ false
      → verify_integrity sha256 l ≡ true
      → verify_integrity sha256 m ≡ true
      → Collision sha256 ⊎ (signed_bytes l.entries ≡ signed_bytes m.entries)
  unfolding compute_signature
  verify_integrity-signed l m key signature signed h g =
      let left = signature_of l signed h in
      let right = signature_of m (ap is_empty (sym signature) ∙ signed) g in
      elim (same_or_Collision sha256 _ _ (left ∙ signature ∙ sym right)) [
        | inl collision ↦ inl collision
        | inr same ↦
            inr
              (append-cancel l.revocation_key m.revocation_key (signed_bytes l.entries)
                (signed_bytes m.entries) (ap length key) same).1
      ]

  -- Who revoked a key and why in detail is not signed: two lists with one key and one signature
  -- whose entries agree on key id, reason and timestamp pass or fail together.
  pub verify_integrity-SameSigned :
      (l m : RevocationList)
      → l.revocation_key ≡ m.revocation_key
      → l.signature ≡ m.signature
      → SameSigned l.entries m.entries
      → verify_integrity sha256 l ≡ verify_integrity sha256 m
  unfolding verify_integrity compute_signature
  verify_integrity-SameSigned l m key signature same =
      rw (key, signature, signed_bytes-SameSigned l.entries m.entries same)
