-- ===== src/AdvancedSharing/Commitments.antt =====
-- src/advanced_secret_sharing.rs: commitments to the shares of a set.
use abir_guard.Base.{
  ℕ, zero, suc, ◌+◌, ◌%◌, ◌≡◌, ◌⊎◌, inl, inr, sym, ap, ◌∙◌, some, List, [], ◌∷◌, Bytes, get_elem?,
  bytes_eq, bytes_eq_iff, bytes_eq_refl, Bool-cases, ok, err, arith,
}
use abir_guard.Base.Hash.{Collision, same_or_Collision}
use abir_guard.AdvancedSharing.{
  VssCommitment, commitment_hash, commit_from, create_commitments, verify_share,
  verification_failed,
}

module _ (sha256 : Bytes → Bytes) where
  -- The entry for a share at a position.
  abbrev entry : ℕ → Bytes → VssCommitment
  entry i share = record { index = i % 256; commitment = commitment_hash sha256 (i % 256) share }

  get_elem?-commit_from :
      (idx i : ℕ) (shares : List Bytes) (share : Bytes)
      → get_elem? shares i ≡ some share
      → get_elem? (commit_from sha256 idx shares) i ≡ some (entry (idx + i) share)
  unfolding commit_from
  get_elem?-commit_from idx i [] share h = absurd cc
  get_elem?-commit_from idx zero (x ∷ xs) share h =
      let here : x ≡ share = cc in rw here (ap (λ j. some (entry j share)) (omega arith))
  get_elem?-commit_from idx (suc i) (x ∷ xs) share h =
      get_elem?-commit_from (idx + 1) i xs share h ∙ ap (λ j. some (entry j share)) (omega arith)

  verify_share-entry :
      (i : ℕ) (share : Bytes)
      → verify_share sha256 share (entry i share) ≡ ok (record { index = i % 256; share = share })
  unfolding verify_share
  verify_share-entry i share = rw (bytes_eq_refl (commitment_hash sha256 (i % 256) share))

  verify_share-other :
      (i : ℕ) (share x : Bytes)
      → (verify_share sha256 x (entry i share) ≡ err verification_failed)
        ⊎ (x ≡ share)
        ⊎ Collision sha256
  unfolding verify_share commitment_hash
  verify_share-other i share x =
      let other = commitment_hash sha256 (i % 256) x in
      let own = commitment_hash sha256 (i % 256) share in
      elim (Bool-cases (bytes_eq other own)) [
        | inl e ↦ elim (same_or_Collision sha256 _ _ ((bytes_eq_iff other own).0 e)) [
          | inl found ↦ inr (inr found)
          | inr same ↦ inr (inl cc)
        ]
        | inr ne ↦ inl (rw ne)
      ]

  -- The commitment at a position of the list for a set of shares is to the share at that position:
  -- that share verifies, under the position modulo 256, and any other either is refused or gives a
  -- collision of the hash.
  pub verify_share-create_commitments :
      (shares : List Bytes) (i : ℕ) (share x : Bytes) (c : VssCommitment)
      → get_elem? shares i ≡ some share
      → get_elem? (create_commitments sha256 shares) i ≡ some c
      → (verify_share sha256 share c ≡ ok (record { index = i % 256; share = share }))
        × ((verify_share sha256 x c ≡ err verification_failed) ⊎ (x ≡ share) ⊎ Collision sha256)
  verify_share-create_commitments shares i share x c h hc =
      let at : some (entry (0 + i) share) ≡ some c =
        sym (get_elem?-commit_from 0 i shares share h) ∙ hc in
      let same : c ≡ entry i share = ground arith in
      rw same (verify_share-entry i share, verify_share-other i share x)
