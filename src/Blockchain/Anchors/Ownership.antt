-- ===== src/Blockchain/Anchors/Ownership.antt =====
-- What the calls on the registry mean for whoever verifies an anchor.
use abir_guard.Base.{
  ℕ, ◌≡◌, refl, sym, ap, ◌∙◌, inl, inr, true, false, some, List, [], ◌∷◌, Bytes, Str, if◌then◌else◌,
  bytes_key, is_empty, ok, err,
}
use abir_guard.Base.Map.{lookup, insert, lookup-insert_self, lookup-insert_ne, contains_of_some}
use abir_guard.Blockchain.Anchors
use abir_guard.Blockchain.Anchors.{
  KeyAnchor, KeyAnchorError, AnchorRegistry, new_anchor, anchor_id_of, verify_anchor_by_id,
  verify_anchor, revoked, already_anchored,
}
use abir_guard.Blockchain.Anchors.Lifecycle.{
  Call, step, run, run-Evolves, register_outcome, revoke_outcome,
}

verify_of_lookup :
    (r : AnchorRegistry) (id : Str) (a : KeyAnchor)
    → lookup id r.anchors ≡ some a
    → verify_anchor_by_id r id ≡ (if a.is_revoked then err revoked else ok a)
unfolding verify_anchor_by_id
verify_of_lookup r id a h = rw (h, verify_anchor_by_id)

module _ (sha256 : Bytes → Bytes) where
  register_taken :
      (r : AnchorRegistry) (key : Bytes) (who : Str) (time : ℕ) (a : KeyAnchor)
      → is_empty key ≡ false
      → lookup (anchor_id_of sha256 key) r.anchors ≡ some a
      → Anchors.register sha256 r key who time ≡ err already_anchored
  unfolding Anchors.register
  register_taken r key who time a filled found =
      rw (filled, contains_of_some (anchor_id_of sha256 key) r.anchors found)

  -- After its owner's `revoke` of a registered anchor, the anchor fails to verify with `Revoked`
  -- and a key that hashes to its id cannot be registered again, whatever calls come in between.
  pub revoke_final :
      (r r' : AnchorRegistry) (a : KeyAnchor) (id owner : Str) (calls : List Call) (key : Bytes)
      (who : Str) (time : ℕ)
      → lookup id r.anchors ≡ some a
      → Anchors.revoke r id owner ≡ ok r'
      → is_empty key ≡ false
      → anchor_id_of sha256 key ≡ id
      → (verify_anchor_by_id (run sha256 calls r') id ≡ err revoked)
        × (Anchors.register sha256 (run sha256 calls r') key who time ≡ err already_anchored)
  revoke_final r r' a id owner calls key who time h done filled is_id =
      elim (revoke_outcome r id owner) [
        | inl (absent, e) ↦ absurd (let x = sym e ∙ done in cc)
        | inr (inl (b, found, other, e)) ↦ absurd (let x = sym e ∙ done in cc)
        | inr (inr (b, found, mine, e)) ↦
            let gone = record b { is_revoked = true } in
            let same : r' ≡ record { anchors = insert id gone r.anchors } = cc in
            let stored : lookup id r'.anchors ≡ some gone =
              ap (λ (t : AnchorRegistry). lookup id t.anchors) same
              ∙ lookup-insert_self id gone r.anchors in
            let (d, found', kept) = run-Evolves sha256 calls r' id gone stored in
            let dead : d.is_revoked ≡ true = kept.stays_revoked refl in
            (
              verify_of_lookup (run sha256 calls r') id d found' ∙ rw dead,
              register_taken (run sha256 calls r') key who time d filled (rw is_id found'),
            )
      ]

-- A call that could revoke the anchor `id` of `owner`.
abbrev pub Threatens : Str → Str → Call → Type 0
Threatens id owner (Call.register key who time) = ⊥
Threatens id owner (Call.revoke k who) = (k ≡ id) × (who ≡ owner)

abbrev pub Harmless : Str → Str → List Call → Type 0
Harmless id owner [] = Unit
Harmless id owner (c ∷ calls) = (¬ Threatens id owner c) × Harmless id owner calls

module _ (sha256 : Bytes → Bytes) where
  step-Harmless :
      (c : Call) (r : AnchorRegistry) (id : Str) (a : KeyAnchor)
      → lookup id r.anchors ≡ some a
      → (¬ Threatens id a.owner_id c)
      → lookup id (step sha256 c r).anchors ≡ some a
  step-Harmless (Call.register key who time) r id a h safe =
      elim (register_outcome sha256 r key who time) [
        | inl e ↦ rw e h
        | inr (inl e) ↦ rw e h
        | inr (inr (fresh, e)) ↦ rw e (
            lookup-insert_ne (anchor_id_of sha256 key) id _ r.anchors
              (λ same. cc (ap (λ k. lookup k r.anchors) same))
            ∙ h)
      ]
  step-Harmless (Call.revoke k who) r id a h safe = elim (revoke_outcome r k who) [
    | inl (absent, e) ↦ rw e h
    | inr (inl (b, found, other, e)) ↦ rw e h
    | inr (inr (b, found, mine, e)) ↦ rw e (
        lookup-insert_ne k id _ r.anchors (λ same.
          let eq : b ≡ a = cc (ap (λ j. lookup j r.anchors) same) in
          safe (same, sym mine ∙ ap (λ t. t.owner_id) eq))
        ∙ h)
  ]

  lookup-Harmless :
      (calls : List Call) (r : AnchorRegistry) (id : Str) (a : KeyAnchor)
      → lookup id r.anchors ≡ some a
      → Harmless id a.owner_id calls
      → lookup id (run sha256 calls r).anchors ≡ some a
  unfolding run
  lookup-Harmless [] r id a h safe = h
  lookup-Harmless (c ∷ calls) r id a h safe =
      lookup-Harmless calls (step sha256 c r) id a (step-Harmless c r id a h safe.0) safe.1

  -- Only the owner can revoke: after any calls none of which is a `revoke` of this id in the name
  -- of the anchor's own owner, the anchor is unchanged and verifies as before.
  pub run-Harmless :
      (calls : List Call) (r : AnchorRegistry) (id : Str) (a : KeyAnchor)
      → lookup id r.anchors ≡ some a
      → Harmless id a.owner_id calls
      → (lookup id (run sha256 calls r).anchors ≡ some a)
        × (verify_anchor_by_id (run sha256 calls r) id ≡ verify_anchor_by_id r id)
  run-Harmless calls r id a h safe =
      let kept = lookup-Harmless calls r id a h safe in
      (kept, verify_of_lookup (run sha256 calls r) id a kept ∙ sym (verify_of_lookup r id a h))
