-- ===== src/Blockchain/Contract/Finality.antt =====
-- What a submission and a revocation promise whoever asks the contract afterwards.
use abir_guard.Base.{
  ℕ, ◌<◌, ◌≡◌, refl, sym, ap, ◌∙◌, true, false, not, some, List, Bytes, Str, bytes_key, ok, err,
  inl, inr,
}
use abir_guard.Base.Numbers.{u64, saturating_add}
use abir_guard.Base.Map.{lookup, insert, lookup-insert_self}
use abir_guard.Blockchain.Anchors
use abir_guard.Blockchain.Anchors.{
  KeyAnchor, KeyAnchorError, AnchorRegistry, anchor_id_of, new_anchor,
}
use abir_guard.Blockchain.Anchors.Lifecycle.{Call, register_outcome, revoke_outcome, run-Evolves}
use abir_guard.Blockchain.Anchors.Ownership.{Harmless, run-Harmless}
use abir_guard.Blockchain.Contract.{
  SimulatedContractAnchor, submit_anchor, revoke_anchor, verify_on_chain, anchor_error,
}
use abir_guard.Blockchain.Contract.Simulation.{run, run_simulates}

verify_of_lookup :
    (c : SimulatedContractAnchor) (id : Str) (a : KeyAnchor)
    → lookup id c.registry.anchors ≡ some a
    → verify_on_chain c id
      ≡ ok (record { valid = not a.is_revoked; block_height = c.block_height; anchor_id = id })
unfolding verify_on_chain
verify_of_lookup c id a h = rw (h, verify_on_chain)

revoke_of_registry :
    (c : SimulatedContractAnchor) (id owner : Str) (r : AnchorRegistry)
    → Anchors.revoke c.registry id owner ≡ ok r
    → revoke_anchor c id owner
      ≡ ok (record { registry = r; block_height = saturating_add c.block_height 1 })
unfolding revoke_anchor
revoke_of_registry c id owner r e = rw e

revoke_of_err :
    (c : SimulatedContractAnchor) (id owner : Str) (e : KeyAnchorError)
    → Anchors.revoke c.registry id owner ≡ err e
    → revoke_anchor c id owner ≡ err (anchor_error e)
unfolding revoke_anchor
revoke_of_err c id owner e h = rw h

-- What a revocation that passes leaves in the registry.
revoke_stored :
    (c c' : SimulatedContractAnchor) (id owner : Str)
    → revoke_anchor c id owner ≡ ok c'
    → (a : KeyAnchor) × (lookup id c'.registry.anchors ≡ some a) × (a.is_revoked ≡ true)
revoke_stored c c' id owner done = elim (revoke_outcome c.registry id owner) [
  | inl (absent, e) ↦ absurd (let x = revoke_of_err c id owner _ e in cc)
  | inr (inl (a, found, other, e)) ↦ absurd (let x = revoke_of_err c id owner _ e in cc)
  | inr (inr (a, found, mine, e)) ↦
      let gone = record a { is_revoked = true } in
      let r : AnchorRegistry = record { anchors = insert id gone c.registry.anchors } in
      let h = sym (revoke_of_registry c id owner r e) ∙ done in
      let same : r ≡ c'.registry = cc in
      (
        gone,
        ap (λ (t : AnchorRegistry). lookup id t.anchors) (sym same)
            ∙ lookup-insert_self id gone c.registry.anchors,
        refl,
      )
]

module _ (sha256 : Bytes → Bytes) where
  submit_of_register :
      (c : SimulatedContractAnchor) (key : Bytes) (owner : Str) (time : ℕ) (r : AnchorRegistry)
      (a : KeyAnchor)
      → Anchors.register sha256 c.registry key owner time ≡ ok (r, a)
      → submit_anchor sha256 c key owner time
        ≡ ok (record { registry = r; block_height = saturating_add c.block_height 1 }, a.anchor_id)
  unfolding submit_anchor
  submit_of_register c key owner time r a e = rw e

  submit_of_err :
      (c : SimulatedContractAnchor) (key : Bytes) (owner : Str) (time : ℕ) (e : KeyAnchorError)
      → Anchors.register sha256 c.registry key owner time ≡ err e
      → submit_anchor sha256 c key owner time ≡ err (anchor_error e)
  unfolding submit_anchor
  submit_of_err c key owner time e h = rw h

  -- What a submission that passes leaves in the registry.
  submit_stored :
      (c c' : SimulatedContractAnchor) (key : Bytes) (owner id : Str) (time : ℕ)
      → submit_anchor sha256 c key owner time ≡ ok (c', id)
      → (id ≡ anchor_id_of sha256 key)
        × (lookup id c'.registry.anchors ≡ some (new_anchor sha256 key owner time))
  submit_stored c c' key owner id time done =
      elim (register_outcome sha256 c.registry key owner time) [
        | inl e ↦ absurd (let x = submit_of_err c key owner time _ e in cc)
        | inr (inl e) ↦ absurd (let x = submit_of_err c key owner time _ e in cc)
        | inr (inr (fresh, e)) ↦
            let anchor = new_anchor sha256 key owner time in
            let r : AnchorRegistry = record {
              anchors = insert anchor.anchor_id anchor c.registry.anchors;
            } in
            let h = sym (submit_of_register c key owner time r anchor e) ∙ done in
            let same_id : anchor.anchor_id ≡ id = cc in
            let same : r ≡ c'.registry = cc in
            (
              sym same_id,
              ap (λ k. lookup k c'.registry.anchors) (sym same_id)
                  ∙ ap (λ (t : AnchorRegistry). lookup anchor.anchor_id t.anchors) (sym same)
                  ∙ lookup-insert_self anchor.anchor_id anchor c.registry.anchors,
            )
      ]

  -- A submission that leaves the height in 64 bits stands: while nobody revokes the new anchor in its owner's name, whatever else is
  -- called, the contract answers that it is valid, at the height of that moment.
  pub submit-valid :
      (c c' : SimulatedContractAnchor) (key : Bytes) (owner id : Str) (time : ℕ) (calls : List Call)
      → c'.block_height < u64
      → submit_anchor sha256 c key owner time ≡ ok (c', id)
      → Harmless id owner calls
      → verify_on_chain (run sha256 calls c') id
        ≡ ok (record {
          valid = true;
          block_height = (run sha256 calls c').block_height;
          anchor_id = id;
        })
  submit-valid c c' key owner id time calls small done safe =
      let (is_id, stored) = submit_stored c c' key owner id time done in
      let (kept, same) = run-Harmless sha256 calls c'.registry id _ stored safe in
      let (registry, grown) = run_simulates sha256 calls c' small in
      verify_of_lookup (run sha256 calls c') id (new_anchor sha256 key owner time)
        (ap (λ (r : AnchorRegistry). lookup id r.anchors) registry ∙ kept)

  -- A revocation that leaves the height in 64 bits is final: after its owner's accepted
  -- `revoke_anchor`, whatever is called, the
  -- contract answers that the anchor exists and is not valid.
  pub revoke-invalid :
      (c c' : SimulatedContractAnchor) (id owner : Str) (calls : List Call)
      → c'.block_height < u64
      → revoke_anchor c id owner ≡ ok c'
      → verify_on_chain (run sha256 calls c') id
        ≡ ok (record {
          valid = false;
          block_height = (run sha256 calls c').block_height;
          anchor_id = id;
        })
  revoke-invalid c c' id owner calls small done =
      let (a, stored, dead) = revoke_stored c c' id owner done in
      let (d, found, kept) = run-Evolves sha256 calls c'.registry id a stored in
      let (registry, grown) = run_simulates sha256 calls c' small in
      verify_of_lookup (run sha256 calls c') id d
        (ap (λ (r : AnchorRegistry). lookup id r.anchors) registry ∙ found)
      ∙ rw (kept.stays_revoked dead)
