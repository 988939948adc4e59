-- ===== src/Blockchain/Dpki/Invalidation.antt =====
-- What an invalidation means for whoever resolves an entity afterwards.
use abir_guard.Base.{
  ℕ, ◌≡◌, refl, sym, ap, ◌∙◌, ◌≢◌, inl, inr, true, none, some, List, [], ◌∷◌, Bytes, Str, ok, err,
  ◌>>◌, bytes_key, Bool-cases, Option-cases, if◌then◌else◌,
}
use abir_guard.Base.Map.{lookup, insert, lookup-insert_self, lookup-insert_ne}
use abir_guard.Blockchain.Anchors
use abir_guard.Blockchain.Anchors.{
  KeyAnchor, KeyAnchorError, AnchorRegistry, verify_anchor_by_id, revoked,
}
use abir_guard.Blockchain.Anchors.Lifecycle.{revoke_outcome, run-Evolves}
use abir_guard.Blockchain.Dpki.{
  DecentralizedPki, DpkiEntry, new, is_valid_at, resolve, invalidate, anchor_error, not_found,
}
use abir_guard.Blockchain.Dpki.Calls.{Call, step, run, step_grows, invalidate_ok}
use abir_guard.Blockchain.Dpki.Consistency.{IsConsistent, IsBound, run-IsConsistent}

-- An entry whose anchor is `anchor`, and what `resolve` answers for it.
resolve_of_lookup :
    (p : DecentralizedPki) (entity : Str) (entry : DpkiEntry) (anchor : KeyAnchor) (now : ℕ)
    → lookup entity p.entries ≡ some entry
    → lookup entry.anchor_id p.anchors.anchors ≡ some anchor
    → resolve p entity now ≡ (
        is_valid_at entry now
        >> (if anchor.is_revoked then err (anchor_error revoked) else ok entry))
unfolding resolve verify_anchor_by_id
resolve_of_lookup p entity entry anchor now h stored = elim (Bool-cases anchor.is_revoked) [
  | inl dead ↦ rw (h, verify_anchor_by_id, stored, dead)
  | inr live ↦ rw (h, verify_anchor_by_id, stored, live)
]

module _ (sha256 : Bytes → Bytes) where
  -- The calls of `Dpki` on its anchors are calls of the anchor registry.
  run_grows :
      (calls : List Call) (p : DecentralizedPki) (entity : Str) (entry : DpkiEntry) (a : KeyAnchor)
      → lookup entity p.entries ≡ some entry
      → lookup entry.anchor_id p.anchors.anchors ≡ some a
      → (lookup entity (run sha256 calls p).entries ≡ some entry)
        × ((b : KeyAnchor) × (lookup entry.anchor_id (run sha256 calls p).anchors.anchors ≡ some b)
            × (a.is_revoked ≡ true → b.is_revoked ≡ true))
  unfolding run
  run_grows [] p entity entry a h stored = (h, (a, stored, λ dead. dead))
  run_grows (c ∷ calls) p entity entry a h stored =
      let ((own, grown), kept) = step_grows sha256 c p in
      let (b, found, ev) = run-Evolves sha256 own p.anchors entry.anchor_id a stored in
      let next = step sha256 c p in
      let (h', (d, found', dead)) =
        run_grows calls next entity entry b (kept entity entry h)
          (ap (λ (r : AnchorRegistry). lookup entry.anchor_id r.anchors) grown ∙ found) in
      (h', (d, found', λ e. dead (ev.stays_revoked e)))

-- The revocation inside `invalidate` passes.
revoke_own :
    (p : DecentralizedPki) (entity : Str) (entry : DpkiEntry)
    → IsBound p entity entry
    → (a : KeyAnchor) × (Anchors.revoke p.anchors entry.anchor_id entity
        ≡ ok (record {
          anchors = insert entry.anchor_id (record a { is_revoked = true }) p.anchors.anchors;
        }))
revoke_own p entity entry b = elim (revoke_outcome p.anchors entry.anchor_id entity) [
  | inl (absent, e) ↦ absurd (let x = b.stored in cc)
  | inr (inl (a, found, other, e)) ↦
      let same : a ≡ b.anchor = (let x = b.stored in cc) in
      absurd (other (ap (λ (t : KeyAnchor). t.owner_id) same ∙ b.held))
  | inr (inr (a, found, mine, e)) ↦ (a, e)
]

-- Another entity has another anchor.
other_anchor :
    (p : DecentralizedPki) (entity other : Str) (entry e : DpkiEntry)
    → IsBound p entity entry
    → IsBound p other e
    → other ≢ entity
    → entry.anchor_id ≢ e.anchor_id
other_anchor p entity other entry e b d ne same =
    let eq : b.anchor ≡ d.anchor =
      cc (b.stored, d.stored, ap (λ k. lookup k p.anchors.anchors) same) in
    ne (sym d.held ∙ ap (λ (t : KeyAnchor). t.owner_id) (sym eq) ∙ b.held)

resolve_absent :
    (p : DecentralizedPki) (entity : Str) (now : ℕ)
    → lookup entity p.entries ≡ none
    → resolve p entity now ≡ err not_found
unfolding resolve
resolve_absent p entity now h = rw h

resolve_other :
    (p : DecentralizedPki) (entity : Str) (entry : DpkiEntry) (v : KeyAnchor)
    → IsConsistent p
    → IsBound p entity entry
    → (other : Str) (now : ℕ) → other ≢ entity
    → resolve
        (record p { anchors = record { anchors = insert entry.anchor_id v p.anchors.anchors } })
        other
        now
      ≡ resolve p other now
resolve_other p entity entry v good b other now ne =
    let p' : DecentralizedPki = record p {
      anchors = record { anchors = insert entry.anchor_id v p.anchors.anchors };
    } in
    elim (Option-cases (lookup other p.entries)) [
      | inl absent ↦ resolve_absent p' other now absent ∙ sym (resolve_absent p other now absent)
      | inr (e, found) ↦
          let d = good other e found in
          let apart = other_anchor p entity other entry e b d ne in
          resolve_of_lookup p' other e d.anchor now found
            (lookup-insert_ne entry.anchor_id e.anchor_id v p.anchors.anchors apart ∙ d.stored)
          ∙ sym (resolve_of_lookup p other e d.anchor now found d.stored)
    ]

-- In a registry that any calls have made of an empty one, `invalidate` of an entity that has an
-- entry passes. Whatever is called afterwards, `resolve` of that entity then gives the error of
-- the validity window, if the time is outside it, and `AnchorError(Revoked)` if not; and `resolve`
-- of any other entity, just after the invalidation, answers what it answered before.
pub invalidate-resolve :
    (sha256 : Bytes → Bytes) (history calls : List Call) (entity other : Str) (entry : DpkiEntry)
    (now : ℕ)
    → lookup entity (run sha256 history new).entries ≡ some entry
    → other ≢ entity
    → (p' : DecentralizedPki) × (invalidate (run sha256 history new) entity ≡ ok p')
      × (resolve (run sha256 calls p') entity now
          ≡ (is_valid_at entry now >> err (anchor_error revoked)))
      × (resolve p' other now ≡ resolve (run sha256 history new) other now)
invalidate-resolve sha256 history calls entity other entry now h ne =
    let p = run sha256 history new in
    let good = run-IsConsistent sha256 history in
    let b = good entity entry h in
    let (a, gone) = revoke_own p entity entry b in
    let dead = record a { is_revoked = true } in
    let p' : DecentralizedPki = record p {
      anchors = record { anchors = insert entry.anchor_id dead p.anchors.anchors };
    } in
    let stored : lookup entry.anchor_id p'.anchors.anchors ≡ some dead =
      lookup-insert_self entry.anchor_id dead p.anchors.anchors in
    let (h', (d, found, stays)) = run_grows sha256 calls p' entity entry dead h stored in
    (
      p',
      invalidate_ok sha256 p entity entry p'.anchors h gone,
      resolve_of_lookup (run sha256 calls p') entity entry d now h' found ∙ rw (stays refl),
      resolve_other p entity entry dead good b other now ne,
    )
