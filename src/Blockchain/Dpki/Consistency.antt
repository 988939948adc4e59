-- ===== src/Blockchain/Dpki/Consistency.antt =====
-- The entries and the anchors of the registry agree.
use abir_guard.Base.{
  ◌≡◌, refl, sym, ap, subst, ◌∙◌, inl, inr, some, List, [], ◌∷◌, Bytes, Str, bytes_eq, bytes_eq_iff,
  bytes_key, Bool-cases,
}
use abir_guard.Base.Map.{lookup, insert, lookup-insert_self, lookup-insert_ne}
use abir_guard.Blockchain.Anchors.{KeyAnchor, AnchorRegistry, anchor_id_of, new_anchor}
use abir_guard.Blockchain.Anchors.Lifecycle
use abir_guard.Blockchain.Anchors.Lifecycle.{register_outcome, revoke_outcome, run-Evolves, Evolves}
use abir_guard.Blockchain.Dpki.Calls.{
  Call, step, run, after_register, after_invalidate, register_key_outcome, invalidate_outcome,
  step_grows,
}
use abir_guard.Blockchain.Dpki.{DecentralizedPki, DpkiEntry, new_entry, new}

-- An entry is stored under its own entity, and its anchor is in the anchor registry, held by that
-- entity and for the same key.
pub record IsBound (p : DecentralizedPki) (entity : Str) (entry : DpkiEntry) : Type 0 where
  pub own_name : entry.entity_id ≡ entity
  pub anchor : KeyAnchor
  pub stored : lookup entry.anchor_id p.anchors.anchors ≡ some anchor
  pub held : anchor.owner_id ≡ entity
  pub same_key : anchor.key_hash ≡ entry.key_hash

abbrev pub IsConsistent : DecentralizedPki → Type 0
IsConsistent p =
    (entity : Str) (entry : DpkiEntry)
    → lookup entity p.entries ≡ some entry
    → IsBound p entity entry

-- What binds an entry survives calls of the anchor registry.
IsBound-run :
    (sha256 : Bytes → Bytes) (p p' : DecentralizedPki) (calls : List Lifecycle.Call) (entity : Str)
    (entry : DpkiEntry)
    → p'.anchors ≡ Lifecycle.run sha256 calls p.anchors
    → IsBound p entity entry
    → IsBound p' entity entry
IsBound-run sha256 p p' calls entity entry same b =
    let (d, found, kept) = run-Evolves sha256 calls p.anchors entry.anchor_id b.anchor b.stored in
    record {
      own_name = b.own_name;
      anchor = d;
      stored = ap (λ (r : AnchorRegistry). lookup entry.anchor_id r.anchors) same ∙ found;
      held = kept.same_owner ∙ b.held;
      same_key = kept.same_key ∙ b.same_key;
    }

-- In a state where the entry it adds is bound, `register_key` keeps the registry consistent.
IsConsistent-insert :
    (p p' : DecentralizedPki) (name : Str) (fresh_entry : DpkiEntry)
    → p'.entries ≡ insert name fresh_entry p.entries
    → IsBound p' name fresh_entry
    → ((entity : Str) (entry : DpkiEntry)
        → lookup entity p.entries ≡ some entry
        → IsBound p' entity entry)
    → IsConsistent p'
IsConsistent-insert p p' name fresh_entry same fresh old entity entry h =
    elim (Bool-cases (bytes_eq name entity)) [
      | inl eq ↦
          let is_name : name ≡ entity = (bytes_eq_iff name entity).0 eq in
          let is_new : fresh_entry ≡ entry = cc (
            lookup-insert_self name fresh_entry p.entries,
            ap (λ k. lookup k (insert name fresh_entry p.entries)) is_name,
            ap (λ m. lookup entity m) same,
          ) in
          subst (λ n. IsBound p' n entry) is_name (subst (λ e. IsBound p' name e) is_new fresh)
      | inr ne ↦ old entity entry (
          sym (
            lookup-insert_ne name entity fresh_entry p.entries
              (λ e. (let y = (bytes_eq_iff name entity).1 e in cc)))
          ∙ ap (λ m. lookup entity m) (sym same)
          ∙ h)
    ]

module _ (sha256 : Bytes → Bytes) where
  IsConsistent-step :
      (c : Call) (p : DecentralizedPki) → IsConsistent p → IsConsistent (step sha256 c p)
  IsConsistent-step (Call.register_key name key valid_from valid_until time) p good =
      elim (register_key_outcome sha256 p name key valid_from valid_until time) [
        | inl (e, refused) ↦ rw refused good
        | inr (r, fresh, anchored, there, done) ↦
            let ((calls, grown), kept) =
              step_grows sha256 (Call.register_key name key valid_from valid_until time) p in
            let p' = step sha256 (Call.register_key name key valid_from valid_until time) p in
            let same_entries = ap (λ o. (after_register p o).entries) done in
            let same_anchors = ap (λ o. (after_register p o).anchors) done in
            IsConsistent-insert p p' name
              (new_entry sha256 name (anchor_id_of sha256 key) key valid_from valid_until)
              same_entries
              (record {
                own_name = refl;
                anchor = new_anchor sha256 key name time;
                stored =
                    ap (λ (t : AnchorRegistry). lookup (anchor_id_of sha256 key) t.anchors)
                      same_anchors
                    ∙ there;
                held = refl;
                same_key = refl;
              })
              (λ entity entry h.
                IsBound-run sha256 p p' calls entity entry grown (good entity entry h))
      ]
  IsConsistent-step (Call.invalidate name) p good = elim (invalidate_outcome sha256 p name) [
    | inl (e, refused) ↦ rw refused good
    | inr (own, r, found, gone, done) ↦
        let ((calls, grown), kept) = step_grows sha256 (Call.invalidate name) p in
        let p' = step sha256 (Call.invalidate name) p in
        let same_entries : p'.entries ≡ p.entries = ap (λ o. (after_invalidate p o).entries) done in
        λ entity entry h.
          IsBound-run sha256 p p' calls entity entry grown
            (good entity entry (ap (λ m. lookup entity m) (sym same_entries) ∙ h))
  ]

  IsConsistent-run :
      (calls : List Call) (p : DecentralizedPki)
      → IsConsistent p
      → IsConsistent (run sha256 calls p)
  unfolding run
  IsConsistent-run [] p good = good
  IsConsistent-run (c ∷ calls) p good =
      IsConsistent-run calls (step sha256 c p) (IsConsistent-step c p good)

  -- Every registry that calls make of an empty one is consistent.
  pub run-IsConsistent : (calls : List Call) → IsConsistent (run sha256 calls new)
  unfolding lookup
  run-IsConsistent calls = IsConsistent-run calls new (λ entity entry h. absurd (let x = h in cc))

  -- From an empty registry, after any calls, every entry is stored under its own entity, and its
  -- anchor is in the anchor registry, owned by that entity and for the entry's key hash.
  pub run-IsBound :
      (calls : List Call) (entity : Str) (entry : DpkiEntry)
      → lookup entity (run sha256 calls new).entries ≡ some entry
      → IsBound (run sha256 calls new) entity entry
  run-IsBound calls = run-IsConsistent calls
