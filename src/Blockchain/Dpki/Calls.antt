-- ===== src/Blockchain/Dpki/Calls.antt =====
-- Calls on the registry of entities and what each can come to.
use abir_guard.Base.{
  ℕ, ◌≡◌, refl, ap, ◌∙◌, ◌⊎◌, inl, inr, false, Option, none, some, List, [], ◌∷◌, Bytes, Str,
  is_empty, Result, ok, err, bytes_key, Bool-cases, Option-cases,
}
use abir_guard.Base.Map.{
  lookup, insert, contains, contains_of_none, contains_of_some, lookup-insert_self,
  lookup-insert_ne,
}
use abir_guard.Blockchain.Anchors
use abir_guard.Blockchain.Anchors.{
  KeyAnchor, KeyAnchorError, AnchorRegistry, anchor_id_of, new_anchor,
}
use abir_guard.Blockchain.Anchors.Lifecycle
use abir_guard.Blockchain.Anchors.Lifecycle.{register_outcome, revoke_outcome, run-Evolves, Evolves}
use abir_guard.Blockchain.Dpki
use abir_guard.Blockchain.Dpki.{
  DecentralizedPki, DpkiEntry, DpkiError, new_entry, not_found, anchor_error, new,
}

pub data Call : Type 0 where
  register_key : Str → Bytes → ℕ → Option ℕ → ℕ → Call
  invalidate : Str → Call

abbrev pub after_register :
    DecentralizedPki → Result DpkiError (DecentralizedPki × DpkiEntry) → DecentralizedPki
after_register p (ok (p', entry)) = p'
after_register p (err e) = p

abbrev pub after_invalidate :
    DecentralizedPki → Result DpkiError DecentralizedPki → DecentralizedPki
after_invalidate p (ok p') = p'
after_invalidate p (err e) = p

module _ (sha256 : Bytes → Bytes) where
  abbrev pub step : Call → DecentralizedPki → DecentralizedPki
  step (Call.register_key entity key valid_from valid_until time) p =
      after_register p (Dpki.register_key sha256 p entity key valid_from valid_until time)
  step (Call.invalidate entity) p = after_invalidate p (Dpki.invalidate p entity)

  unfoldable pub run : List Call → DecentralizedPki → DecentralizedPki
  run [] p = p
  run (c ∷ calls) p = run calls (step c p)

module _ (sha256 : Bytes → Bytes) where
  register_key_ok :
      (p : DecentralizedPki) (entity : Str) (key : Bytes) (valid_from : ℕ) (valid_until : Option ℕ)
      (time : ℕ) (r : AnchorRegistry) (a : KeyAnchor)
      → is_empty key ≡ false
      → contains entity p.entries ≡ false
      → Anchors.register sha256 p.anchors key entity time ≡ ok (r, a)
      → Dpki.register_key sha256 p entity key valid_from valid_until time
        ≡ ok (
          record {
            entries =
                insert entity
                  (new_entry sha256 entity a.anchor_id key valid_from valid_until)
                  p.entries;
            anchors = r;
          },
          new_entry sha256 entity a.anchor_id key valid_from valid_until,
        )
  unfolding Dpki.register_key
  register_key_ok p entity key valid_from valid_until time r a filled fresh done =
      rw (filled, fresh, done)

  register_key_err :
      (p : DecentralizedPki) (entity : Str) (key : Bytes) (valid_from : ℕ) (valid_until : Option ℕ)
      (time : ℕ) (e : KeyAnchorError)
      → is_empty key ≡ false
      → contains entity p.entries ≡ false
      → Anchors.register sha256 p.anchors key entity time ≡ err e
      → Dpki.register_key sha256 p entity key valid_from valid_until time ≡ err (anchor_error e)
  unfolding Dpki.register_key
  register_key_err p entity key valid_from valid_until time e filled fresh done =
      rw (filled, fresh, done)

  -- A registration is refused and changes nothing, or binds a fresh entity to a fresh anchor.
  pub register_key_outcome :
      (p : DecentralizedPki) (entity : Str) (key : Bytes) (valid_from : ℕ) (valid_until : Option ℕ)
      (time : ℕ)
      → ((e : DpkiError) × (Dpki.register_key sha256 p entity key valid_from valid_until time
            ≡ err e))
        ⊎ ((r : AnchorRegistry) × (lookup entity p.entries ≡ none)
            × (Anchors.register sha256 p.anchors key entity time
                ≡ ok (r, new_anchor sha256 key entity time))
            × (lookup (anchor_id_of sha256 key) r.anchors
                ≡ some (new_anchor sha256 key entity time))
            × (Dpki.register_key sha256 p entity key valid_from valid_until time
                ≡ ok (
                  record {
                    entries =
                        insert entity
                          (new_entry sha256 entity
                            (anchor_id_of sha256 key)
                            key
                            valid_from
                            valid_until)
                          p.entries;
                    anchors = r;
                  },
                  new_entry sha256 entity (anchor_id_of sha256 key) key valid_from valid_until,
                )))
  unfolding Dpki.register_key
  register_key_outcome p entity key valid_from valid_until time = elim (Bool-cases (is_empty key)) [
    | inl none_given ↦ inl (Dpki.empty_public_key, rw none_given)
    | inr filled ↦ elim (Option-cases (lookup entity p.entries)) [
      | inr (entry, taken) ↦
          inl (Dpki.already_registered, rw (filled, contains_of_some entity p.entries taken))
      | inl fresh ↦
          let out = contains_of_none entity p.entries fresh in
          elim (register_outcome sha256 p.anchors key entity time) [
            | inl e ↦
                inl (_, register_key_err p entity key valid_from valid_until time _ filled out e)
            | inr (inl e) ↦
                inl (_, register_key_err p entity key valid_from valid_until time _ filled out e)
            | inr (inr (free, e)) ↦ inr (
              _,
              fresh,
              e,
              lookup-insert_self (anchor_id_of sha256 key) _ p.anchors.anchors,
              register_key_ok p entity key valid_from valid_until time _ _ filled out e,
            )
          ]
    ]
  ]

  pub invalidate_ok :
      (p : DecentralizedPki) (entity : Str) (entry : DpkiEntry) (r : AnchorRegistry)
      → lookup entity p.entries ≡ some entry
      → Anchors.revoke p.anchors entry.anchor_id entity ≡ ok r
      → Dpki.invalidate p entity ≡ ok (record p { anchors = r })
  unfolding Dpki.invalidate
  invalidate_ok p entity entry r h done = rw (h, done)

  invalidate_err :
      (p : DecentralizedPki) (entity : Str) (entry : DpkiEntry) (e : KeyAnchorError)
      → lookup entity p.entries ≡ some entry
      → Anchors.revoke p.anchors entry.anchor_id entity ≡ err e
      → Dpki.invalidate p entity ≡ err (anchor_error e)
  unfolding Dpki.invalidate
  invalidate_err p entity entry e h done = rw (h, done)

  -- An invalidation is refused and changes nothing, or revokes the anchor of the entity's entry.
  pub invalidate_outcome :
      (p : DecentralizedPki) (entity : Str)
      → ((e : DpkiError) × (Dpki.invalidate p entity ≡ err e))
        ⊎ ((entry : DpkiEntry) × (r : AnchorRegistry) × (lookup entity p.entries ≡ some entry)
            × (Anchors.revoke p.anchors entry.anchor_id entity ≡ ok r)
            × (Dpki.invalidate p entity ≡ ok (record p { anchors = r })))
  unfolding Dpki.invalidate
  invalidate_outcome p entity = elim (Option-cases (lookup entity p.entries)) [
    | inl absent ↦ inl (not_found, rw absent)
    | inr (entry, found) ↦ elim (revoke_outcome p.anchors entry.anchor_id entity) [
      | inl (absent, e) ↦ inl (_, invalidate_err p entity entry _ found e)
      | inr (inl (a, there, other, e)) ↦ inl (_, invalidate_err p entity entry _ found e)
      | inr (inr (a, there, mine, e)) ↦
          inr (entry, _, found, e, invalidate_ok p entity entry _ found e)
    ]
  ]

  -- A call changes the anchor registry by calls of the registry's own, and no entry.
  pub step_grows :
      (c : Call) (p : DecentralizedPki)
      → ((calls : List Lifecycle.Call) × ((step sha256 c p).anchors
            ≡ Lifecycle.run sha256 calls p.anchors))
        × ((entity : Str) (entry : DpkiEntry)
            → lookup entity p.entries ≡ some entry
            → lookup entity (step sha256 c p).entries ≡ some entry)
  unfolding Lifecycle.run
  step_grows (Call.register_key name key valid_from valid_until time) p =
      elim (register_key_outcome p name key valid_from valid_until time) [
        | inl (e, refused) ↦ rw refused (([], refl), λ entity entry h. h)
        | inr (r, fresh, anchored, there, done) ↦ rw done (
          (Lifecycle.Call.register key name time ∷ [], rw anchored),
          λ entity entry h.
              lookup-insert_ne name entity _ p.entries
                (λ same. cc (ap (λ k. lookup k p.entries) same))
              ∙ h,
        )
      ]
  step_grows (Call.invalidate name) p = elim (invalidate_outcome p name) [
    | inl (e, refused) ↦ rw refused (([], refl), λ entity entry h. h)
    | inr (own, r, found, gone, done) ↦
        rw done ((Lifecycle.Call.revoke own.anchor_id name ∷ [], rw gone), λ entity entry h. h)
  ]
