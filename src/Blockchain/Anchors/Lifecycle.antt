-- ===== src/Blockchain/Anchors/Lifecycle.antt =====
-- Sequences of calls on the registry: an anchor never changes its key, its owner or its time, and
-- never stops being revoked.
use abir_guard.Base.{
  ℕ, ◌≡◌, refl, ap, ◌∙◌, arith, true, none, some, List, [], ◌∷◌, Bytes, Str, ◌≢◌, ◌⊎◌, Option-cases,
  bytes_eq, bytes_eq_iff, bytes_key, is_empty, Result, ok, err, Bool-cases, inl, inr,
}
use abir_guard.Base.Map.{lookup, insert, lookup-insert, contains_of_none, contains_of_some}
use abir_guard.Blockchain.Anchors
use abir_guard.Blockchain.Anchors.{
  KeyAnchor, KeyAnchorError, AnchorRegistry, new_anchor, anchor_id_of, verify_anchor_by_id, revoked,
  empty_public_key, already_anchored, not_found, owner_mismatch,
}

pub data Call : Type 0 where
  register : Bytes → Str → ℕ → Call
  revoke : Str → Str → Call

-- The registry after a call; a call that is refused leaves it as it is.
abbrev pub after_register :
    AnchorRegistry → Result KeyAnchorError (AnchorRegistry × KeyAnchor) → AnchorRegistry
after_register r (ok (r', anchor)) = r'
after_register r (err e) = r

abbrev pub after_revoke : AnchorRegistry → Result KeyAnchorError AnchorRegistry → AnchorRegistry
after_revoke r (ok r') = r'
after_revoke r (err e) = r

module _ (sha256 : Bytes → Bytes) where
  abbrev pub step : Call → AnchorRegistry → AnchorRegistry
  step (Call.register key owner time) r =
      after_register r (Anchors.register sha256 r key owner time)
  step (Call.revoke id owner) r = after_revoke r (Anchors.revoke r id owner)

  unfoldable pub run : List Call → AnchorRegistry → AnchorRegistry
  run [] r = r
  run (c ∷ calls) r = run calls (step c r)

-- What can become of an anchor.
pub record Evolves (a b : KeyAnchor) : Type 0 where
  pub same_id : b.anchor_id ≡ a.anchor_id
  pub same_key : b.key_hash ≡ a.key_hash
  pub same_owner : b.owner_id ≡ a.owner_id
  pub same_time : b.timestamp ≡ a.timestamp
  pub stays_revoked : a.is_revoked ≡ true → b.is_revoked ≡ true

Evolves-refl : (a : KeyAnchor) → Evolves a a
Evolves-refl a = record {
  same_id = refl;
  same_key = refl;
  same_owner = refl;
  same_time = refl;
  stays_revoked = λ h. h;
}

Evolves-trans : (a b c : KeyAnchor) → Evolves a b → Evolves b c → Evolves a c
Evolves-trans a b c p q = record {
  same_id = q.same_id ∙ p.same_id;
  same_key = q.same_key ∙ p.same_key;
  same_owner = q.same_owner ∙ p.same_owner;
  same_time = q.same_time ∙ p.same_time;
  stays_revoked = λ h. q.stays_revoked (p.stays_revoked h);
}

-- The anchor `a` under an id is still there, evolved.
abbrev pub Holds : AnchorRegistry → Str → KeyAnchor → Type 0
Holds r id a = (b : KeyAnchor) × (lookup id r.anchors ≡ some b) × Evolves a b

Holds-insert :
    (r : AnchorRegistry) (id k : Str) (a v : KeyAnchor)
    → lookup id r.anchors ≡ some a
    → (k ≡ id → Evolves a v)
    → Holds (record { anchors = insert k v r.anchors }) id a
Holds-insert r id k a v h ev = elim (Bool-cases (bytes_eq k id)) [
  | inl same ↦ (v, lookup-insert k id v r.anchors ∙ ground arith, ev ((bytes_eq_iff k id).0 same))
  | inr other ↦ (a, lookup-insert k id v r.anchors ∙ ground arith, Evolves-refl a)
]

module _ (sha256 : Bytes → Bytes) (r : AnchorRegistry) where
  -- The outcomes of `register`.
  pub register_outcome :
      (key : Bytes) (owner : Str) (time : ℕ)
      → (Anchors.register sha256 r key owner time ≡ err empty_public_key)
        ⊎ (Anchors.register sha256 r key owner time ≡ err already_anchored)
        ⊎ ((lookup (anchor_id_of sha256 key) r.anchors ≡ none)
            × (Anchors.register sha256 r key owner time
                ≡ ok (
                  record {
                    anchors =
                        insert
                          (anchor_id_of sha256 key)
                          (new_anchor sha256 key owner time)
                          r.anchors;
                  },
                  new_anchor sha256 key owner time,
                )))
  unfolding Anchors.register
  register_outcome key owner time = elim (Bool-cases (is_empty key)) [
    | inl e ↦ inl (rw e)
    | inr n ↦ elim (Option-cases (lookup (anchor_id_of sha256 key) r.anchors)) [
      | inl fresh ↦
          inr (inr (fresh, rw (n, contains_of_none (anchor_id_of sha256 key) r.anchors fresh)))
      | inr (a, taken) ↦
          inr (inl (rw (n, contains_of_some (anchor_id_of sha256 key) r.anchors taken)))
    ]
  ]

module _ (r : AnchorRegistry) where
  -- The outcomes of `revoke`.
  pub revoke_outcome :
      (id owner : Str)
      → ((lookup id r.anchors ≡ none) × (Anchors.revoke r id owner ≡ err not_found))
        ⊎ ((a : KeyAnchor) × (lookup id r.anchors ≡ some a)
            × (a.owner_id ≢ owner)
            × (Anchors.revoke r id owner ≡ err (owner_mismatch a.owner_id owner)))
        ⊎ ((a : KeyAnchor) × (lookup id r.anchors ≡ some a)
            × (a.owner_id ≡ owner)
            × (Anchors.revoke r id owner
                ≡ ok (record { anchors = insert id (record a { is_revoked = true }) r.anchors })))
  unfolding Anchors.revoke
  revoke_outcome id owner = elim (Option-cases (lookup id r.anchors)) [
    | inl none_found ↦ inl (none_found, rw (none_found, Anchors.revoke))
    | inr (a, found) ↦ elim (Bool-cases (bytes_eq a.owner_id owner)) [
      | inl same ↦ inr (inr (a, found, (bytes_eq_iff _ _).0 same, rw (found, Anchors.revoke, same)))
      | inr other ↦ inr (
          inl (
            a,
            found,
            λ e. (let y = (bytes_eq_iff _ _).1 e in cc),
            rw (found, Anchors.revoke, other),
          ))
    ]
  ]

revoked_Evolves : (a : KeyAnchor) → Evolves a (record a { is_revoked = true })
revoked_Evolves a = record {
  same_id = refl;
  same_key = refl;
  same_owner = refl;
  same_time = refl;
  stays_revoked = λ h. refl;
}

module _ (sha256 : Bytes → Bytes) where
  pub step-Holds :
      (c : Call) (r : AnchorRegistry) (id : Str) (a : KeyAnchor)
      → lookup id r.anchors ≡ some a
      → Holds (step sha256 c r) id a
  step-Holds (Call.register key owner time) r id a h =
      elim (register_outcome sha256 r key owner time) [
        | inl e ↦ rw e (a, h, Evolves-refl a)
        | inr (inl e) ↦ rw e (a, h, Evolves-refl a)
        | inr (inr (fresh, e)) ↦ rw e (
            Holds-insert r id (anchor_id_of sha256 key) a (new_anchor sha256 key owner time) h
              (λ same. cc (ap (λ k. lookup k r.anchors) same)))
      ]
  step-Holds (Call.revoke k owner) r id a h = elim (revoke_outcome r k owner) [
    | inl (absent, e) ↦ rw e (a, h, Evolves-refl a)
    | inr (inl (b, found, other, e)) ↦ rw e (a, h, Evolves-refl a)
    | inr (inr (b, found, mine, e)) ↦ rw e (
        Holds-insert r id k a (record b { is_revoked = true }) h
          (λ same.
            let eq : b ≡ a = cc (ap (λ j. lookup j r.anchors) same) in rw eq (revoked_Evolves a)))
  ]

  -- Whatever calls of `register` and `revoke` follow, an anchor keeps its id, its key hash, its
  -- owner and its timestamp, and once revoked it stays revoked.
  pub run-Evolves :
      (calls : List Call) (r : AnchorRegistry) (id : Str) (a : KeyAnchor)
      → lookup id r.anchors ≡ some a
      → (b : KeyAnchor) × (lookup id (run sha256 calls r).anchors ≡ some b) × Evolves a b
  unfolding run
  run-Evolves [] r id a h = (a, h, Evolves-refl a)
  run-Evolves (c ∷ calls) r id a h =
      let (b, found, first) = step-Holds c r id a h in
      let (d, found', rest) = run-Evolves calls (step sha256 c r) id b found in
      (d, found', Evolves-trans a b d first rest)
