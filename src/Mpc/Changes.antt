-- ===== src/Mpc/Changes.antt =====
-- What each call can do to a session.
use abir_guard.Base.{
  ℕ, ◌+◌, ◌<◌, ◌≡◌, refl, ap, ◌∙◌, ◌⊎◌, inl, inr, Bool, true, false, not, some, Bytes, Str, ltb,
  if◌then◌else◌, bytes_eq, bytes_eq_iff, bytes_key, nat_eq, Result, ok, err, Bool-cases,
  Option-cases, Result-cases, ltb→lt,
}
use abir_guard.Base.Action.{◌>>=◌, ◌>>◌, pure, throw, ask, modify, refuse_if}
use abir_guard.Base.Map.{lookup, insert, contains}
use abir_guard.Mpc
use abir_guard.Mpc.{
  MpcSession, MpcError, MpcPolicy, ShareSubmission, CommitSubmission, RevealSubmission,
  AggregateMessage, Method, ensure_round, register_nonce, advance_round, round_mismatch,
  replay_detected, check_commitment, commitment_for,
}
use abir_guard.Mpc.Calls.{
  Message, round_of, nonce_of, Call, spend, opened, opened_outcome, commit, reveal, aggregate,
  deliver, step,
}

-- What a call does to the session; only `submit_share` is `direct`.
pub data Change (sha256 : Bytes → Bytes) (direct : Bool) (s : MpcSession)
    : MpcSession → Type 0 where
  refused : Change sha256 direct s s
  joined :
      (p : Str)
      → contains p s.parties ≡ false
      → Change sha256 direct s (record s { parties = insert p tt s.parties })
  shared :
      (m : ShareSubmission)
      → direct ≡ true
      → contains m.party_id s.parties ≡ true
      → contains m.party_id s.shares ≡ false
      → Change sha256 direct s (record s { shares = insert m.party_id m.share s.shares })
  spent : (nonce : ℕ) → Change sha256 direct s (spend nonce s)
  committed :
      (m : CommitSubmission)
      → contains m.party_id s.parties ≡ true
      → contains m.party_id s.commitments ≡ false
      → Change sha256 direct s
          (record (spend m.nonce s) { commitments = insert m.party_id m.commitment s.commitments })
  revealed :
      (m : RevealSubmission)
      → contains m.party_id s.parties ≡ true
      → contains m.party_id s.shares ≡ false
      → lookup m.party_id s.commitments ≡ some (sha256 m.share)
      → Change sha256 direct s
          (record (spend m.nonce s) { shares = insert m.party_id m.share s.shares })
  advanced :
      s.round < s.policy.max_rounds → Change sha256 direct s (record s { round = s.round + 1 })

-- The match of a reveal with its commitment passes only on the hash of the share.
check_outcome :
    (sha256 : Bytes → Bytes) (p : Str) (share : Bytes) (s : MpcSession)
    → ((e : MpcError) × (check_commitment sha256 p share s ≡ err e))
      ⊎ ((lookup p s.commitments ≡ some (sha256 share))
          × (check_commitment sha256 p share s ≡ ok tt))
unfolding check_commitment
check_outcome sha256 p share s = elim (Option-cases (lookup p s.commitments)) [
  | inl absent ↦ inl (Mpc.unknown_commitment p, rw (absent, check_commitment))
  | inr (c, found) ↦ elim (Bool-cases (bytes_eq c (sha256 share))) [
    | inl same ↦ inr (
      found ∙ ap some ((bytes_eq_iff c (sha256 share)).0 same),
      rw (found, check_commitment, same),
    )
    | inr other ↦ inl (Mpc.invalid_commitment p, rw (found, check_commitment, other))
  ]
]

-- What each message does once its nonce is spent.
abbrev pub commit_rest : CommitSubmission → Method
commit_rest m = do
  refuse_if (λ s. not (contains m.party_id s.parties)) (λ s. Mpc.unknown_party m.party_id)
  refuse_if (λ s. contains m.party_id s.commitments) (λ s. Mpc.duplicate_commitment m.party_id)
  modify λ s. record s { commitments = insert m.party_id m.commitment s.commitments }

abbrev pub reveal_rest : (Bytes → Bytes) → RevealSubmission → Method
reveal_rest sha256 m = do
  refuse_if (λ s. not (contains m.party_id s.parties)) (λ s. Mpc.unknown_party m.party_id)
  refuse_if (λ s. contains m.party_id s.shares) (λ s. Mpc.duplicate_share m.party_id)
  ask (check_commitment sha256 m.party_id m.share)
  modify λ s. record s { shares = insert m.party_id m.share s.shares }

abbrev aggregate_rest : (Bytes → Bytes) → AggregateMessage → Method
aggregate_rest sha256 m = do
  local ← ask (Mpc.finalize_digest sha256)
  if not (bytes_eq local m.digest) then throw Mpc.aggregate_mismatch else pure tt

abbrev pub rest_of : (Bytes → Bytes) → Message → Method
rest_of sha256 (commit m) = commit_rest m
rest_of sha256 (reveal m) = reveal_rest sha256 m
rest_of sha256 (aggregate m) = aggregate_rest sha256 m

pub deliver-opened :
    (sha256 : Bytes → Bytes) (m : Message)
    → deliver sha256 m ≡ opened (round_of m) (nonce_of m) (rest_of sha256 m)
unfolding Mpc.submit_commit Mpc.submit_reveal Mpc.apply_aggregate
deliver-opened sha256 (commit m) = refl
deliver-opened sha256 (reveal m) = refl
deliver-opened sha256 (aggregate m) = refl

module _ (sha256 : Bytes → Bytes) (direct : Bool) (s : MpcSession) where
  abbrev Changed : MpcSession × Result MpcError (Unit {0}) → Type 0
  Changed after = Change sha256 direct s after.0

  commit_change : (m : CommitSubmission) → Changed (Mpc.submit_commit m s)
  unfolding Mpc.submit_commit
  commit_change m = elim (opened_outcome m.round m.nonce (commit_rest m) s) [
    | inl (other, e) ↦ rw e refused
    | inr (inl (same, seen, e)) ↦ rw e refused
    | inr (inr (same, fresh, e)) ↦ rw e (elim (Bool-cases (contains m.party_id s.parties)) [
      | inr stranger ↦ rw stranger (spent m.nonce)
      | inl member ↦ elim (Bool-cases (contains m.party_id s.commitments)) [
        | inl twice ↦ rw (member, twice) (spent m.nonce)
        | inr first ↦ rw (member, first) (committed m member first)
      ]
    ])
  ]

  reveal_change : (m : RevealSubmission) → Changed (Mpc.submit_reveal sha256 m s)
  unfolding Mpc.submit_reveal
  reveal_change m = elim (opened_outcome m.round m.nonce (reveal_rest sha256 m) s) [
    | inl (other, e) ↦ rw e refused
    | inr (inl (same, seen, e)) ↦ rw e refused
    | inr (inr (same, fresh, e)) ↦ rw e (elim (Bool-cases (contains m.party_id s.parties)) [
      | inr stranger ↦ rw stranger (spent m.nonce)
      | inl member ↦ elim (Bool-cases (contains m.party_id s.shares)) [
        | inl twice ↦ rw (member, twice) (spent m.nonce)
        | inr first ↦ elim (check_outcome sha256 m.party_id m.share (spend m.nonce s)) [
          | inl (why, bad) ↦ rw (member, first, bad) (spent m.nonce)
          | inr (opens, good) ↦ rw (member, first, good) (revealed m member first opens)
        ]
      ]
    ])
  ]

  aggregate_change : (m : AggregateMessage) → Changed (Mpc.apply_aggregate sha256 m s)
  unfolding Mpc.apply_aggregate
  aggregate_change m = elim (opened_outcome m.round m.nonce (aggregate_rest sha256 m) s) [
    | inl (other, e) ↦ rw e refused
    | inr (inl (same, seen, e)) ↦ rw e refused
    | inr (inr (same, fresh, e)) ↦
        rw e (elim (Result-cases (Mpc.finalize_digest sha256 (spend m.nonce s))) [
          | inl (why, bad) ↦ rw bad (spent m.nonce)
          | inr (local, good) ↦ elim (Bool-cases (bytes_eq local m.digest)) [
            | inl same ↦ rw (good, same) (spent m.nonce)
            | inr other ↦ rw (good, other) (spent m.nonce)
          ]
        ])
  ]

  register_change : (p : Str) → Changed (Mpc.register_party p s)
  unfolding Mpc.register_party
  register_change p = elim (Bool-cases (contains p s.parties)) [
    | inl twice ↦ rw twice refused
    | inr first ↦ rw first (joined p first)
  ]

  share_change : direct ≡ true → (m : ShareSubmission) → Changed (Mpc.submit_share m s)
  unfolding Mpc.submit_share
  share_change is_direct m = elim (Bool-cases (contains m.party_id s.parties)) [
    | inr stranger ↦ rw stranger refused
    | inl member ↦ elim (Bool-cases (contains m.party_id s.shares)) [
      | inl twice ↦ rw (member, twice) refused
      | inr first ↦ rw (member, first) (shared m is_direct member first)
    ]
  ]

  advance-Change : Change sha256 direct s (advance_round s)
  unfolding Mpc.advance_round
  advance-Change = elim (Bool-cases (ltb s.round s.policy.max_rounds)) [
    | inl room ↦ rw room (advanced (ltb→lt _ _ room))
    | inr full ↦ rw full refused
  ]

-- Whether a call is `submit_share`, which asks for no commitment.
abbrev pub is_direct : Call → Bool
is_direct (Call.submit_share m) = true
is_direct (Call.register_party p) = false
is_direct (Call.send m) = false
is_direct Call.advance = false

-- Every call changes the session in one of these ways.
pub step-Change :
    (sha256 : Bytes → Bytes) (c : Call) (s : MpcSession)
    → Change sha256 (is_direct c) s (step sha256 c s)
step-Change sha256 (Call.register_party p) s = register_change sha256 false s p
step-Change sha256 (Call.submit_share m) s = share_change sha256 true s refl m
step-Change sha256 (Call.send (commit m)) s = commit_change sha256 false s m
step-Change sha256 (Call.send (reveal m)) s = reveal_change sha256 false s m
step-Change sha256 (Call.send (aggregate m)) s = aggregate_change sha256 false s m
step-Change sha256 Call.advance s = advance-Change sha256 false s
