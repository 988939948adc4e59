-- ===== src/Mpc/Honest.antt =====
-- What a party that follows the protocol gets.
use abir_guard.Base.{
  ℕ, ◌+◌, ◌≡◌, ◌≢◌, refl, ◌∙◌, inl, inr, true, false, some, Bytes, Str, ==_iff, bytes_eq_refl,
  bytes_key, nat_eq, ok, arith,
}
use abir_guard.Base.Map.{lookup, insert, contains, lookup-insert, lookup-insert_self, length-insert}
use abir_guard.Mpc
use abir_guard.Mpc.{
  MpcSession, CommitSubmission, RevealSubmission, submit_commit, submit_reveal, submitted_shares,
}
use abir_guard.Mpc.Calls.{spend, opened_outcome}
use abir_guard.Mpc.Changes.{commit_rest, reveal_rest}

-- The session after a commitment, and after the reveal.
abbrev pub with_commitment : CommitSubmission → MpcSession → MpcSession
with_commitment m s = record (spend m.nonce s) {
  commitments = insert m.party_id m.commitment s.commitments;
}

abbrev pub with_share : RevealSubmission → MpcSession → MpcSession
with_share m s = record (spend m.nonce s) { shares = insert m.party_id m.share s.shares }

commit_accepted :
    (m : CommitSubmission) (s : MpcSession)
    → m.round ≡ s.round
    → contains m.nonce s.seen_nonces ≡ false
    → contains m.party_id s.parties ≡ true
    → contains m.party_id s.commitments ≡ false
    → submit_commit m s ≡ (with_commitment m s, ok tt)
unfolding submit_commit
commit_accepted m s now fresh member first =
    elim (opened_outcome m.round m.nonce (commit_rest m) s) [
      | inl (late, e) ↦ absurd (late now)
      | inr (inl (same, seen, e)) ↦ absurd cc
      | inr (inr (same, unseen, e)) ↦ e ∙ rw (member, first)
    ]

reveal_accepted :
    (sha256 : Bytes → Bytes) (m : RevealSubmission) (s : MpcSession)
    → m.round ≡ s.round
    → contains m.nonce s.seen_nonces ≡ false
    → contains m.party_id s.parties ≡ true
    → contains m.party_id s.shares ≡ false
    → lookup m.party_id s.commitments ≡ some (sha256 m.share)
    → submit_reveal sha256 m s ≡ (with_share m s, ok tt)
unfolding submit_reveal Mpc.check_commitment
reveal_accepted sha256 m s now fresh member first opens =
    elim (opened_outcome m.round m.nonce (reveal_rest sha256 m) s) [
      | inl (late, e) ↦ absurd (late now)
      | inr (inl (same, seen, e)) ↦ absurd cc
      | inr (inr (same, unseen, e)) ↦
          e ∙ rw (member, first, opens, Mpc.check_commitment, bytes_eq_refl (sha256 m.share))
    ]

-- A registered party that has stored nothing yet commits to the hash of a share and then reveals
-- the share, both in the current round and with two different nonces that are not spent: both
-- messages are accepted, the share is stored under the party, and there is one share more.
pub commit-reveal :
    (sha256 : Bytes → Bytes) (s : MpcSession) (p : Str) (share : Bytes) (n n' : ℕ)
    → contains p s.parties ≡ true
    → contains p s.commitments ≡ false
    → contains p s.shares ≡ false
    → contains n s.seen_nonces ≡ false
    → contains n' s.seen_nonces ≡ false
    → n ≢ n'
    → (t : MpcSession) × (u : MpcSession) × (submit_commit
          (record { party_id = p; commitment = sha256 share; nonce = n; round = s.round })
          s
        ≡ (t, ok tt))
      × (submit_reveal sha256
            (record { party_id = p; share = share; nonce = n'; round = s.round })
            t
          ≡ (u, ok tt))
      × (lookup p u.shares ≡ some share)
      × (submitted_shares u ≡ submitted_shares s + 1)
commit-reveal sha256 s p share n n' member uncommitted unshared fresh fresh' apart =
    let c : CommitSubmission = record {
      party_id = p;
      commitment = sha256 share;
      nonce = n;
      round = s.round;
    } in
    let r : RevealSubmission = record {
      party_id = p;
      share = share;
      nonce = n';
      round = s.round;
    } in
    let t = with_commitment c s in
    let unseen : contains n' t.seen_nonces ≡ false =
      (let x = lookup-insert n n' tt s.seen_nonces in grind (arith, x, ==_iff n n')) in
    (
      t,
      with_share r t,
      commit_accepted c s refl fresh member uncommitted,
      reveal_accepted sha256 r t refl unseen member unshared
          (lookup-insert_self p (sha256 share) s.commitments),
      lookup-insert_self p share s.shares,
      length-insert p share s.shares ∙ rw unshared,
    )
