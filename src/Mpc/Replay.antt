-- ===== src/Mpc/Replay.antt =====
-- A nonce serves once.
use abir_guard.Base.{
  ℕ, ◌≡◌, ◌≢◌, ap, ◌∙◌, inl, inr, Bool, true, false, List, [], ◌∷◌, Bytes, ◌==◌, ==_iff,
  if◌then◌else◌, bytes_eq, bytes_key, nat_eq, err, Bool-cases, Result-cases,
}
use abir_guard.Base.Map.{contains, contains-insert, contains-insert_self}
use abir_guard.Mpc
use abir_guard.Mpc.{MpcSession, MpcError, round_mismatch, replay_detected}
use abir_guard.Mpc.Calls.{
  Message, Call, round_of, nonce_of, deliver, step, run, spend, opened_outcome, commit, reveal,
  aggregate,
}
use abir_guard.Mpc.Changes.{
  Change, step-Change, deliver-opened, rest_of, refused, joined, shared, spent, committed, revealed,
  advanced,
}

Change-seen :
    {sha256 : Bytes → Bytes} {direct : Bool} {s t : MpcSession} (n : ℕ)
    → Change sha256 direct s t
    → contains n s.seen_nonces ≡ true
    → contains n t.seen_nonces ≡ true
Change-seen n refused h = h
Change-seen n (joined p fresh) h = h
Change-seen n (shared m d member fresh) h = h
Change-seen {s = s} n (spent nonce) h = contains-insert nonce n tt s.seen_nonces h
Change-seen {s = s} n (committed m member fresh) h = contains-insert m.nonce n tt s.seen_nonces h
Change-seen {s = s} n (revealed m member fresh opens) h =
    contains-insert m.nonce n tt s.seen_nonces h
Change-seen n (advanced room) h = h

module _ (sha256 : Bytes → Bytes) where
  run-seen :
      (calls : List Call) (s : MpcSession) (n : ℕ)
      → contains n s.seen_nonces ≡ true
      → contains n (run sha256 calls s).seen_nonces ≡ true
  unfolding run
  run-seen [] s n h = h
  run-seen (c ∷ calls) s n h =
      run-seen calls (step sha256 c s) n (Change-seen n (step-Change sha256 c s) h)

  -- Past the two checks a message leaves the nonces alone.
  rest-seen : (m : Message) (s : MpcSession) → (rest_of sha256 m s).0.seen_nonces ≡ s.seen_nonces
  rest-seen (commit m) s = elim (Bool-cases (contains m.party_id s.parties)) [
    | inr stranger ↦ rw stranger
    | inl member ↦ elim (Bool-cases (contains m.party_id s.commitments)) [
      | inl twice ↦ rw (member, twice)
      | inr first ↦ rw (member, first)
    ]
  ]
  rest-seen (reveal m) s = elim (Bool-cases (contains m.party_id s.parties)) [
    | inr stranger ↦ rw stranger
    | inl member ↦ elim (Bool-cases (contains m.party_id s.shares)) [
      | inl twice ↦ rw (member, twice)
      | inr first ↦ elim (Result-cases (Mpc.check_commitment sha256 m.party_id m.share s)) [
        | inl (e, bad) ↦ rw (member, first, bad)
        | inr (u, good) ↦ rw (member, first, good)
      ]
    ]
  ]
  rest-seen (aggregate m) s = elim (Result-cases (Mpc.finalize_digest sha256 s)) [
    | inl (e, bad) ↦ rw bad
    | inr (local, good) ↦ elim (Bool-cases (bytes_eq local m.digest)) [
      | inl same ↦ rw (good, same)
      | inr other ↦ rw (good, other)
    ]
  ]

  -- A message of the current round has spent its nonce, whatever it was answered.
  deliver-seen :
      (m : Message) (s : MpcSession)
      → round_of m ≡ s.round
      → contains (nonce_of m) (deliver sha256 m s).0.seen_nonces ≡ true
  deliver-seen m s now =
      rw (deliver-opened sha256 m)
        (elim (opened_outcome (round_of m) (nonce_of m) (rest_of sha256 m) s) [
          | inl (late, e) ↦ absurd (late now)
          | inr (inl (same, seen, e)) ↦ rw e seen
          | inr (inr (same, fresh, e)) ↦
              rw (e, rest-seen m (spend (nonce_of m) s))
                (contains-insert_self (nonce_of m) tt s.seen_nonces)
        ])

  -- After a message of the current round, accepted or not, and any calls, a message with its nonce
  -- is refused and changes nothing: with `ReplayDetected` in the round that is then current, and
  -- with `RoundMismatch` in any other.
  pub deliver_once :
      (m m' : Message) (calls : List Call) (s : MpcSession)
      → round_of m ≡ s.round
      → nonce_of m' ≡ nonce_of m
      → deliver sha256 m' (run sha256 calls (deliver sha256 m s).0) ≡ (
        run sha256 calls (deliver sha256 m s).0,
        err (
            if round_of m' == (run sha256 calls (deliver sha256 m s).0).round
            then replay_detected (nonce_of m')
            else round_mismatch (run sha256 calls (deliver sha256 m s).0).round (round_of m')),
      )
  deliver_once m m' calls s now same_nonce =
      let t = run sha256 calls (deliver sha256 m s).0 in
      let seen : contains (nonce_of m') t.seen_nonces ≡ true =
        ap (λ n. contains n t.seen_nonces) same_nonce
        ∙ run-seen calls (deliver sha256 m s).0 (nonce_of m) (deliver-seen m s now) in
      ap (λ f. f t) (deliver-opened sha256 m')
      ∙ elim (opened_outcome (round_of m') (nonce_of m') (rest_of sha256 m') t) [
        | inl (late, e) ↦ e ∙ rw (ne_test (round_of m') t.round late)
        | inr (inl (same, again, e)) ↦ e ∙ rw ((==_iff (round_of m') t.round).1 same)
        | inr (inr (same, fresh, e)) ↦ absurd cc
      ]
    where
      ne_test : (a b : ℕ) → a ≢ b → (a == b) ≡ false
      ne_test a b ne = elim (Bool-cases (a == b)) [
        | inl same ↦ absurd (ne ((==_iff a b).0 same))
        | inr other ↦ other
      ]
