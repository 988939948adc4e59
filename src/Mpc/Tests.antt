-- ===== src/Mpc/Tests.antt =====
-- Runs of a session, with a checksum in the place of SHA-256.
use abir_guard.Base.{
  ℕ, ◌+◌, ◌*◌, ◌%◌, ◌≡◌, ◌≢◌, refl, true, false, some, List, [], ◌∷◌, Bytes, Str, str, ◌==◌,
  bytes_eq, bytes_eq_iff, bytes_key, nat_eq, ok, err, if◌then◌else◌, arith, le_bytes, All,
}
use abir_guard.Base.Map.{lookup, insert, contains}
use abir_guard.Base.Words.{sort, insert_sorted, str_less}
use abir_guard.Mpc
use abir_guard.Mpc.{
  MpcPolicy, MpcSession, MpcError, ShareSubmission, CommitSubmission, RevealSubmission,
  AggregateMessage, new, new_policy, submit_commit, submit_reveal, submitted_shares,
  finalize_digest, replay_detected, round_mismatch, digest_input,
}
use abir_guard.Mpc.Calls.{Call, Message, run, deliver, commit, reveal, aggregate}
use abir_guard.Mpc.Changes.{is_direct}
use abir_guard.Mpc.Replay.{deliver_once}
use abir_guard.Mpc.Binding.{share_opens}
use abir_guard.Mpc.Digest.{finalize-order}
use abir_guard.Mpc.Honest.{commit-reveal}

checksum : Bytes → ℕ
checksum [] = 7
checksum (b ∷ bs) = (b + 31 * checksum bs) % 65521

abbrev digest : Bytes → Bytes
digest bs = le_bytes 2 (checksum bs)

program : Unit {0}
unfolding lookup insert bytes_eq le_bytes checksum run Mpc.register_party Mpc.submit_share
    submit_commit submit_reveal Mpc.apply_aggregate Mpc.ensure_round Mpc.register_nonce
    Mpc.check_commitment Mpc.advance_round finalize_digest digest_input sort insert_sorted str_less
    new_policy
program = tt

abbrev policy : MpcPolicy
policy = record { total_parties = 2; threshold = 2; max_rounds = 3 }

policy_valid : new_policy 2 2 3 ≡ ok policy
unfolding program
policy_valid = refl

abbrev alice : Str
alice = str "alice"

abbrev bob : Str
bob = str "bob"

abbrev share_a : Bytes
share_a = 1 ∷ 2 ∷ []

abbrev share_b : Bytes
share_b = 9 ∷ []

abbrev commits : Str → Bytes → ℕ → Call
commits p share nonce =
    Call.send
      (commit (record { party_id = p; commitment = digest share; nonce = nonce; round = 1 }))

abbrev reveals : Str → Bytes → ℕ → Call
reveals p share nonce =
    Call.send (reveal (record { party_id = p; share = share; nonce = nonce; round = 1 }))

abbrev honest : List Call
honest =
    Call.register_party alice
    ∷ Call.register_party bob
    ∷ commits alice share_a 1
    ∷ commits bob share_b 2
    ∷ reveals alice share_a 3
    ∷ reveals bob share_b 4
    ∷ []

-- The same parties the other way round, with a replayed reveal and a false one.
abbrev crossed : List Call
crossed =
    Call.register_party bob
    ∷ Call.register_party alice
    ∷ commits bob share_b 2
    ∷ reveals bob share_a 5
    ∷ reveals bob share_b 6
    ∷ commits alice share_a 1
    ∷ reveals alice share_a 6
    ∷ reveals alice share_a 7
    ∷ []

no_direct : All (λ c. is_direct c ≡ false) honest
no_direct = (refl, (refl, (refl, (refl, (refl, (refl, tt))))))

stored : lookup alice (run digest honest (new policy)).shares ≡ some share_a
unfolding program
stored = refl

finalized :
    finalize_digest digest (run digest honest (new policy))
    ≡ ok (digest (97 ∷ 108 ∷ 105 ∷ 99 ∷ 101 ∷ 1 ∷ 2 ∷ 98 ∷ 111 ∷ 98 ∷ 9 ∷ []))
unfolding program
finalized = refl

swapped :
    (p a b x y : Bytes) → a ≢ b → lookup p ((a, x) ∷ (b, y) ∷ []) ≡ lookup p ((b, y) ∷ (a, x) ∷ [])
unfolding lookup
swapped p a b x y apart = grind (arith, bytes_eq_iff a p, bytes_eq_iff b p)

shares_honest : (run digest honest (new policy)).shares ≡ (alice, share_a) ∷ (bob, share_b) ∷ []
unfolding program
shares_honest = refl

shares_crossed : (run digest crossed (new policy)).shares ≡ (bob, share_b) ∷ (alice, share_a) ∷ []
unfolding program
shares_crossed = refl

same_shares :
    (p : Str)
    → lookup p (run digest honest (new policy)).shares
      ≡ lookup p (run digest crossed (new policy)).shares
same_shares p =
    rw (shares_honest, shares_crossed)
      (swapped p alice bob share_a share_b (λ e. absurd (let x = e in cc)))

share_opens_example :
    lookup alice (run digest honest (new policy)).commitments ≡ some (digest share_a)
share_opens_example = share_opens digest policy honest alice share_a no_direct stored

committed : lookup bob (run digest honest (new policy)).commitments ≡ some (digest share_b)
unfolding program
committed = refl

abbrev first : Message
first = aggregate (record { round = 1; nonce = 8; digest = [] })

abbrev again : Message
again = commit (record { party_id = alice; commitment = []; nonce = 8; round = 1 })

deliver_once_example :
    deliver digest again (run digest crossed (deliver digest first (new policy)).0) ≡ (
      run digest crossed (deliver digest first (new policy)).0,
      err (
          if 1 == (run digest crossed (deliver digest first (new policy)).0).round
          then replay_detected 8
          else round_mismatch (run digest crossed (deliver digest first (new policy)).0).round 1),
    )
deliver_once_example = deliver_once digest first again crossed (new policy) refl refl

finalize-order_example :
    finalize_digest digest (run digest honest (new policy))
    ≡ finalize_digest digest (run digest crossed (new policy))
finalize-order_example = finalize-order digest policy honest crossed same_shares

abbrev lobby : MpcSession
lobby = run digest (Call.register_party alice ∷ []) (new policy)

lobby_open :
    (contains alice lobby.parties ≡ true)
    × (contains alice lobby.commitments ≡ false)
    × (contains alice lobby.shares ≡ false)
    × (contains 1 lobby.seen_nonces ≡ false)
    × (contains 2 lobby.seen_nonces ≡ false)
unfolding program
lobby_open = (refl, refl, refl, refl, refl)

commit-reveal_example :
    (t : MpcSession) × (u : MpcSession) × (submit_commit
        (record { party_id = alice; commitment = digest share_a; nonce = 1; round = lobby.round })
        lobby
      ≡ (t, ok tt))
    × (submit_reveal digest
          (record { party_id = alice; share = share_a; nonce = 2; round = lobby.round })
          t
        ≡ (u, ok tt))
    × (lookup alice u.shares ≡ some share_a)
    × (submitted_shares u ≡ submitted_shares lobby + 1)
commit-reveal_example =
    commit-reveal digest lobby alice share_a 1 2 lobby_open.0 lobby_open.1 lobby_open.2 lobby_open.3
      lobby_open.4 (λ e. absurd (omega (arith, e)))
