-- ===== src/Mpc/Digest.antt =====
-- The digest that closes a session: who may compute it and what it depends on.
use abir_guard.Base.{
  ◌≡◌, refl, sym, ap, ◌∙◌, Bool, List, [], ◌∷◌, Bytes, Str, bytes_key, nat_eq, length, length-map,
  arith,
}
use abir_guard.Base.Map.{Map, lookup}
use abir_guard.Base.Map.Distinct.{keys, IsDistinct, insert-IsDistinct, sort-keys}
use abir_guard.Base.Words.{sort, length-sort}
use abir_guard.Mpc.{MpcSession, MpcPolicy, digest_input, finalize_digest, new}
use abir_guard.Mpc.Calls.{Call, step, run}
use abir_guard.Mpc.Changes.{
  Change, step-Change, refused, joined, shared, spent, committed, revealed, advanced,
}

-- What of a session no call destroys: its policy, and one share for each party.
Change-IsDistinct :
    {sha256 : Bytes → Bytes} {direct : Bool} {s t : MpcSession}
    → Change sha256 direct s t
    → IsDistinct s.shares
    → (t.policy ≡ s.policy) × IsDistinct t.shares
Change-IsDistinct refused d = (refl, d)
Change-IsDistinct (joined q fresh) d = (refl, d)
Change-IsDistinct {s = s} (shared m i member fresh) d =
    (refl, insert-IsDistinct m.party_id m.share s.shares d)
Change-IsDistinct (spent nonce) d = (refl, d)
Change-IsDistinct (committed m member fresh) d = (refl, d)
Change-IsDistinct {s = s} (revealed m member fresh opens) d =
    (refl, insert-IsDistinct m.party_id m.share s.shares d)
Change-IsDistinct (advanced room) d = (refl, d)

run-IsDistinct :
    (sha256 : Bytes → Bytes) (calls : List Call) (s : MpcSession)
    → IsDistinct s.shares
    → ((run sha256 calls s).policy ≡ s.policy) × IsDistinct (run sha256 calls s).shares
unfolding run
run-IsDistinct sha256 [] s d = (refl, d)
run-IsDistinct sha256 (c ∷ calls) s d =
    let (same, next) = Change-IsDistinct (step-Change sha256 c s) d in
    let (same', rest) = run-IsDistinct sha256 calls (step sha256 c s) next in (same' ∙ same, rest)

digest_input-lookup :
    (m n : Map Str Bytes) (parties : List Str)
    → ((p : Str) → lookup p m ≡ lookup p n)
    → digest_input m parties ≡ digest_input n parties
unfolding digest_input
digest_input-lookup m n [] h = refl
digest_input-lookup m n (p ∷ parties) h = rw (h p, digest_input-lookup m n parties h)

-- The digest, and whether there is one, depends on nothing but the threshold and which share each
-- party has: two sessions of one policy that have come to the same shares by any calls, in any
-- order, finalize alike.
pub finalize-order :
    (sha256 : Bytes → Bytes) (policy : MpcPolicy) (calls calls' : List Call)
    → ((p : Str)
        → lookup p (run sha256 calls (new policy)).shares
          ≡ lookup p (run sha256 calls' (new policy)).shares)
    → finalize_digest sha256 (run sha256 calls (new policy))
      ≡ finalize_digest sha256 (run sha256 calls' (new policy))
unfolding finalize_digest
finalize-order sha256 policy calls calls' h =
    let s = run sha256 calls (new policy) in
    let t = run sha256 calls' (new policy) in
    let (same, d) = run-IsDistinct sha256 calls (new policy) tt in
    let (same', d') = run-IsDistinct sha256 calls' (new policy) tt in
    let order = sort-keys s.shares t.shares d d' h in
    let threshold : s.policy.threshold ≡ t.policy.threshold =
      ap (λ (p : MpcPolicy). p.threshold) (same ∙ sym same') in
    let count : length s.shares ≡ length t.shares = omega (
      arith,
      length-sort (keys s.shares),
      length-sort (keys t.shares),
      length-map (λ e. e.0) s.shares,
      length-map (λ e. e.0) t.shares,
      ap length order,
    ) in
    rw (threshold, count, order, digest_input-lookup s.shares t.shares (sort (keys t.shares)) h)
