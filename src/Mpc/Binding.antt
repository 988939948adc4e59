-- ===== src/Mpc/Binding.antt =====
-- Commit and reveal: what is stored stays, and a revealed share is the one that was committed to.
use abir_guard.Base.{
  ◌≡◌, sym, ap, ◌∙◌, inl, inr, Bool, false, some, List, [], ◌∷◌, Bytes, Str, bytes_eq, bytes_eq_iff,
  bytes_key, nat_eq, Bool-cases, arith, All,
}
use abir_guard.Base.Map.{Map, lookup, insert, contains, lookup-insert, lookup-insert_ne, absent_ne}
use abir_guard.Mpc.{MpcSession, MpcPolicy, new}
use abir_guard.Mpc.Calls.{Call, step, run}
use abir_guard.Mpc.Changes.{
  Change, step-Change, refused, joined, shared, spent, committed, revealed, advanced, is_direct,
}

-- What a session has stored under a key another still has.
abbrev pub Keeps : MpcSession → MpcSession → Str → Type 0
Keeps s t p =
    ((c : Bytes) → lookup p s.commitments ≡ some c → lookup p t.commitments ≡ some c)
    × ((x : Bytes) → lookup p s.shares ≡ some x → lookup p t.shares ≡ some x)

-- A new entry leaves the others.
keep_others :
    (k p : Str) (v x : Bytes) (m : Map Str Bytes)
    → contains k m ≡ false
    → lookup p m ≡ some x
    → lookup p (insert k v m) ≡ some x
keep_others k p v x m out h = lookup-insert_ne k p v m (absent_ne k p m out h) ∙ h

Change-Keeps :
    {sha256 : Bytes → Bytes} {direct : Bool} {s t : MpcSession} (p : Str)
    → Change sha256 direct s t
    → Keeps s t p
Change-Keeps p refused = (λ c h. h, λ x h. h)
Change-Keeps p (joined q fresh) = (λ c h. h, λ x h. h)
Change-Keeps {s = s} p (shared m d member fresh) =
    (λ c h. h, λ x h. keep_others m.party_id p m.share x s.shares fresh h)
Change-Keeps p (spent nonce) = (λ c h. h, λ x h. h)
Change-Keeps {s = s} p (committed m member fresh) =
    (λ c h. keep_others m.party_id p m.commitment c s.commitments fresh h, λ x h. h)
Change-Keeps {s = s} p (revealed m member fresh opens) =
    (λ c h. h, λ x h. keep_others m.party_id p m.share x s.shares fresh h)
Change-Keeps p (advanced room) = (λ c h. h, λ x h. h)

-- Every share in the session opens its party's commitment.
abbrev pub IsOpened : (Bytes → Bytes) → MpcSession → Type 0
IsOpened sha256 s =
    (p : Str) (x : Bytes) → lookup p s.shares ≡ some x → lookup p s.commitments ≡ some (sha256 x)

-- With one more entry in the shares.
IsOpened-insert :
    (sha256 : Bytes → Bytes) (s : MpcSession) (k p : Str) (v x : Bytes)
    → IsOpened sha256 s
    → lookup k s.commitments ≡ some (sha256 v)
    → lookup p (insert k v s.shares) ≡ some x
    → lookup p s.commitments ≡ some (sha256 x)
IsOpened-insert sha256 s k p v x good opens h = elim (Bool-cases (bytes_eq k p)) [
  | inl same ↦
      let eq : k ≡ p = (bytes_eq_iff k p).0 same in
      let vx : v ≡ x = (let y = lookup-insert k p v s.shares in ground (arith, y)) in
      ap (λ j. lookup j s.commitments) (sym eq) ∙ opens ∙ ap (λ y. some (sha256 y)) vx
  | inr other ↦ good p x (sym (lookup-insert k p v s.shares ∙ rw other) ∙ h)
]

Change-IsOpened :
    {sha256 : Bytes → Bytes} {direct : Bool} {s t : MpcSession}
    → direct ≡ false
    → Change sha256 direct s t
    → IsOpened sha256 s
    → IsOpened sha256 t
Change-IsOpened i refused good = good
Change-IsOpened i (joined q fresh) good = good
Change-IsOpened i (shared m d member fresh) good = absurd cc
Change-IsOpened i (spent nonce) good = good
Change-IsOpened {sha256} {s = s} i (committed m member fresh) good =
    λ p x h. keep_others m.party_id p m.commitment (sha256 x) s.commitments fresh (good p x h)
Change-IsOpened {sha256} {s = s} i (revealed m member fresh opens) good =
    λ p x h. IsOpened-insert sha256 s m.party_id p m.share x good opens h
Change-IsOpened i (advanced room) good = good

module _ (sha256 : Bytes → Bytes) where
  run-Keeps : (calls : List Call) (s : MpcSession) (p : Str) → Keeps s (run sha256 calls s) p
  unfolding run
  run-Keeps [] s p = (λ c h. h, λ x h. h)
  run-Keeps (c ∷ calls) s p =
      let (first, first') = Change-Keeps p (step-Change sha256 c s) in
      let (rest, rest') = run-Keeps calls (step sha256 c s) p in
      (λ a h. rest a (first a h), λ x h. rest' x (first' x h))

  -- First come, first kept: whatever is called, `submit_share` included, a party's commitment and
  -- a party's share never change once they are stored.
  pub stored_kept :
      (calls : List Call) (s : MpcSession) (p q : Str) (c x : Bytes)
      → lookup p s.commitments ≡ some c
      → lookup q s.shares ≡ some x
      → (lookup p (run sha256 calls s).commitments ≡ some c)
        × (lookup q (run sha256 calls s).shares ≡ some x)
  stored_kept calls s p q c x h g = ((run-Keeps calls s p).0 c h, (run-Keeps calls s q).1 x g)

  run-IsOpened :
      (calls : List Call) (s : MpcSession)
      → All (λ c. is_direct c ≡ false) calls
      → IsOpened sha256 s
      → IsOpened sha256 (run sha256 calls s)
  unfolding run
  run-IsOpened [] s safe good = good
  run-IsOpened (c ∷ calls) s safe good =
      run-IsOpened calls (step sha256 c s) safe.1
        (Change-IsOpened safe.0 (step-Change sha256 c s) good)

  -- In a session that has had no `submit_share`, every stored share hashes to the commitment of
  -- its party.
  pub share_opens :
      (policy : MpcPolicy) (calls : List Call) (p : Str) (x : Bytes)
      → All (λ c. is_direct c ≡ false) calls
      → lookup p (run sha256 calls (new policy)).shares ≡ some x
      → lookup p (run sha256 calls (new policy)).commitments ≡ some (sha256 x)
  unfolding lookup
  share_opens policy calls p x safe =
      run-IsOpened calls (new policy) safe (λ q y h. absurd (let z = h in cc)) p x
