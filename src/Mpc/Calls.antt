-- ===== src/Mpc/Calls.antt =====
-- Sequences of calls on a session, and what each call can come to.
use abir_guard.Base.{
  ℕ, ◌≡◌, ◌≢◌, ◌⊎◌, inl, inr, true, false, List, [], ◌∷◌, Bytes, Str, ◌==◌, ==_iff, bytes_key,
  nat_eq, err, Bool-cases,
}
use abir_guard.Base.Action.{◌>>◌}
use abir_guard.Base.Map.{insert, contains}
use abir_guard.Mpc
use abir_guard.Mpc.{
  MpcSession, MpcError, MpcPolicy, ShareSubmission, CommitSubmission, RevealSubmission,
  AggregateMessage, Method, ensure_round, register_nonce, advance_round, round_mismatch,
  replay_detected, check_commitment, commitment_for,
}

-- A message that carries a round and a nonce.
pub data Message : Type 0 where
  commit : CommitSubmission → Message
  reveal : RevealSubmission → Message
  aggregate : AggregateMessage → Message

abbrev pub round_of : Message → ℕ
round_of (commit m) = m.round
round_of (reveal m) = m.round
round_of (aggregate m) = m.round

abbrev pub nonce_of : Message → ℕ
nonce_of (commit m) = m.nonce
nonce_of (reveal m) = m.nonce
nonce_of (aggregate m) = m.nonce

pub data Call : Type 0 where
  register_party : Str → Call
  submit_share : ShareSubmission → Call
  send : Message → Call
  advance : Call

-- The nonce is spent, and nothing else has changed.
abbrev pub spend : ℕ → MpcSession → MpcSession
spend nonce s = record s { seen_nonces = insert nonce tt s.seen_nonces }

module _ (sha256 : Bytes → Bytes) where
  abbrev pub deliver : Message → Method
  deliver (commit m) = Mpc.submit_commit m
  deliver (reveal m) = Mpc.submit_reveal sha256 m
  deliver (aggregate m) = Mpc.apply_aggregate sha256 m

  abbrev pub step : Call → MpcSession → MpcSession
  step (Call.register_party p) s = (Mpc.register_party p s).0
  step (Call.submit_share m) s = (Mpc.submit_share m s).0
  step (Call.send m) s = (deliver m s).0
  step Call.advance s = advance_round s

  unfoldable pub run : List Call → MpcSession → MpcSession
  run [] s = s
  run (c ∷ calls) s = run calls (step c s)

-- The two checks that every message passes first.
abbrev pub opened : ℕ → ℕ → Method → Method
opened round nonce rest = do ensure_round round; register_nonce nonce; rest

pub opened_outcome :
    (round nonce : ℕ) (rest : Method) (s : MpcSession)
    → ((round ≢ s.round) × (opened round nonce rest s ≡ (s, err (round_mismatch s.round round))))
      ⊎ ((round ≡ s.round)
          × (contains nonce s.seen_nonces ≡ true)
          × (opened round nonce rest s ≡ (s, err (replay_detected nonce))))
      ⊎ ((round ≡ s.round)
          × (contains nonce s.seen_nonces ≡ false)
          × (opened round nonce rest s ≡ rest (spend nonce s)))
unfolding ensure_round register_nonce
opened_outcome round nonce rest s = elim (Bool-cases (round == s.round)) [
  | inr other ↦ inl ((λ e. (let y = (==_iff round s.round).1 e in cc)), rw other)
  | inl same ↦
      let e = (==_iff round s.round).0 same in
      elim (Bool-cases (contains nonce s.seen_nonces)) [
        | inl seen ↦ inr (inl (e, seen, rw (same, seen)))
        | inr fresh ↦ inr (inr (e, fresh, rw (same, fresh)))
      ]
]
