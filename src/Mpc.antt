-- ===== src/Mpc.antt =====
-- src/confidential_computing/mpc/mod.rs: the coordinator of a multi-party session.
-- A method on `&mut self` is an `Action`: the session after the call, refused or not, beside the
-- result. A nonce is spent as soon as the round fits, whatever becomes of the message.
pub mod Calls
pub mod Changes
pub mod Replay
pub mod Binding
pub mod Digest
pub mod Honest
mod Tests
use abir_guard.Base.{
  ℕ, zero, suc, ◌+◌, ◌*◌, ◌/◌, ◌%◌, ◌^◌, Bool, true, false, not, Option, none, some, List, [], ◌∷◌,
  ◌++◌, Bytes, Str, str, ltb, leb, ◌==◌, ◌||◌, if◌then◌else◌, bytes_eq, bytes_key, nat_eq, length,
  Result, ok, err,
}
use abir_guard.Base.Numbers.{xor}
use abir_guard.Base.Action.{Action, ◌>>=◌, ◌>>◌, pure, throw, ask, modify, refuse_if}
use abir_guard.Base.Map.{Map, lookup, insert, contains}
use abir_guard.Base.Map.Distinct.{keys}
use abir_guard.Base.Words.{sort}

pub data MpcError : Type 0 where
  invalid_policy : Str → MpcError
  duplicate_party : Str → MpcError
  unknown_party : Str → MpcError
  duplicate_share : Str → MpcError
  duplicate_commitment : Str → MpcError
  insufficient_shares : MpcError
  round_mismatch : ℕ → ℕ → MpcError
  unknown_commitment : Str → MpcError
  invalid_commitment : Str → MpcError
  replay_detected : ℕ → MpcError
  aggregate_mismatch : MpcError

pub record MpcPolicy : Type 0 where
  pub total_parties : ℕ
  pub threshold : ℕ
  pub max_rounds : ℕ

unfoldable pub new_policy : ℕ → ℕ → ℕ → Result MpcError MpcPolicy
new_policy total_parties threshold max_rounds =
    if total_parties == 0
    then err (invalid_policy (str "total_parties must be greater than zero"))
    else if threshold == 0 || ltb total_parties threshold
    then err (invalid_policy (str "threshold must be between 1 and total_parties"))
    else if max_rounds == 0
    then err (invalid_policy (str "max_rounds must be greater than zero"))
    else ok
        (record { total_parties = total_parties; threshold = threshold; max_rounds = max_rounds })

pub record ShareSubmission : Type 0 where
  pub party_id : Str
  pub share : Bytes

pub record CommitSubmission : Type 0 where
  pub party_id : Str
  pub commitment : Bytes
  pub nonce : ℕ
  pub round : ℕ

pub record RevealSubmission : Type 0 where
  pub party_id : Str
  pub share : Bytes
  pub nonce : ℕ
  pub round : ℕ

pub record AggregateMessage : Type 0 where
  pub round : ℕ
  pub nonce : ℕ
  pub digest : Bytes

pub record MpcSession : Type 0 where
  pub policy : MpcPolicy
  pub parties : Map Str (Unit {0})
  pub commitments : Map Str Bytes
  pub shares : Map Str Bytes
  pub seen_nonces : Map ℕ (Unit {0})
  pub session_nonce : ℕ
  pub round : ℕ

abbrev pub new : MpcPolicy → MpcSession
new policy = record {
  policy = policy;
  parties = [];
  commitments = [];
  shares = [];
  seen_nonces = [];
  session_nonce =
      xor 64 (xor 64 (policy.total_parties * 2 ^ 32 % 2 ^ 64) (policy.threshold * 2 ^ 16 % 2 ^ 64))
        policy.max_rounds;
  round = 1;
}

abbrev pub Method : Type 0
Method = Action MpcSession MpcError (Unit {0})

unfoldable pub register_party : Str → Method
register_party party_id = do
  refuse_if (λ s. contains party_id s.parties) (λ s. duplicate_party party_id)
  modify λ s. record s { parties = insert party_id tt s.parties }

unfoldable pub submit_share : ShareSubmission → Method
submit_share submission = do
  refuse_if (λ s. not (contains submission.party_id s.parties))
      (λ s. unknown_party submission.party_id)
  refuse_if (λ s. contains submission.party_id s.shares) (λ s. duplicate_share submission.party_id)
  modify λ s. record s { shares = insert submission.party_id submission.share s.shares }

unfoldable pub ensure_round : ℕ → Method
ensure_round received =
    refuse_if (λ s. not (received == s.round)) (λ s. round_mismatch s.round received)

unfoldable pub register_nonce : ℕ → Method
register_nonce nonce = do
  refuse_if (λ s. contains nonce s.seen_nonces) (λ s. replay_detected nonce)
  modify λ s. record s { seen_nonces = insert nonce tt s.seen_nonces }

unfoldable pub submit_commit : CommitSubmission → Method
submit_commit submission = do
  ensure_round submission.round
  register_nonce submission.nonce
  refuse_if (λ s. not (contains submission.party_id s.parties))
      (λ s. unknown_party submission.party_id)
  refuse_if (λ s. contains submission.party_id s.commitments)
      (λ s. duplicate_commitment submission.party_id)
  modify
      λ s. record s { commitments = insert submission.party_id submission.commitment s.commitments }

unfoldable pub advance_round : MpcSession → MpcSession
advance_round s = if ltb s.round s.policy.max_rounds then record s { round = s.round + 1 } else s

abbrev pub submitted_shares : MpcSession → ℕ
submitted_shares s = length s.shares

abbrev pub can_finalize : MpcSession → Bool
can_finalize s = leb s.policy.threshold (length s.shares)

-- What the hasher gets for the parties in order.
unfoldable pub digest_input : Map Str Bytes → List Str → Bytes
digest_input shares [] = []
digest_input shares (party ∷ parties) =
    party
    ++ (elim (lookup party shares) [ none ↦ [] | some share ↦ share ]
        ++ digest_input shares parties)

module _ (sha256 : Bytes → Bytes) where
  abbrev pub commitment_for : Bytes → Bytes
  commitment_for share = sha256 share

  -- The match of a reveal with its commitment.
  unfoldable pub check_commitment : Str → Bytes → MpcSession → Result MpcError (Unit {0})
  check_commitment party_id share s = elim (lookup party_id s.commitments) [
    | none ↦ err (unknown_commitment party_id)
    | some expected ↦
        if not (bytes_eq expected (commitment_for share))
        then err (invalid_commitment party_id)
        else ok tt
  ]

  unfoldable pub submit_reveal : RevealSubmission → Method
  submit_reveal submission = do
    ensure_round submission.round
    register_nonce submission.nonce
    refuse_if (λ s. not (contains submission.party_id s.parties))
        (λ s. unknown_party submission.party_id)
    refuse_if (λ s. contains submission.party_id s.shares)
        (λ s. duplicate_share submission.party_id)
    ask (check_commitment submission.party_id submission.share)
    modify λ s. record s { shares = insert submission.party_id submission.share s.shares }

  unfoldable pub finalize_digest : MpcSession → Result MpcError Bytes
  finalize_digest s =
      if not (can_finalize s)
      then err insufficient_shares
      else ok (sha256 (digest_input s.shares (sort (keys s.shares))))

  unfoldable pub apply_aggregate : AggregateMessage → Method
  apply_aggregate aggregate = do
    ensure_round aggregate.round
    register_nonce aggregate.nonce
    local ← ask finalize_digest
    if not (bytes_eq local aggregate.digest) then throw aggregate_mismatch else pure tt
