-- ===== src/AdvancedSharing.antt =====
-- src/advanced_secret_sharing.rs: shares with a MAC, commitments to shares, and shares that are
-- masked afresh for the next epoch and roster.
-- `sha256` and `hmac` (of a key and a text) are the crates sha2 and hmac.
pub mod Mac
pub mod Commitments
pub mod Refresh
pub mod Reshare
mod Tests
use mathlib.Core.Option
use abir_guard.Base.{
  ℕ, zero, suc, ◌+◌, ◌%◌, Bool, not, ◌||◌, Option, none, some, List, [], ◌∷◌, ◌++◌, map, Bytes, Str,
  ltb, ◌==◌, if◌then◌else◌, bytes_eq, length, is_empty, take, get_elem?, le_bytes, Result, ok, err,
  ◌>>=◌, ◌>>◌, reject_if,
}
use abir_guard.Base.Numbers.{saturating_add, xor}

pub data AdvancedSharingError : Type 0 where
  index_out_of_bounds verification_failed invalid_share_length invalid_threshold :
      AdvancedSharingError
  participant_mismatch proof_verification_failed : AdvancedSharingError
  mac_authentication_failed empty_mac_key : AdvancedSharingError

pub record AuthenticatedShare : Type 0 where
  pub participant_id : Str
  pub share_bytes : Bytes
  pub epoch : ℕ
  pub mac : Bytes

-- What the MAC is computed over.
unfoldable pub mac_input : Str → Bytes → ℕ → Bytes → Bytes
mac_input participant_id share_bytes epoch context =
    participant_id ++ (share_bytes ++ (le_bytes 8 epoch ++ context))

module _ (hmac : Bytes → Bytes → Bytes) where
  unfoldable pub compute_mac : Str → Bytes → ℕ → Bytes → Bytes → Bytes
  compute_mac participant_id share_bytes epoch context key =
      hmac key (mac_input participant_id share_bytes epoch context)

  unfoldable pub authenticate_share :
      Str → Bytes → ℕ → Bytes → Bytes → Result AdvancedSharingError AuthenticatedShare
  authenticate_share participant_id share_bytes epoch context key = do
    reject_if (is_empty key) empty_mac_key
    ok (record {
      participant_id = participant_id;
      share_bytes = share_bytes;
      epoch = epoch;
      mac = compute_mac participant_id share_bytes epoch context key;
    })

  unfoldable pub verify_authenticated_share :
      AuthenticatedShare → Bytes → Bytes → Result AdvancedSharingError (Unit {0})
  verify_authenticated_share s context key = do
    reject_if (is_empty key) empty_mac_key
    reject_if
        (not (bytes_eq (compute_mac s.participant_id s.share_bytes s.epoch context key) s.mac))
        mac_authentication_failed

pub record VssCommitment : Type 0 where
  pub index : ℕ
  pub commitment : Bytes

pub record VerifiedShare : Type 0 where
  pub index : ℕ
  pub share : Bytes

pub record ParticipantShare : Type 0 where
  pub participant_id : Str
  pub share : Bytes

pub record RefreshProof : Type 0 where
  pub transcript_hash : Bytes

pub record ResharePlan : Type 0 where
  pub old_threshold : ℕ
  pub new_threshold : ℕ
  pub old_epoch : ℕ
  pub new_epoch : ℕ
  pub refreshed : List ParticipantShare
  pub proof : RefreshProof

pub record ProactiveRefresher : Type 0 where
  pub epoch : ℕ

abbrev pub new : ProactiveRefresher
new = record { epoch = 1 }

unfoldable pub advance_epoch : ProactiveRefresher → ProactiveRefresher
advance_epoch r = record r { epoch = saturating_add r.epoch 1 }

-- `share.iter().zip(mask.iter()).map(|(value, noise)| value ^ noise)`
unfoldable pub xor_bytes : Bytes → Bytes → Bytes
xor_bytes [] mask = []
xor_bytes (value ∷ share) [] = []
xor_bytes (value ∷ share) (noise ∷ mask) = xor 8 value noise ∷ xor_bytes share mask

unfoldable pub validate_thresholds : ℕ → ℕ → ℕ → ℕ → Result AdvancedSharingError (Unit {0})
validate_thresholds old_parties new_parties old_threshold new_threshold = do
  reject_if (old_threshold == 0 || ltb old_parties old_threshold) invalid_threshold
  reject_if (new_threshold == 0 || ltb new_parties new_threshold) invalid_threshold

-- The texts of the participants one after the other.
unfoldable pub roster_bytes : List Str → Bytes
roster_bytes [] = []
roster_bytes (participant ∷ participants) = participant ++ roster_bytes participants

module _ (sha256 : Bytes → Bytes) where
  unfoldable pub commitment_hash : ℕ → Bytes → Bytes
  commitment_hash index share = sha256 (index ∷ share)

  -- From position `idx` on; a position wraps as it is cast to `u8`.
  unfoldable pub commit_from : ℕ → List Bytes → List VssCommitment
  commit_from idx [] = []
  commit_from idx (share ∷ shares) =
      record { index = idx % 256; commitment = commitment_hash (idx % 256) share }
      ∷ commit_from (idx + 1) shares

  abbrev pub create_commitments : List Bytes → List VssCommitment
  create_commitments shares = commit_from 0 shares

  unfoldable pub verify_share : Bytes → VssCommitment → Result AdvancedSharingError VerifiedShare
  verify_share share commitment = do
    reject_if (not (bytes_eq (commitment_hash commitment.index share) commitment.commitment))
        verification_failed
    ok (record { index = commitment.index; share = share })

  -- The `while` loop of `mask`.
  unfoldable pub mask_loop : ℕ → Bytes → ℕ → ℕ → ℕ → Bytes → Bytes
  mask_loop zero seed epoch len counter output = output
  mask_loop (suc fuel) seed epoch len counter output =
      let block = sha256 (seed ++ (le_bytes 8 epoch ++ le_bytes 8 counter)) in
      let rest = mask_loop fuel seed epoch len (saturating_add counter 1) (output ++ block) in
      if ltb (length output) len then rest else output

  unfoldable pub mask : ProactiveRefresher → Bytes → ℕ → Bytes
  mask r seed len = take len (mask_loop len seed r.epoch len 0 [])

  unfoldable pub refresh_share :
      ProactiveRefresher → Bytes → Bytes → Result AdvancedSharingError Bytes
  refresh_share r share seed = do
    reject_if (is_empty share) invalid_share_length
    ok (xor_bytes share (mask r seed (length share)))

  -- What the hasher gets for each refreshed share.
  unfoldable pub refreshed_bytes : List ParticipantShare → Bytes
  refreshed_bytes [] = []
  refreshed_bytes (item ∷ items) =
      item.participant_id ++ (commitment_hash 0 item.share ++ refreshed_bytes items)

  unfoldable pub build_refresh_proof :
      ℕ → ℕ → ℕ → ℕ → List Str → List ParticipantShare → RefreshProof
  build_refresh_proof old_epoch new_epoch old_threshold new_threshold participants refreshed =
      record {
        transcript_hash = sha256 (
            le_bytes 8 old_epoch
            ++ (le_bytes 8 new_epoch
                ++ (le_bytes 8 old_threshold
                    ++ (le_bytes 8 new_threshold
                        ++ (roster_bytes participants ++ refreshed_bytes refreshed)))));
      }

  unfoldable pub verify_reshare_plan : ResharePlan → Bool
  verify_reshare_plan plan =
      let participants = map (λ (item : ParticipantShare). item.participant_id) plan.refreshed in
      let expected =
        build_refresh_proof plan.old_epoch plan.new_epoch plan.old_threshold plan.new_threshold
          participants plan.refreshed in
      bytes_eq expected.transcript_hash plan.proof.transcript_hash

  -- One round of the loop over the next participants.
  unfoldable pub reshare_one :
      ProactiveRefresher → Bytes → ℕ → Str → Bytes → Result AdvancedSharingError ParticipantShare
  reshare_one r seed idx participant_id source_share = do
    next_share ← refresh_share r source_share (seed ++ (participant_id ++ le_bytes 8 idx))
    ok (record { participant_id = participant_id; share = next_share })

  -- `none` is a panic: the index `idx % current.len()`.
  unfoldable pub reshare_loop :
      ProactiveRefresher
      → List ParticipantShare
      → Bytes
      → ℕ
      → List Str
      → Option (Result AdvancedSharingError (List ParticipantShare))
  reshare_loop r current seed idx [] = some (ok [])
  reshare_loop r current seed idx (participant_id ∷ participants) =
      elim (get_elem? current (idx % length current)) [
        | none ↦ none
        | some source ↦ elim (reshare_one r seed idx participant_id source.share) [
          | err e ↦ some (err e)
          | ok item ↦
              Option.map (λ rest. rest >>= λ items. ok (item ∷ items))
                (reshare_loop r current seed (idx + 1) participants)
        ]
      ]

  -- The plan that the loop's shares give, checked.
  unfoldable pub finish_plan :
      ℕ → ℕ → ℕ → ℕ → List Str → List ParticipantShare → Result AdvancedSharingError ResharePlan
  finish_plan old_epoch new_epoch old_threshold new_threshold next_participants refreshed =
      let proof =
        build_refresh_proof old_epoch new_epoch old_threshold new_threshold next_participants
          refreshed in
      let plan : ResharePlan = record {
        old_threshold = old_threshold;
        new_threshold = new_threshold;
        old_epoch = old_epoch;
        new_epoch = new_epoch;
        refreshed = refreshed;
        proof = proof;
      } in
      if not (verify_reshare_plan plan) then err proof_verification_failed else ok plan

  unfoldable pub reshare_for_participants :
      List ParticipantShare
      → List Str
      → ℕ
      → ℕ
      → Bytes
      → ProactiveRefresher
      → Option (ProactiveRefresher × Result AdvancedSharingError ResharePlan)
  reshare_for_participants current next_participants old_threshold new_threshold seed r =
      let after = advance_epoch r in
      elim (validate_thresholds (length current) (length next_participants) old_threshold
        new_threshold) [
          | err e ↦ some (r, err e)
          | ok _ ↦
              if is_empty current || is_empty next_participants
              then some (r, err participant_mismatch)
              else Option.map
                  (λ shares. (
                    after,
                    shares
                        >>= finish_plan r.epoch after.epoch old_threshold new_threshold
                            next_participants,
                  ))
                  (reshare_loop after current seed 0 next_participants)
        ]
