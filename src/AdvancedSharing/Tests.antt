-- ===== src/AdvancedSharing/Tests.antt =====
-- Runs with a checksum in the place of SHA-256 and of HMAC.
use abir_guard.Base.{
  ℕ, ◌+◌, ◌*◌, ◌%◌, ◌<◌, ◌≡◌, refl, some, List, [], ◌∷◌, ◌++◌, Bytes, Str, str, length, le_bytes,
  length-le_bytes, get_elem?, bytes_eq, Result, ok, err, All, arith,
}
use abir_guard.Base.Numbers.{saturating_add, xor}
use abir_guard.AdvancedSharing
use abir_guard.AdvancedSharing.{
  AdvancedSharingError, AuthenticatedShare, ParticipantShare, ProactiveRefresher, ResharePlan,
  VssCommitment, new, authenticate_share, verify_authenticated_share, create_commitments,
  verify_share, refresh_share, reshare_for_participants, verification_failed,
  mac_authentication_failed, invalid_share_length,
}
use abir_guard.AdvancedSharing.Refresh.{IsByte, refresh-refresh}
use abir_guard.AdvancedSharing.Reshare.{Outcome, reshare_for_participants-Outcome}

checksum : Bytes → ℕ
checksum [] = 7
checksum (b ∷ bs) = (b + 31 * checksum bs) % 65521

abbrev digest : Bytes → Bytes
digest bs = le_bytes 2 (checksum bs)

abbrev tag : Bytes → Bytes → Bytes
tag key text = le_bytes 2 (checksum (key ++ text))

digest_full : (m : Bytes) → 0 < length (digest m)
digest_full m = omega (arith, length-le_bytes 2 (checksum m))

program : Unit {0}
unfolding checksum le_bytes bytes_eq saturating_add xor AdvancedSharing.mac_input
    AdvancedSharing.compute_mac authenticate_share verify_authenticated_share
    AdvancedSharing.commitment_hash AdvancedSharing.commit_from verify_share
    AdvancedSharing.mask_loop AdvancedSharing.mask AdvancedSharing.xor_bytes refresh_share
    AdvancedSharing.advance_epoch AdvancedSharing.validate_thresholds AdvancedSharing.roster_bytes
    AdvancedSharing.refreshed_bytes AdvancedSharing.build_refresh_proof
    AdvancedSharing.verify_reshare_plan AdvancedSharing.reshare_one AdvancedSharing.reshare_loop
    AdvancedSharing.finish_plan reshare_for_participants
program = tt

abbrev key : Bytes
key = 5 ∷ 6 ∷ []

abbrev context : Bytes
context = str "reshare-v1"

-- What `authenticate_share` makes of a share for `alice`.
abbrev signed : AuthenticatedShare
signed = record {
  participant_id = str "alice";
  share_bytes = 1 ∷ 2 ∷ [];
  epoch = 3;
  mac = AdvancedSharing.compute_mac tag (str "alice") (1 ∷ 2 ∷ []) 3 context key;
}

signed_made : authenticate_share tag (str "alice") (1 ∷ 2 ∷ []) 3 context key ≡ ok signed
unfolding authenticate_share
signed_made = refl

signed_verifies : verify_authenticated_share tag signed context key ≡ ok tt
unfolding program
signed_verifies = refl

-- A changed payload is refused.
changed_refused :
    verify_authenticated_share tag (record signed { share_bytes = 1 ∷ 3 ∷ [] }) context key
    ≡ err mac_authentication_failed
unfolding program
changed_refused = refl

abbrev shares : List Bytes
shares = (10 ∷ 11 ∷ []) ∷ (12 ∷ 250 ∷ []) ∷ []

abbrev second : VssCommitment
second = record { index = 1; commitment = digest (1 ∷ 12 ∷ 250 ∷ []) }

second_found : get_elem? (create_commitments digest shares) 1 ≡ some second
unfolding program
second_found = refl

other_refused : verify_share digest (12 ∷ 251 ∷ []) second ≡ err verification_failed
unfolding program
other_refused = refl

refresh-refresh_example :
    (next : Bytes) × (refresh_share digest new (1 ∷ 2 ∷ 3 ∷ []) (9 ∷ []) ≡ ok next)
    × (length next ≡ 3)
    × All IsByte next
    × (refresh_share digest new next (9 ∷ []) ≡ ok (1 ∷ 2 ∷ 3 ∷ []))
refresh-refresh_example =
    refresh-refresh digest digest_full new (1 ∷ 2 ∷ 3 ∷ []) (9 ∷ []) (omega arith) (omega arith)

abbrev current : List ParticipantShare
current =
    record { participant_id = str "a"; share = 1 ∷ 2 ∷ [] }
    ∷ record { participant_id = str "b"; share = 3 ∷ 4 ∷ [] }
    ∷ []

abbrev roster : List Str
roster = str "c" ∷ str "d" ∷ str "e" ∷ []

reshare_for_participants-Outcome_example :
    (out : ProactiveRefresher × Result AdvancedSharingError ResharePlan) × (reshare_for_participants
        digest current roster 2 3
        (7 ∷ [])
        new
      ≡ some out)
    × Outcome digest current roster 2 3 (7 ∷ []) new out
reshare_for_participants-Outcome_example =
    reshare_for_participants-Outcome digest current roster 2 3 (7 ∷ []) new digest_full
      (omega arith)

-- An empty share stops the run after the epoch has moved.
starved_moves :
    reshare_for_participants digest
      (record { participant_id = str "a"; share = [] } ∷ [])
      roster
      1
      3
      (7 ∷ [])
      new
    ≡ some (record { epoch = 2 }, err invalid_share_length)
unfolding program
starved_moves = refl
