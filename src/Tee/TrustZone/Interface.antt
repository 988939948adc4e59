-- ===== src/Tee/TrustZone/Interface.antt =====
-- src/confidential_computing/trustzone/interface.rs: commands to the trusted application. serde's
-- encodings are parameters, with the message of a failure.
use abir_guard.Base.{
  ℕ, ◌≡◌, ◌≢◌, Bool, true, false, not, [], ◌++◌, Bytes, Str, str, ◌==◌, if◌then◌else◌, Result, ok,
  ◌>>=◌, ◌>>◌, reject_if, map_err, arith, replicate,
}
use abir_guard.Tee.Common.{trust_zone, SealedData, TeeAttestationReport}
use abir_guard.Tee.TrustZone
use abir_guard.Tee.TrustZone.{TrustZoneError, TrustZoneEnclave, operation_failed, invalid_state}

pub data TaCommand : Type 0 where
  get_attestation seal_data unseal_data : TaCommand

pub record TaRequest : Type 0 where
  pub session_id : ℕ
  pub command : TaCommand
  pub payload : Bytes

pub record TaResponse : Type 0 where
  pub success : Bool
  pub message : Str
  pub payload : Bytes

abbrev pub ok_response : Bytes → TaResponse
ok_response payload = record { success = true; message = []; payload = payload }

abbrev pub err_response : Str → TaResponse
err_response message = record { success = false; message = message; payload = [] }

-- `format!("... failed: {e}")`
abbrev pub failed : Str → Str → TrustZoneError
failed what e = operation_failed (what ++ (str " failed: " ++ e))

pub record Codec : Type 0 where
  pub encode_report : TeeAttestationReport → Result Str Bytes
  pub encode_sealed : SealedData → Result Str Bytes
  pub decode_sealed : Bytes → Result Str SealedData

module _ (codec : Codec) where
  -- The `match` on the command.
  unfoldable pub run_command :
      TaCommand → TrustZoneEnclave → Bytes → Result TrustZoneError TaResponse
  run_command get_attestation e payload = do
    report ← TrustZone.get_attestation e
    encoded ← map_err (failed (str "attestation encoding")) (codec.encode_report report)
    ok (ok_response encoded)
  run_command seal_data e payload = do
    sealed ← TrustZone.seal_data e payload
    encoded ← map_err (failed (str "sealed payload encoding")) (codec.encode_sealed sealed)
    ok (ok_response encoded)
  run_command unseal_data e payload = do
    sealed ← map_err (failed (str "sealed payload decoding")) (codec.decode_sealed payload)
    plain ← TrustZone.unseal_data e sealed
    ok (ok_response plain)

  unfoldable pub dispatch_command : TrustZoneEnclave → TaRequest → Result TrustZoneError TaResponse
  unfolding run_command
  dispatch_command e request = do
    reject_if (not e.initialized)
        (invalid_state (str "cannot dispatch command on uninitialized TrustZone session"))
    if not (request.session_id == e.session_id)
        then ok (err_response (str "session mismatch"))
        else run_command request.command e request.payload

-- With an encoding of sealed data that can be read back, a session seals a payload by one
-- command, and unseals it by another from what the first answered; with any other session number
-- each of the three commands, on any payload, answers a mismatch and nothing else.
pub dispatch-seal-unseal :
    (codec : Codec) (e : TrustZoneEnclave) (payload : Bytes) (number : ℕ) (command : TaCommand)
    (other_payload : Bytes)
    → ((s : SealedData)
        → (b : Bytes) × (codec.encode_sealed s ≡ ok b) × (codec.decode_sealed b ≡ ok s))
    → e.initialized ≡ true
    → number ≢ e.session_id
    → (sealed : Bytes) × (dispatch_command codec e
          (record { session_id = e.session_id; command = seal_data; payload = payload })
        ≡ ok (ok_response sealed))
      × (dispatch_command codec e
            (record { session_id = e.session_id; command = unseal_data; payload = sealed })
          ≡ ok (ok_response payload))
      × (dispatch_command codec e
            (record { session_id = number; command = command; payload = other_payload })
          ≡ ok (err_response (str "session mismatch")))
unfolding dispatch_command TrustZone.seal_data TrustZone.unseal_data
dispatch-seal-unseal codec e payload number command other_payload readable up other =
    let sealed : SealedData = record {
      tee_type = trust_zone;
      ciphertext = payload;
      auth_tag = replicate 16 0;
      nonce = replicate 12 0;
    } in
    let (b, written, read) = readable sealed in (b, ground (arith), ground (arith), ground (arith))
