-- ===== src/Batch/Tests.antt =====
-- Runs of batches, with a toy signature: the message after its key.
use abir_guard.Base.{
  ◌≡◌, refl, Bool, true, false, List, [], ◌∷◌, ◌++◌, Bytes, bytes_eq, Result, ok, err,
}
use abir_guard.Batch.{VerifyRequest, SignRequest, batch_verify}

abbrev toy_sign : Bytes → Bytes → Result Bool Bytes
toy_sign message [] = err false
toy_sign message (k ∷ key) = ok (k ∷ key ++ message)

abbrev toy_verify : Bytes → Bytes → Bytes → Result Bool Bool
toy_verify message signature [] = err true
toy_verify message signature (k ∷ key) = ok (bytes_eq signature (k ∷ key ++ message))

abbrev to_verify : List VerifyRequest
to_verify =
    record { message = 1 ∷ []; signature = 5 ∷ 1 ∷ []; verifying_key = 5 ∷ [] }
    ∷ record { message = 2 ∷ []; signature = []; verifying_key = [] }
    ∷ []

abbrev to_sign : List SignRequest
to_sign = record { message = 1 ∷ []; signing_key = 5 ∷ [] } ∷ []

one_failed :
    batch_verify toy_verify to_verify
    ≡ ok (record { total = 2; passed = 1; failed = 1; results = true ∷ false ∷ [] })
unfolding batch_verify bytes_eq
one_failed = refl
