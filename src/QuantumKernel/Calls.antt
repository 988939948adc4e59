-- ===== src/QuantumKernel/Calls.antt =====
-- Sequences of calls on one vault.
use abir_guard.Base.{ℕ, Bool, true, false, Option, none, some, List, [], ◌∷◌, Bytes, Str}
use abir_guard.QuantumKernel
use abir_guard.QuantumKernel.{Crypto, Drawn, Ciphertext, Vault}

pub data Call : Type 0 where
  generate_keypair : Str → Drawn → Call
  store : Bytes → Bytes → Drawn → Bytes → ℕ → Call
  retrieve : Bytes → Ciphertext → ℕ → Call
  list_keypairs export_keys : Call
  remove_keypair : Str → Call
  import_key : Str → Str → Str → Call

abbrev pub panics : {A : Type 0} → Option A → Bool
panics none = true
panics (some a) = false

-- The vault after the call, and whether the call panics.
abbrev pub settle : {A : Type 0} → Vault × Option A → Vault × Bool
settle (v, o) = (v, panics o)

module _ (crypto : Crypto) where
  abbrev pub step : Call → Vault → Vault × Bool
  step (generate_keypair id drawn) v = settle (QuantumKernel.generate_keypair crypto id drawn v)
  step (store id plaintext drawn nonce elapsed) v =
      settle (QuantumKernel.store crypto id plaintext drawn nonce elapsed v)
  step (retrieve id ct elapsed) v = settle (QuantumKernel.retrieve crypto id ct elapsed v)
  step list_keypairs v = settle (QuantumKernel.list_keypairs crypto v)
  step export_keys v = settle (QuantumKernel.export_keys crypto v)
  step (remove_keypair id) v = settle (QuantumKernel.remove_keypair crypto id v)
  step (import_key id public_key secret_key) v =
      settle (QuantumKernel.import_key crypto id public_key secret_key v)

  unfoldable pub run : List Call → Vault → Vault
  run [] v = v
  run (c ∷ calls) v = run calls (step c v).0
