-- ===== src/Blockchain/Contract.antt =====
-- src/blockchain/smart_contract.rs: the simulated contract over the anchor registry.
pub mod Simulation
pub mod Finality
use abir_guard.Base.{
  ℕ, Bool, true, false, not, Option, none, some, List, [], ◌∷◌, ◌++◌, Bytes, Str, str, Result, ok,
  err, map_err, ◌>>=◌, bytes_key,
}
use abir_guard.Base.Numbers.{saturating_add}
use abir_guard.Base.Map.{lookup}
use abir_guard.Blockchain.Anchors
use abir_guard.Blockchain.Anchors.{KeyAnchor, KeyAnchorError, AnchorRegistry, register, revoke}

pub data ContractError : Type 0 where
  submission_failed : Str → ContractError
  verification_failed : Str → ContractError
  revocation_failed : Str → ContractError
  anchor_error : KeyAnchorError → ContractError

pub record OnChainVerificationResult : Type 0 where
  pub valid : Bool
  pub block_height : ℕ
  pub anchor_id : Str

pub record SimulatedContractAnchor : Type 0 where
  pub registry : AnchorRegistry
  pub block_height : ℕ

abbrev pub new : SimulatedContractAnchor
new = record { registry = Anchors.new; block_height = 0 }

unfoldable pub submit_anchor :
    (Bytes → Bytes)
    → SimulatedContractAnchor
    → Bytes
    → Str
    → ℕ
    → Result ContractError (SimulatedContractAnchor × Str)
submit_anchor sha256 c public_key owner_id timestamp =
    map_err anchor_error (register sha256 c.registry public_key owner_id timestamp) >>= λ done.
    ok (
      record { registry = done.0; block_height = saturating_add c.block_height 1 },
      done.1.anchor_id,
    )

unfoldable pub verify_on_chain :
    SimulatedContractAnchor → Str → Result ContractError OnChainVerificationResult
verify_on_chain c anchor_id = elim (lookup anchor_id c.registry.anchors) [
  | none ↦ err (verification_failed (str "anchor " ++ anchor_id ++ str " not found"))
  | some anchor ↦ ok (record {
    valid = not anchor.is_revoked;
    block_height = c.block_height;
    anchor_id = anchor_id;
  })
]

unfoldable pub revoke_anchor :
    SimulatedContractAnchor → Str → Str → Result ContractError SimulatedContractAnchor
revoke_anchor c anchor_id requesting_owner =
    map_err anchor_error (revoke c.registry anchor_id requesting_owner) >>= λ registry.
    ok (record { registry = registry; block_height = saturating_add c.block_height 1 })
