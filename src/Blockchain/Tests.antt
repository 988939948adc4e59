-- ===== src/Blockchain/Tests.antt =====
-- Runs of the registries, with a checksum in the place of SHA-256.
use abir_guard.Base.{
  ℕ, ◌+◌, ◌*◌, ◌%◌, ◌≡◌, refl, ◌≢◌, arith, true, false, none, some, List, [], ◌∷◌, Bytes, Str, str,
  ok, err, ◌>>◌, bytes_eq, bytes_key, le_bytes, is_empty,
}
use abir_guard.Base.Map.{lookup, insert}
use abir_guard.Base.Numbers.{saturating_add}
use abir_guard.Blockchain.Anchors
use abir_guard.Blockchain.Anchors.{
  KeyAnchor, AnchorRegistry, anchor_id_of, new_anchor, hex_encode, verify_anchor_by_id, revoked,
  already_anchored,
}
use abir_guard.Blockchain.Anchors.Lifecycle
use abir_guard.Blockchain.Anchors.Lifecycle.{Call, run-Evolves, Evolves}
use abir_guard.Blockchain.Contract
use abir_guard.Blockchain.Contract.{
  SimulatedContractAnchor, submit_anchor, revoke_anchor, verify_on_chain,
}
use abir_guard.Blockchain.Contract.Simulation
use abir_guard.Blockchain.Contract.Simulation.{run_simulates, accepted_calls}
use abir_guard.Blockchain.Dpki
use abir_guard.Blockchain.Dpki.{DecentralizedPki, resolve, invalidate, is_valid_at, anchor_error}
use abir_guard.Blockchain.Dpki.Calls
use abir_guard.Blockchain.Dpki.Invalidation.{invalidate-resolve}

checksum : Bytes → ℕ
checksum [] = 7
checksum (b ∷ bs) = (b + 31 * checksum bs) % 65521

abbrev digest : Bytes → Bytes
digest bs = le_bytes 2 (checksum bs)

program : Unit {0}
unfolding Anchors.register Anchors.revoke hex_encode lookup insert bytes_eq le_bytes checksum
    submit_anchor revoke_anchor verify_on_chain saturating_add Lifecycle.run Simulation.run
    Calls.run Dpki.register_key invalidate
program = tt

abbrev alice : Str
alice = str "alice"

abbrev bob : Str
bob = str "bob"

abbrev key : Bytes
key = 1 ∷ 2 ∷ 3 ∷ []

abbrev id : Str
id = anchor_id_of digest key

abbrev registry : AnchorRegistry
registry = record { anchors = (id, new_anchor digest key alice 5) ∷ [] }

abbrev gone : AnchorRegistry
gone = record { anchors = (id, record (new_anchor digest key alice 5) { is_revoked = true }) ∷ [] }

abbrev attack : List Call
attack = Call.revoke id bob ∷ Call.register (7 ∷ []) bob 6 ∷ Call.register key bob 7 ∷ []

registered : Lifecycle.run digest (Call.register key alice 5 ∷ []) Anchors.new ≡ registry
unfolding program
registered = refl

stored : lookup id registry.anchors ≡ some (new_anchor digest key alice 5)
unfolding program
stored = refl

revoked_once : Anchors.revoke registry id alice ≡ ok gone
unfolding program
revoked_once = refl

filled : is_empty key ≡ false
unfolding program
filled = refl

bob-ne-alice : bob ≢ alice
bob-ne-alice e = (let x = e in absurd cc)

-- The contract.
abbrev contract : SimulatedContractAnchor
contract = record { registry = registry; block_height = 1 }

abbrev contract_gone : SimulatedContractAnchor
contract_gone = record { registry = gone; block_height = 2 }

submitted : submit_anchor digest Contract.new key alice 5 ≡ ok (contract, id)
unfolding program
submitted = refl

contract_revoked : revoke_anchor contract id alice ≡ ok contract_gone
unfolding program
contract_revoked = refl

run_simulates_example :
    ((Simulation.run digest attack Contract.new).registry
      ≡ Lifecycle.run digest attack Contract.new.registry)
    × ((Simulation.run digest attack Contract.new).block_height
        ≡ saturating_add 0 (accepted_calls digest attack Contract.new.registry))
run_simulates_example = run_simulates digest attack Contract.new (ground arith)

-- The registry of entities.
abbrev history : List Calls.Call
history =
    Calls.Call.register_key alice key 10 (some 90) 5
    ∷ Calls.Call.register_key bob (9 ∷ []) 0 none 5
    ∷ Calls.Call.register_key bob key 0 none 6
    ∷ []

abbrev entry : Dpki.DpkiEntry
entry = Dpki.new_entry digest alice id key 10 (some 90)

bound : lookup alice (Calls.run digest history Dpki.new).entries ≡ some entry
unfolding program
bound = refl

invalidate-resolve_example :
    (p' : DecentralizedPki) × (invalidate (Calls.run digest history Dpki.new) alice ≡ ok p')
    × (resolve (Calls.run digest history p') alice 50
        ≡ (is_valid_at entry 50 >> err (anchor_error revoked)))
    × (resolve p' bob 50 ≡ resolve (Calls.run digest history Dpki.new) bob 50)
invalidate-resolve_example =
    invalidate-resolve digest history history alice bob entry 50 bound bob-ne-alice
