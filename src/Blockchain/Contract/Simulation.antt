-- ===== src/Blockchain/Contract/Simulation.antt =====
-- Sequences of calls on the contract: what they do to its registry and to its block height.
use abir_guard.Base.{
  ℕ, ◌+◌, ◌<◌, ◌≡◌, refl, ap, ◌∙◌, arith, List, [], ◌∷◌, Bytes, Str, bytes_key, Result, ok, err,
  inl, inr,
}
use abir_guard.Base.Numbers.{saturating_add, u64}
use abir_guard.Blockchain.Anchors
use abir_guard.Blockchain.Anchors.{KeyAnchor, AnchorRegistry, anchor_id_of, new_anchor}
use abir_guard.Blockchain.Anchors.Lifecycle
use abir_guard.Blockchain.Anchors.Lifecycle.{Call, register_outcome, revoke_outcome, run-Evolves}
use abir_guard.Blockchain.Contract.{
  SimulatedContractAnchor, ContractError, submit_anchor, revoke_anchor,
}

abbrev pub after_submit :
    SimulatedContractAnchor
    → Result ContractError (SimulatedContractAnchor × Str)
    → SimulatedContractAnchor
after_submit c (ok (c', id)) = c'
after_submit c (err e) = c

abbrev pub after_revoke :
    SimulatedContractAnchor → Result ContractError SimulatedContractAnchor → SimulatedContractAnchor
after_revoke c (ok c') = c'
after_revoke c (err e) = c

-- Whether the registry accepts a call.
abbrev pub accepted {ℓ} : {E A : Type ℓ} → Result E A → ℕ
accepted (ok a) = 1
accepted (err e) = 0

module _ (sha256 : Bytes → Bytes) where
  abbrev pub step : Call → SimulatedContractAnchor → SimulatedContractAnchor
  step (Call.register key owner time) c = after_submit c (submit_anchor sha256 c key owner time)
  step (Call.revoke id owner) c = after_revoke c (revoke_anchor c id owner)

  unfoldable pub run : List Call → SimulatedContractAnchor → SimulatedContractAnchor
  run [] c = c
  run (call ∷ calls) c = run calls (step call c)

  abbrev pub cost : Call → AnchorRegistry → ℕ
  cost (Call.register key owner time) r = accepted (Anchors.register sha256 r key owner time)
  cost (Call.revoke id owner) r = accepted (Anchors.revoke r id owner)

  -- How many of the calls the registry accepts.
  unfoldable pub accepted_calls : List Call → AnchorRegistry → ℕ
  accepted_calls [] r = 0
  accepted_calls (call ∷ calls) r =
      cost call r + accepted_calls calls (Lifecycle.step sha256 call r)

  step-registry :
      (call : Call) (c : SimulatedContractAnchor)
      → (step call c).registry ≡ Lifecycle.step sha256 call c.registry
  unfolding submit_anchor revoke_anchor
  step-registry (Call.register key owner time) c =
      elim (register_outcome sha256 c.registry key owner time) [
        | inl e ↦ rw e
        | inr (inl e) ↦ rw e
        | inr (inr (fresh, e)) ↦ rw e
      ]
  step-registry (Call.revoke id owner) c = elim (revoke_outcome c.registry id owner) [
    | inl (absent, e) ↦ rw e
    | inr (inl (a, found, other, e)) ↦ rw e
    | inr (inr (a, found, mine, e)) ↦ rw e
  ]

  step-height :
      (call : Call) (c : SimulatedContractAnchor)
      → c.block_height < u64
      → (step call c).block_height ≡ saturating_add c.block_height (cost call c.registry)
  unfolding submit_anchor revoke_anchor saturating_add
  step-height (Call.register key owner time) c small =
      elim (register_outcome sha256 c.registry key owner time) [
        | inl e ↦ rw e (ground arith)
        | inr (inl e) ↦ rw e (ground arith)
        | inr (inr (fresh, e)) ↦ rw e
      ]
  step-height (Call.revoke id owner) c small = elim (revoke_outcome c.registry id owner) [
    | inl (absent, e) ↦ rw e (ground arith)
    | inr (inl (a, found, other, e)) ↦ rw e (ground arith)
    | inr (inr (a, found, mine, e)) ↦ rw e
  ]

saturating_add_small : (a b : ℕ) → saturating_add a b < u64
unfolding saturating_add
saturating_add_small a b = ground arith

saturating_add_zero : (a : ℕ) → a < u64 → a ≡ saturating_add a 0
unfolding saturating_add
saturating_add_zero a small = ground arith

saturating_add_assoc :
    (a b c : ℕ) → saturating_add (saturating_add a b) c ≡ saturating_add a (b + c)
unfolding saturating_add
saturating_add_assoc a b c = ground arith

module _ (sha256 : Bytes → Bytes) where
  -- The contract is its registry with a counter: after any calls its registry is what the same
  -- calls make of the registry alone, and, from a height that fits in 64 bits, its block height
  -- has grown by the number of calls that the registry accepted, stopping at the largest `u64`.
  pub run_simulates :
      (calls : List Call) (c : SimulatedContractAnchor)
      → c.block_height < u64
      → ((run sha256 calls c).registry ≡ Lifecycle.run sha256 calls c.registry)
        × ((run sha256 calls c).block_height
            ≡ saturating_add c.block_height (accepted_calls sha256 calls c.registry))
  unfolding run Lifecycle.run accepted_calls
  run_simulates [] c small = (refl, saturating_add_zero c.block_height small)
  run_simulates (call ∷ calls) c small =
      let next = step sha256 call c in
      let height = step-height sha256 call c small in
      let registry = step-registry sha256 call c in
      let (same, grown) = run_simulates calls next (rw height (saturating_add_small _ _)) in
      (
        same ∙ ap (λ r. Lifecycle.run sha256 calls r) registry,
        grown
            ∙ ap (λ r. saturating_add next.block_height (accepted_calls sha256 calls r)) registry
            ∙ ap
                (λ h.
                  saturating_add h
                    (accepted_calls sha256 calls (Lifecycle.step sha256 call c.registry)))
                height
            ∙ saturating_add_assoc _ _ _,
      )
