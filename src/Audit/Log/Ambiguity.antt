-- ===== src/Audit/Log/Ambiguity.antt =====
-- What the chain does not cover: the index and the severity of an entry, and where actor, action
-- and detail begin and end.
use abir_guard.Base.{ℕ, ◌+◌, ◌≡◌, refl, ap₂, List, [], ◌∷◌, ◌++◌, Bytes, le_bytes}
use abir_guard.Audit.Log.{AuditEntry, verify_loop, verify_chain, compute_entry_hash}
use abir_guard.Audit.Log.Chain.{sealed_hash}
use abir_guard.Audit.Log.Tamper.{SameContent, AllSame}

module _ (sha256 : Bytes → Bytes) where
  sealed-SameContent :
      (prev : Bytes) (e f : AuditEntry)
      → SameContent e f
      → sealed_hash sha256 prev e ≡ sealed_hash sha256 prev f
  unfolding compute_entry_hash
  sealed-SameContent prev e f s = ap₂ (λ t x. sha256 (prev ++ (le_bytes 8 t ++ x))) (s.0) (s.1)

  verify_loop-SameContent :
      (prev : Bytes) (i : ℕ) (es fs : List AuditEntry)
      → AllSame es fs
      → verify_loop sha256 prev i es ≡ verify_loop sha256 prev i fs
  unfolding verify_loop
  verify_loop-SameContent prev i [] [] s = refl
  verify_loop-SameContent prev i [] (f ∷ fs) s = absurd s
  verify_loop-SameContent prev i (e ∷ es) [] s = absurd s
  verify_loop-SameContent prev i (e ∷ es) (f ∷ fs) s =
      let rest = verify_loop-SameContent f.entry_hash (i + 1) es fs s.1 in
      rw (sealed-SameContent prev e f s.0, s.0.2, rest)

  -- `verify_chain` gives the same answer, errors and their indices included, on any two logs that
  -- agree on timestamps, on the joined texts and on hashes: index, severity and the boundaries
  -- between actor, action and detail can be rewritten without being noticed.
  pub verify_chain-SameContent :
      (es fs : List AuditEntry)
      → AllSame es fs
      → verify_chain sha256 (record { entries = es })
        ≡ verify_chain sha256 (record { entries = fs })
  unfolding verify_chain
  verify_chain-SameContent [] [] s = refl
  verify_chain-SameContent [] (f ∷ fs) s = absurd s
  verify_chain-SameContent (e ∷ es) [] s = absurd s
  verify_chain-SameContent (e ∷ es) (f ∷ fs) s = verify_loop-SameContent _ 0 (e ∷ es) (f ∷ fs) s
