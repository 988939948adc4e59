-- ===== src/Audit/Log/Tests.antt =====
-- Runs of the log, with a checksum in the place of SHA-256.
use abir_guard.Base.{
  ℕ, ◌+◌, ◌*◌, ◌%◌, ◌≡◌, refl, ◌⊎◌, arith, none, some, List, [], ◌∷◌, Bytes, Str, str, length, ok,
  err, bytes_eq, le_bytes, length-le_bytes, replicate,
}
use abir_guard.Audit.Log.{
  AuditLog, AuditEntry, Severity, info, critical, new, append, verify_loop, verify_chain,
  compute_entry_hash, chain_broken, empty_log, entries_by_severity, severity_level,
}
use abir_guard.Audit.Log.Chain.{Event, IsChained, run, run-new, IsSound}
use abir_guard.Base.Hash.{Collision}
use abir_guard.Audit.Log.Tamper.{AllSame, tamper_evident}
use abir_guard.Audit.Log.Ambiguity.{verify_chain-SameContent}

checksum : Bytes → ℕ
checksum [] = 7
checksum (b ∷ bs) = (b + 31 * checksum bs) % 65521

abbrev digest : Bytes → Bytes
digest bs = le_bytes 32 (checksum bs)

length-digest : (bs : Bytes) → length (digest bs) ≡ 32
length-digest bs = length-le_bytes 32 (checksum bs)

program : Unit {0}
unfolding append verify_loop verify_chain compute_entry_hash entries_by_severity severity_level
    bytes_eq le_bytes checksum run
program = tt

abbrev calls : List Event
calls =
    record {
      timestamp = 5;
      actor = str "bob";
      action = str "key.revoke";
      detail = none;
      severity = critical;
    }
    ∷ record { timestamp = 6; actor = []; action = str "x"; detail = none; severity = info }
    ∷ record {
      timestamp = 7;
      actor = str "eve";
      action = str "auth.failure";
      detail = some (str "d");
      severity = info;
    }
    ∷ []

abbrev log : AuditLog
log = run digest calls new

verified : verify_chain digest log ≡ ok tt
unfolding program
verified = refl

counted : length log.entries ≡ 2
unfolding program
counted = refl

empty : verify_chain digest new ≡ err empty_log
unfolding program
empty = refl

abbrev entry : Str → Str → Severity → Bytes → AuditEntry
entry actor action severity hash = record {
  index = 0;
  timestamp = 5;
  actor = actor;
  action = action;
  detail = none;
  severity = severity;
  entry_hash = hash;
}

abbrev seal : Bytes
seal = compute_entry_hash digest (replicate 32 0) 5 (str "bob") (str "key.revoke") []

abbrev honest : List AuditEntry
honest = entry (str "bob") (str "key.revoke") critical seal ∷ []

-- The same bytes under another actor, another action and another severity.
abbrev forged : List AuditEntry
forged = entry (str "bobkey") (str ".revoke") info seal ∷ []

-- A change that the hash covers is found, at its index.
changed :
    verify_chain digest
      (record { entries = entry (str "bo") (str "key.revoke") critical seal ∷ [] })
    ≡ err (chain_broken 0)
unfolding program
changed = refl

run-new_example : IsSound digest (run digest calls new)
run-new_example = run-new digest calls

honest-IsChained : IsChained digest (replicate 32 0) 0 honest
unfolding program
honest-IsChained = refl

tamper_evident_example : Collision digest ⊎ AllSame honest honest
tamper_evident_example =
    tamper_evident digest length-digest honest honest refl (omega arith) (omega arith)
      honest-IsChained honest-IsChained refl

verify_chain-SameContent_example :
    verify_chain digest (record { entries = honest })
    ≡ verify_chain digest (record { entries = forged })
verify_chain-SameContent_example =
    verify_chain-SameContent digest honest forged ((refl, refl, refl), tt)
