-- ===== src/Audit/Log.antt =====
-- src/audit/audit_log.rs: the append-only log whose entries are chained by SHA-256.
-- The hash is a parameter, `sha256`, of all that use it; a text is the list of its UTF-8 bytes.
pub mod Chain
pub mod Tamper
pub mod Ambiguity
mod Tests
use abir_guard.Base.{
  ℕ, zero, suc, ◌+◌, ◌/◌, ◌%◌, Bool, true, false, not, Option, none, some, List, [], ◌∷◌, ◌++◌, map,
  Bytes, Str, leb, if◌then◌else◌, bytes_eq, length, is_empty, replicate, Result, ok, err, filter,
  le_bytes,
}

pub data AuditError : Type 0 where
  empty_actor : AuditError
  empty_action : AuditError
  chain_broken : ℕ → AuditError
  empty_log : AuditError

pub data Severity : Type 0 where
  info warning critical : Severity

pub record AuditEntry : Type 0 where
  pub index : ℕ
  pub timestamp : ℕ
  pub actor : Str
  pub action : Str
  pub detail : Option Str
  pub severity : Severity
  pub entry_hash : Bytes

pub record AuditLog : Type 0 where
  pub entries : List AuditEntry

abbrev pub new : AuditLog
new = record { entries = [] }

-- `self.entries.last()`
abbrev pub last : List AuditEntry → Option AuditEntry
last [] = none
last (e ∷ []) = some e
last (e ∷ f ∷ es) = last (f ∷ es)

-- `detail.as_deref().unwrap_or("")`
abbrev pub detail_text : Option Str → Str
detail_text none = []
detail_text (some d) = d

unfoldable pub severity_level : Severity → ℕ
severity_level info = 0
severity_level warning = 1
severity_level critical = 2

-- The bytes that the hasher gets, in order.
unfoldable pub hash_input : Bytes → ℕ → Str → Str → Str → Bytes
hash_input prev_hash timestamp actor action detail =
    prev_hash ++ (le_bytes 8 timestamp ++ (actor ++ (action ++ detail)))

module _ (sha256 : Bytes → Bytes) where
  unfoldable pub compute_entry_hash : Bytes → ℕ → Str → Str → Str → Bytes
  unfolding hash_input
  compute_entry_hash prev_hash timestamp actor action detail =
      sha256 (hash_input prev_hash timestamp actor action detail)

  -- `last().map(|e| e.entry_hash).unwrap_or_else(|| vec![0u8; 32])`
  abbrev pub prev_hash_of : List AuditEntry → Bytes
  prev_hash_of es = elim (last es) [ none ↦ replicate 32 0 | some e ↦ e.entry_hash ]

  abbrev pub make_entry : List AuditEntry → ℕ → Str → Str → Option Str → Severity → AuditEntry
  make_entry es timestamp actor action detail severity = record {
    index = length es;
    timestamp = timestamp;
    actor = actor;
    action = action;
    detail = detail;
    severity = severity;
    entry_hash = compute_entry_hash (prev_hash_of es) timestamp actor action (detail_text detail);
  }

  -- The log after the call, and the entry that it returns.
  unfoldable pub append :
      AuditLog → ℕ → Str → Str → Option Str → Severity → Result AuditError (AuditLog × AuditEntry)
  append log timestamp actor action detail severity =
      if is_empty actor
      then err empty_actor
      else if is_empty action
      then err empty_action
      else let entry = make_entry log.entries timestamp actor action detail severity in
        ok (record { entries = log.entries ++ entry ∷ [] }, entry)

  -- The loop of `verify_chain`, at entry `i`.
  unfoldable pub verify_loop : Bytes → ℕ → List AuditEntry → Result AuditError (Unit {0})
  verify_loop prev_hash i [] = ok tt
  verify_loop prev_hash i (entry ∷ es) =
      let expected =
        compute_entry_hash prev_hash entry.timestamp entry.actor entry.action
          (detail_text entry.detail) in
      let rest = verify_loop entry.entry_hash (i + 1) es in
      if not (bytes_eq expected entry.entry_hash) then err (chain_broken i) else rest

  unfoldable pub verify_chain : AuditLog → Result AuditError (Unit {0})
  verify_chain log =
      if is_empty log.entries then err empty_log else verify_loop (replicate 32 0) 0 log.entries

unfoldable pub entries_by_actor : AuditLog → Str → List AuditEntry
entries_by_actor log actor = filter (λ e. bytes_eq e.actor actor) log.entries

unfoldable pub entries_by_action : AuditLog → Str → List AuditEntry
entries_by_action log action = filter (λ e. bytes_eq e.action action) log.entries

unfoldable pub entries_by_severity : AuditLog → Severity → List AuditEntry
entries_by_severity log min_severity =
    filter (λ e. leb (severity_level min_severity) (severity_level e.severity)) log.entries
