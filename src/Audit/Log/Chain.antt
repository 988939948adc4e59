-- ===== src/Audit/Log/Chain.antt =====
-- `append` keeps the chain: whatever calls are made, the log verifies and counts its entries.
use abir_guard.Base.{
  ℕ, ◌+◌, ◌≡◌, refl, ap, inl, inr, arith, Bool, true, false, Option, List, [], ◌∷◌, ◌++◌, Bytes,
  Str, length, is_empty, replicate, Result, ok, err, bytes_eq, bytes_eq_refl, if◌then◌else◌,
  Bool-cases,
}
use abir_guard.Audit.Log.{
  AuditLog, AuditEntry, AuditError, Severity, new, detail_text, make_entry, append, verify_loop,
  compute_entry_hash, empty_actor, empty_action, prev_hash_of,
}

-- The arguments of one call of `append`.
pub record Event : Type 0 where
  pub timestamp : ℕ
  pub actor : Str
  pub action : Str
  pub detail : Option Str
  pub severity : Severity

-- Entry number k from `i` on carries the index i + k.
abbrev pub Numbered : ℕ → List AuditEntry → Type 0
Numbered i [] = Unit
Numbered i (e ∷ es) = (e.index ≡ i) × Numbered (i + 1) es

Numbered-snoc :
    (i : ℕ) (es : List AuditEntry) (e : AuditEntry)
    → Numbered i es
    → e.index ≡ i + length es
    → Numbered i (es ++ e ∷ [])
Numbered-snoc i [] e n h = (omega arith, tt)
Numbered-snoc i (d ∷ es) e n h = (n.0, Numbered-snoc (i + 1) es e n.1 (omega arith))

-- The hash that the next entry is chained to, after `prev` and the entries.
abbrev pub head_hash : Bytes → List AuditEntry → Bytes
head_hash prev [] = prev
head_hash prev (e ∷ es) = head_hash e.entry_hash es

module _ (sha256 : Bytes → Bytes) where
  head_hash-prev : (es : List AuditEntry) → prev_hash_of sha256 es ≡ head_hash (replicate 32 0) es
  head_hash-prev [] = refl
  head_hash-prev (e ∷ []) = refl
  head_hash-prev (e ∷ f ∷ es) = last_of f es
    where
      last_of :
          (f : AuditEntry) (es : List AuditEntry)
          → prev_hash_of sha256 (f ∷ es) ≡ head_hash f.entry_hash es
      last_of f [] = refl
      last_of f (g ∷ es) = last_of g es

  abbrev pub IsChained : Bytes → ℕ → List AuditEntry → Type 0
  IsChained prev i es = verify_loop sha256 prev i es ≡ ok tt

  abbrev pub sealed_hash : Bytes → AuditEntry → Bytes
  sealed_hash prev e =
      compute_entry_hash sha256 prev e.timestamp e.actor e.action (detail_text e.detail)

  IsChained-snoc :
      (prev : Bytes) (i : ℕ) (es : List AuditEntry) (e : AuditEntry)
      → IsChained prev i es
      → e.entry_hash ≡ sealed_hash (head_hash prev es) e
      → IsChained prev i (es ++ e ∷ [])
  unfolding verify_loop
  IsChained-snoc prev i [] e c h = rw (← h, bytes_eq_refl e.entry_hash)
  IsChained-snoc prev i (d ∷ es) e c h =
      let matches = bytes_eq (sealed_hash prev d) d.entry_hash in
      elim (Bool-cases matches) [
        | inl same ↦ rw same (IsChained-snoc d.entry_hash (i + 1) es e (rw same at c) h)
        | inr broken ↦ let no_chain = rw broken at c in cc
      ]

  pub record IsSound (log : AuditLog) : Type 0 where
    pub chained : IsChained (replicate 32 0) 0 log.entries
    pub numbered : Numbered 0 log.entries

  append_entry-IsSound :
      (log : AuditLog) (timestamp : ℕ) (actor action : Str) (detail : Option Str)
      (severity : Severity)
      → IsSound log
      → IsSound (record {
        entries =
            log.entries
            ++ make_entry sha256 log.entries timestamp actor action detail severity ∷ [];
      })
  append_entry-IsSound log timestamp actor action detail severity s = record {
    chained = IsChained-snoc (replicate 32 0) 0 log.entries _ s.chained (
        ap (λ p. compute_entry_hash sha256 p timestamp actor action (detail_text detail))
          (head_hash-prev log.entries));
    numbered = Numbered-snoc 0 log.entries _ s.numbered (omega arith);
  }

  abbrev pub after : AuditLog → Result AuditError (AuditLog × AuditEntry) → AuditLog
  after log (ok (log', entry)) = log'
  after log (err e) = log

  -- The calls in order; one that is refused leaves the log as it is.
  unfoldable pub run : List Event → AuditLog → AuditLog
  run [] log = log
  run (c ∷ calls) log =
      run calls (after log (append sha256 log c.timestamp c.actor c.action c.detail c.severity))

  run-IsSound : (calls : List Event) (log : AuditLog) → IsSound log → IsSound (run calls log)
  unfolding run append
  run-IsSound [] log s = s
  run-IsSound (c ∷ calls) log s = run-IsSound calls _ (step (is_empty c.actor) (is_empty c.action))
    where
      added : AuditLog
      added = record {
        entries =
            log.entries
            ++ make_entry sha256 log.entries c.timestamp c.actor c.action c.detail c.severity ∷ [];
      }

      step :
          (a b : Bool)
          → IsSound (
              after log (
                if a
                then err empty_actor
                else if b
                then err empty_action
                else ok (
                  added,
                  make_entry sha256 log.entries c.timestamp c.actor c.action c.detail c.severity,
                )))
      step true b = s
      step false true = s
      step false false = append_entry-IsSound log c.timestamp c.actor c.action c.detail c.severity s

  -- Whatever calls of `append` are made on a new log, refused ones among them, the chain of the
  -- log verifies from the zero hash on, and entry number k carries the index k.
  pub run-new : (calls : List Event) → IsSound (run calls new)
  run-new calls =
      run-IsSound calls new (unfold verify_loop in record { chained = refl; numbered = tt })
