-- ===== src/Audit/Log/Tamper.antt =====
-- Tamper evidence: two logs that verify and end in the same hash have the same content, entry by
-- entry, or exhibit two inputs with one SHA-256 hash.
use abir_guard.Base.{
  ℕ, ◌+◌, ◌^◌, ◌<◌, ◌≡◌, refl, sym, ap, ◌∙◌, ◌⊎◌, inl, inr, arith, List, [], ◌∷◌, ◌++◌, Bytes, Str,
  All, length, replicate, bytes_eq, bytes_eq_iff, Bool-cases, le_bytes, length-le_bytes,
  le_bytes-injective, append-cancel,
}
use abir_guard.Base.Hash.{Collision, same_or_Collision}
use abir_guard.Audit.Log.{AuditEntry, detail_text, verify_loop, compute_entry_hash, hash_input}
use abir_guard.Audit.Log.Chain.{IsChained, head_hash, sealed_hash}

-- The text part of the hash input: actor, action and detail with nothing between them.
abbrev pub text_of : AuditEntry → Str
text_of e = e.actor ++ (e.action ++ detail_text e.detail)

-- What the hash covers of an entry.
abbrev pub SameContent : AuditEntry → AuditEntry → Type 0
SameContent e f =
    (e.timestamp ≡ f.timestamp) × (text_of e ≡ text_of f) × (e.entry_hash ≡ f.entry_hash)

abbrev pub AllSame : List AuditEntry → List AuditEntry → Type 0
AllSame [] [] = Unit
AllSame [] (f ∷ fs) = ⊥
AllSame (e ∷ es) [] = ⊥
AllSame (e ∷ es) (f ∷ fs) = SameContent e f × AllSame es fs

-- `timestamp` is a `u64`.
abbrev pub Stamped : List AuditEntry → Type 0
Stamped = All (λ e. e.timestamp < 256 ^ 8)

module _ (sha256 : Bytes → Bytes) (length-digest : (x : Bytes) → length (sha256 x) ≡ 32) where
  IsChained-head :
      (prev : Bytes) (i : ℕ) (e : AuditEntry) (es : List AuditEntry)
      → IsChained sha256 prev i (e ∷ es)
      → (e.entry_hash ≡ sealed_hash sha256 prev e) × IsChained sha256 e.entry_hash (i + 1) es
  unfolding verify_loop
  IsChained-head prev i e es c =
      elim (Bool-cases (bytes_eq (sealed_hash sha256 prev e) e.entry_hash)) [
        | inl same ↦ (sym ((bytes_eq_iff _ _).0 same), rw same at c)
        | inr broken ↦ (let h = rw broken at c in cc, let h = rw broken at c in cc)
      ]

  hash_input-injective :
      (p q : Bytes) (e f : AuditEntry)
      → length p ≡ 32
      → length q ≡ 32
      → e.timestamp < 256 ^ 8
      → f.timestamp < 256 ^ 8
      → hash_input p e.timestamp e.actor e.action (detail_text e.detail)
        ≡ hash_input q f.timestamp f.actor f.action (detail_text f.detail)
      → (p ≡ q) × (e.timestamp ≡ f.timestamp) × (text_of e ≡ text_of f)
  unfolding hash_input
  hash_input-injective p q e f lp lq te tf h =
      let outer = append-cancel p q _ _ (lp ∙ sym lq) h in
      let inner =
        append-cancel (le_bytes 8 e.timestamp) (le_bytes 8 f.timestamp) (text_of e) (text_of f)
          (length-le_bytes 8 e.timestamp ∙ sym (length-le_bytes 8 f.timestamp)) (outer.1) in
      (outer.0, le_bytes-injective 8 e.timestamp f.timestamp te tf (inner.0), inner.1)

  sealed-length : (prev : Bytes) (e : AuditEntry) → length (sealed_hash sha256 prev e) ≡ 32
  unfolding compute_entry_hash
  sealed-length prev e = length-digest _

  sealed-injective :
      (p q : Bytes) (e f : AuditEntry)
      → length p ≡ 32
      → length q ≡ 32
      → e.timestamp < 256 ^ 8
      → f.timestamp < 256 ^ 8
      → sealed_hash sha256 p e ≡ sealed_hash sha256 q f
      → Collision sha256 ⊎ ((p ≡ q) × (e.timestamp ≡ f.timestamp) × (text_of e ≡ text_of f))
  unfolding compute_entry_hash
  sealed-injective p q e f lp lq te tf h = elim (same_or_Collision sha256 _ _ h) [
    | inl c ↦ inl c
    | inr same ↦ inr (hash_input-injective p q e f lp lq te tf same)
  ]

  chains_agree :
      (p q : Bytes) (i j : ℕ) (es fs : List AuditEntry)
      → length p ≡ 32
      → length q ≡ 32
      → length es ≡ length fs
      → Stamped es
      → Stamped fs
      → IsChained sha256 p i es
      → IsChained sha256 q j fs
      → head_hash p es ≡ head_hash q fs
      → Collision sha256 ⊎ ((p ≡ q) × AllSame es fs)
  chains_agree p q i j [] [] lp lq l te tf ce cf h = inr (h, tt)
  chains_agree p q i j [] (f ∷ fs) lp lq l te tf ce cf h = absurd (omega arith)
  chains_agree p q i j (e ∷ es) [] lp lq l te tf ce cf h = absurd (omega arith)
  chains_agree p q i j (e ∷ es) (f ∷ fs) lp lq l te tf ce cf h =
      let (he, ce') = IsChained-head p i e es ce in
      let (hf, cf') = IsChained-head q j f fs cf in
      let rest =
        chains_agree e.entry_hash f.entry_hash (i + 1) (j + 1) es fs
          (ap length he ∙ sealed-length p e) (ap length hf ∙ sealed-length q f) (omega arith) te.1
          tf.1 ce' cf' h in
      elim rest [
        | inl c ↦ inl c
        | inr (same_hash, same) ↦
            elim (sealed-injective p q e f lp lq te.0 tf.0 (sym he ∙ same_hash ∙ hf)) [
              | inl c ↦ inl c
              | inr (same_prev, same_time, same_text) ↦
                  inr (same_prev, ((same_time, same_text, same_hash), same))
            ]
      ]

  -- For a hash of 32 bytes, two logs of one length, with timestamps that fit in 64 bits, that both
  -- verify and end in the same hash agree, entry by entry, on the timestamp, on actor, action and
  -- detail joined together and on the hash, or else there are two different inputs with one hash.
  pub tamper_evident :
      (es fs : List AuditEntry)
      → length es ≡ length fs
      → Stamped es
      → Stamped fs
      → IsChained sha256 (replicate 32 0) 0 es
      → IsChained sha256 (replicate 32 0) 0 fs
      → head_hash (replicate 32 0) es ≡ head_hash (replicate 32 0) fs
      → Collision sha256 ⊎ AllSame es fs
  tamper_evident es fs l te tf ce cf h =
      elim (chains_agree (replicate 32 0) (replicate 32 0) 0 0 es fs refl refl l te tf ce cf h) [
        | inl c ↦ inl c
        | inr (same_prev, same) ↦ inr same
      ]
