-- ===== src/Audit/Compliance/Runs.antt =====
-- The check of consecutive failures against its specification: a contiguous run of `auth.failure`
-- entries that is longer than the maximum.
use Prim.Native.Nat.{max}
use mathlib.Core.List.{append_assoc}
use native.Mathlib.Decide.{dec_le}
use abir_guard.Base.{
  ℕ, suc, ◌+◌, ◌≤◌, ◌≡◌, refl, sym, ap, ap₂, ◌∙◌, ◌↔◌, inl, inr, arith, Bool, true, false, List, [],
  ◌∷◌, ◌++◌, All, length, length-append, Bool-cases,
}
use abir_guard.Audit.Log.{AuditEntry}
use abir_guard.Audit.Compliance.{
  is_failure, flag_run, failures_loop, check_consecutive_auth_failures,
}

abbrev pub Failing : List AuditEntry → Type 0
Failing = All (λ e. is_failure e ≡ true)

-- The entries contain `k` consecutive failures or more.
pub record FailureRun (k : ℕ) (entries : List AuditEntry) : Type 0 where
  pub before : List AuditEntry
  pub run : List AuditEntry
  pub rest : List AuditEntry
  pub splits : entries ≡ before ++ (run ++ rest)
  pub fails : Failing run
  pub long : k ≤ length run

-- The longest run, if `r` failures come just before the entries.
longest : ℕ → List AuditEntry → ℕ
longest r [] = r
longest r (e ∷ es) = elim (is_failure e) [
  | true ↦ longest (r + 1) es
  | false ↦ max r (longest 0 es)
]

longest_failure :
    (r : ℕ) (e : AuditEntry) (es : List AuditEntry)
    → is_failure e ≡ true
    → longest r (e ∷ es) ≡ longest (r + 1) es
unfolding longest
longest_failure r e es h = rw (h, longest)

longest_other :
    (r : ℕ) (e : AuditEntry) (es : List AuditEntry)
    → is_failure e ≡ false
    → longest r (e ∷ es) ≡ max r (longest 0 es)
unfolding longest
longest_other r e es h = rw (h, longest)

longest_nil : (r : ℕ) → longest r [] ≡ r
unfolding longest
longest_nil r = refl

longest_mono : (r s : ℕ) (es : List AuditEntry) → r ≤ s → longest r es ≤ longest s es
longest_mono r s [] h = rw (longest_nil r, longest_nil s) h
longest_mono r s (e ∷ es) h = elim (Bool-cases (is_failure e)) [
  | inl f ↦
      rw (longest_failure r e es f, longest_failure s e es f)
        (longest_mono (r + 1) (s + 1) es (omega arith))
  | inr n ↦ rw (longest_other r e es n, longest_other s e es n) (omega arith)
]

longest-ge : (r : ℕ) (es : List AuditEntry) → r ≤ longest r es
longest-ge r [] = rw (longest_nil r) (omega arith)
longest-ge r (e ∷ es) = elim (Bool-cases (is_failure e)) [
  | inl f ↦ rw (longest_failure r e es f) (omega (arith, longest-ge (r + 1) es))
  | inr n ↦ rw (longest_other r e es n) (omega arith)
]

longest-run :
    (r : ℕ) (run rest : List AuditEntry) → Failing run → r + length run ≤ longest r (run ++ rest)
longest-run r [] rest f = omega (arith, longest-ge r rest)
longest-run r (e ∷ run) rest f =
    rw (longest_failure r e (run ++ rest) f.0) (omega (arith, longest-run (r + 1) run rest f.1))

longest-append : (r : ℕ) (before es : List AuditEntry) → longest 0 es ≤ longest r (before ++ es)
longest-append r [] es = longest_mono 0 r es (omega arith)
longest-append r (e ∷ before) es = elim (Bool-cases (is_failure e)) [
  | inl f ↦ rw (longest_failure r e (before ++ es) f) (longest-append (r + 1) before es)
  | inr n ↦ rw (longest_other r e (before ++ es) n) (omega (arith, longest-append 0 before es))
]

Failing-snoc :
    (es : List AuditEntry) (e : AuditEntry)
    → Failing es
    → is_failure e ≡ true
    → Failing (es ++ e ∷ [])
Failing-snoc [] e f h = (h, tt)
Failing-snoc (d ∷ es) e f h = (f.0, Failing-snoc es e f.1 h)

FailureRun-le : (k m : ℕ) (es : List AuditEntry) → k ≤ m → FailureRun m es → FailureRun k es
FailureRun-le k m es h f = record {
  before = f.before;
  run = f.run;
  rest = f.rest;
  splits = f.splits;
  fails = f.fails;
  long = omega (arith, f.long);
}

-- A run behind a prefix.
FailureRun-prepend :
    (k : ℕ) (front es : List AuditEntry) → FailureRun k es → FailureRun k (front ++ es)
FailureRun-prepend k front es f = record {
  before = front ++ f.before;
  run = f.run;
  rest = f.rest;
  splits = ap (λ t. front ++ t) f.splits ∙ sym (append_assoc front f.before (f.run ++ f.rest));
  fails = f.fails;
  long = f.long;
}

-- A run of the length that `longest` finds, in the entries behind `done`.
longest-FailureRun :
    (done es : List AuditEntry) (r : ℕ)
    → Failing done
    → r ≡ length done
    → FailureRun (longest r es) (done ++ es)
longest-FailureRun done [] r f e = record {
  before = [];
  run = done;
  rest = [];
  splits = refl;
  fails = f;
  long = omega (arith, longest_nil r);
}
longest-FailureRun done (e ∷ es) r f l =
    choose (is_failure e) refl
      (λ h.
        longest-FailureRun (done ++ e ∷ []) es (r + 1) (Failing-snoc done e f h)
          (omega (arith, length-append done (e ∷ []))))
      (longest-FailureRun [] es 0 tt refl)
  where
    own : FailureRun r (done ++ e ∷ es)
    own = record {
      before = [];
      run = done;
      rest = e ∷ es;
      splits = refl;
      fails = f;
      long = omega arith;
    }

    behind : FailureRun (longest 0 es) es → FailureRun (longest 0 es) (done ++ e ∷ es)
    behind g = rw (← append_assoc done (e ∷ []) es) (FailureRun-prepend _ (done ++ e ∷ []) es g)

    choose :
        (b : Bool)
        → is_failure e ≡ b
        → (is_failure e ≡ true → FailureRun (longest (r + 1) es) ((done ++ e ∷ []) ++ es))
        → FailureRun (longest 0 es) es
        → FailureRun (longest r (e ∷ es)) (done ++ e ∷ es)
    choose true h more other =
        rw (longest_failure r e es h) (rw (append_assoc done (e ∷ []) es) at (more h))
    choose false h more other = rw (longest_other r e es h) (elim (dec_le (longest 0 es) r) [
      | yes small ↦ FailureRun-le _ r _ (omega arith) own
      | no large ↦ FailureRun-le _ (longest 0 es) _ (omega arith) (behind other)
    ])

pub append-nil_parts {ℓ} : {A : Type ℓ} (xs ys : List A) → xs ++ ys ≡ [] → (xs ≡ []) × (ys ≡ [])
append-nil_parts [] ys h = (refl, h)
append-nil_parts (x ∷ xs) ys h = (cc, cc)

module _ {Ratio : Type 0} (exceeds : ℕ → ℕ → Ratio → Bool) where
  flag_run-length : (n : ℕ) (run : List ℕ) → (flag_run exceeds n run ≡ []) ↔ (length run ≤ n)
  flag_run-length n run = (λ h. ground arith, λ h. ground arith)

  failures_loop-longest :
      (n : ℕ) (run : List ℕ) (es : List AuditEntry)
      → (failures_loop exceeds n run es ≡ []) ↔ (longest (length run) es ≤ n)
  unfolding failures_loop
  failures_loop-longest n run [] = rw (longest_nil (length run)) (flag_run-length n run)
  failures_loop-longest n run (e ∷ es) =
      let more = failures_loop-longest n (run ++ e.index ∷ []) es in
      let other = failures_loop-longest n [] es in
      let size : length (run ++ e.index ∷ []) ≡ length run + 1 = length-append run (e.index ∷ []) in
      elim (Bool-cases (is_failure e)) [
        | inl f ↦ rw (longest_failure (length run) e es f) (rw (f, failures_loop) (rw size at more))
        | inr g ↦ rw (longest_other (length run) e es g) (
            rw (g, failures_loop)
              (
                λ h.
                    let (mine, rest) =
                      append-nil_parts (flag_run exceeds n run) (failures_loop exceeds n [] es) h in
                    omega (arith, (flag_run-length n run).0 mine, other.0 rest),
                λ h. ap₂ ◌++◌ ((flag_run-length n run).1 (omega arith)) (other.1 (omega arith)),
              ))
      ]

  -- The check of consecutive failures flags nothing exactly when no `max_consecutive + 1`
  -- consecutive entries of the log are `auth.failure` events.
  pub check_failures-FailureRun_iff :
      (entries : List AuditEntry) (max_consecutive : ℕ)
      → (check_consecutive_auth_failures exceeds entries max_consecutive ≡ [])
        ↔ (¬ FailureRun (suc max_consecutive) entries)
  unfolding check_consecutive_auth_failures
  check_failures-FailureRun_iff entries n = (
    λ h f. run_too_long ((failures_loop-longest n [] entries).0 h) f,
    λ none_found. (failures_loop-longest n [] entries).1 (elim (dec_le (longest 0 entries) n) [
      | yes small ↦ small
      | no large ↦ absurd (
          none_found (
            FailureRun-le (suc n) (longest 0 entries) entries (omega arith)
              (longest-FailureRun [] entries 0 tt refl)))
    ]),
  )
    where
      run_too_long : longest 0 entries ≤ n → FailureRun (suc n) entries → ⊥
      run_too_long h f =
          let bound = longest-run 0 f.run f.rest f.fails in
          let whole = longest-append 0 f.before (f.run ++ f.rest) in
          absurd (omega (arith, f.long, ap (longest 0) f.splits))
