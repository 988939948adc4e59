-- ===== src/Qkd/Runs.antt =====
-- What every outcome of a run satisfies: it does not panic, a result has a property, and an error
-- is one of those that are named.
use abir_guard.Base.{ℕ, ◌≡◌, refl, Option, none, some, Result, ok, err}
use abir_guard.Qkd.{QkdError, Run, Source, resume, next_u64, or_panic}

module _ {S : Type 0} (Names : QkdError → Type 0) where
  abbrev pub Returns : {A : Type 0} → (A → Type 0) → Option (S × Result QkdError A) → Type 0
  Returns P none = ⊥
  Returns P (some (s, ok a)) = P a
  Returns P (some (s, err e)) = Names e

  pub Returns-resume :
      {A B : Type 0} (P : A → Type 0) (Q : B → Type 0) (o : Option (S × Result QkdError A))
      (f : A → Run S B)
      → Returns P o
      → ((a : A) (s : S) → P a → Returns Q (f a s))
      → Returns Q (resume o f)
  Returns-resume P Q none f h k = h
  Returns-resume P Q (some (s, ok a)) f h k = k a s h
  Returns-resume P Q (some (s, err e)) f h k = h

  -- An index in range goes on with what it finds.
  pub Returns-or_panic :
      {A B : Type 0} (Q : B → Type 0) (o : Option A) (a : A) (f : A → Run S B) (s : S)
      → o ≡ some a
      → Returns Q (f a s)
      → Returns Q (resume (or_panic o s) f)
  Returns-or_panic Q none a f s e h = absurd (let x = e in cc)
  Returns-or_panic Q (some b) a f s e h = (let same : b ≡ a = cc in rw same h)

-- An error that a source reports.
abbrev pub IsSourceError : {S : Type 0} → Source S → QkdError → Type 0
IsSourceError {S} next e = (s : S) × (t : S) × (next s ≡ (t, err e))

-- A number that a source gives.
abbrev pub IsDraw : {S : Type 0} → Source S → ℕ → Type 0
IsDraw {S} next n = (s : S) × (t : S) × (next s ≡ (t, ok n))

-- A draw gives a number of the source or its error.
pub Returns-IsDraw :
    {S : Type 0} (Names : QkdError → Type 0) (next : Source S) (s : S)
    → ((e : QkdError) → IsSourceError next e → Names e)
    → Returns Names {A = ℕ} (IsDraw next) (next_u64 next s)
Returns-IsDraw {S} Names next s named = from (next s) refl
  where
    from : (r : S × Result QkdError ℕ) → next s ≡ r → Returns Names {A = ℕ} (IsDraw next) (some r)
    from (t, ok n) e = (s, t, e)
    from (t, err x) e = named x (s, t, e)
