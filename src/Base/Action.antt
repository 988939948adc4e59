-- ===== src/Base/Action.antt =====
-- Methods on `&mut self` that return a `Result`: the state after the call, changed or not, beside
-- the result. `do` goes on from the state that the step before left, and stops at an error.
use abir_guard.Base.Outcome.{Result, ok, err, reject_if}
use mathlib.Core.Bool.{Bool}

abbrev pub Action {ℓ} : Type ℓ → Type ℓ → Type ℓ → Type ℓ
Action S E A = S → S × Result E A

abbrev pub resume {ℓ} : {S E A B : Type ℓ} → S × Result E A → (A → Action S E B) → S × Result E B
resume (s, ok a) f = f a s
resume (s, err e) f = (s, err e)

infixl 5 ◌>>=◌ ◌>>◌
abbrev pub ◌>>=◌ {ℓ} : {S E A B : Type ℓ} → Action S E A → (A → Action S E B) → Action S E B
(m >>= f) s = resume (m s) f

abbrev pub ◌>>◌ {ℓ} : {S E B : Type ℓ} → Action S E (Unit {ℓ}) → Action S E B → Action S E B
m >> k = m >>= λ _. k

abbrev pub pure {ℓ} : {S E A : Type ℓ} → A → Action S E A
pure a s = (s, ok a)

abbrev pub throw {ℓ} : {S E A : Type ℓ} → E → Action S E A
throw e s = (s, err e)

-- What a method on `&self` returns.
abbrev pub ask {ℓ} : {S E A : Type ℓ} → (S → Result E A) → Action S E A
ask f s = (s, f s)

abbrev pub modify {ℓ} : {S E : Type ℓ} → (S → S) → Action S E (Unit {ℓ})
modify f s = (f s, ok tt)

-- `if test(self) { return Err(e(self)) }`
abbrev pub refuse_if {ℓ} : {S E : Type ℓ} → (S → Bool) → (S → E) → Action S E (Unit {ℓ})
refuse_if test e s = (s, reject_if (test s) (e s))
