-- ===== src/Base/Hash.antt =====
-- What can be said of a hash function whose code is a parameter: two inputs agree or collide.
use abir_guard.Base.{◌≡◌, ◌≢◌, ◌⊎◌, inl, inr, Bytes, bytes_eq, bytes_eq_iff, Bool-cases}

-- Two different inputs with one hash.
abbrev pub Collision : (Bytes → Bytes) → Type 0
Collision sha256 = (a b : Bytes) × (a ≢ b) × (sha256 a ≡ sha256 b)

pub same_or_Collision :
    (sha256 : Bytes → Bytes) (a b : Bytes) → sha256 a ≡ sha256 b → Collision sha256 ⊎ (a ≡ b)
same_or_Collision sha256 a b h = elim (Bool-cases (bytes_eq a b)) [
  | inl e ↦ inr ((bytes_eq_iff a b).0 e)
  | inr ne ↦ inl (a, b, λ e. (let y = (bytes_eq_iff a b).1 e in cc), h)
]
