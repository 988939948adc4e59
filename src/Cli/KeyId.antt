-- ===== src/Cli/KeyId.antt =====
-- src/main.rs: validate_key_id. The characters of a text, and which of them Unicode has as letters and
-- digits, are parameters; lengths are in bytes.
use abir_guard.Base.{
  ℕ, ◌≤◌, ◌≡◌, ◌↔◌, refl, arith, Bool, true, false, not, ◌&&◌, ◌||◌, List, [], ◌∷◌, ◌++◌, All, Str,
  str, ltb, ◌==◌, length, is_empty, Result, ok, ◌>>◌, reject_if, Bool-cases, inl, inr, ◌⊎◌,
}
use abir_guard.Base.Text.{decimal}

unfoldable pub starts_with_reserved : Str → Bool
starts_with_reserved (c ∷ d ∷ text) = c == 95 && d == 95
starts_with_reserved text = false

-- `contains` of a character that is no letter, digit, hyphen or underscore.
unfoldable pub has_foreign : (ℕ → Bool) → List ℕ → Bool
has_foreign is_alphanumeric [] = false
has_foreign is_alphanumeric (c ∷ cs) =
    not (is_alphanumeric c || (c == 45 || c == 95)) || has_foreign is_alphanumeric cs

unfoldable pub validate_key_id : (Str → List ℕ) → (ℕ → Bool) → Str → Result Str (Unit {0})
unfolding starts_with_reserved has_foreign
validate_key_id chars is_alphanumeric key_id = do
  reject_if (is_empty key_id) (str "key_id cannot be empty")
  reject_if (ltb 64 (length key_id))
      (str "key_id too long (max 64 chars, got " ++ (decimal (length key_id) ++ str ")"))
  reject_if (has_foreign is_alphanumeric (chars key_id))
      (str "key_id must be alphanumeric, hyphens, or underscores only")
  reject_if (starts_with_reserved key_id) (str "key_id cannot start with __ (reserved for system)")

abbrev pub IsAllowed : (ℕ → Bool) → ℕ → Type 0
IsAllowed is_alphanumeric c = (is_alphanumeric c ≡ true) ⊎ ((c ≡ 45) ⊎ (c ≡ 95))

abbrev pub IsReserved : Str → Type 0
IsReserved key_id = (text : Str) × (key_id ≡ 95 ∷ 95 ∷ text)

-- What the program takes for an identifier of a key.
pub record IsKeyId (chars : Str → List ℕ) (is_alphanumeric : ℕ → Bool) (key_id : Str) : Type 0 where
  pub named : 1 ≤ length key_id
  pub short : length key_id ≤ 64
  pub allowed : All (IsAllowed is_alphanumeric) (chars key_id)
  pub not_reserved : ¬ IsReserved key_id

has_foreign-IsAllowed :
    (is_alphanumeric : ℕ → Bool) (cs : List ℕ)
    → (has_foreign is_alphanumeric cs ≡ false) ↔ All (IsAllowed is_alphanumeric) cs
unfolding has_foreign
has_foreign-IsAllowed is_alphanumeric [] = (λ h. tt, λ h. refl)
has_foreign-IsAllowed is_alphanumeric (c ∷ cs) =
    let rest = has_foreign-IsAllowed is_alphanumeric cs in
    (λ h. ground (arith, rest), λ h. ground (arith, rest))

starts_with_reserved-IsReserved :
    (key_id : Str) → (starts_with_reserved key_id ≡ true) ↔ IsReserved key_id
unfolding starts_with_reserved
starts_with_reserved-IsReserved [] = (λ h. absurd cc, λ h. absurd (let x = h.1 in cc))
starts_with_reserved-IsReserved (c ∷ []) = (λ h. absurd cc, λ h. absurd (let x = h.1 in cc))
starts_with_reserved-IsReserved (c ∷ d ∷ text) =
    (λ h. (text, ground arith), λ h. (let x = h.1 in ground arith))

four_checks :
    (a b c d : Bool) (e f g h : Str)
    → (reject_if a e >> (reject_if b f >> (reject_if c g >> reject_if d h)) ≡ ok tt)
      ↔ ((a ≡ false) × (b ≡ false) × (c ≡ false) × (d ≡ false))
four_checks true b c d e f g h' = (λ h. absurd cc, λ h. absurd cc)
four_checks false true c d e f g h' = (λ h. absurd cc, λ h. absurd (let x = h.1 in cc))
four_checks false false true d e f g h' = (λ h. absurd cc, λ h. absurd (let x = h.2 in cc))
four_checks false false false true e f g h' = (λ h. absurd cc, λ h. absurd (let x = h.3 in cc))
four_checks false false false false e f g h' = (λ h. (refl, refl, refl, refl), λ h. refl)

is_empty_iff : (text : Str) → (is_empty text ≡ false) ↔ (1 ≤ length text)
is_empty_iff [] = (λ h. absurd cc, λ h. absurd (omega (arith, h)))
is_empty_iff (c ∷ text) = (λ h. omega arith, λ h. refl)

-- `validate_key_id` accepts exactly the texts of 1 to 64 bytes whose characters are letters, digits,
-- hyphens and underscores and that do not begin with two underscores.
pub validate_key_id-IsKeyId :
    (chars : Str → List ℕ) (is_alphanumeric : ℕ → Bool) (key_id : Str)
    → (validate_key_id chars is_alphanumeric key_id ≡ ok tt) ↔ IsKeyId chars is_alphanumeric key_id
unfolding validate_key_id
validate_key_id-IsKeyId chars is_alphanumeric key_id =
    let foreign = has_foreign-IsAllowed is_alphanumeric (chars key_id) in
    let reserved = starts_with_reserved-IsReserved key_id in
    let empty = is_empty_iff key_id in
    let (passed, passes) =
      four_checks (is_empty key_id) (ltb 64 (length key_id))
        (has_foreign is_alphanumeric (chars key_id)) (starts_with_reserved key_id) _ _ _ _ in
    (
      λ h.
          (let (filled, small, own, free) = passed h in
            record {
              named = empty.0 filled;
              short = ground arith;
              allowed = foreign.0 own;
              not_reserved = λ r. (let x = reserved.1 r in absurd cc);
            }),
      λ h.
          (let short = h.short in
            let small : ltb 64 (length key_id) ≡ false = ground arith in
            let free : starts_with_reserved key_id ≡ false =
              elim (Bool-cases (starts_with_reserved key_id)) [
                | inl starts ↦ absurd (h.not_reserved (reserved.0 starts))
                | inr other ↦ other
              ] in
            passes (empty.1 h.named, small, foreign.1 h.allowed, free)),
    )
