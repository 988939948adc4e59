-- ===== src/Rotation/Usage.antt =====
-- Sequences of calls: when a key is due, in terms of what has been done with it.
use abir_guard.Base.{
  ℕ, ◌+◌, ◌-◌, ◌%◌, ◌<◌, ◌≡◌, refl, ap, ◌∙◌, inl, inr, Bool, true, false, ◌&&◌, ◌||◌, Option, some,
  List, [], ◌∷◌, Str, ltb, leb, if◌then◌else◌, bytes_eq, bytes_eq_iff, bytes_eq_refl, bytes_key,
  All, arith, Bool-cases, Option-cases,
}
use abir_guard.Base.Map.{Map, lookup, insert, lookup-insert}
use abir_guard.Base.Numbers.{u64}
use abir_guard.Rotation
use abir_guard.Rotation.{
  KeyMetadata, KeyRotationManager, total_operations, should_expire, age_seconds, record_encrypt,
  record_decrypt, needs_rotation, unwrap_or, fresh_metadata,
}

pub data Call : Type 0 where
  register_key : Str → Option ℕ → Option ℕ → ℕ → Call
  record_usage : Str → Bool → ℕ → Call
  expire_key : Str → Str → Call

abbrev pub step : Call → KeyRotationManager → KeyRotationManager
step (Call.register_key id life ops now) m = Rotation.register_key m id life ops now
step (Call.record_usage id is_encrypt now) m = Rotation.record_usage m id is_encrypt now
step (Call.expire_key id to) m = Rotation.expire_key m id to

unfoldable pub run : List Call → KeyRotationManager → KeyRotationManager
run [] m = m
run (c ∷ calls) m = run calls (step c m)

-- How often the calls use a key.
abbrev pub use_of : Str → Call → ℕ
use_of id (Call.register_key k life ops now) = 0
use_of id (Call.record_usage k is_encrypt now) = if bytes_eq k id then 1 else 0
use_of id (Call.expire_key k to) = 0

unfoldable pub uses : Str → List Call → ℕ
uses id [] = 0
uses id (c ∷ calls) = use_of id c + uses id calls

-- A call that does not start the key anew.
abbrev pub Continues : Str → Call → Type 0
Continues id (Call.register_key k life ops now) = bytes_eq k id ≡ false
Continues id (Call.record_usage k is_encrypt now) = Unit
Continues id (Call.expire_key k to) = Unit

-- The metadata `b` of a key after `n` uses of it, from `a`.
pub record Used (n : ℕ) (a b : KeyMetadata) : Type 0 where
  pub same_start : b.created_at ≡ a.created_at
  pub same_lifetime : b.max_lifetime_seconds ≡ a.max_lifetime_seconds
  pub same_limit : b.max_operations ≡ a.max_operations
  pub counted : total_operations b ≡ (total_operations a + n) % u64

Used-zero : (a : KeyMetadata) → Used 0 a a
unfolding total_operations
Used-zero a = record {
  same_start = refl;
  same_lifetime = refl;
  same_limit = refl;
  counted = omega arith;
}

Used-add : (n k : ℕ) (a b c : KeyMetadata) → Used n a b → Used k b c → Used (n + k) a c
Used-add n k a b c p q = record {
  same_start = q.same_start ∙ p.same_start;
  same_lifetime = q.same_lifetime ∙ p.same_lifetime;
  same_limit = q.same_limit ∙ p.same_limit;
  counted = (let x = p.counted in let y = q.counted in omega arith);
}

Used-encrypt : (a : KeyMetadata) (now : ℕ) → Used 1 a (record_encrypt a now)
unfolding total_operations record_encrypt
Used-encrypt a now = record {
  same_start = refl;
  same_lifetime = refl;
  same_limit = refl;
  counted = omega arith;
}

Used-decrypt : (a : KeyMetadata) (now : ℕ) → Used 1 a (record_decrypt a now)
unfolding total_operations record_decrypt
Used-decrypt a now = record {
  same_start = refl;
  same_lifetime = refl;
  same_limit = refl;
  counted = omega arith;
}

-- The key is still tracked, after `n` more uses.
abbrev Tracked : KeyRotationManager → Str → ℕ → KeyMetadata → Type 0
Tracked m id n a = (b : KeyMetadata) × (lookup id m.metadata ≡ some b) × Used n a b

-- An entry is put under a key: its own, or another one.
put_same :
    (k id : Str) (v : KeyMetadata) (m : Map Str KeyMetadata)
    → bytes_eq k id ≡ true
    → lookup id (insert k v m) ≡ some v
put_same k id v m same = lookup-insert k id v m ∙ rw same

put_other :
    (k id : Str) (v a : KeyMetadata) (m : Map Str KeyMetadata)
    → bytes_eq k id ≡ false
    → lookup id m ≡ some a
    → lookup id (insert k v m) ≡ some a
put_other k id v a m other h = lookup-insert k id v m ∙ rw other h

Used-touch :
    (a : KeyMetadata) (is_encrypt : Bool) (now : ℕ)
    → Used 1 a (if is_encrypt then record_encrypt a now else record_decrypt a now)
Used-touch a true now = Used-encrypt a now
Used-touch a false now = Used-decrypt a now

usage-Tracked :
    (m : KeyRotationManager) (k id : Str) (is_encrypt : Bool) (now : ℕ) (a : KeyMetadata)
    → lookup id m.metadata ≡ some a
    → Tracked (Rotation.record_usage m k is_encrypt now) id (if bytes_eq k id then 1 else 0) a
unfolding Rotation.record_usage
usage-Tracked m k id is_encrypt now a h = elim (Bool-cases (bytes_eq k id)) [
  | inl same ↦
      let touched = if is_encrypt then record_encrypt a now else record_decrypt a now in
      let here : lookup k m.metadata ≡ some a =
        ap (λ j. lookup j m.metadata) ((bytes_eq_iff k id).0 same) ∙ h in
      rw (same, here, Rotation.record_usage)
        (touched, put_same k id touched m.metadata same, Used-touch a is_encrypt now)
  | inr other ↦ elim (Option-cases (lookup k m.metadata)) [
    | inl absent ↦ rw (other, absent, Rotation.record_usage) (a, h, Used-zero a)
    | inr (b, there) ↦
        rw (other, there, Rotation.record_usage)
          (a, put_other k id _ a m.metadata other h, Used-zero a)
  ]
]

expire-Tracked :
    (m : KeyRotationManager) (k id to : Str) (a : KeyMetadata)
    → lookup id m.metadata ≡ some a
    → Tracked (Rotation.expire_key m k to) id 0 a
unfolding Rotation.expire_key total_operations
expire-Tracked m k id to a h = elim (Option-cases (lookup k m.metadata)) [
  | inl absent ↦ rw (absent, Rotation.expire_key) (a, h, Used-zero a)
  | inr (b, there) ↦ elim (Bool-cases (bytes_eq k id)) [
    | inl same ↦
        let eq : b ≡ a = cc (ap (λ j. lookup j m.metadata) ((bytes_eq_iff k id).0 same)) in
        rw (there, Rotation.expire_key)
          (
            record b { is_expired = true; rotated_to = to },
            put_same k id _ m.metadata same,
            rw eq (record {
              same_start = refl;
              same_lifetime = refl;
              same_limit = refl;
              counted = omega arith;
            }),
          )
    | inr other ↦
        rw (there, Rotation.expire_key) (a, put_other k id _ a m.metadata other h, Used-zero a)
  ]
]

step-Tracked :
    (c : Call) (m : KeyRotationManager) (id : Str) (a : KeyMetadata)
    → Continues id c
    → lookup id m.metadata ≡ some a
    → Tracked (step c m) id (use_of id c) a
unfolding Rotation.register_key
step-Tracked (Call.register_key k life ops now) m id a other h =
    (a, put_other k id _ a m.metadata other h, Used-zero a)
step-Tracked (Call.record_usage k is_encrypt now) m id a u h =
    usage-Tracked m k id is_encrypt now a h
step-Tracked (Call.expire_key k to) m id a u h = expire-Tracked m k id to a h

run-Tracked :
    (calls : List Call) (m : KeyRotationManager) (id : Str) (a : KeyMetadata)
    → All (Continues id) calls
    → lookup id m.metadata ≡ some a
    → Tracked (run calls m) id (uses id calls) a
unfolding run uses
run-Tracked [] m id a go h = (a, h, Used-zero a)
run-Tracked (c ∷ calls) m id a go h =
    let (b, found, first) = step-Tracked c m id a go.0 h in
    let (d, found', rest) = run-Tracked calls (step c m) id b go.1 found in
    (d, found', Used-add (use_of id c) (uses id calls) a b d first rest)

-- A key is due exactly when it is too old or has been used too often: after its registration and
-- calls that do not register it again and use it fewer than 2 ^ 64 times, `needs_rotation` says
-- whether its lifetime is limited and exceeded by its age, or the number of its uses, encryptions
-- and decryptions together, has reached its limit, if it has one. That the key was marked as
-- expired in between plays no part.
pub needs_rotation-uses :
    (m : KeyRotationManager) (id : Str) (life ops : Option ℕ) (start now : ℕ) (calls : List Call)
    → All (Continues id) calls
    → uses id calls < u64
    → needs_rotation (run calls (Rotation.register_key m id life ops start)) id now ≡ (
        (ltb 0 (unwrap_or life m.default_max_lifetime)
          && ltb (unwrap_or life m.default_max_lifetime) (now - start))
        || (ltb 0 (unwrap_or ops m.default_max_operations)
            && leb (unwrap_or ops m.default_max_operations) (uses id calls)))
unfolding needs_rotation should_expire age_seconds total_operations Rotation.register_key
needs_rotation-uses m id life ops start now calls go few =
    let a = fresh_metadata m id life ops start in
    let (b, found, used) =
      run-Tracked calls (Rotation.register_key m id life ops start) id a go
        (put_same id id a m.metadata (bytes_eq_refl id)) in
    let count : total_operations b ≡ uses id calls = omega (arith, used.counted) in
    rw (found, needs_rotation, used.same_start, used.same_lifetime, used.same_limit, count)
      (or_else _ _)
  where
    or_else : (p q : Bool) → (if p then true else if q then true else false) ≡ (p || q)
    or_else true q = refl
    or_else false true = refl
    or_else false false = refl
