-- ===== src/Rotation/Tests.antt =====
-- Runs of the rotation manager.
use abir_guard.Base.{
  ◌-◌, ◌<◌, ◌≡◌, refl, true, false, ◌&&◌, ◌||◌, none, some, List, [], ◌∷◌, Str, str, ltb, leb, All,
  arith, bytes_eq, bytes_key,
}
use abir_guard.Base.Map.{lookup, insert}
use abir_guard.Base.Numbers.{u64}
use abir_guard.Rotation
use abir_guard.Rotation.{
  KeyRotationManager, new, needs_rotation, should_expire, total_operations, age_seconds,
  record_encrypt, record_decrypt, unwrap_or,
}
use abir_guard.Rotation.Usage.{Call, Continues, run, uses, needs_rotation-uses}

program : Unit {0}
unfolding lookup insert bytes_eq run uses Rotation.register_key Rotation.record_usage
    Rotation.expire_key needs_rotation should_expire total_operations age_seconds record_encrypt
    record_decrypt
program = tt

abbrev manager : KeyRotationManager
manager = new 3600 3

abbrev key : Str
key = str "k1"

abbrev calls : List Call
calls =
    Call.record_usage key true 110
    ∷ Call.register_key (str "k2") none (some 1) 111
    ∷ Call.expire_key key (str "k2")
    ∷ Call.record_usage (str "k2") true 112
    ∷ Call.record_usage key false 113
    ∷ Call.record_usage key true 114
    ∷ []

abbrev registered : KeyRotationManager
registered = Rotation.register_key manager key none none 100

due : needs_rotation (run calls registered) key 120 ≡ true
unfolding program
due = refl

used_twice : needs_rotation (run (Call.record_usage key true 1 ∷ []) registered) key 120 ≡ false
unfolding program
used_twice = refl

continues : All (Continues key) calls
unfolding program
continues = (tt, (refl, (tt, (tt, (tt, (tt, tt))))))

few : uses key calls < u64
unfolding program
few = omega arith

needs_rotation-uses_example :
    needs_rotation (run calls (Rotation.register_key manager key none none 100)) key 120
    ≡ ((ltb 0 3600 && ltb 3600 (120 - 100)) || (ltb 0 3 && leb 3 (uses key calls)))
needs_rotation-uses_example = needs_rotation-uses manager key none none 100 120 calls continues few
