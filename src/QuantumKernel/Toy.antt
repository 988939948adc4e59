-- ===== src/QuantumKernel/Toy.antt =====
-- Toy ciphers for the tests: the identity for base64, and a tag of sixteen zeros for AES-GCM.
use abir_guard.Base.{
  ◌-◌, ◌≡◌, ap, ◌∙◌, some, ◌++◌, Bytes, length, length-append, replicate, take, take-append, ok,
  arith,
}
use abir_guard.QuantumKernel.{Crypto}

abbrev pub tag : Bytes
tag = replicate 16 0

abbrev pub toy : Crypto
toy = record {
  encode = λ b. b;
  decode = λ t. ok t;
  hkdf = λ salt secret label. secret;
  seal = λ key nonce plain. some (plain ++ tag);
  unseal = λ key nonce c. ok (take (length c - 16) c);
  from_utf8 = λ b. ok b;
}

pub toy_opens : (plain : Bytes) → take (length (plain ++ tag) - 16) (plain ++ tag) ≡ plain
toy_opens plain =
    ap (λ n. take n (plain ++ tag)) (omega (arith, length-append plain tag)) ∙ take-append plain tag
