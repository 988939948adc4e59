-- ===== src/Interop/Codec.antt =====
-- A plain text form of the members of a DID document, for the tests of src/interop.
use abir_guard.Base.{
  ℕ, zero, suc, ◌≡◌, refl, ap, ap₂, Option, none, some, List, [], ◌∷◌, ◌++◌, Bytes, Str, length,
  take, skip, take-append, skip-append,
}
use abir_guard.Interop.Jwk.{PqcJwk}
use abir_guard.Interop.Did.{VerificationMethod}
use abir_guard.Interop.Did.Json.{Members, DocumentText}

-- A writer in front of a rest, a reader that gives the rest back, and their law.
pub record Codec (A : Type 0) : Type 0 where
  pub write : A → Bytes → Bytes
  pub read : Bytes → A × Bytes
  pub read-write : (a : A) (rest : Bytes) → read (write a rest) ≡ (a, rest)

-- Each text behind its length.
abbrev read_text : Bytes → Bytes × Bytes
read_text [] = ([], [])
read_text (n ∷ rest) = (take n rest, skip n rest)

abbrev text_codec : Codec Str
text_codec = record {
  write = λ t rest. length t ∷ (t ++ rest);
  read = read_text;
  read-write = λ t rest. ap₂ (λ a b. (a, b)) (take-append t rest) (skip-append t rest);
}

module _ {A : Type 0} (item : Codec A) where
  open item use {write, read, read-write}

  abbrev write_items : List A → Bytes → Bytes
  write_items [] rest = rest
  write_items (x ∷ xs) rest = write x (write_items xs rest)

  abbrev read_items : ℕ → Bytes → List A × Bytes
  read_items zero bytes = ([], bytes)
  read_items (suc n) bytes =
      let (x, more) = read bytes in let (xs, rest) = read_items n more in (x ∷ xs, rest)

  pub read_items-write_items :
      (xs : List A) (rest : Bytes) → read_items (length xs) (write_items xs rest) ≡ (xs, rest)
  read_items-write_items [] rest = refl
  read_items-write_items (x ∷ xs) rest =
      simp (read-write x (write_items xs rest), read_items-write_items xs rest)

  abbrev read_list : Bytes → List A × Bytes
  read_list [] = ([], [])
  read_list (n ∷ bytes) = read_items n bytes

  abbrev list_codec : Codec (List A)
  list_codec = record {
    write = λ xs rest. length xs ∷ write_items xs rest;
    read = read_list;
    read-write = read_items-write_items;
  }

  abbrev write_option : Option A → Bytes → Bytes
  write_option none rest = 0 ∷ rest
  write_option (some a) rest = 1 ∷ write a rest

  abbrev read_option : Bytes → Option A × Bytes
  read_option [] = (none, [])
  read_option (zero ∷ rest) = (none, rest)
  read_option (suc n ∷ bytes) = let (a, rest) = read bytes in (some a, rest)

  pub read_option-write_option :
      (o : Option A) (rest : Bytes) → read_option (write_option o rest) ≡ (o, rest)
  read_option-write_option none rest = refl
  read_option-write_option (some a) rest = simp (read-write a rest)

  abbrev option_codec : Codec (Option A)
  option_codec = record {
    write = write_option;
    read = read_option;
    read-write = read_option-write_option;
  }

-- One value behind another.
module _ {A B : Type 0} (first : Codec A) (second : Codec B) where
  abbrev pair_codec : Codec (A × B)
  pair_codec = record {
    write = λ (a, b) rest. first.write a (second.write b rest);
    read = λ bytes.
        (let (a, more) = first.read bytes in let (b, rest) = second.read more in ((a, b), rest));
    read-write =
        λ (a, b) rest. simp (first.read-write a (second.write b rest), second.read-write b rest);
  }

-- A record that is a product of its fields.
abbrev mapped :
    {A B : Type 0} (to : A → B) (from : B → A) → ((b : B) → to (from b) ≡ b) → Codec A → Codec B
mapped to from inverse codec = record {
  write = λ b rest. codec.write (from b) rest;
  read = λ bytes. (let (a, rest) = codec.read bytes in (to a, rest));
  read-write = λ b rest. simp (codec.read-write (from b) rest, inverse b);
}

abbrev jwk_codec : Codec PqcJwk
jwk_codec =
    mapped
      (λ (kty, (alg, (crv, (x, (d, kid))))). record {
        kty = kty;
        alg = alg;
        crv = crv;
        x = x;
        d = d;
        kid = kid;
      })
      (λ (k : PqcJwk). (k.kty, (k.alg, (k.crv, (k.x, (k.d, k.kid)))))) (λ k. refl)
      (pair_codec text_codec (
        pair_codec text_codec (
          pair_codec text_codec (
            pair_codec text_codec
              (pair_codec (option_codec text_codec) (option_codec text_codec))))))

abbrev method_codec : Codec VerificationMethod
method_codec =
    mapped
      (λ (id, (method_type, (controller, jwk))). record {
        id = id;
        method_type = method_type;
        controller = controller;
        public_key_jwk = jwk;
      })
      (λ (m : VerificationMethod). (m.id, (m.method_type, (m.controller, m.public_key_jwk))))
      (λ m. refl) (pair_codec text_codec (pair_codec text_codec (pair_codec text_codec jwk_codec)))

abbrev members_codec : Codec Members
members_codec =
    let references = option_codec (list_codec text_codec) in
    mapped
      (λ (context, (id, (methods, (authentication, (assertion_method, key_agreement))))). record {
        context = context;
        id = id;
        verification_methods = methods;
        authentication = authentication;
        assertion_method = assertion_method;
        key_agreement = key_agreement;
      })
      (λ (m : Members). (
        m.context,
        (m.id, (m.verification_methods, (m.authentication, (m.assertion_method, m.key_agreement)))),
      ))
      (λ m. refl)
      (pair_codec (list_codec text_codec) (
        pair_codec text_codec (
          pair_codec (list_codec method_codec)
            (pair_codec references (pair_codec references references)))))

abbrev pub plain_text : DocumentText
plain_text = record {
  print = λ members. members_codec.write members [];
  parse = λ bytes. some (members_codec.read bytes).0;
}

pub plain_text_lem :
    (members : Members) → plain_text.parse (plain_text.print members) ≡ some members
plain_text_lem members = ap (λ (m, rest). some m) (members_codec.read-write members [])
