-- ===== src/Interop/Jwk.antt =====
-- src/interop/jwk.rs: keys of ML-DSA and ML-KEM as JSON Web Keys.
-- Unpadded base64url and serde_json are parameters.
use abir_guard.Base.{
  ◌≡◌, refl, ap, false, ◌||◌, Option, none, some, Bytes, Str, str, bytes_eq, is_empty,
  if◌then◌else◌, Result, ok, err, map_err,
}

pub data JwkError : Type 0 where
  unsupported_key_type : Str → JwkError
  missing_field : Str → JwkError
  decode_error : Str → JwkError
  empty_key : JwkError

pub data PqcAlgorithm : Type 0 where
  ml_dsa_65 : PqcAlgorithm
  ml_kem_1024 : PqcAlgorithm

abbrev pub alg_str : PqcAlgorithm → Str
alg_str ml_dsa_65 = str "ML-DSA-65"
alg_str ml_kem_1024 = str "ML-KEM-1024"

-- `PqcAlgorithm::from_str`
unfoldable pub algorithm_from_str : Str → Result JwkError PqcAlgorithm
algorithm_from_str s =
    if bytes_eq s (str "ML-DSA-65")
    then ok ml_dsa_65
    else if bytes_eq s (str "ML-KEM-1024")
    then ok ml_kem_1024
    else err (unsupported_key_type s)

pub record PqcJwk : Type 0 where
  pub kty : Str
  pub alg : Str
  pub crv : Str
  pub x : Str
  pub d : Option Str
  pub kid : Option Str

pub record Base64Url : Type 0 where
  pub encode : Bytes → Str
  pub decode : Str → Result Str Bytes

-- `serde_json` on a key.
pub record JwkText : Type 0 where
  pub to_string : PqcJwk → Str
  pub from_str : Str → Result Str PqcJwk

unfoldable pub algorithm : PqcJwk → Result JwkError PqcAlgorithm
unfolding algorithm_from_str
algorithm jwk = algorithm_from_str jwk.alg

abbrev pub to_json : JwkText → PqcJwk → Str
to_json text jwk = text.to_string jwk

abbrev pub from_json : JwkText → Str → Result JwkError PqcJwk
from_json text json = map_err missing_field (text.from_str json)

module _ (base64 : Base64Url) where
  open base64 use {encode, decode}

  unfoldable pub from_public : PqcAlgorithm → Bytes → Option Str → Result JwkError PqcJwk
  from_public alg public_key kid =
      if is_empty public_key
      then err empty_key
      else ok (record {
        kty = str "OKP";
        alg = alg_str alg;
        crv = alg_str alg;
        x = encode public_key;
        d = none;
        kid = kid;
      })

  unfoldable pub from_keypair : PqcAlgorithm → Bytes → Bytes → Option Str → Result JwkError PqcJwk
  from_keypair alg public_key private_key kid =
      if is_empty public_key || is_empty private_key
      then err empty_key
      else ok (record {
        kty = str "OKP";
        alg = alg_str alg;
        crv = alg_str alg;
        x = encode public_key;
        d = some (encode private_key);
        kid = kid;
      })

  abbrev pub decode_public_key : PqcJwk → Result JwkError Bytes
  decode_public_key jwk = map_err decode_error (decode jwk.x)

  unfoldable pub decode_private_key : PqcJwk → Result JwkError (Option Bytes)
  decode_private_key jwk = elim jwk.d [
    | none ↦ ok none
    | some d ↦ elim (decode d) [ ok bytes ↦ ok (some bytes) | err e ↦ err (decode_error e) ]
  ]

  -- What a key says of the algorithm, the public key and the private one.
  pub record Tells (alg : PqcAlgorithm) (public_key : Bytes) (private_key : Option Bytes)
      (jwk : PqcJwk) : Type 0 where
    pub tells_algorithm : algorithm jwk ≡ ok alg
    pub tells_public : decode_public_key jwk ≡ ok public_key
    pub tells_private : decode_private_key jwk ≡ ok private_key

  module _ (inverse : (b : Bytes) → decode (encode b) ≡ ok b) where
    algorithm-alg_str : (alg : PqcAlgorithm) → algorithm_from_str (alg_str alg) ≡ ok alg
    unfolding algorithm_from_str bytes_eq
    algorithm-alg_str ml_dsa_65 = refl
    algorithm-alg_str ml_kem_1024 = refl

    -- The two ways to export a key, as one.
    abbrev exported : PqcAlgorithm → Bytes → Option Bytes → Option Str → PqcJwk
    exported alg public_key private_key kid = record {
      kty = str "OKP";
      alg = alg_str alg;
      crv = alg_str alg;
      x = encode public_key;
      d = elim private_key [ none ↦ none | some bytes ↦ some (encode bytes) ];
      kid = kid;
    }

    exported-Tells :
        (alg : PqcAlgorithm) (public_key : Bytes) (private_key : Option Bytes) (kid : Option Str)
        → Tells alg public_key private_key (exported alg public_key private_key kid)
    unfolding algorithm decode_private_key
    exported-Tells alg public_key none kid = record {
      tells_algorithm = algorithm-alg_str alg;
      tells_public = ap (map_err decode_error) (inverse public_key);
      tells_private = refl;
    }
    exported-Tells alg public_key (some private_key) kid = record {
      tells_algorithm = algorithm-alg_str alg;
      tells_public = ap (map_err decode_error) (inverse public_key);
      tells_private = rw (inverse private_key) refl;
    }

    pub from_public-Tells :
        (alg : PqcAlgorithm) (public_key : Bytes) (kid : Option Str)
        → is_empty public_key ≡ false
        → (jwk : PqcJwk) × (from_public alg public_key kid ≡ ok jwk) × Tells alg public_key none jwk
    unfolding from_public
    from_public-Tells alg public_key kid full =
        (exported alg public_key none kid, rw full refl, exported-Tells alg public_key none kid)

    pub from_keypair-Tells :
        (alg : PqcAlgorithm) (public_key private_key : Bytes) (kid : Option Str)
        → is_empty public_key ≡ false
        → is_empty private_key ≡ false
        → (jwk : PqcJwk) × (from_keypair alg public_key private_key kid ≡ ok jwk)
          × Tells alg public_key (some private_key) jwk
    unfolding from_keypair
    from_keypair-Tells alg public_key private_key kid full full' = (
      exported alg public_key (some private_key) kid,
      rw (full, full') refl,
      exported-Tells alg public_key (some private_key) kid,
    )
