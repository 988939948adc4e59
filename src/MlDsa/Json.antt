-- ===== src/MlDsa/Json.antt =====
-- src/ml_dsa.rs: hash_data, and a key pair as JSON. SHA3-512, base64 and the printing and parsing of
-- serde_json are parameters.
use abir_guard.Base.{
  ◌≡◌, refl, Option, none, some, [], ◌∷◌, Bytes, Str, str, bytes_eq, Result, ok, ◌>>=◌, ok_or,
  map_err,
}
use abir_guard.Base.Json.{Value, string, members, get, as_str}
use abir_guard.MlDsa.{MldsaError, deserialization_failed, MldsaKeypair}

abbrev pub hash_data : (Bytes → Bytes) → Bytes → Bytes
hash_data sha3 message = sha3 message

abbrev signing_name : Str
signing_name = str "signing_key"

abbrev verifying_name : Str
verifying_name = str "verifying_key"

-- `Value::as_str` of a member; a missing one, or one of no object, is as null is.
unfoldable pub text_of : Option Value → Option Str
text_of none = none
text_of (some value) = as_str value

module _ (encode : Bytes → Str) (to_string : Value → Str) where
  abbrev pub keypair_value : MldsaKeypair → Value
  keypair_value kp = members (
      (signing_name, string (encode kp.signing_key))
      ∷ (verifying_name, string (encode kp.verifying_key))
      ∷ [])

  unfoldable pub serialize_keypair : MldsaKeypair → Str
  serialize_keypair kp = to_string (keypair_value kp)

module _ (decode : Str → Result Str Bytes) (from_str : Str → Result Str Value) where
  abbrev pub decoded_value : Value → Result MldsaError MldsaKeypair
  decoded_value parsed = do
    sk_b64 ←
        ok_or (text_of (get signing_name parsed))
          (deserialization_failed (str "Missing signing_key"))
    vk_b64 ←
        ok_or (text_of (get verifying_name parsed))
          (deserialization_failed (str "Missing verifying_key"))
    signing_key ← map_err deserialization_failed (decode sk_b64)
    verifying_key ← map_err deserialization_failed (decode vk_b64)
    ok (record { signing_key = signing_key; verifying_key = verifying_key })

  unfoldable pub deserialize_keypair : Str → Result MldsaError MldsaKeypair
  unfolding text_of get
  deserialize_keypair json = map_err deserialization_failed (from_str json) >>= decoded_value

-- With base64 that decodes what it encodes and serde_json that parses what it prints, a key pair
-- comes back from its JSON.
pub deserialize_keypair-serialize_keypair :
    (encode : Bytes → Str) (decode : Str → Result Str Bytes) (to_string : Value → Str)
    (from_str : Str → Result Str Value)
    → ((b : Bytes) → decode (encode b) ≡ ok b)
    → ((v : Value) → from_str (to_string v) ≡ ok v)
    → (kp : MldsaKeypair)
    → deserialize_keypair decode from_str (serialize_keypair encode to_string kp) ≡ ok kp
unfolding deserialize_keypair serialize_keypair text_of get bytes_eq
deserialize_keypair-serialize_keypair encode decode to_string from_str base64 serde kp =
    rw (serde (keypair_value encode to_string kp), base64 kp.signing_key, base64 kp.verifying_key)
      refl
