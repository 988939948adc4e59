-- ===== src/Tee/Sgx/Storage/Retrieval.antt =====
-- Which platform states give a stored key back, and what the blob does not protect.
use abir_guard.Base.{
  ◌≡◌, ◌⊎◌, inl, inr, refl, true, false, Option, none, some, Bytes, Str, str, bytes_eq,
  bytes_eq_iff, Bool-cases, ok, err, arith, bytes_key,
}
use abir_guard.Base.Map.{lookup-insert_self}
use abir_guard.Tee.Sgx.{sealed_storage_error, PcrValues, PcrPolicy, matches_policy, is_violated}
use abir_guard.Tee.Sgx.Storage.{
  SealedDataBlob, SealedKeyStore, policy_or_any, seal, unseal, get_cached, store_private_key,
  retrieve_private_key, can_retrieve,
}

-- A register is free or has the expected value.
abbrev pub Agrees : Option Bytes → Bytes → Type 0
Agrees expected actual = (expected ≡ none) ⊎ (expected ≡ some actual)

abbrev pub Matches : PcrValues → PcrPolicy → Type 0
Matches values policy =
    Agrees policy.pcr0 values.pcr0 × Agrees policy.pcr1 values.pcr1 × Agrees policy.pcr2 values.pcr2

is_violated-Agrees :
    (expected : Option Bytes) (actual : Bytes)
    → ((is_violated expected actual ≡ false) × Agrees expected actual)
      ⊎ ((is_violated expected actual ≡ true) × ¬ Agrees expected actual)
unfolding is_violated
is_violated-Agrees none actual = inl (refl, inl refl)
is_violated-Agrees (some expected) actual = elim (Bool-cases (bytes_eq actual expected)) [
  | inl e ↦ inl (rw e, inr (let x = (bytes_eq_iff actual expected).0 e in cc))
  | inr ne ↦ inr (rw ne, λ a. ground (arith, bytes_eq_iff actual expected))
]

matches_policy-Matches :
    (values : PcrValues) (policy : PcrPolicy)
    → ((matches_policy values policy ≡ true) × Matches values policy)
      ⊎ ((matches_policy values policy ≡ false) × ¬ Matches values policy)
unfolding matches_policy
matches_policy-Matches values policy = ground (
  arith,
  is_violated-Agrees policy.pcr0 values.pcr0,
  is_violated-Agrees policy.pcr1 values.pcr1,
  is_violated-Agrees policy.pcr2 values.pcr2,
)

-- A stored key is cached under its identifier as a blob, and any store, whatever has become of it
-- since, retrieves the key from the blob exactly when the registers of its platform agree with
-- the policy of the call, by default none; otherwise it reports an error. The
-- authentication tag, the nonce and the additional data of the blob make no difference.
pub store-retrieve :
    (id : Str) (key : Bytes) (policy : Option PcrPolicy) (k later : SealedKeyStore)
    (tag nonce : Bytes) (aad : Option Bytes)
    → (blob : SealedDataBlob) × ((store_private_key id key policy k).1 ≡ ok blob)
      × (get_cached (store_private_key id key policy k).0.storage id ≡ some blob)
      × (let changed = record blob { auth_tag = tag; nonce = nonce; aad = aad } in
          (Matches later.storage.current_pcr (policy_or_any policy)
            × (can_retrieve later changed ≡ true)
            × (retrieve_private_key later changed ≡ ok key))
          ⊎ ((¬ Matches later.storage.current_pcr (policy_or_any policy))
              × (can_retrieve later changed ≡ false)
              × (retrieve_private_key later changed
                  ≡ err (
                      sealed_storage_error (str "Current PCR values don't match sealing policy")))))
unfolding store_private_key seal get_cached retrieve_private_key unseal can_retrieve
store-retrieve id key policy k later tag nonce aad = (
  _,
  refl,
  lookup-insert_self id _ k.storage.cache,
  elim (matches_policy-Matches later.storage.current_pcr (policy_or_any policy)) [
    | inl (e, m) ↦ inl (m, e, rw e)
    | inr (e, m) ↦ inr (m, e, rw e)
  ],
)
