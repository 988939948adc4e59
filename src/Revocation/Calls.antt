-- ===== src/Revocation/Calls.antt =====
-- Sequences of revocations: the index by key against the list itself.
use abir_guard.Base.{
  ℕ, zero, suc, ◌+◌, ◌<◌, ◌≡◌, refl, sym, ap, ◌∙◌, inl, inr, Bool, true, false, Option, none, some,
  List, [], ◌∷◌, ◌++◌, Bytes, Str, length, length-append, get_elem?, bytes_eq, bytes_key,
  if◌then◌else◌, arith, Bool-cases, Option-cases,
}
use abir_guard.Base.Maybe.{◌>>=◌}
use abir_guard.Base.Map.{Map, lookup, insert, lookup-insert, contains_of_none, contains_of_some}
use abir_guard.Revocation
use abir_guard.Revocation.{
  RevocationList, RevocationEntry, RevocationReason, with_key, get_entry, is_revoked, reason_text,
  verify_integrity,
}

-- The arguments of one `revoke`, and the time that it reads.
pub record Request : Type 0 where
  pub key_id : Str
  pub reason : RevocationReason
  pub revoked_by : Str
  pub details : Str
  pub timestamp : ℕ

abbrev pub apply_to : (Bytes → Bytes) → RevocationList → Request → RevocationList
apply_to sha256 l c =
    Revocation.revoke sha256 l c.key_id c.reason c.revoked_by c.details c.timestamp

unfoldable pub run : (Bytes → Bytes) → List Request → RevocationList → RevocationList
run sha256 [] l = l
run sha256 (c ∷ calls) l = run sha256 calls (apply_to sha256 l c)

-- The last entry of a list for a key.
unfoldable pub latest : Str → List RevocationEntry → Option RevocationEntry
latest key_id [] = none
latest key_id (e ∷ es) = elim (latest key_id es) [
  | some later ↦ some later
  | none ↦ if bytes_eq e.key_id key_id then some e else none
]

latest-append :
    (key_id : Str) (es : List RevocationEntry) (e : RevocationEntry)
    → latest key_id (es ++ e ∷ []) ≡ (if bytes_eq e.key_id key_id then some e else latest key_id es)
unfolding latest
latest-append key_id [] e = refl
latest-append key_id (f ∷ es) e = elim (Bool-cases (bytes_eq e.key_id key_id)) [
  | inl same ↦ rw (latest-append key_id es e, same)
  | inr other ↦ rw (latest-append key_id es e, other)
]

get_elem?-last :
    (es : List RevocationEntry) (e : RevocationEntry)
    → get_elem? (es ++ e ∷ []) (length es) ≡ some e
get_elem?-last [] e = refl
get_elem?-last (f ∷ es) e = get_elem?-last es e

get_elem?-append :
    (es fs : List RevocationEntry) (i : ℕ) → i < length es → get_elem? (es ++ fs) i ≡ get_elem? es i
get_elem?-append [] fs i h = absurd (omega arith)
get_elem?-append (e ∷ es) fs zero h = refl
get_elem?-append (e ∷ es) fs (suc i) h = get_elem?-append es fs i (omega arith)

-- The index points into the list, at the last entry of each key.
pub record IsIndexed (l : RevocationList) : Type 0 where
  pub inside : (key_id : Str) (i : ℕ) → lookup key_id l.revoked_ids ≡ some i → i < length l.entries
  pub found : (key_id : Str) → get_entry l key_id ≡ latest key_id l.entries

abbrev find_at : Map Str ℕ → List RevocationEntry → Str → Option RevocationEntry
find_at ids es key_id = lookup key_id ids >>= λ idx. get_elem? es idx

find_pushed :
    (ids : Map Str ℕ) (es : List RevocationEntry) (e : RevocationEntry) (key_id : Str)
    → ((i : ℕ) → lookup key_id ids ≡ some i → i < length es)
    → find_at ids es key_id ≡ latest key_id es
    → find_at (insert e.key_id (length es) ids) (es ++ e ∷ []) key_id ≡ latest key_id (es ++ e ∷ [])
find_pushed ids es e key_id inside found = elim (Bool-cases (bytes_eq e.key_id key_id)) [
  | inl same ↦
      let here : lookup key_id (insert e.key_id (length es) ids) ≡ some (length es) =
        lookup-insert e.key_id key_id (length es) ids ∙ rw same in
      rw (here, latest-append key_id es e, same) (get_elem?-last es e)
  | inr other ↦
      let before : lookup key_id (insert e.key_id (length es) ids) ≡ lookup key_id ids =
        lookup-insert e.key_id key_id (length es) ids ∙ rw other in
      rw (before, latest-append key_id es e, other)
        (elim (Option-cases (lookup key_id ids)) [
          | inl absent ↦ rw absent (sym (rw absent at (sym found)))
          | inr (i, there) ↦
              rw there (get_elem?-append es (e ∷ []) i (inside i there) ∙ rw there at found)
        ])
]

-- The list with one entry more.
push-IsIndexed :
    (l l' : RevocationList) (e : RevocationEntry)
    → l'.entries ≡ l.entries ++ e ∷ []
    → l'.revoked_ids ≡ insert e.key_id (length l.entries) l.revoked_ids
    → IsIndexed l
    → IsIndexed l'
unfolding get_entry
push-IsIndexed l l' e entries ids good =
    let size : length l'.entries ≡ length l.entries + 1 =
      ap length entries ∙ length-append l.entries (e ∷ []) in
    record {
      inside = λ key_id i h.
          let at_key = lookup-insert e.key_id key_id (length l.entries) l.revoked_ids in
          let there : lookup key_id (insert e.key_id (length l.entries) l.revoked_ids) ≡ some i =
            ap (lookup key_id) (sym ids) ∙ h in
          elim (Bool-cases (bytes_eq e.key_id key_id)) [
            | inl same ↦
                (let eq : some (length l.entries) ≡ some i = sym (at_key ∙ rw same) ∙ there in
                  let n : length l.entries ≡ i = cc in omega arith)
            | inr other ↦
                (let old = good.inside key_id i (sym (at_key ∙ rw other) ∙ there) in omega arith)
          ];
      found = λ key_id.
          rw (ids, entries)
            (find_pushed l.revoked_ids l.entries e key_id (good.inside key_id) (good.found key_id));
    }

apply_to-IsIndexed :
    (sha256 : Bytes → Bytes) (l : RevocationList) (c : Request)
    → IsIndexed l
    → IsIndexed (apply_to sha256 l c)
unfolding Revocation.revoke
apply_to-IsIndexed sha256 l c good = push-IsIndexed l (apply_to sha256 l c) _ refl refl good

run-IsIndexed :
    (sha256 : Bytes → Bytes) (calls : List Request) (l : RevocationList)
    → IsIndexed l
    → IsIndexed (run sha256 calls l)
unfolding run
run-IsIndexed sha256 [] l good = good
run-IsIndexed sha256 (c ∷ calls) l good =
    run-IsIndexed sha256 calls (apply_to sha256 l c) (apply_to-IsIndexed sha256 l c good)

empty-IsIndexed : (key : Bytes) → IsIndexed (with_key key)
unfolding lookup get_entry latest
empty-IsIndexed key = record {
  inside = λ key_id i h. absurd (let x = h in cc);
  found = λ key_id. refl;
}

abbrev pub is_some {ℓ} : {A : Type ℓ} → Option A → Bool
is_some none = false
is_some (some a) = true

get_elem?-lt : (es : List RevocationEntry) (i : ℕ) → i < length es → is_some (get_elem? es i) ≡ true
get_elem?-lt [] i h = absurd (omega arith)
get_elem?-lt (e ∷ es) zero h = refl
get_elem?-lt (e ∷ es) (suc i) h = get_elem?-lt es i (omega arith)

is_revoked-get_entry :
    (l : RevocationList) (key_id : Str)
    → ((i : ℕ) → lookup key_id l.revoked_ids ≡ some i → i < length l.entries)
    → is_revoked l key_id ≡ is_some (get_entry l key_id)
unfolding get_entry
is_revoked-get_entry l key_id inside = elim (Option-cases (lookup key_id l.revoked_ids)) [
  | inl absent ↦ contains_of_none key_id l.revoked_ids absent ∙ rw absent
  | inr (i, there) ↦
      contains_of_some key_id l.revoked_ids there
      ∙ rw there (sym (get_elem?-lt l.entries i (inside i there)))
]

-- After any revocations `get_entry` finds the last entry of the list for the key, if there is any,
-- and `is_revoked` says whether there is one.
pub get_entry-latest :
    (sha256 : Bytes → Bytes) (key : Bytes) (calls : List Request) (key_id : Str)
    → (get_entry (run sha256 calls (with_key key)) key_id
        ≡ latest key_id (run sha256 calls (with_key key)).entries)
      × (is_revoked (run sha256 calls (with_key key)) key_id
          ≡ is_some (latest key_id (run sha256 calls (with_key key)).entries))
get_entry-latest sha256 key calls key_id =
    let l = run sha256 calls (with_key key) in
    let good = run-IsIndexed sha256 calls (with_key key) (empty-IsIndexed key) in
    (
      good.found key_id,
      is_revoked-get_entry l key_id (good.inside key_id) ∙ ap is_some (good.found key_id),
    )
