-- ===== src/Shamir/Texts.antt =====
-- src/shamir.rs: shares as texts, `index:base64`. base64 is a parameter, with its errors as texts.
use abir_guard.Base.{
  ℕ, ◌≡◌, refl, arith, false, ◌<◌, ◌≤◌, length, List, [], ◌∷◌, ◌++◌, map, All, Bytes, Str, str,
  ◌==◌, if◌then◌else◌, Option, none, some, Result, ok, err, ◌>>=◌, map_err,
}
use abir_guard.Base.Text.{decimal, parse_u8, IsDigit, decimal-IsDigit, parse_u8-decimal}
use abir_guard.Shamir.{Share, split, reconstruct}
use abir_guard.Shamir.Polynomial.{Residues}
use abir_guard.Shamir.Roundtrip.{Hand, Chosen, split-Dealt, Hand-reconstruct}
use abir_guard.Shamir.Secret.{pick, pick-Hand}

-- `s.splitn(2, ':')`: what stands before the first colon, and what stands after it.
unfoldable pub splitn : Str → Str × Option Str
splitn [] = ([], none)
splitn (c ∷ s) =
    let (before, behind) = splitn s in if c == 58 then ([], some s) else (c ∷ before, behind)

splitn_digits :
    (digits rest : Str) → All IsDigit digits → splitn (digits ++ 58 ∷ rest) ≡ (digits, some rest)
unfolding splitn
splitn_digits [] rest p = refl
splitn_digits (c ∷ digits) rest p =
    let (low, high) = p.0 in
    let colon : (c == 58) ≡ false = ground arith in rw (colon, splitn_digits digits rest p.1) refl

module _ (encode : Bytes → Str) (decode : Str → Result Str Bytes) where
  abbrev pub encode_share : Share → Str
  encode_share s = decimal s.index ++ 58 ∷ encode s.data_bytes

  abbrev pub encode_shares : List Share → List Str
  encode_shares shares = map encode_share shares

  -- The closure of `decode_shares`, once the text is cut.
  unfoldable pub decode_parts : Str → Str × Option Str → Result Str Share
  unfolding parse_u8
  decode_parts s (front, none) = err (str "Invalid share format: " ++ s)
  decode_parts s (front, some encoded) = do
    index ← map_err (λ e. str "Invalid index: " ++ e) (parse_u8 front)
    data_bytes ← map_err (λ e. str "Invalid base64: " ++ e) (decode encoded)
    ok (record { index = index; data_bytes = data_bytes })

  unfoldable pub decode_share : Str → Result Str Share
  unfolding splitn decode_parts
  decode_share s = decode_parts s (splitn s)

  -- `collect` into a `Result`: the first error is the result.
  unfoldable pub decode_shares : List Str → Result Str (List Share)
  unfolding decode_share
  decode_shares [] = ok []
  decode_shares (s ∷ encoded) = do
    share ← decode_share s
    shares ← decode_shares encoded
    ok (share ∷ shares)

  module _ (inverse : (b : Bytes) → decode (encode b) ≡ ok b) where
    decode_share-encode_share : (s : Share) → s.index < 256 → decode_share (encode_share s) ≡ ok s
    unfolding decode_share decode_parts
    decode_share-encode_share s small =
        let cut = splitn_digits (decimal s.index) (encode s.data_bytes) (decimal-IsDigit s.index) in
        rw (cut, parse_u8-decimal s.index small, inverse s.data_bytes) refl

    decode_shares-encode_shares :
        (shares : List Share)
        → All (λ (s : Share). s.index < 256) shares
        → decode_shares (encode_shares shares) ≡ ok shares
    unfolding decode_shares
    decode_shares-encode_shares [] small = refl
    decode_shares-encode_shares (s ∷ shares) small =
        rw (decode_share-encode_share s small.0, decode_shares-encode_shares shares small.1) refl

    module _ (fill : ℕ → ℕ → ℕ) (secret : Bytes) (threshold : ℕ) where
      Hand-small :
          (n : ℕ) (is : List ℕ) (ss : List Share)
          → n ≤ 250
          → Chosen n is
          → Hand fill secret threshold is ss
          → All (λ (s : Share). s.index < 256) ss
      Hand-small n [] [] most c h = tt
      Hand-small n [] (s ∷ ss) most c h = absurd h
      Hand-small n (i ∷ is) [] most c h = tt
      Hand-small n (i ∷ is) (s ∷ ss) most c h =
          ((let at = h.0.point in let below = c.0 in omega arith), Hand-small n is ss most c.2 h.1)

      -- With base64 that decodes what it encodes: for a secret of bytes below 251 and
      -- 2 ≤ threshold ≤ num_shares ≤ 250, `split` deals shares, and from the texts of
      -- those at any `threshold` or more different positions, in any order, `decode_shares` gives
      -- shares of which `reconstruct` returns the secret.
      pub reconstruct-decode_shares :
          (num_shares : ℕ) (is : List ℕ)
          → 2 ≤ threshold
          → threshold ≤ num_shares
          → num_shares ≤ 250
          → Residues secret
          → Chosen num_shares is
          → threshold ≤ length is
          → (shares ss decoded : List Share) × (split fill secret threshold num_shares
              ≡ some shares)
            × (pick shares is ≡ some ss)
            × (decode_shares (encode_shares ss) ≡ ok decoded)
            × (reconstruct decoded ≡ some secret)
      reconstruct-decode_shares n is two enough most r c size =
          let (shares, dealt, each) = split-Dealt fill secret threshold n two enough most r in
          let (ss, picked, hand) = pick-Hand fill secret threshold n shares is each c in
          (
            shares,
            ss,
            ss,
            dealt,
            picked,
            decode_shares-encode_shares ss (Hand-small n is ss most c hand),
            Hand-reconstruct fill secret threshold n is ss two most r c hand size,
          )
