-- ===== src/Cli/Shares.antt =====
-- src/main.rs: `shamir-split` and `shamir-join`.
use mathlib.Core.Option
use abir_guard.Base.{
  ℕ, suc, ◌+◌, ◌≤◌, ◌<◌, ◌≡◌, ◌⊎◌, refl, sym, ap, ◌∙◌, arith, false, Bool-cases, inl, inr, Option,
  none, some, List, [], ◌∷◌, ◌++◌, length, length-map, Bytes, Str, str, ltb, if◌then◌else◌,
  get_elem?, Result, ok, err,
}
use abir_guard.Base.Maybe.{>>=-eq-some}
use abir_guard.Base.Text.{decimal}
use abir_guard.Shamir.{Share, split, reconstruct}
use abir_guard.Shamir.Polynomial.{Residues}
use abir_guard.Shamir.Roundtrip.{Chosen}
use abir_guard.Shamir.Basis.{indices}
use abir_guard.Shamir.Numbered.{numbers, split-indices}
use abir_guard.Shamir.Secret.{pick, split_panics}
use abir_guard.Shamir.Texts.{encode_share, encode_shares, decode_shares, reconstruct-decode_shares}
use abir_guard.Cli.{Host, Lines}

abbrev share_lines : ℕ → Lines → Lines
share_lines i [] = []
share_lines i (text ∷ texts) =
    (str "Share " ++ (decimal i ++ (str ": " ++ text))) ∷ share_lines (i + 1) texts

abbrev pub split_lines : Str → ℕ → ℕ → Lines → Lines
split_lines secret threshold shares texts =
    (str "SHAMIR Secret Sharing ("
      ++ (decimal threshold ++ (str ", " ++ (decimal shares ++ str ")"))))
    ∷ (str "Secret length: " ++ (decimal (length secret) ++ str " bytes"))
    ∷ []
    ∷ (str "Store each share separately. Any "
        ++ (decimal threshold ++ str " shares can recover the secret."))
    ∷ []
    ∷ share_lines 1 texts

abbrev pub few_shares : ℕ → ℕ → Str
few_shares threshold shares =
    str "Shares ("
    ++ (decimal shares ++ (str ") must be >= threshold (" ++ (decimal threshold ++ str ")")))

module _ (host : Host) where
  open host use {crypto, fill}

  abbrev pub texts_of : List Share → Lines
  texts_of = encode_shares crypto.encode crypto.decode

  unfoldable pub shamir_split : Str → ℕ → ℕ → Option (Result Lines Lines)
  shamir_split secret threshold shares =
      if ltb threshold 2
      then some (err (str "Threshold must be >= 2" ∷ []))
      else if ltb shares threshold
      then some (err (few_shares threshold shares ∷ []))
      else if ltb 255 shares
      then some (err (str "Shares must be <= 255" ∷ []))
      else Option.map (λ dealt. ok (split_lines secret threshold shares (texts_of dealt)))
          (split fill secret threshold shares)

  abbrev recovered_lines : Bytes → Result Lines Lines
  recovered_lines recovered = elim (crypto.from_utf8 recovered) [
    | ok text ↦ ok (text ∷ [])
    | err e ↦ ok (crypto.encode recovered ∷ [])
  ]

  abbrev join_decoded : Result Str (List Share) → Option (Result Lines Lines)
  join_decoded (err e) = some (err ((str "Invalid share format: " ++ e) ∷ []))
  join_decoded (ok shares) = Option.map recovered_lines (reconstruct shares)

  unfoldable pub shamir_join : Lines → Option (Result Lines Lines)
  shamir_join texts =
      if ltb (length texts) 2
      then some (err (str "Need at least 2 shares to reconstruct" ∷ []))
      else join_decoded (decode_shares crypto.encode crypto.decode texts)

  length-pick :
      (shares : List Share) (is : List ℕ) {ss : List Share}
      → pick shares is ≡ some ss
      → length ss ≡ length is
  length-pick shares [] h = (let e : [] ≡ _ = cc in sym (ap length e))
  length-pick shares (i ∷ is) {ss = all} h =
      let (s, got, rest) = >>=-eq-some (get_elem? shares i) _ h in
      let (ss, picked, last) = >>=-eq-some (pick shares is) _ rest in
      (let e : s ∷ ss ≡ all = cc in sym (ap length e) ∙ ap suc (length-pick shares is picked))

  -- What becomes of `shamir-split`, by the numbers that it is given.
  abbrev pub SplitOutcome : Str → ℕ → ℕ → Option (Result Lines Lines) → Type 0
  SplitOutcome secret threshold shares outcome =
      ((threshold < 2) × (outcome ≡ some (err (str "Threshold must be >= 2" ∷ []))))
      ⊎ ((2 ≤ threshold)
          × (shares < threshold)
          × (outcome ≡ some (err (few_shares threshold shares ∷ []))))
      ⊎ ((2 ≤ threshold)
          × (threshold ≤ shares)
          × (255 < shares)
          × (outcome ≡ some (err (str "Shares must be <= 255" ∷ []))))
      ⊎ ((2 ≤ threshold)
          × (threshold ≤ shares)
          × (250 < shares)
          × (shares ≤ 255)
          × (outcome ≡ none))
      ⊎ ((2 ≤ threshold)
          × (threshold ≤ shares)
          × (shares ≤ 250)
          × (dealt : List Share) × (split fill secret threshold shares ≡ some dealt)
          × (indices dealt ≡ numbers shares)
          × (outcome ≡ some (ok (split_lines secret threshold shares (texts_of dealt)))))

  -- On a secret of bytes below 251, as all texts in UTF-8 have: `shamir-split` exits with a message
  -- if the threshold is below 2, if the threshold is at least 2 and there are fewer shares than it,
  -- and if there are enough shares and more than 255; it panics if there are enough shares and 251
  -- to 255 of them; and for 2 ≤ threshold ≤ shares ≤ 250, where `split` does not panic, it prints
  -- the texts of the shares that `split` deals, which are as many as were asked for and are
  -- numbered from 1 on in their order.
  pub shamir_split_outcome :
      (secret : Str) (threshold shares : ℕ)
      → Residues secret
      → SplitOutcome secret threshold shares (shamir_split secret threshold shares)
  unfolding shamir_split
  shamir_split_outcome secret threshold shares residues = elim (Bool-cases (ltb threshold 2)) [
    | inl low ↦ inl (ground arith, rw low refl)
    | inr two ↦ elim (Bool-cases (ltb shares threshold)) [
      | inl few ↦ inr (inl (ground arith, ground arith, rw (two, few) refl))
      | inr enough ↦ elim (Bool-cases (ltb 255 shares)) [
        | inl many ↦
            inr (inr (inl (ground arith, ground arith, ground arith, rw (two, enough, many) refl)))
        | inr within ↦ elim (Bool-cases (ltb 250 shares)) [
          | inl over ↦
              let panics =
                split_panics fill secret threshold shares (inr (inr (inl (ground arith)))) in
              inr (
                inr (
                  inr (
                    inl (
                      ground arith,
                      ground arith,
                      ground arith,
                      ground arith,
                      rw (two, enough, within, panics) refl,
                    ))))
          | inr fits ↦
              let (dealt, done, numbered) =
                split-indices fill secret threshold shares (ground arith) (ground arith)
                  (ground arith) residues in
              inr (
                inr (
                  inr (
                    inr (
                      ground arith,
                      ground arith,
                      ground arith,
                      dealt,
                      done,
                      numbered,
                      rw (two, enough, within, done) refl,
                    ))))
        ]
      ]
    ]
  ]

  -- With base64 that decodes what it encodes, for a secret in UTF-8 and
  -- 2 ≤ threshold ≤ shares ≤ 250: `shamir-split` prints the texts of shares, and `shamir-join` of
  -- those at any `threshold` or more different positions, in any order, prints the secret.
  pub shamir_join-shamir_split :
      ((b : Bytes) → crypto.decode (crypto.encode b) ≡ ok b)
      → (secret : Str) (threshold shares : ℕ) (is : List ℕ) → 2 ≤ threshold
      → threshold ≤ shares
      → shares ≤ 250
      → Residues secret
      → crypto.from_utf8 secret ≡ ok secret
      → Chosen shares is
      → threshold ≤ length is
      → (dealt ss : List Share) × (shamir_split secret threshold shares
          ≡ some (ok (split_lines secret threshold shares (texts_of dealt))))
        × (pick dealt is ≡ some ss)
        × (shamir_join (texts_of ss) ≡ some (ok (secret ∷ [])))
  unfolding shamir_split shamir_join
  shamir_join-shamir_split base64 secret threshold shares is two enough most residues utf8 chosen
        size =
      let (dealt, ss, decoded, done, picked, read, recovered) =
        reconstruct-decode_shares crypto.encode crypto.decode base64 fill secret threshold shares is
          two enough most residues chosen size in
      let same = length-pick dealt is picked in
      let some_texts : ltb (length (texts_of ss)) 2 ≡ false =
        (let mapped = length-map (encode_share crypto.encode crypto.decode) ss in ground arith) in
      let low : ltb threshold 2 ≡ false = ground arith in
      let few : ltb shares threshold ≡ false = ground arith in
      let many : ltb 255 shares ≡ false = ground arith in
      (
        dealt,
        ss,
        rw (low, few, many, done) refl,
        picked,
        rw (some_texts, read, recovered, recovered_lines, utf8) refl,
      )
