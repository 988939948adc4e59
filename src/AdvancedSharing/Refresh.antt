-- ===== src/AdvancedSharing/Refresh.antt =====
-- src/advanced_secret_sharing.rs: the mask of a refresh, its length and its inverse.
use abir_guard.Base.{
  ℕ, zero, suc, ◌+◌, ◌^◌, ◌≤◌, ◌<◌, ◌≡◌, refl, ap, ◌∙◌, [], ◌∷◌, ◌++◌, Bytes, ltb, Bool-cases, inl,
  inr, length, length-append, length-take, le_bytes, All, ok, err, arith,
}
use abir_guard.Base.Numbers.{saturating_add, xor-lt, xor-xor}
use abir_guard.AdvancedSharing.{
  ProactiveRefresher, invalid_share_length, mask_loop, mask, xor_bytes, refresh_share,
}

-- A byte is below 2 ^ 8.
abbrev pub IsByte : ℕ → Type 0
IsByte b = b < 2 ^ 8

module _ (sha256 : Bytes → Bytes) (full : (m : Bytes) → 0 < length (sha256 m)) where
  -- As many rounds as bytes are enough: the loop ends by its test.
  mask_loop-ends :
      (fuel : ℕ) (seed : Bytes) (epoch len counter : ℕ) (output : Bytes)
      → len ≤ length output + fuel
      → len ≤ length (mask_loop sha256 fuel seed epoch len counter output)
  unfolding mask_loop
  mask_loop-ends zero seed epoch len counter output h = omega arith
  mask_loop-ends (suc fuel) seed epoch len counter output h =
      let text = seed ++ (le_bytes 8 epoch ++ le_bytes 8 counter) in
      let block = sha256 text in
      let grown : len ≤ length (output ++ block) + fuel =
        omega (arith, length-append output block, full text) in
      elim (Bool-cases (ltb (length output) len)) [
        | inl more ↦
            rw more (
              mask_loop-ends fuel seed epoch len (saturating_add counter 1) (output ++ block) grown)
        | inr done ↦ rw done (ground arith)
      ]

  pub length-mask :
      (r : ProactiveRefresher) (seed : Bytes) (len : ℕ) → length (mask sha256 r seed len) ≡ len
  unfolding mask
  length-mask r seed len =
      length-take len _ (mask_loop-ends len seed r.epoch len 0 [] (omega arith))

length-xor_bytes :
    (share noise : Bytes)
    → length noise ≡ length share
    → length (xor_bytes share noise) ≡ length share
unfolding xor_bytes
length-xor_bytes [] noise h = refl
length-xor_bytes (x ∷ xs) [] h = absurd (omega arith)
length-xor_bytes (x ∷ xs) (y ∷ ys) h = ap suc (length-xor_bytes xs ys (omega arith))

xor_bytes-IsByte : (share noise : Bytes) → All IsByte (xor_bytes share noise)
unfolding xor_bytes
xor_bytes-IsByte [] noise = tt
xor_bytes-IsByte (x ∷ xs) [] = tt
xor_bytes-IsByte (x ∷ xs) (y ∷ ys) = (xor-lt 8 x y, xor_bytes-IsByte xs ys)

xor_bytes-xor_bytes :
    (share noise : Bytes)
    → length noise ≡ length share
    → All IsByte share
    → xor_bytes (xor_bytes share noise) noise ≡ share
unfolding xor_bytes
xor_bytes-xor_bytes [] noise h b = refl
xor_bytes-xor_bytes (x ∷ xs) [] h b = absurd (omega arith)
xor_bytes-xor_bytes (x ∷ xs) (y ∷ ys) h b =
    rw (xor-xor 8 x y b.0, xor_bytes-xor_bytes xs ys (omega arith) b.1)

refresh_share_lem :
    (sha256 : Bytes → Bytes) (r : ProactiveRefresher) (share seed : Bytes)
    → 0 < length share
    → refresh_share sha256 r share seed ≡ ok (xor_bytes share (mask sha256 r seed (length share)))
unfolding refresh_share
refresh_share_lem sha256 r [] seed h = absurd (omega arith)
refresh_share_lem sha256 r (x ∷ xs) seed h = refl

pub refresh_share_empty :
    (sha256 : Bytes → Bytes) (r : ProactiveRefresher) (seed : Bytes)
    → refresh_share sha256 r [] seed ≡ err invalid_share_length
unfolding refresh_share
refresh_share_empty sha256 r seed = refl

module _ (sha256 : Bytes → Bytes) (full : (m : Bytes) → 0 < length (sha256 m)) where
  -- With digests that are not empty, a share of bytes that is not empty is refreshed to one of as
  -- many bytes, and to refresh that again in the same epoch with the same seed gives the share
  -- back.
  pub refresh-refresh :
      (r : ProactiveRefresher) (share seed : Bytes)
      → 0 < length share
      → All IsByte share
      → (next : Bytes) × (refresh_share sha256 r share seed ≡ ok next)
        × (length next ≡ length share)
        × All IsByte next
        × (refresh_share sha256 r next seed ≡ ok share)
  refresh-refresh r share seed some_bytes b =
      let noise = mask sha256 r seed (length share) in
      let size = length-mask sha256 full r seed (length share) in
      let next = xor_bytes share noise in
      let same : length next ≡ length share = length-xor_bytes share noise size in
      let again : refresh_share sha256 r next seed ≡ ok share =
        refresh_share_lem sha256 r next seed (omega arith)
        ∙ rw (same, xor_bytes-xor_bytes share noise size b) in
      (
        next,
        refresh_share_lem sha256 r share seed some_bytes,
        same,
        xor_bytes-IsByte share noise,
        again,
      )
