-- ===== src/AdvancedSharing/Mac.antt =====
-- src/advanced_secret_sharing.rs: what a valid MAC says of a share, and what it does not.
use mathlib.Core.List.{append_assoc}
use abir_guard.Base.{
  ℕ, ◌^◌, ◌<◌, [], ◌∷◌, ◌≡◌, ◌≢◌, ◌⊎◌, inl, inr, refl, sym, ap, ◌∙◌, ◌++◌, Bytes, Str, length,
  le_bytes, length-le_bytes, le_bytes-injective, append-cancel, bytes_eq_iff, ok, arith,
}
use abir_guard.Base.Hash.{Collision, same_or_Collision}
use abir_guard.AdvancedSharing.{
  AuthenticatedShare, mac_input, compute_mac, authenticate_share, verify_authenticated_share,
}

module _ (hmac : Bytes → Bytes → Bytes) where
  -- What a share that verifies carries.
  pub mac_of_verified :
      (s : AuthenticatedShare) (context key : Bytes)
      → verify_authenticated_share hmac s context key ≡ ok tt
      → (key ≢ []) × (s.mac ≡ hmac key (mac_input s.participant_id s.share_bytes s.epoch context))
  unfolding verify_authenticated_share compute_mac
  mac_of_verified s context [] h = absurd cc
  mac_of_verified s context (k ∷ ks) h = (
    λ e. cc,
    ground (
      arith,
      bytes_eq_iff (hmac (k ∷ ks) (mac_input s.participant_id s.share_bytes s.epoch context)) s.mac,
    ),
  )

  pub verified_of_mac :
      (s : AuthenticatedShare) (context key : Bytes)
      → key ≢ []
      → s.mac ≡ hmac key (mac_input s.participant_id s.share_bytes s.epoch context)
      → verify_authenticated_share hmac s context key ≡ ok tt
  unfolding verify_authenticated_share compute_mac
  verified_of_mac s context [] ne h = absurd (ne refl)
  verified_of_mac s context (k ∷ ks) ne h =
      let text = hmac (k ∷ ks) (mac_input s.participant_id s.share_bytes s.epoch context) in
      ground (arith, bytes_eq_iff text s.mac)

  -- What `authenticate_share` makes.
  authenticate_fields :
      (id : Str) (x : Bytes) (epoch : ℕ) (context key : Bytes) {s : AuthenticatedShare}
      → authenticate_share hmac id x epoch context key ≡ ok s
      → (key ≢ []) × (s.epoch ≡ epoch) × (s.mac ≡ hmac key (mac_input id x epoch context))
  unfolding authenticate_share compute_mac
  authenticate_fields id x epoch context [] h = absurd cc
  authenticate_fields id x epoch context (k ∷ ks) h = (λ e. cc, ground arith, ground arith)

mac_input_fields :
    (p q : Str) (x y : Bytes) (m n : ℕ) (c d : Bytes)
    → length p ≡ length q
    → length x ≡ length y
    → m < 256 ^ 8
    → n < 256 ^ 8
    → mac_input p x m c ≡ mac_input q y n d
    → (p ≡ q) × (x ≡ y) × (m ≡ n) × (c ≡ d)
unfolding mac_input
mac_input_fields p q x y m n c d lp lx hm hn e =
    let (ids, e1) = append-cancel p q _ _ lp e in
    let (shares, e2) = append-cancel x y _ _ lx e1 in
    let (epochs, contexts) =
      append-cancel (le_bytes 8 m) (le_bytes 8 n) c d
        (length-le_bytes 8 m ∙ sym (length-le_bytes 8 n)) e2 in
    (ids, shares, le_bytes-injective 8 m n hm hn epochs, contexts)

module _ (hmac : Bytes → Bytes → Bytes) (key : Bytes) where
  -- Two shares that verify under one key with one MAC, whose identifiers and whose payloads have
  -- the same length and whose epochs fit in eight bytes, are the same share under the same
  -- context, or the MAC has a collision under the key.
  pub mac_binds :
      (s t : AuthenticatedShare) (context context' : Bytes)
      → verify_authenticated_share hmac s context key ≡ ok tt
      → verify_authenticated_share hmac t context' key ≡ ok tt
      → s.mac ≡ t.mac
      → length s.participant_id ≡ length t.participant_id
      → length s.share_bytes ≡ length t.share_bytes
      → s.epoch < 256 ^ 8
      → t.epoch < 256 ^ 8
      → Collision (hmac key) ⊎ ((s ≡ t) × (context ≡ context'))
  mac_binds s t context context' hs ht same ids shares es et =
      let (_, ms) = mac_of_verified hmac s context key hs in
      let (_, mt) = mac_of_verified hmac t context' key ht in
      elim (same_or_Collision (hmac key) _ _ (sym ms ∙ same ∙ mt)) [
        | inl found ↦ inl found
        | inr texts ↦
            let (p, x, m, c) = mac_input_fields _ _ _ _ _ _ _ _ ids shares es et texts in
            inr (ground arith, c)
      ]

  -- The MAC has no mark between the identifier and the payload: bytes moved from the end of the
  -- identifier of an authenticated share to the front of its payload give a share of another
  -- participant that verifies with the same MAC.
  pub moved_share_verifies :
      (id x y : Bytes) (epoch : ℕ) (context : Bytes) {s : AuthenticatedShare}
      → authenticate_share hmac (id ++ x) y epoch context key ≡ ok s
      → verify_authenticated_share hmac
          (record s { participant_id = id; share_bytes = x ++ y })
          context
          key
        ≡ ok tt
  unfolding mac_input
  moved_share_verifies id x y epoch context {s} h =
      let (ne, epochs, tag) = authenticate_fields hmac (id ++ x) y epoch context key h in
      let text : mac_input id (x ++ y) s.epoch context ≡ mac_input (id ++ x) y epoch context =
        rw epochs (simp append_assoc) in
      verified_of_mac hmac (record s { participant_id = id; share_bytes = x ++ y }) context key ne
        (tag ∙ ap (hmac key) (sym text))
