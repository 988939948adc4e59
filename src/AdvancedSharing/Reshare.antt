-- ===== src/AdvancedSharing/Reshare.antt =====
-- src/advanced_secret_sharing.rs: every outcome of a re-sharing to a new roster.
use abir_guard.Base.{
  ℕ, zero, suc, ◌+◌, ◌%◌, ◌≤◌, ◌<◌, ◌≡◌, ◌⊎◌, inl, inr, refl, sym, ap₂, is_empty, true, false, some,
  List, [], ◌∷◌, ◌++◌, map, Bytes, Str, length, get_elem?, le_bytes, bytes_eq_refl, All, Result, ok,
  err, arith, Bool-cases,
}
use abir_guard.AdvancedSharing.{
  AdvancedSharingError, invalid_threshold, invalid_share_length, ParticipantShare, ResharePlan,
  ProactiveRefresher, advance_epoch, validate_thresholds, refresh_share, reshare_one, reshare_loop,
  build_refresh_proof, verify_reshare_plan, finish_plan, reshare_for_participants,
}
use abir_guard.AdvancedSharing.Refresh.{IsByte, refresh-refresh, refresh_share_empty}

-- Each threshold is between one and the number of its parties.
abbrev pub IsValid : List ParticipantShare → List Str → ℕ → ℕ → Type 0
IsValid current next old_threshold new_threshold =
    (0 < old_threshold)
    × (old_threshold ≤ length current)
    × (0 < new_threshold)
    × (new_threshold ≤ length next)

validate_thresholds-IsValid :
    (a b m n : ℕ)
    → ((validate_thresholds a b m n ≡ ok tt) × ((0 < m) × (m ≤ a) × (0 < n) × (n ≤ b)))
      ⊎ ((validate_thresholds a b m n ≡ err invalid_threshold)
          × ¬ ((0 < m) × (m ≤ a) × (0 < n) × (n ≤ b)))
unfolding validate_thresholds
validate_thresholds-IsValid a b m n = ground arith

get_elem?-lt {ℓ} :
    {A : Type ℓ} (xs : List A) (i : ℕ) → i < length xs → (a : A) × (get_elem? xs i ≡ some a)
get_elem?-lt [] i h = absurd (omega arith)
get_elem?-lt (x ∷ xs) zero h = (x, refl)
get_elem?-lt (x ∷ xs) (suc i) h = get_elem?-lt xs i (omega arith)

All-get_elem? {ℓ} :
    {A : Type ℓ} (P : A → Type 0) (xs : List A) (i : ℕ) (a : A)
    → All P xs
    → get_elem? xs i ≡ some a
    → P a
All-get_elem? P [] i a h e = absurd cc
All-get_elem? P (x ∷ xs) zero a h e = (let y : x ≡ a = cc in rw (sym y) h.0)
All-get_elem? P (x ∷ xs) (suc i) a h e = All-get_elem? P xs i a h.1 e

is_empty→nil : (xs : Bytes) → is_empty xs ≡ true → xs ≡ []
is_empty→nil [] h = refl
is_empty→nil (x ∷ xs) h = absurd cc

nonempty : (xs : Bytes) → is_empty xs ≡ false → 0 < length xs
nonempty [] h = absurd cc
nonempty (x ∷ xs) h = omega arith

-- Some current share is empty.
abbrev pub HasEmpty : List ParticipantShare → Type 0
HasEmpty current =
    (i : ℕ) × (p : ParticipantShare) × (get_elem? current i ≡ some p) × (p.share ≡ [])

occupied {ℓ} : {A : Type ℓ} (xs : List A) → 0 < length xs → is_empty xs ≡ false
occupied [] h = absurd (omega arith)
occupied (x ∷ xs) h = refl

-- A plan for exactly the roster that the proof was made for passes the check.
finish_plan-roster :
    (sha256 : Bytes → Bytes) (old_epoch new_epoch old_threshold new_threshold : ℕ) (next : List Str)
    (items : List ParticipantShare)
    → map (λ (item : ParticipantShare). item.participant_id) items ≡ next
    → let plan : ResharePlan = record {
      old_threshold = old_threshold;
      new_threshold = new_threshold;
      old_epoch = old_epoch;
      new_epoch = new_epoch;
      refreshed = items;
      proof = build_refresh_proof sha256 old_epoch new_epoch old_threshold new_threshold next items;
    } in
      (finish_plan sha256 old_epoch new_epoch old_threshold new_threshold next items ≡ ok plan)
      × (verify_reshare_plan sha256 plan ≡ true)
unfolding finish_plan verify_reshare_plan
finish_plan-roster sha256 old_epoch new_epoch old_threshold new_threshold next items roster =
    let proof =
      build_refresh_proof sha256 old_epoch new_epoch old_threshold new_threshold next items in
    let same = bytes_eq_refl proof.transcript_hash in (rw (roster, same), rw (roster, same))

module _ (sha256 : Bytes → Bytes) (r : ProactiveRefresher) (current : List ParticipantShare)
    (seed : Bytes) where
  -- A new share and the old one that it stands for: the participants are the roster's in order,
  -- their shares stand for the current ones in turn, and a further refresh with the same seed,
  -- participant and position gives the old share back.
  abbrev pub Renewed : ℕ → List Str → List ParticipantShare → Type 0
  Renewed idx [] [] = Unit {0}
  Renewed idx [] (item ∷ items) = ⊥
  Renewed idx (p ∷ ps) [] = ⊥
  Renewed idx (p ∷ ps) (item ∷ items) =
      (item.participant_id ≡ p)
      × ((source : ParticipantShare) × (get_elem? current (idx % length current) ≡ some source)
          × (length item.share ≡ length source.share)
          × (refresh_share sha256 r item.share (seed ++ (p ++ le_bytes 8 idx)) ≡ ok source.share))
      × Renewed (idx + 1) ps items

  Renewed-roster :
      (idx : ℕ) (ps : List Str) (items : List ParticipantShare)
      → Renewed idx ps items
      → map (λ (item : ParticipantShare). item.participant_id) items ≡ ps
  Renewed-roster idx [] [] h = refl
  Renewed-roster idx [] (item ∷ items) h = absurd h
  Renewed-roster idx (p ∷ ps) [] h = absurd h
  Renewed-roster idx (p ∷ ps) (item ∷ items) h = ap₂ ◌∷◌ h.0 (Renewed-roster (idx + 1) ps items h.2)

  module _ (full : (m : Bytes) → 0 < length (sha256 m)) (member : 0 < length current)
      (bytes : All (λ p. All IsByte p.share) current) where
    -- One round: the share is renewed, or it was empty.
    reshare_one-cases :
        (idx : ℕ) (p : Str) (source : ParticipantShare)
        → get_elem? current (idx % length current) ≡ some source
        → ((reshare_one sha256 r seed idx p source.share ≡ err invalid_share_length)
            × HasEmpty current)
          ⊎ ((next : Bytes) × (reshare_one sha256 r seed idx p source.share
                ≡ ok (record { participant_id = p; share = next }))
              × (length next ≡ length source.share)
              × (refresh_share sha256 r next (seed ++ (p ++ le_bytes 8 idx)) ≡ ok source.share))
    unfolding reshare_one
    reshare_one-cases idx p source at = elim (Bool-cases (is_empty source.share)) [
      | inl gone ↦
          let none_left : source.share ≡ [] = is_empty→nil source.share gone in
          inl (
            rw (none_left, refresh_share_empty sha256 r (seed ++ (p ++ le_bytes 8 idx))),
            (idx % length current, source, at, none_left),
          )
      | inr there ↦
          let (next, made, size, _, back) =
            refresh-refresh sha256 full r source.share (seed ++ (p ++ le_bytes 8 idx))
              (nonempty source.share there)
              (All-get_elem? (λ (p : ParticipantShare). All IsByte p.share) current _ source bytes
                at) in
          inr (next, rw made, size, back)
    ]

    reshare_loop-cases :
        (idx : ℕ) (ps : List Str)
        → ((reshare_loop sha256 r current seed idx ps ≡ some (err invalid_share_length))
            × HasEmpty current)
          ⊎ ((items : List ParticipantShare) × (reshare_loop sha256 r current seed idx ps
                ≡ some (ok items))
              × Renewed idx ps items)
    unfolding reshare_loop
    reshare_loop-cases idx [] = inr ([], refl, tt)
    reshare_loop-cases idx (p ∷ ps) =
        let (source, at) = get_elem?-lt current (idx % length current) (omega arith) in
        elim (reshare_one-cases idx p source at) [
          | inl (starved, gone) ↦ inl (rw (at, reshare_loop, starved), gone)
          | inr (next, made, size, back) ↦ elim (reshare_loop-cases (idx + 1) ps) [
            | inl (starved, gone) ↦ inl (rw (at, reshare_loop, made, reshare_loop, starved), gone)
            | inr (items, rest, renewed) ↦ inr (
              record { participant_id = p; share = next } ∷ items,
              rw (at, reshare_loop, made, reshare_loop, rest),
              (refl, (source, at, size, back), renewed),
            )
          ]
        ]

module _ (sha256 : Bytes → Bytes) (current : List ParticipantShare) (next : List Str)
    (old_threshold new_threshold : ℕ) (seed : Bytes) (r : ProactiveRefresher) where
  -- How a re-sharing ends: refused with nothing changed; stopped at an empty share, with the epoch
  -- advanced all the same; or done, by a plan that renews the current shares for the roster.
  pub data Outcome (out : ProactiveRefresher × Result AdvancedSharingError ResharePlan)
      : Type 0 where
    refused :
        ¬ IsValid current next old_threshold new_threshold
        → out ≡ (r, err invalid_threshold)
        → Outcome out
    starved :
        IsValid current next old_threshold new_threshold
        → HasEmpty current
        → out ≡ (advance_epoch r, err invalid_share_length)
        → Outcome out
    planned :
        IsValid current next old_threshold new_threshold
        → (plan : ResharePlan) → out ≡ (advance_epoch r, ok plan)
        → (plan.old_epoch ≡ r.epoch) × (plan.new_epoch ≡ (advance_epoch r).epoch)
        → (plan.old_threshold ≡ old_threshold) × (plan.new_threshold ≡ new_threshold)
        → verify_reshare_plan sha256 plan ≡ true
        → Renewed sha256 (advance_epoch r) current seed 0 next plan.refreshed
        → Outcome out

  -- With digests that are not empty and shares of bytes, a re-sharing never panics, and it ends in
  -- one of the three ways of Outcome: refused exactly when a threshold does not fit, stopped at an
  -- empty share after the epoch has moved, or done by a plan that is consistent, has one share for
  -- each next participant in order, and from each of these shares the current share that it stands
  -- for is recovered by the seed.
  pub reshare_for_participants-Outcome :
      (full : (m : Bytes) → 0 < length (sha256 m))
      → All (λ p. All IsByte p.share) current
      → (out : ProactiveRefresher × Result AdvancedSharingError ResharePlan)
        × (reshare_for_participants sha256 current next old_threshold new_threshold seed r
            ≡ some out)
        × Outcome out
  unfolding reshare_for_participants
  reshare_for_participants-Outcome full bytes =
      let after = advance_epoch r in
      elim (validate_thresholds-IsValid (length current) (length next) old_threshold
        new_threshold) [
          | inr (e, bad) ↦
              ((r, err invalid_threshold), rw (e, reshare_for_participants), refused bad refl)
          | inl (e, good) ↦
              let parties = occupied current (omega arith) in
              let roster = occupied next (omega arith) in
              elim (reshare_loop-cases sha256 after current seed full (omega arith) bytes 0 next) [
                | inl (stopped, gone) ↦ (
                  (after, err invalid_share_length),
                  rw (e, reshare_for_participants, parties, roster, stopped),
                  starved good gone refl,
                )
                | inr (items, looped, renewed) ↦
                    let (done, checked) =
                      finish_plan-roster sha256 r.epoch after.epoch old_threshold new_threshold next
                        items (Renewed-roster sha256 after current seed 0 next items renewed) in
                    (
                      (after, ok _),
                      rw (e, reshare_for_participants, parties, roster, looped, done),
                      planned good _ refl (refl, refl) (refl, refl) checked renewed,
                    )
              ]
        ]
