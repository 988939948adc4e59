-- ===== src/Shamir/Deal.antt =====
-- The loops of `split`: what each share holds after them.
use abir_guard.Base.{
  ℕ, zero, suc, ◌+◌, ◌-◌, ◌<◌, ◌≡◌, refl, ap, ◌∙◌, subst, ◌≢◌, arith, List, [], ◌∷◌, All, length,
  get_elem?, some, Bytes,
}
use abir_guard.Shamir.{
  Share, write_at, write_shares, split_loop, coefficients, get_random_bytes, eval_loop, u8,
}

record Written (xs : Bytes) (i y : ℕ) (ys : Bytes) : Type 0 where
  same_length : length ys ≡ length xs
  here : get_elem? ys i ≡ some y
  elsewhere : (j : ℕ) → j ≢ i → get_elem? ys j ≡ get_elem? xs j

write_at-Written :
    (xs : Bytes) (i y : ℕ)
    → i < length xs
    → (ys : Bytes) × (write_at xs i y ≡ some ys) × Written xs i y ys
unfolding write_at
write_at-Written [] i y h = absurd (omega arith)
write_at-Written (x ∷ xs) zero y h =
    (y ∷ xs, refl, record { same_length = refl; here = refl; elsewhere = other })
  where
    other : (j : ℕ) → j ≢ 0 → get_elem? (y ∷ xs) j ≡ get_elem? (x ∷ xs) j
    other zero ne = absurd (ne refl)
    other (suc j) ne = refl
write_at-Written (x ∷ xs) (suc i) y h = extend (write_at-Written xs i y (omega arith))
  where
    extend :
        (ys : Bytes) × (write_at xs i y ≡ some ys) × Written xs i y ys
        → (ys : Bytes) × (write_at (x ∷ xs) (suc i) y ≡ some ys) × Written (x ∷ xs) (suc i) y ys
    extend (ys, e, w) = (
      x ∷ ys,
      rw e,
      record { same_length = ap suc w.same_length; here = w.here; elsewhere = other },
    )
      where
        other : (j : ℕ) → j ≢ suc i → get_elem? (x ∷ ys) j ≡ get_elem? (x ∷ xs) j
        other zero ne = refl
        other (suc j) ne = w.elsewhere j (λ p. ne (ap suc p))

-- Two lists of one length, related position by position.
abbrev pub Each : (Share → Share → Type 0) → List Share → List Share → Type 0
Each R [] [] = Unit
Each R [] (t ∷ ts) = ⊥
Each R (s ∷ ss) [] = ⊥
Each R (s ∷ ss) (t ∷ ts) = R s t × Each R ss ts

Each-diagonal :
    (R : Share → Share → Type 0) → ((s : Share) → R s s) → (ss : List Share) → Each R ss ss
Each-diagonal R h [] = tt
Each-diagonal R h (s ∷ ss) = (h s, Each-diagonal R h ss)

Each-trans :
    (R S T : Share → Share → Type 0)
    → ((s t u : Share) → R s t → S t u → T s u)
    → (ss ts us : List Share) → Each R ss ts
    → Each S ts us
    → Each T ss us
Each-trans R S T join [] [] [] p q = tt
Each-trans R S T join (s ∷ ss) (t ∷ ts) (u ∷ us) p q =
    (join s t u p.0 q.0, Each-trans R S T join ss ts us p.1 q.1)
Each-trans R S T join [] (t ∷ ts) us p q = absurd p
Each-trans R S T join (s ∷ ss) [] us p q = absurd p
Each-trans R S T join [] [] (u ∷ us) p q = absurd q
Each-trans R S T join (s ∷ ss) (t ∷ ts) [] p q = absurd q

pub Each-get :
    (R : Share → Share → Type 0) (ss ts : List Share) (i : ℕ) {s : Share}
    → Each R ss ts
    → get_elem? ss i ≡ some s
    → (t : Share) × (get_elem? ts i ≡ some t) × R s t
Each-get R [] ts i p e = cc
Each-get R (s ∷ ss) [] i p e = absurd p
Each-get R (s ∷ ss) (t ∷ ts) zero {s = s'} p e =
    (t, refl, subst (λ o. R o t) (let same : s ≡ s' = cc in same) p.0)
Each-get R (s ∷ ss) (t ∷ ts) (suc i) p e = Each-get R ss ts i p.1 e

-- One round: byte `k` of a share becomes the value at its index.
record Round (cs : Bytes) (k : ℕ) (s t : Share) : Type 0 where
  same_index : t.index ≡ s.index
  written : Written s.data_bytes k (u8 (eval_loop cs s.index 0 1)) t.data_bytes

abbrev pub Sized : ℕ → List Share → Type 0
Sized len = All (λ s. length s.data_bytes ≡ len)

write_shares-Round :
    (cs : Bytes) (k len : ℕ) (ss : List Share)
    → k < len
    → Sized len ss
    → (ts : List Share) × (write_shares cs k ss ≡ some ts) × Each (Round cs k) ss ts × Sized len ts
unfolding write_shares
write_shares-Round cs k len [] h z = ([], refl, tt, tt)
write_shares-Round cs k len (s ∷ ss) h z =
    let (ys, wrote, w) =
      write_at-Written s.data_bytes k (u8 (eval_loop cs s.index 0 1)) (omega arith) in
    let (ts, rest, each, sized) = write_shares-Round cs k len ss h z.1 in
    (
      record s { data_bytes = ys } ∷ ts,
      rw (wrote, rest),
      (record { same_index = refl; written = w }, each),
      (w.same_length ∙ z.0, sized),
    )

-- What the loop over the secret leaves in a share: the bytes before `k` as they were, and from
-- there on the value of the polynomial of each byte of the secret.
pub record Filled (fill : ℕ → ℕ → ℕ) (threshold k : ℕ) (secret : Bytes) (s t : Share) : Type 0 where
  pub same_index : t.index ≡ s.index
  pub same_length : length t.data_bytes ≡ length s.data_bytes
  pub before : (j : ℕ) → j < k → get_elem? t.data_bytes j ≡ get_elem? s.data_bytes j
  pub filled :
      (i j b : ℕ)
      → j ≡ k + i
      → get_elem? secret i ≡ some b
      → get_elem? t.data_bytes j
        ≡ some
            (u8 (eval_loop (coefficients b (get_random_bytes fill j (threshold - 1))) s.index 0 1))

module _ (fill : ℕ → ℕ → ℕ) (threshold : ℕ) where
  abbrev polynomial : ℕ → ℕ → Bytes
  polynomial k b = coefficients b (get_random_bytes fill k (threshold - 1))

  Filled-cons :
      (k b : ℕ) (secret : Bytes) (s t u : Share)
      → Round (polynomial k b) k s t
      → Filled fill threshold (k + 1) secret t u
      → Filled fill threshold k (b ∷ secret) s u
  Filled-cons k b secret s t u r f = record {
    same_index = f.same_index ∙ r.same_index;
    same_length = f.same_length ∙ r.written.same_length;
    before = λ j h. f.before j (omega arith) ∙ r.written.elsewhere j (omega arith);
    filled = reads;
  }
    where
      reads :
          (i j c : ℕ)
          → j ≡ k + i
          → get_elem? (b ∷ secret) i ≡ some c
          → get_elem? u.data_bytes j ≡ some (u8 (eval_loop (polynomial j c) s.index 0 1))
      reads zero j c e g =
          let jk : j ≡ k = omega arith in
          rw jk (
            f.before k (omega arith)
            ∙ r.written.here
            ∙ ap (λ v. some (u8 (eval_loop (polynomial k v) s.index 0 1)))
                (let same : b ≡ c = cc in same))
      reads (suc i) j c e g =
          f.filled i j c (omega arith) g
          ∙ ap (λ x. some (u8 (eval_loop (polynomial j c) x 0 1))) r.same_index

  Filled-nil : (k : ℕ) (s : Share) → Filled fill threshold k [] s s
  Filled-nil k s = record {
    same_index = refl;
    same_length = refl;
    before = λ j h. refl;
    filled = λ i j b e g. cc;
  }

  pub split_loop-Filled :
      (k len : ℕ) (secret : Bytes) (ss : List Share)
      → k + length secret ≡ len
      → Sized len ss
      → (ts : List Share) × (split_loop fill threshold k secret ss ≡ some ts)
        × Each (Filled fill threshold k secret) ss ts
  unfolding split_loop
  split_loop-Filled k len [] ss e z =
      (ss, refl, Each-diagonal (Filled fill threshold k []) (Filled-nil k) ss)
  split_loop-Filled k len (b ∷ secret) ss e z =
      let (ts, wrote, round, sized) =
        write_shares-Round (polynomial k b) k len ss (omega arith) z in
      let (us, rest, each) = split_loop-Filled (k + 1) len secret ts (omega arith) sized in
      (
        us,
        rw (wrote) rest,
        Each-trans (Round (polynomial k b) k) (Filled fill threshold (k + 1) secret)
            (Filled fill threshold k (b ∷ secret)) (Filled-cons k b secret) ss ts us round each,
      )
