-- ===== src/Decoder/Keys.antt =====
-- The number of keys of the buffer `hyp_` in LexiconSeq2SeqDecoder.cpp and
-- LexiconFreeSeq2SeqDecoder.cpp of src/libraries/decoder, which is used as the length of a result.
use wav2letter.Base.{
  ℕ, zero, suc, ◌≤◌, ◌<◌, ◌≡◌, ◌≢◌, refl, subst, ◌∙◌, inl, inr, some, List, [], ◌∷◌, length,
  if◌then◌else◌, false, lookup, nat_eq, ◌==◌, Bool-cases, arith,
}

module _ {ℓ} {V : Type ℓ} where
  abbrev without : ℕ → List (ℕ × V) → List (ℕ × V)
  without k [] = []
  without k ((j, v) ∷ m) = let rest = without k m in if j == k then rest else (j, v) ∷ rest

  length-without-le : (k : ℕ) (m : List (ℕ × V)) → length (without k m) ≤ length m
  length-without-le k [] = omega arith
  length-without-le k ((j, v) ∷ m) = elim (Bool-cases (j == k)) [
    | inl e ↦ rw e (omega (arith, length-without-le k m))
    | inr e ↦ rw e (omega (arith, length-without-le k m))
  ]

  length-without :
      (k : ℕ) (v : V) (m : List (ℕ × V)) → lookup k m ≡ some v → length (without k m) < length m
  unfolding lookup
  length-without k v [] e = cc
  length-without k v ((j, w) ∷ m) e = elim (Bool-cases (j == k)) [
    | inl same ↦ rw same (omega (arith, length-without-le k m))
    | inr other ↦
        let rest : lookup k m ≡ some v =
          subst (λ b. (if b then some w else lookup k m) ≡ some v) other e in
        rw other (omega (arith, length-without k v m rest))
  ]

  lookup-without : (k j : ℕ) (m : List (ℕ × V)) → k ≢ j → lookup j (without k m) ≡ lookup j m
  unfolding lookup
  lookup-without k j [] ne = refl
  lookup-without k j ((i, w) ∷ m) ne = elim (Bool-cases (i == k)) [
    | inl e ↦ let other : (i == j) ≡ false = ground arith in rw (e, other) (lookup-without k j m ne)
    | inr e ↦ elim (Bool-cases (i == j)) [
      | inl e' ↦ rw (e, e') refl
      | inr e' ↦ rw (e, e') (lookup-without k j m ne)
    ]
  ]

  -- A map with `n` different keys has `n` entries.
  pub length-keys :
      (n : ℕ) (m : List (ℕ × V))
      → ((j : ℕ) → j < n → (v : V) × (lookup j m ≡ some v))
      → n ≤ length m
  length-keys zero m all = omega arith
  length-keys (suc n) m all =
      let (v, e) = all n (omega arith) in
      omega (
        arith,
        length-without n v m e,
        length-keys n (without n m) (λ j lt.
            let (w, e') = all j (omega arith) in (w, lookup-without n j m (omega arith) ∙ e')),
      )
