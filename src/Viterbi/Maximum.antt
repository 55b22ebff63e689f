-- ===== src/Viterbi/Maximum.antt =====
-- The inner loop finds the index of a greatest value.
use native.Mathlib.Decide.{dec_lt}
use wav2letter.Base.{
  ℕ, zero, suc, ◌+◌, ◌-◌, ◌<◌, ◌≡◌, refl, ap, subst, ◌∙◌, inl, inr, true, false, get_or, ℤ, pos,
  minus_one, arith, Bool-cases,
}
use wav2letter.Viterbi.{Scores, tabulate, max_loop, best}

pub get_or-tabulate {ℓ} :
    {A : Type ℓ} (n start i : ℕ) (f : ℕ → A) (d : A)
    → i < n
    → get_or (tabulate n start f) i d ≡ f (start + i)
unfolding tabulate
get_or-tabulate zero start i f d h = absurd (omega arith)
get_or-tabulate (suc n) start zero f d h = let e : start ≡ start + 0 = omega arith in ap f e
get_or-tabulate (suc n) start (suc i) f d h =
    let e : suc start + i ≡ start + suc i = omega arith in
    get_or-tabulate n (suc start) i f d (omega arith) ∙ ap f e

-- The operations behave as on floats that are no NaN, and sums of finite scores are finite.
pub record AreLawful {ℓ} {S : Type ℓ} (scores : Scores S) (IsFinite : S → Type 0) : Type ℓ where
  pub irrefl : (a : S) → scores.greater a a ≡ false
  pub trans :
      (a b c : S)
      → scores.greater a b ≡ false
      → scores.greater b c ≡ false
      → scores.greater a c ≡ false
  pub asym : (a b : S) → scores.greater a b ≡ true → scores.greater b a ≡ false
  pub mono :
      (a b c : S)
      → scores.greater a b ≡ false
      → scores.greater (scores.plus a c) (scores.plus b c) ≡ false
  pub plus_zero : (a : S) → scores.plus a scores.zero_score ≡ a
  pub above : (a : S) → IsFinite a → scores.greater a scores.minus_infinity ≡ true
  pub finite_plus : (a b : S) → IsFinite a → IsFinite b → IsFinite (scores.plus a b)

module _ {ℓ} {S : Type ℓ} (scores : Scores S) (IsFinite : S → Type 0)
    (lawful : AreLawful scores IsFinite) (input trans : ℕ → S) (n_tags : ℕ) where
  -- The result `r` is an index below `n` and its value, which no other is greater than.
  pub record IsBest (val : ℕ → S) (n : ℕ) (r : ℤ × S) : Type ℓ where
    pub index : ℕ
    pub in_range : index < n
    pub index_same : r.0 ≡ pos index
    pub value_same : r.1 ≡ val index
    pub greatest : (i : ℕ) → i < n → scores.greater (val i) r.1 ≡ false

  last_index :
      (val : ℕ → S) (top : S) (n i : ℕ)
      → n ≡ i
      → scores.greater (val n) top ≡ false
      → scores.greater (val i) top ≡ false
  last_index val top n i e h = subst (λ j. scores.greater (val j) top ≡ false) e h

  max_loop-IsBest :
      (val : ℕ → S) (count n k : ℕ)
      → k < n
      → ((i : ℕ) → i < n → scores.greater (val i) (val k) ≡ false)
      → IsBest val (n + count) (max_loop scores input trans n_tags val count n (pos k) (val k))
  unfolding max_loop
  max_loop-IsBest val zero n k h above = record {
    index = k;
    in_range = omega arith;
    index_same = refl;
    value_same = refl;
    greatest = λ i below. above i (omega arith);
  }
  max_loop-IsBest val (suc count) n k h above =
      let step : n + suc count ≡ suc n + count = omega arith in
      elim (Bool-cases (scores.greater (val n) (val k))) [
        | inl e ↦
            rw (step, e)
              (max_loop-IsBest val count (suc n) n (omega arith) (λ i below. elim (dec_lt i n) [
                | yes old ↦ lawful.trans _ _ _ (above i old) (lawful.asym _ _ e)
                | no new ↦ last_index val (val n) n i (omega arith) (lawful.irrefl _)
              ]))
        | inr e ↦
            rw (step, e)
              (max_loop-IsBest val count (suc n) k (omega arith) (λ i below. elim (dec_lt i n) [
                | yes old ↦ above i old
                | no new ↦ last_index val (val k) n i (omega arith) e
              ]))
      ]

  max_loop-start :
      (val : ℕ → S) (count : ℕ)
      → IsFinite (val 0)
      → IsBest val
          (suc count)
          (max_loop scores input trans n_tags val (suc count) 0 minus_one scores.minus_infinity)
  unfolding max_loop
  max_loop-start val count finite =
      let step : suc count ≡ 1 + count = omega arith in
      rw (lawful.above _ finite, step)
        (max_loop-IsBest val count 1 0 (omega arith)
          (λ i below. last_index val (val 0) 0 i (omega arith) (lawful.irrefl _)))

  pub best-IsBest :
      (val : ℕ → S)
      → 0 < n_tags
      → IsFinite (val 0)
      → IsBest val n_tags (best scores input trans n_tags val)
  unfolding best
  best-IsBest val h finite =
      let e : suc (n_tags - 1) ≡ n_tags = omega arith in
      subst
        (λ n.
          IsBest val n (max_loop scores input trans n_tags val n 0 minus_one scores.minus_infinity))
        e (max_loop-start val (n_tags - 1) finite)
