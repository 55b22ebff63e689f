-- ===== src/Viterbi.antt =====
-- src/libraries/criterion/cpu/ViterbiPath.cpp: the best path through the scores of one batch element.
-- The arrays are read by functions of their indices, from the element's first index on. The two rows of
-- `alpha` that the source swaps are lists; the rows of `beta` are kept with the last one first.
pub mod Maximum
pub mod Optimal
use wav2letter.Base.{
  ℕ, zero, suc, ◌+◌, ◌-◌, ◌*◌, Bool, true, false, List, [], ◌∷◌, length, get_or, ltb, ◌==◌,
  if◌then◌else◌, Result, ok, err, fatal, ℤ, pos, negsuc, minus_one,
}

-- The operations on floats that the routine uses; `greater a b` is `a > b`.
pub record Scores {ℓ} (S : Type ℓ) : Type ℓ where
  pub plus : S → S → S
  pub greater : S → S → Bool
  pub zero_score : S
  pub minus_infinity : S

unfoldable pub tabulate {ℓ} : {A : Type ℓ} → ℕ → ℕ → (ℕ → A) → List A
tabulate zero i f = []
tabulate (suc n) i f = f i ∷ tabulate n (suc i) f

module _ {ℓ} {S : Type ℓ} (scores : Scores S) (input trans : ℕ → S) (n_tags : ℕ) where
  -- The loop over `n` from `n` on, with `maxIndex` and `maxValue`.
  unfoldable pub max_loop : (ℕ → S) → ℕ → ℕ → ℤ → S → ℤ × S
  max_loop val zero n max_index max_value = (max_index, max_value)
  max_loop val (suc count) n max_index max_value =
      let better = max_loop val count (suc n) (pos n) (val n) in
      let same = max_loop val count (suc n) max_index max_value in
      if scores.greater (val n) max_value then better else same

  unfoldable pub best : (ℕ → S) → ℤ × S
  best val = max_loop val n_tags 0 minus_one scores.minus_infinity

  -- The scores that lead to the tag `m`.
  abbrev pub arrivals : List S → ℕ → ℕ → S
  arrivals alpha m n = scores.plus (get_or alpha n scores.minus_infinity) (trans (m * n_tags + n))

  -- The row of a frame `t` before the last: `betaCur` and `alphaCur`.
  unfoldable pub beta_row : List S → List ℤ
  beta_row alpha = tabulate n_tags 0 (λ m. (best (arrivals alpha m)).0)

  unfoldable pub alpha_row : ℕ → List S → List S
  alpha_row t alpha =
      tabulate n_tags 0 (λ m. scores.plus (best (arrivals alpha m)).1 (input (t * n_tags + m)))

  -- The frames from `t` on.
  unfoldable pub frames : ℕ → ℕ → List S → List (List ℤ) → List S × List (List ℤ)
  frames zero t alpha betas = (alpha, betas)
  frames (suc k) t alpha betas = frames k (suc t) (alpha_row t alpha) (beta_row alpha ∷ betas)

  -- The loop that follows the back pointers; -1 in place of one would be an index out of the array.
  unfoldable pub backtrack : List (List ℤ) → ℤ → List ℤ → Result (List ℤ)
  backtrack [] idx path = ok (idx ∷ path)
  backtrack (beta ∷ betas) (negsuc i) path = err fatal
  backtrack (beta ∷ betas) (pos i) path = backtrack betas (get_or beta i minus_one) (pos i ∷ path)

  -- `compute`: without a frame or a tag the path stays as it is.
  unfoldable pub compute : ℕ → List ℤ → Result (List ℤ)
  compute zero path = ok path
  compute (suc k) path =
      let (alpha, betas) = frames k 1 (tabulate n_tags 0 input) [] in
      let last =
        (best (λ n. scores.plus (get_or alpha n scores.minus_infinity) scores.zero_score)).0 in
      if n_tags == 0 then ok path else backtrack betas last []
