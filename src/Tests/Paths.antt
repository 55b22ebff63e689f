-- ===== src/Tests/Paths.antt =====
-- The theorem on ViterbiPath.cpp with numbers as scores, 0 as minus infinity, two tags and three frames.
use wav2letter.Base.{ℕ, suc, ◌+◌, ◌≤◌, ◌≡◌, false, List, [], ◌∷◌, get_or, ltb, ok, arith}
use wav2letter.Viterbi.{Scores, compute}
use wav2letter.Viterbi.Maximum.{AreLawful}
use wav2letter.Viterbi.Optimal.{forward, path_score, IsPath, compute_lem}

abbrev numbers : Scores ℕ
numbers = record {
  plus = λ a b. a + b;
  greater = λ a b. ltb b a;
  zero_score = 0;
  minus_infinity = 0;
}

abbrev IsFinite : ℕ → Type 0
IsFinite a = 1 ≤ a

numbers-AreLawful : AreLawful numbers IsFinite
numbers-AreLawful = record {
  irrefl = λ a. ground arith;
  trans = λ a b c h k. ground arith;
  asym = λ a b h. ground arith;
  mono = λ a b c h. ground arith;
  plus_zero = λ a. omega arith;
  above = λ a h. ground arith;
  finite_plus = λ a b h k. omega arith;
}

abbrev input : ℕ → ℕ
input i = suc (get_or (4 ∷ 1 ∷ 2 ∷ 7 ∷ 5 ∷ 3 ∷ []) i 0)

abbrev trans : ℕ → ℕ
trans i = suc (get_or (0 ∷ 2 ∷ 1 ∷ 0 ∷ []) i 0)

compute_lem_example :
    (tags : List ℕ) × (compute numbers input trans 2 3 []
      ≡ ok (forward numbers IsFinite numbers-AreLawful input trans 2 tags []))
    × IsPath numbers IsFinite numbers-AreLawful input trans 2 3 tags
    × ((other : List ℕ)
        → IsPath numbers IsFinite numbers-AreLawful input trans 2 3 other
        → ltb
            (path_score numbers IsFinite numbers-AreLawful input trans 2 tags)
            (path_score numbers IsFinite numbers-AreLawful input trans 2 other)
          ≡ false)
compute_lem_example =
    compute_lem numbers IsFinite numbers-AreLawful input trans 2 (omega arith) (λ i. omega arith)
      (λ i. omega arith) 2 []
