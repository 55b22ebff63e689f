-- ===== src/Labels/Runs.antt =====
-- A frame-wise path is a list of runs; `uniq` leaves one label for each run.
use wav2letter.Base.{
  ℕ, zero, suc, ◌≡◌, refl, ap, ◌∙◌, false, not, List, [], ◌∷◌, ◌++◌, replicate, keep_if, ok, ℤ,
  ◌=?◌, =?_refl, int_eq,
}
use wav2letter.Dictionary.{Dictionary, get_index}
use wav2letter.Labels.{ctc, asg, blank_token, unique_loop, uniq, collapse}

-- A run of `n + 1` frames with one label.
abbrev pub expand : List (ℤ × ℕ) → List ℤ
expand [] = []
expand ((label, n) ∷ runs) = label ∷ replicate n label ++ expand runs

abbrev pub run_labels : List (ℤ × ℕ) → List ℤ
run_labels [] = []
run_labels ((label, n) ∷ runs) = label ∷ run_labels runs

-- Neighbouring runs have different labels.
abbrev pub AreMaximal : List (ℤ × ℕ) → Type 0
AreMaximal [] = Unit
AreMaximal (run ∷ []) = Unit
AreMaximal (run ∷ next ∷ runs) = ((run.0 =? next.0) ≡ false) × AreMaximal (next ∷ runs)

unique_loop-replicate :
    (label : ℤ) (n : ℕ) (rest : List ℤ)
    → unique_loop label (replicate n label ++ rest) ≡ unique_loop label rest
unfolding unique_loop
unique_loop-replicate label zero rest = refl
unique_loop-replicate label (suc n) rest = rw (=?_refl label) (unique_loop-replicate label n rest)

unique_loop-expand :
    (label : ℤ) (n : ℕ) (runs : List (ℤ × ℕ))
    → AreMaximal ((label, n) ∷ runs)
    → unique_loop label (expand runs) ≡ run_labels runs
unfolding unique_loop
unique_loop-expand label n [] maximal = refl
unique_loop-expand label n ((next, k) ∷ runs) maximal =
    rw (maximal.0, unique_loop-replicate next k (expand runs))
      (ap (λ ls. next ∷ ls) (unique_loop-expand next k runs maximal.1))

uniq-expand : (runs : List (ℤ × ℕ)) → AreMaximal runs → uniq (expand runs) ≡ run_labels runs
unfolding uniq
uniq-expand [] maximal = refl
uniq-expand ((label, n) ∷ runs) maximal =
    ap (λ ls. label ∷ ls)
      (unique_loop-replicate label n (expand runs) ∙ unique_loop-expand label n runs maximal)

-- A path made of runs of one label each, neighbouring runs with different labels, collapses to one
-- label for each run under the criterion ASG, and under CTC to those of them that are not the
-- blank, if the dictionary has an index for the blank.
pub collapse-expand :
    (dict : Dictionary) (blank : ℤ) (runs : List (ℤ × ℕ))
    → get_index dict blank_token ≡ ok blank
    → AreMaximal runs
    → (collapse asg dict (expand runs) ≡ ok (run_labels runs))
      × (collapse ctc dict (expand runs) ≡ ok (keep_if (λ t. not (t =? blank)) (run_labels runs)))
unfolding collapse
collapse-expand dict blank runs known maximal = rw (known, uniq-expand runs maximal) (refl, refl)
