-- ===== src/TargetSizes.antt =====
-- src/criterion/CriterionUtils.cpp and src/libraries/criterion/cpu/CriterionUtils.cpp: how many labels
-- of a padded target count, and the target that is stretched linearly over the frames.
-- An array is a function of its indices; a negative label is padding.
pub mod Linear
use wav2letter.Base.{
  ℕ, zero, suc, ◌+◌, ◌*◌, ◌/◌, min, Bool, true, false, not, List, [], ◌∷◌, replicate, ◌==◌,
  if◌then◌else◌, ℤ, pos, minus_one, is_negative, ◌=?◌, int_eq, nat_eq, list_eq, Result, ok, err,
  invalid_argument,
}
use wav2letter.Text.{Bytes, codes}
use wav2letter.Viterbi.{tabulate}

-- The loop of `countRepeats` over `n` labels from `i` on.
unfoldable pub repeats_loop : (ℕ → ℤ) → ℕ → ℕ → ℕ → ℕ
repeats_loop labels zero i r = r
repeats_loop labels (suc n) i r =
    repeats_loop labels n (suc i) (if labels (suc i) =? labels i then suc r else r)

unfoldable pub count_repeats : (ℕ → ℤ) → ℕ → ℕ
count_repeats labels zero = 0
count_repeats labels (suc n) = repeats_loop labels n 0 0

-- `while (len > 0 && labels[len - 1] < 0) --len;`
unfoldable pub get_target_size : (ℕ → ℤ) → ℕ → ℕ
get_target_size labels zero = 0
get_target_size labels (suc len) =
    let shorter = get_target_size labels len in
    if is_negative (labels len) then shorter else suc len

-- The inner loop of `batchTargetSize`, from the last label on: `old` is what stands in the result.
unfoldable pub last_label : (ℕ → ℤ) → ℕ → ℕ → ℕ → ℕ
last_label labels max_size old zero = old
last_label labels max_size old (suc i) =
    let before = last_label labels max_size old i in
    if not (is_negative (labels i)) then min max_size (suc i) else before

-- `batchTargetSize` for the elements from `b` on; the list is what the result holds before.
unfoldable pub batch_target_size : (ℕ → ℤ) → ℕ → ℕ → ℕ → List ℕ → List ℕ
batch_target_size target l max_size b [] = []
batch_target_size target l max_size b (old ∷ sizes) =
    last_label (λ i. target (b * l + i)) max_size old l
    ∷ batch_target_size target l max_size (suc b) sizes

pub data ScaleMode : Type 0 where
  no_scale input_size input_size_sqrt target_size target_size_sqrt : ScaleMode

-- `getCriterionScaleMode`
unfoldable pub get_criterion_scale_mode : Bytes → Bool → Result ScaleMode
get_criterion_scale_mode onorm sqnorm =
    if onorm =? codes "none"
    then ok no_scale
    else if onorm =? codes "input"
    then ok (if sqnorm then input_size_sqrt else input_size)
    else if onorm =? codes "target"
    then ok (if sqnorm then target_size_sqrt else target_size)
    else err invalid_argument

-- `getLinearTarget` for one element of the batch, of `l` labels over `t` frames.
unfoldable pub linear_index : ℕ → ℕ → ℕ → ℕ
linear_index size t i = i * size / t

unfoldable pub linear_target : (ℕ → ℤ) → ℕ → ℕ → List ℤ
linear_target target l t =
    let size = min t (get_target_size target l) in
    if size == 0 then replicate t minus_one else tabulate t 0 (λ i. target (linear_index size t i))
