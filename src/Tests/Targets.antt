-- ===== src/Tests/Targets.antt =====
-- The theorems on target sizes at small targets.
use wav2letter.Base.{
  ℕ, suc, ◌+◌, ◌-◌, ◌≤◌, ◌≡◌, ℤ, pos, negsuc, [], ◌∷◌, get_or, min, ◌==◌, if◌then◌else◌, arith,
}
use wav2letter.TargetSizes.{get_target_size, last_label, linear_index}
use wav2letter.TargetSizes.Linear.{last_label-get_target_size, linear_index_lem}

abbrev padded : ℕ → ℤ
padded i = get_or (pos 4 ∷ pos 2 ∷ negsuc 0 ∷ negsuc 0 ∷ []) i (negsuc 0)

last_label-get_target_size_example :
    last_label padded 3 9 4
    ≡ (if get_target_size padded 4 == 0 then 9 else min 3 (get_target_size padded 4))
last_label-get_target_size_example = last_label-get_target_size padded 3 9 4

linear_index_lem_example :
    (linear_index 2 5 0 ≡ 0)
    × (linear_index 2 5 (5 - 1) ≡ 2 - 1)
    × ((i : ℕ)
        → (linear_index 2 5 i ≤ linear_index 2 5 (suc i))
          × (linear_index 2 5 (suc i) ≤ linear_index 2 5 i + 1))
linear_index_lem_example = linear_index_lem 2 5 (omega arith) (omega arith)
