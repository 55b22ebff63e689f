-- ===== src/Tests/Transposed.antt =====
-- A run of `transpose2d` on a matrix of two rows and three columns.
use wav2letter.Base.{ℕ, ◌≡◌, refl, [], ◌∷◌, ok}
use wav2letter.Labels.{transpose2d, transpose_batches, transpose_cols, transpose_rows}

transposed :
    transpose2d {T = ℕ} 0 (1 ∷ 2 ∷ 3 ∷ 4 ∷ 5 ∷ 6 ∷ []) 2 3 1 ≡ ok (1 ∷ 4 ∷ 2 ∷ 5 ∷ 3 ∷ 6 ∷ [])
unfolding transpose2d transpose_batches transpose_cols transpose_rows
transposed = refl
