-- ===== src/TargetSizes/Linear.antt =====
-- The two ways to measure a target agree, and the stretched target passes through all labels in order.
use native.Mathlib.Nat.{le-div_iff_mul-le, div-mul-le_self, add-div_right, div-eq_of_lt-le}
use wav2letter.Base.{
  ℕ, zero, suc, ◌+◌, ◌-◌, ◌*◌, ◌/◌, ◌<◌, ◌≤◌, ◌≡◌, refl, min, if◌then◌else◌, ℤ, is_negative, ◌==◌,
  arith, Bool-cases, inl, inr,
}
use wav2letter.TargetSizes.{get_target_size, last_label, linear_index}

-- The inner loop of `batchTargetSize` stores what `getTargetSize` computes for the target, at most
-- the greatest size, and where that is 0 it stores nothing and the result keeps what it held.
pub last_label-get_target_size :
    (labels : ℕ → ℤ) (max_size old l : ℕ)
    → last_label labels max_size old l
      ≡ (if get_target_size labels l == 0 then old else min max_size (get_target_size labels l))
unfolding last_label get_target_size
last_label-get_target_size labels max_size old zero = refl
last_label-get_target_size labels max_size old (suc l) =
    elim (Bool-cases (is_negative (labels l))) [
      | inl e ↦ rw e (last_label-get_target_size labels max_size old l)
      | inr e ↦ rw e (ground arith)
    ]

div_mono : {t a b : ℕ} → 0 < t → a ≤ b → a / t ≤ b / t
div_mono {t} {a} {b} t_pos h = (le-div_iff_mul-le t_pos).1 (omega (arith, div-mul-le_self a t, h))

step_le : (i size t : ℕ) → size ≤ t → suc i * size ≤ i * size + t
step_le i size t le = grind (arith, le)

last_index-suc : (s u : ℕ) → s ≤ u → u * suc s / suc u ≡ s
last_index-suc s u le = div-eq_of_lt-le (suc u) (grind (arith, le)) (grind arith)

last_index : (size t : ℕ) → 0 < size → size ≤ t → (t - 1) * size / t ≡ size - 1
last_index zero t positive le = absurd (omega arith)
last_index (suc s) zero positive le = absurd (omega arith)
last_index (suc s) (suc u) positive le =
    let e : suc u - 1 ≡ u = omega arith in
    let e' : suc s - 1 ≡ s = omega arith in rw (e, e') (last_index-suc s u (omega arith))

-- If a target has at least one label and at most as many labels as there are frames, the labels
-- that `getLinearTarget` reads for the frames begin with the first one, end with the last one, and
-- from frame to frame stay or go on by one.
pub linear_index_lem :
    (size t : ℕ)
    → 0 < size
    → size ≤ t
    → (linear_index size t 0 ≡ 0)
      × (linear_index size t (t - 1) ≡ size - 1)
      × ((i : ℕ)
          → (linear_index size t i ≤ linear_index size t (suc i))
            × (linear_index size t (suc i) ≤ linear_index size t i + 1))
unfolding linear_index
linear_index_lem size t positive le =
    let t_pos : 0 < t = omega (arith, positive, le) in
    (
      grind arith,
      last_index size t positive le,
      λ i. (
        div_mono t_pos (grind arith),
        omega (arith, div_mono t_pos (step_le i size t le), add-div_right (i * size) t_pos),
      ),
    )
