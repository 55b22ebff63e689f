-- ===== src/Text/Trim.antt =====
-- What `trim` cuts off, and what it leaves.
use wav2letter.Base.{
  take-append-drop, ℕ, zero, suc, ◌+◌, ◌-◌, ◌≡◌, refl, ap, sym, ◌⊎◌, inl, inr, Bool, true, false,
  none, some, [], ◌∷◌, ◌++◌, append-nil, take, drop, arith, Option-cases,
}
use wav2letter.Text.{Bytes, is_space, not_space, find_if, find_last_if, trim}
use wav2letter.Text.Find.{Lacks, find_if-some, Lacks-find_if}

module _ (p : ℕ → Bool) where
  -- The first and the last byte of the class, counted from the start and from the first one.
  find_last_if-drop :
      (s : Bytes) (i : ℕ)
      → find_if p s ≡ some i
      → (m : ℕ) × (find_last_if p s ≡ some (i + m)) × (find_last_if p (drop i s) ≡ some m)
  unfolding find_if find_last_if
  find_last_if-drop [] i h = cc
  find_last_if-drop (c ∷ s) zero h = elim (Option-cases (find_last_if p s)) [
    | inl e ↦ (0, ground arith, ground arith)
    | inr (m, e) ↦ (suc m, ground arith, ground arith)
  ]
  find_last_if-drop (c ∷ s) (suc i) h =
      let rest = find_last_if-drop s i (ground arith) in
      let step : suc i + rest.0 ≡ suc (i + rest.0) = omega arith in
      (rest.0, rw step (ground (arith, rest.1)), rest.2)

  none-Lacks : (t : Bytes) → find_last_if p t ≡ none → Lacks p t
  unfolding find_last_if
  none-Lacks [] e = tt
  none-Lacks (x ∷ t) e = ground (arith, none-Lacks t)

  -- What stands behind the last byte of the class is not in it.
  find_last_if-some :
      (s : Bytes) (m : ℕ)
      → find_last_if p s ≡ some m
      → (d : ℕ) × (p d ≡ true) × (take (suc m) s ≡ take m s ++ d ∷ []) × Lacks p (drop (suc m) s)
  unfolding find_last_if
  find_last_if-some [] m h = cc
  find_last_if-some (c ∷ s) zero h = (c, ground arith, refl, none-Lacks s (ground arith))
  find_last_if-some (c ∷ s) (suc m) h =
      let rest = find_last_if-some s m (ground arith) in
      (rest.0, rest.1, ap (λ t. c ∷ t) rest.2, rest.3)

-- Empty, or with a byte at each end that is no white space.
abbrev pub IsTight : Bytes → Type 0
IsTight t =
    (t ≡ [])
    ⊎ ((c d : ℕ) × (a b : Bytes) × (t ≡ c ∷ a)
        × (t ≡ b ++ d ∷ [])
        × (is_space c ≡ false)
        × (is_space d ≡ false))

abbrev pub AllSpace : Bytes → Type 0
AllSpace = Lacks not_space

take-one : (n : ℕ) (c : ℕ) (r u : Bytes) → u ≡ c ∷ r → take (suc n) u ≡ c ∷ take n r
take-one n c r u e = rw e refl

not_space-false : (c : ℕ) → not_space c ≡ true → is_space c ≡ false
not_space-false c h = ground arith

trim-none : (s : Bytes) → find_if not_space s ≡ none → trim s ≡ []
unfolding trim
trim-none s e = ground arith

trim-some :
    (s : Bytes) (i m : ℕ)
    → find_if not_space s ≡ some i
    → find_last_if not_space s ≡ some (i + m)
    → trim s ≡ take (suc m) (drop i s)
unfolding trim
trim-some s i m e last =
    let size : i + m - i + 1 ≡ suc m = omega arith in rw (trim, e, last, size) (ground arith)

-- `trim` cuts off white space at both ends, and nothing else: the input is white space, the result
-- and white space, and the result is empty or has other bytes at both ends.
pub trim_lem :
    (s : Bytes)
    → (pre post : Bytes) × (s ≡ pre ++ (trim s ++ post))
      × AllSpace pre
      × AllSpace post
      × IsTight (trim s)
trim_lem s = elim (Option-cases (find_if not_space s)) [
  | inl e ↦
      let is_empty_trim : trim s ≡ [] = trim-none s e in
      (
        s,
        [],
        rw (is_empty_trim) (sym (append-nil s)),
        Lacks-find_if not_space s e,
        tt,
        inl is_empty_trim,
      )
  | inr (i, e) ↦
      let (m, last, last_drop) = find_last_if-drop not_space s i e in
      let u = drop i s in
      let (d, d_ok, split_d, post_ok) = find_last_if-some not_space u m last_drop in
      let (pre_ok, first) = find_if-some not_space s i e in
      let result : trim s ≡ take (suc m) u = trim-some s i m e last in
      (
        take i s,
        drop (suc m) u,
        rw (result, take-append-drop (suc m) u) (sym (take-append-drop i s)),
        pre_ok,
        post_ok,
        rw result (
            inr (
              first.0,
              d,
              take m (drop (suc i) s),
              take m u,
              take-one m first.0 _ u first.2,
              split_d,
              not_space-false _ first.1,
              not_space-false d d_ok,
            )),
      )
]
