-- ===== src/Beam/Top.antt =====
-- `storeTopCandidates` of Utils.h in src/libraries/decoder keeps the best of the candidates.
use mathlib.Core.List.{Permᴰ}
use wav2letter.Base.{
  ℕ, zero, suc, ◌≤◌, ◌≡◌, refl, sym, ap, subst, ◌∙◌, inl, inr, Bool, true, false, List, [], ◌∷◌,
  ◌++◌, length, take, drop, take-append-drop, min, ltb, Bool-cases, All, arith,
}
use wav2letter.Beam.{Scores, States, store_top_candidates}

module _ {ℓ} {A : Type ℓ} where
  length-Permᴰ : {xs ys : List A} → Permᴰ xs ys → length xs ≡ length ys
  length-Permᴰ Permᴰ.nil = refl
  length-Permᴰ (Permᴰ.cons e p) = ap suc (length-Permᴰ p)
  length-Permᴰ (Permᴰ.swap e e') = refl
  length-Permᴰ (Permᴰ.trans p q) = length-Permᴰ p ∙ length-Permᴰ q

  length-take : (n : ℕ) (xs : List A) → n ≤ length xs → length (take n xs) ≡ n
  length-take zero xs h = refl
  length-take (suc n) [] h = absurd (omega arith)
  length-take (suc n) (x ∷ xs) h = ap suc (length-take n xs (omega arith))

  drop-length : (xs : List A) → drop (length xs) xs ≡ []
  drop-length [] = refl
  drop-length (x ∷ xs) = drop-length xs

  pub Permᴰ-same : (xs : List A) → Permᴰ xs xs
  Permᴰ-same [] = Permᴰ.nil
  Permᴰ-same (x ∷ xs) = Permᴰ.cons refl (Permᴰ-same xs)

module _ {ℓ κ} {S : Type ℓ} {St : Type κ} (f : Scores S) (states : States S St) where
  -- No candidate of the second list has a greater score than one of the first list.
  abbrev pub AreAbove : List St → List St → Type 0
  AreAbove xs ys = All (λ x. All (λ y. f.ge (states.score x) (states.score y) ≡ true) ys) xs

  abbrev pub AreDescending : List St → Type 0
  AreDescending [] = Unit
  AreDescending (x ∷ xs) =
      All (λ y. f.ge (states.score x) (states.score y) ≡ true) xs × AreDescending xs

  -- What `std::nth_element` and `std::partial_sort` promise with the comparison of
  -- `storeTopCandidates`.
  pub record AreSelections (nth_element partial_sort : ℕ → List St → List St) : Type κ where
    pub nth_perm : (n : ℕ) (xs : List St) → n ≤ length xs → Permᴰ (nth_element n xs) xs
    pub nth_above :
        (n : ℕ) (xs : List St)
        → n ≤ length xs
        → AreAbove (take n (nth_element n xs)) (drop n (nth_element n xs))
    pub partial_perm : (n : ℕ) (xs : List St) → n ≤ length xs → Permᴰ (partial_sort n xs) xs
    pub partial_above :
        (n : ℕ) (xs : List St)
        → n ≤ length xs
        → AreAbove (take n (partial_sort n xs)) (drop n (partial_sort n xs))
    pub partial_sorted :
        (n : ℕ) (xs : List St) → n ≤ length xs → AreDescending (take n (partial_sort n xs))

  -- The best `n` of the candidates, or all of them if they are fewer, and what is left out.
  pub record AreTop (n : ℕ) (return_sorted : Bool) (candidates stored : List St) : Type κ where
    pub rest : List St
    pub perm : Permᴰ (stored ++ rest) candidates
    pub size : length stored ≡ min (length candidates) n
    pub above : AreAbove stored rest
    pub sorted : return_sorted ≡ true → AreDescending stored

  module _ (nth_element partial_sort : ℕ → List St → List St)
      (selections : AreSelections nth_element partial_sort) where
    front :
        (n m : ℕ) (return_sorted : Bool) (candidates ys : List St)
        → m ≡ min (length candidates) n
        → Permᴰ ys candidates
        → AreAbove (take m ys) (drop m ys)
        → (return_sorted ≡ true → AreDescending (take m ys))
        → AreTop n return_sorted candidates (take m ys)
    front n m return_sorted candidates ys e perm above sorted =
        let size = length-Permᴰ perm in
        record {
          rest = drop m ys;
          perm = subst (λ xs. Permᴰ xs candidates) (sym (take-append-drop m ys)) perm;
          size = length-take m ys (omega arith) ∙ e;
          above = above;
          sorted = sorted;
        }

    above_none : (xs : List St) → AreAbove xs []
    above_none [] = tt
    above_none (x ∷ xs) = (tt, above_none xs)

    pub store_top_candidates-AreTop :
        (n : ℕ) (return_sorted : Bool) (candidates : List St)
        → AreTop n return_sorted candidates
            (store_top_candidates f states nth_element partial_sort n return_sorted candidates)
    unfolding store_top_candidates
    store_top_candidates-AreTop n true candidates =
        let m = min (length candidates) n in
        let le : m ≤ length candidates = omega arith in
        front n m true candidates (partial_sort m candidates) refl
          (selections.partial_perm m candidates le) (selections.partial_above m candidates le)
          (λ e. selections.partial_sorted m candidates le)
    store_top_candidates-AreTop n false candidates =
        let m = min (length candidates) n in
        let le : m ≤ length candidates = omega arith in
        elim (Bool-cases (ltb n (length candidates))) [
          | inl e ↦ rw e (
              front n m false candidates (nth_element m candidates) refl
                (selections.nth_perm m candidates le) (selections.nth_above m candidates le)
                (λ bad. absurd (cc)))
          | inr e ↦
              let all : m ≡ length candidates = ground arith in
              rw e (
                front n m false candidates candidates refl (Permᴰ-same candidates)
                  (subst (AreAbove (take m candidates))
                    (sym (ap (λ k. drop k candidates) all ∙ drop-length candidates))
                    (above_none (take m candidates)))
                  (λ bad. absurd (cc)))
        ]
