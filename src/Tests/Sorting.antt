-- ===== src/Tests/Sorting.antt =====
-- A sort for the runs of the theorems: by insertion, with any test for what comes before what.
use mathlib.Core.List.{Permᴰ}
use wav2letter.Base.{
  ℕ, zero, suc, ◌≡◌, refl, Bool, true, false, List, [], ◌∷◌, take, drop, if◌then◌else◌, inl, inr,
  All, All-map, Bool-cases,
}
use wav2letter.Beam.Top.{Permᴰ-same}
use wav2letter.Beam.Kept.{take-All}

module _ {A : Type 0} (before : A → A → Bool) where
  abbrev insert_by : A → List A → List A
  insert_by x [] = x ∷ []
  insert_by x (y ∷ ys) = let rest = insert_by x ys in if before x y then x ∷ y ∷ ys else y ∷ rest

  abbrev pub sort_by : List A → List A
  sort_by [] = []
  sort_by (x ∷ xs) = insert_by x (sort_by xs)

  abbrev pub AreInOrder : List A → Type 0
  AreInOrder [] = Unit
  AreInOrder (x ∷ xs) = All (λ y. before x y ≡ true) xs × AreInOrder xs

  insert_by-perm : (x : A) (ys : List A) → Permᴰ (insert_by x ys) (x ∷ ys)
  insert_by-perm x [] = Permᴰ-same (x ∷ [])
  insert_by-perm x (y ∷ ys) = elim (Bool-cases (before x y)) [
    | inl e ↦ rw e (Permᴰ-same (x ∷ y ∷ ys))
    | inr e ↦ rw e (Permᴰ.trans (Permᴰ.cons refl (insert_by-perm x ys)) (Permᴰ.swap refl refl))
  ]

  pub sort_by-perm : (xs : List A) → Permᴰ (sort_by xs) xs
  sort_by-perm [] = Permᴰ.nil
  sort_by-perm (x ∷ xs) =
      Permᴰ.trans (insert_by-perm x (sort_by xs)) (Permᴰ.cons refl (sort_by-perm xs))

  insert_by-All {κ} :
      (P : A → Type κ) (x : A) (ys : List A) → P x → All P ys → All P (insert_by x ys)
  insert_by-All P x [] p all = (p, tt)
  insert_by-All P x (y ∷ ys) p all = elim (Bool-cases (before x y)) [
    | inl e ↦ rw e (p, all)
    | inr e ↦ rw e (all.0, insert_by-All P x ys p all.1)
  ]

  pub take-AreInOrder : (n : ℕ) (xs : List A) → AreInOrder xs → AreInOrder (take n xs)
  take-AreInOrder zero xs h = tt
  take-AreInOrder (suc n) [] h = tt
  take-AreInOrder (suc n) (x ∷ xs) h =
      (take-All (λ y. before x y ≡ true) n xs h.0, take-AreInOrder n xs h.1)

  drop-All {κ} : (P : A → Type κ) (n : ℕ) (xs : List A) → All P xs → All P (drop n xs)
  drop-All P zero xs h = h
  drop-All P (suc n) [] h = tt
  drop-All P (suc n) (x ∷ xs) h = drop-All P n xs h.1

  pub take_before_drop :
      (n : ℕ) (xs : List A)
      → AreInOrder xs
      → All (λ x. All (λ y. before x y ≡ true) (drop n xs)) (take n xs)
  take_before_drop zero xs h = tt
  take_before_drop (suc n) [] h = tt
  take_before_drop (suc n) (x ∷ xs) h =
      (drop-All (λ y. before x y ≡ true) n xs h.0, take_before_drop n xs h.1)

  module _ (total : (x y : A) → before x y ≡ false → before y x ≡ true)
      (trans : (x y z : A) → before x y ≡ true → before y z ≡ true → before x z ≡ true) where
    insert_by-AreInOrder : (x : A) (ys : List A) → AreInOrder ys → AreInOrder (insert_by x ys)
    insert_by-AreInOrder x [] h = (tt, tt)
    insert_by-AreInOrder x (y ∷ ys) h = elim (Bool-cases (before x y)) [
      | inl e ↦ rw e ((e, All-map ys (λ z k. trans x y z e k) h.0), h)
      | inr e ↦ rw e (
        insert_by-All (λ z. before y z ≡ true) x ys (total x y e) h.0,
        insert_by-AreInOrder x ys h.1,
      )
    ]

    pub sort_by-AreInOrder : (xs : List A) → AreInOrder (sort_by xs)
    sort_by-AreInOrder [] = tt
    sort_by-AreInOrder (x ∷ xs) = insert_by-AreInOrder x (sort_by xs) (sort_by-AreInOrder xs)
