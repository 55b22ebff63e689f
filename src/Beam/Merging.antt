-- ===== src/Beam/Merging.antt =====
-- Merging: one candidate is left for each hypothesis, with the best score of its group.
use wav2letter.Base.{
  ◌≡◌, refl, sym, subst, ◌∙◌, ◌⊎◌, inl, inr, true, false, List, [], ◌∷◌, Bool-cases, All,
}
use wav2letter.Beam.{Scores, States, merge_states, merge_loop}
use wav2letter.Beam.Pruning.{AreOrdered}

-- Some element has the property.
pub data Some {κ μ} {St : Type κ} (P : St → Type μ) : List St → Type (κ ⊔ μ) where
  here : (x : St) (xs : List St) → P x → Some P (x ∷ xs)
  there : (x : St) (xs : List St) → Some P xs → Some P (x ∷ xs)

module _ {ℓ κ} {S : Type ℓ} {St : Type κ} (f : Scores S) (states : States S St) where
  -- The test for one hypothesis is an equivalence that does not look at the score, and `with_score` sets
  -- the score.
  pub record AreStates : Type (ℓ ⊔ κ) where
    pub same_refl : (a : St) → states.same a a ≡ true
    pub same_sym : (a b : St) → states.same a b ≡ true → states.same b a ≡ true
    pub same_trans :
        (a b c : St) → states.same a b ≡ true → states.same b c ≡ true → states.same a c ≡ true
    pub same_score : (a : St) (s : S) → states.same (states.with_score s a) a ≡ true
    pub score_set : (a : St) (s : S) → states.score (states.with_score s a) ≡ s

  -- Candidates of one hypothesis stand together.
  abbrev pub AreGrouped : List St → Type 0
  AreGrouped [] = Unit
  AreGrouped (x ∷ []) = Unit
  AreGrouped (x ∷ y ∷ xs) =
      ((states.same y x ≡ true) ⊎ All (λ z. states.same z x ≡ false) (y ∷ xs)) × AreGrouped (y ∷ xs)

  abbrev pub AreDistinct : List St → Type 0
  AreDistinct [] = Unit
  AreDistinct (x ∷ xs) = All (λ z. states.same z x ≡ false) xs × AreDistinct xs

  -- A candidate of the same hypothesis that is at least as good.
  abbrev pub Covers : St → St → Type 0
  Covers st m = (states.same m st ≡ true) × (f.ge (states.score m) (states.score st) ≡ true)

  -- A candidate of the same hypothesis with the same score.
  abbrev pub ComesFrom : St → St → Type ℓ
  ComesFrom m st = (states.same m st ≡ true) × (states.score m ≡ states.score st)

  module _ (ordered : AreOrdered f) (laws : AreStates) where
    same-false :
        (a b c : St) → states.same a b ≡ true → states.same b c ≡ false → states.same a c ≡ false
    same-false a b c e ne = elim (Bool-cases (states.same a c)) [
      | inr other ↦ other
      | inl equal ↦ let bad = laws.same_trans b a c (laws.same_sym a b e) equal in absurd (cc)
    ]

    -- The candidate that stands for two of one hypothesis.
    merged-lem :
        (old new : St)
        → states.same new old ≡ true
        → let m = merge_states f states false old new in
          (states.same m old ≡ true)
          × (states.same m new ≡ true)
          × (f.ge (states.score m) (states.score old) ≡ true)
          × (f.ge (states.score m) (states.score new) ≡ true)
          × ((states.score m ≡ states.score old) ⊎ (states.score m ≡ states.score new))
    unfolding merge_states
    merged-lem old new e = elim (Bool-cases (f.ge (states.score old) (states.score new))) [
      | inl greater ↦
          let same_old = laws.same_score old (states.score old) in
          rw (greater, laws.score_set old (states.score old))
            (
              same_old,
              laws.same_trans _ old new same_old (laws.same_sym new old e),
              ordered.ge_refl _,
              greater,
              inl refl,
            )
      | inr less ↦
          let same_old = laws.same_score old (states.score new) in
          rw (less, laws.score_set old (states.score new))
            (
              same_old,
              laws.same_trans _ old new same_old (laws.same_sym new old e),
              ordered.ge_total _ _ less,
              ordered.ge_refl _,
              inr refl,
            )
    ]

    merge_loop-All {μ} :
        (P : St → Type μ)
        → ((a b : St) → states.same a b ≡ true → P b → P a)
        → (last : St) (sts : List St) → P last
        → All P sts
        → All P (merge_loop f states false last sts)
    unfolding merge_loop
    merge_loop-All P respects last [] p all = (p, tt)
    merge_loop-All P respects last (st ∷ sts) p all = elim (Bool-cases (states.same st last)) [
      | inl e ↦
          rw e (merge_loop-All P respects _ sts (respects _ last (merged-lem last st e).0 p) all.1)
      | inr e ↦ rw e (p, merge_loop-All P respects st sts all.0 all.1)
    ]

    AreGrouped-same :
        (a b : St) (xs : List St)
        → states.same a b ≡ true
        → AreGrouped (b ∷ xs)
        → AreGrouped (a ∷ xs)
    AreGrouped-same a b [] e g = tt
    AreGrouped-same a b (y ∷ xs) e g = (
      elim g.0 [
        | inl same ↦ inl (laws.same_trans y b a same (laws.same_sym a b e))
        | inr others ↦ inr (All-map (y ∷ xs) others)
      ],
      g.1,
    )
      where
        All-map :
            (zs : List St)
            → All (λ z. states.same z b ≡ false) zs
            → All (λ z. states.same z a ≡ false) zs
        All-map [] all = tt
        All-map (z ∷ zs) all = (not_same z all.0, All-map zs all.1)
          where
            not_same : (z : St) → states.same z b ≡ false → states.same z a ≡ false
            not_same z ne = elim (Bool-cases (states.same z a)) [
              | inr other ↦ other
              | inl equal ↦ let bad = laws.same_trans z a b equal e in absurd (cc)
            ]

    pub merge_loop-AreDistinct :
        (last : St) (sts : List St)
        → AreGrouped (last ∷ sts)
        → AreDistinct (merge_loop f states false last sts)
    unfolding merge_loop
    merge_loop-AreDistinct last [] g = (tt, tt)
    merge_loop-AreDistinct last (st ∷ sts) g = elim (Bool-cases (states.same st last)) [
      | inl e ↦
          rw e
            (merge_loop-AreDistinct _ sts (AreGrouped-same _ st sts (merged-lem last st e).1 g.1))
      | inr e ↦
          let others : All (λ z. states.same z last ≡ false) (st ∷ sts) = elim g.0 [
            | inl same ↦ absurd (cc)
            | inr all ↦ all
          ] in
          rw e (
            merge_loop-All (λ z. states.same z last ≡ false) (λ a b s ne. same-false a b last s ne)
                st sts others.0 others.1,
            merge_loop-AreDistinct st sts g.1,
          )
    ]

    Covers-trans : (a b c : St) → Covers a b → Covers b c → Covers a c
    Covers-trans a b c ab bc = (laws.same_trans c b a bc.0 ab.0, ordered.ge_trans _ _ _ bc.1 ab.1)

    Some-map {μ} :
        {P Q : St → Type μ} (xs : List St) → ((x : St) → P x → Q x) → Some P xs → Some Q xs
    Some-map _ h (here x xs p) = here x xs (h x p)
    Some-map _ h (there x xs s) = there x xs (Some-map xs h s)

    merge_loop-same :
        (last st : St) (sts : List St)
        → states.same st last ≡ true
        → merge_loop f states false last (st ∷ sts)
          ≡ merge_loop f states false (merge_states f states false last st) sts
    unfolding merge_loop
    merge_loop-same last st sts e = rw e refl

    merge_loop-other :
        (last st : St) (sts : List St)
        → states.same st last ≡ false
        → merge_loop f states false last (st ∷ sts) ≡ last ∷ merge_loop f states false st sts
    unfolding merge_loop
    merge_loop-other last st sts e = rw e refl

    pub All-imp {μ ν} :
        {P : St → Type μ} {Q : St → Type ν} (xs : List St)
        → ((x : St) → P x → Q x)
        → All P xs
        → All Q xs
    All-imp [] h all = tt
    All-imp (x ∷ xs) h all = (h x all.0, All-imp xs h all.1)

    -- Each candidate is covered by one that is left.
    pub merge_loop-Covers :
        (last : St) (sts : List St)
        → All (λ st. Some (Covers st) (merge_loop f states false last sts)) (last ∷ sts)
    merge_loop-Covers last [] =
        unfold merge_loop in (here last [] (laws.same_refl last, ordered.ge_refl _), tt)
    merge_loop-Covers last (st ∷ sts) = elim (Bool-cases (states.same st last)) [
      | inl e ↦
          let m = merge_states f states false last st in
          let merged = merged-lem last st e in
          let rest = merge_loop-Covers m sts in
          subst (λ ms. All (λ x. Some (Covers x) ms) (last ∷ st ∷ sts))
            (sym (merge_loop-same last st sts e))
            (
              Some-map _ (λ x. Covers-trans last m x (merged.0, merged.2)) rest.0,
              (Some-map _ (λ x. Covers-trans st m x (merged.1, merged.3)) rest.0, rest.1),
            )
      | inr e ↦
          let rest = merge_loop-Covers st sts in
          subst (λ ms. All (λ x. Some (Covers x) ms) (last ∷ st ∷ sts))
            (sym (merge_loop-other last st sts e))
            (
              here last _ (laws.same_refl last, ordered.ge_refl _),
              All-imp (st ∷ sts) (λ x s. there last _ s) rest,
            )
    ]

    -- Each one that is left has the score of a candidate.
    pub merge_loop-ComesFrom :
        (last : St) (sts : List St)
        → All (λ m. Some (ComesFrom m) (last ∷ sts)) (merge_loop f states false last sts)
    merge_loop-ComesFrom last [] =
        unfold merge_loop in (here last [] (laws.same_refl last, refl), tt)
    merge_loop-ComesFrom last (st ∷ sts) = elim (Bool-cases (states.same st last)) [
      | inl e ↦
          subst (All (λ m. Some (ComesFrom m) (last ∷ st ∷ sts)))
            (sym (merge_loop-same last st sts e))
            (All-imp _ (from_merged last st sts (merged-lem last st e))
              (merge_loop-ComesFrom (merge_states f states false last st) sts))
      | inr e ↦
          subst (All (λ m. Some (ComesFrom m) (last ∷ st ∷ sts)))
            (sym (merge_loop-other last st sts e))
            (
              here last _ (laws.same_refl last, refl),
              All-imp _ (λ x s. there last _ s) (merge_loop-ComesFrom st sts),
            )
    ]
      where
        from_merged :
            (last st : St) (sts : List St)
            → let m = merge_states f states false last st in
              (states.same m last ≡ true)
                × (states.same m st ≡ true)
                × (f.ge (states.score m) (states.score last) ≡ true)
                × (f.ge (states.score m) (states.score st) ≡ true)
                × ((states.score m ≡ states.score last) ⊎ (states.score m ≡ states.score st))
              → (x : St) → Some (ComesFrom x) (m ∷ sts)
              → Some (ComesFrom x) (last ∷ st ∷ sts)
        from_merged last st sts merged x (here _ _ p) = elim merged.4 [
          | inl old ↦ here last _ (laws.same_trans x _ last p.0 merged.0, p.1 ∙ old)
          | inr new ↦ there last _ (here st _ (laws.same_trans x _ st p.0 merged.1, p.1 ∙ new))
        ]
        from_merged last st sts merged x (there _ _ s) = there last _ (there st _ s)
