-- ===== src/Beam/Pruning.antt =====
-- Pruning while candidates are proposed loses nothing that pruning at the end would keep.
use wav2letter.Base.{
  ◌≡◌, refl, ap, sym, subst, ◌∙◌, ◌⊎◌, inl, inr, Bool, true, false, List, [], ◌∷◌, ◌++◌,
  append_assoc, append-nil, keep_if, keep_if-true, keep_if-false, if◌then◌else◌, Bool-cases, All,
}
use wav2letter.Beam.{
  Scores, States, is_valid_candidate, Candidates, candidates_reset, candidates_add, add_proposals,
  prune_candidates,
}

module _ {ℓ} {A : Type ℓ} where
  abbrev pub has_none : List A → Bool
  has_none [] = true
  has_none (x ∷ xs) = false

  keep_if-append :
      (p : A → Bool) (xs ys : List A) → keep_if p (xs ++ ys) ≡ keep_if p xs ++ keep_if p ys
  keep_if-append p [] ys = refl
  keep_if-append p (x ∷ xs) ys = elim (Bool-cases (p x)) [
    | inl e ↦
        rw (keep_if-true p x (xs ++ ys) e, keep_if-true p x xs e)
          (ap (λ zs. x ∷ zs) (keep_if-append p xs ys))
    | inr e ↦ rw (keep_if-false p x (xs ++ ys) e, keep_if-false p x xs e) (keep_if-append p xs ys)
  ]

-- The comparison and the subtraction behave as on floats that are no NaN.
pub record AreOrdered {ℓ} {S : Type ℓ} (f : Scores S) : Type ℓ where
  pub ge_refl : (a : S) → f.ge a a ≡ true
  pub ge_trans : (a b c : S) → f.ge a b ≡ true → f.ge b c ≡ true → f.ge a c ≡ true
  pub ge_total : (a b : S) → f.ge a b ≡ false → f.ge b a ≡ true
  pub minus_mono : (a b t : S) → f.ge a b ≡ true → f.ge (f.minus a t) (f.minus b t) ≡ true
  pub ge_lowest : (a : S) → f.ge a f.lowest ≡ true

module _ {ℓ κ} {S : Type ℓ} {St : Type κ} (f : Scores S) (states : States S St)
    (ordered : AreOrdered f) where
  -- `candidatesBestScore_` after a call, and whether the candidate is kept.
  abbrev next_best : S → St → S
  next_best best st = if f.ge (states.score st) best then states.score st else best

  next_best-ge :
      (best : S) (st : St)
      → (f.ge (next_best best st) best ≡ true)
        × (f.ge (next_best best st) (states.score st) ≡ true)
        × ((next_best best st ≡ best) ⊎ (next_best best st ≡ states.score st))
  next_best-ge best st = elim (Bool-cases (f.ge (states.score st) best)) [
    | inl e ↦ rw e (e, ordered.ge_refl _, inr refl)
    | inr e ↦ rw e (ordered.ge_refl _, ordered.ge_total _ _ e, inl refl)
  ]

  abbrev after : S → List St → Candidates f states → Candidates f states
  after t sts c = add_proposals f states t sts c

  add_best :
      (t : S) (st : St) (c : Candidates f states)
      → (candidates_add f states t st c).best_score ≡ next_best c.best_score st
  unfolding candidates_add is_valid_candidate
  add_best t st c = refl

  after-ge :
      (t : S) (sts : List St) (c : Candidates f states)
      → f.ge (after t sts c).best_score c.best_score ≡ true
  unfolding add_proposals candidates_add is_valid_candidate
  after-ge t [] c = ordered.ge_refl _
  after-ge t (st ∷ sts) c =
      ordered.ge_trans _ (next_best c.best_score st) _
        (after-ge t sts (candidates_add f states t st c)) (next_best-ge c.best_score st).0

  -- The best score is the greatest of all that were proposed.
  after-best :
      (t : S) (sts : List St) (c : Candidates f states)
      → All (λ st. f.ge (after t sts c).best_score (states.score st) ≡ true) sts
  unfolding add_proposals candidates_add is_valid_candidate
  after-best t [] c = tt
  after-best t (st ∷ sts) c = (
    ordered.ge_trans _ (next_best c.best_score st) _
        (after-ge t sts (candidates_add f states t st c)) (next_best-ge c.best_score st).1,
    after-best t sts (candidates_add f states t st c),
  )

  abbrev reaches : S → St → Bool
  reaches threshold st = f.ge (states.score st) threshold

  add-keep_if :
      (t best : S) (st : St) (c : Candidates f states)
      → f.ge best (next_best c.best_score st) ≡ true
      → keep_if (reaches (f.minus best t)) (candidates_add f states t st c).candidates
        ≡ keep_if (reaches (f.minus best t)) c.candidates
          ++ keep_if (reaches (f.minus best t)) (st ∷ [])
  unfolding candidates_add is_valid_candidate
  add-keep_if t best st c h =
      elim (Bool-cases (f.ge (states.score st) (f.minus (next_best c.best_score st) t))) [
        | inl e ↦ rw e (keep_if-append (reaches (f.minus best t)) c.candidates (st ∷ []))
        | inr e ↦
            rw (e, keep_if-false (reaches (f.minus best t)) st [] (below e)) (sym (append-nil _))
      ]
    where
      below :
          f.ge (states.score st) (f.minus (next_best c.best_score st) t) ≡ false
          → reaches (f.minus best t) st ≡ false
      below e = elim (Bool-cases (reaches (f.minus best t) st)) [
        | inr short ↦ short
        | inl reached ↦
            let bad = ordered.ge_trans _ _ _ reached (ordered.minus_mono _ _ t h) in absurd (cc)
      ]

  after-keep_if :
      (t : S) (sts : List St) (c : Candidates f states)
      → let threshold = f.minus (after t sts c).best_score t in
        keep_if (reaches threshold) (after t sts c).candidates
        ≡ keep_if (reaches threshold) c.candidates ++ keep_if (reaches threshold) sts
  unfolding add_proposals
  after-keep_if t [] c = sym (append-nil _)
  after-keep_if t (st ∷ sts) c =
      let c' = candidates_add f states t st c in
      let best = (after t sts c').best_score in
      let p = reaches (f.minus best t) in
      after-keep_if t sts c'
      ∙ ap (λ xs. xs ++ keep_if p sts)
          (add-keep_if t best st c
            (subst (λ b. f.ge best b ≡ true) (add_best t st c) (after-ge t sts c')))
      ∙ append_assoc (keep_if p c.candidates) (keep_if p (st ∷ [])) (keep_if p sts)
      ∙ ap (λ xs. keep_if p c.candidates ++ xs) (sym (keep_if-append p (st ∷ []) sts))

  -- The best score is that of before, or that of a proposal, which is kept at the end.
  after-attained :
      (t : S) (sts : List St) (c : Candidates f states)
      → ((a : S) → f.ge a (f.minus a t) ≡ true)
      → let best = (after t sts c).best_score in
        (best ≡ c.best_score) ⊎ (has_none (keep_if (reaches (f.minus best t)) sts) ≡ false)
  unfolding add_proposals
  after-attained t [] c wide = inl refl
  after-attained t (st ∷ sts) c wide =
      let c' = candidates_add f states t st c in
      let best = (after t sts c').best_score in
      let p = reaches (f.minus best t) in
      elim (after-attained t sts c' wide) [
        | inr kept ↦ inr (elim (Bool-cases (p st)) [
          | inl e ↦ rw (keep_if-true p st sts e) refl
          | inr e ↦ rw (keep_if-false p st sts e) kept
        ])
        | inl same ↦ elim (next_best-ge c.best_score st).2 [
          | inl old ↦ inl (same ∙ add_best t st c ∙ old)
          | inr new ↦
              let here : p st ≡ true =
                subst (λ b. f.ge b (f.minus best t) ≡ true) (same ∙ add_best t st c ∙ new)
                  (wide best) in
              inr (rw (keep_if-true p st sts here) refl)
        ]
      ]

  pub after-nonempty :
      (t : S) (st : St) (sts : List St)
      → ((a : S) → f.ge a (f.minus a t) ≡ true)
      → let best = (after t (st ∷ sts) (candidates_reset f states)).best_score in
        has_none (keep_if (reaches (f.minus best t)) (st ∷ sts)) ≡ false
  unfolding candidates_reset
  after-nonempty t st sts wide =
      let best = (after t (st ∷ sts) (candidates_reset f states)).best_score in
      let p = reaches (f.minus best t) in
      elim (after-attained t (st ∷ sts) (candidates_reset f states) wide) [
        | inr kept ↦ kept
        | inl lowest ↦
            let above : f.ge (states.score st) best ≡ true =
              subst (λ b. f.ge (states.score st) b ≡ true) (sym lowest)
                (ordered.ge_lowest (states.score st)) in
            rw (keep_if-true p st sts (ordered.ge_trans _ best _ above (wide best))) refl
      ]

  abbrev pub all_added : S → List St → Candidates f states
  all_added t sts = add_proposals f states t sts (candidates_reset f states)

  -- Dropping candidates against the best score so far while they are proposed loses nothing: what
  -- is left after `pruneCandidates` at the end are the proposals within the threshold of the best
  -- score of all, in their order, and that best score is at least each proposed score. Conditions:
  -- comparison and subtraction behave as on floats that are no NaN, and the conversion of the
  -- threshold to `float` changes nothing.
  pub prune_candidates-add_proposals :
      (t : S) (sts : List St)
      → let threshold = f.minus (all_added t sts).best_score t in
        f.narrow threshold ≡ threshold
        → (prune_candidates f states (all_added t sts).candidates threshold
            ≡ prune_candidates f states sts threshold)
          × All (λ st. f.ge (all_added t sts).best_score (states.score st) ≡ true) sts
  unfolding prune_candidates candidates_reset
  prune_candidates-add_proposals t sts exact = (
    rw exact (after-keep_if t sts (candidates_reset f states)),
    after-best t sts (candidates_reset f states),
  )
