-- ===== src/Beam/Stored.antt =====
-- What `candidatesStore` makes of the proposals of a frame.
use mathlib.Core.List.{Permᴰ}
use wav2letter.Base.{
  ℕ, ◌≡◌, refl, ap, subst, ◌∙◌, Bool, true, false, List, [], ◌∷◌, keep_if, All, ok,
}
use wav2letter.Beam.{
  Scores, States, merge_candidates, store_top_candidates, prune_candidates, candidates_store,
  merge_loop,
}
use wav2letter.Beam.Pruning.{
  AreOrdered, has_none, prune_candidates-add_proposals, after-nonempty, all_added,
}
use wav2letter.Beam.Top.{AreSelections, AreTop, store_top_candidates-AreTop}
use wav2letter.Beam.Merging.{
  AreStates, AreGrouped, AreDistinct, Some, here, there, Covers, ComesFrom, All-imp,
  merge_loop-AreDistinct, merge_loop-Covers, merge_loop-ComesFrom,
}

module _ {ℓ} {A : Type ℓ} where
  pub All-Permᴰ {μ} : (P : A → Type μ) {xs ys : List A} → Permᴰ xs ys → All P xs → All P ys
  All-Permᴰ P Permᴰ.nil all = tt
  All-Permᴰ P (Permᴰ.cons e p) all = (subst P e all.0, All-Permᴰ P p all.1)
  All-Permᴰ P (Permᴰ.swap e e') all = (subst P e' all.1.0, (subst P e all.0, all.1.1))
  All-Permᴰ P (Permᴰ.trans p q) all = All-Permᴰ P q (All-Permᴰ P p all)

  Some-Permᴰ {μ} : (P : A → Type μ) {xs ys : List A} → Permᴰ xs ys → Some P xs → Some P ys
  Some-Permᴰ P (Permᴰ.cons e p) (here _ _ h) = here _ _ (subst P e h)
  Some-Permᴰ P (Permᴰ.cons e p) (there _ _ s) = there _ _ (Some-Permᴰ P p s)
  Some-Permᴰ P (Permᴰ.swap e e') (here _ _ h) = there _ _ (here _ _ (subst P e h))
  Some-Permᴰ P (Permᴰ.swap e e') (there _ _ (here _ _ h)) = here _ _ (subst P e' h)
  Some-Permᴰ P (Permᴰ.swap e e') (there _ _ (there _ _ s)) = there _ _ (there _ _ s)
  Some-Permᴰ P (Permᴰ.trans p q) s = Some-Permᴰ P q (Some-Permᴰ P p s)
  Some-Permᴰ P Permᴰ.nil s = s

  pub Permᴰ-has_none : {xs ys : List A} → Permᴰ xs ys → has_none xs ≡ has_none ys
  Permᴰ-has_none Permᴰ.nil = refl
  Permᴰ-has_none (Permᴰ.cons e p) = refl
  Permᴰ-has_none (Permᴰ.swap e e') = refl
  Permᴰ-has_none (Permᴰ.trans p q) = Permᴰ-has_none p ∙ Permᴰ-has_none q

  pub some_element :
      (xs : List A) → has_none xs ≡ false → (x : A) × (rest : List A) × (xs ≡ x ∷ rest)
  some_element [] e = cc
  some_element (x ∷ rest) e = (x, rest, refl)

module _ {ℓ κ} {S : Type ℓ} {St : Type κ} (f : Scores S) (states : States S St) where
  -- What `std::sort` with the comparison of `mergeCandidates` promises.
  pub record IsSort (sort : List St → List St) : Type (ℓ ⊔ κ) where
    pub grouped : (xs : List St) → AreGrouped f states (sort xs)
    pub perm : (xs : List St) → Permᴰ (sort xs) xs

  -- One of each hypothesis, with the best score that a candidate for it has.
  pub record IsMerged (candidates merged : List St) : Type (ℓ ⊔ κ) where
    pub distinct : AreDistinct f states merged
    pub covers : All (λ st. Some (Covers f states st) merged) candidates
    pub comes_from : All (λ m. Some (ComesFrom f states m) candidates) merged

  module _ (ordered : AreOrdered f) (laws : AreStates f states) where
    merge_candidates-cons :
        (sort : List St → List St) (candidates : List St) (st : St) (sts : List St)
        → sort candidates ≡ st ∷ sts
        → merge_candidates f states sort false candidates ≡ ok (merge_loop f states false st sts)
    unfolding merge_candidates
    merge_candidates-cons sort candidates st sts e = rw (e, merge_candidates) refl

    merge_candidates_lem :
        (sort : List St → List St) (candidates : List St)
        → IsSort sort
        → has_none candidates ≡ false
        → (merged : List St) × (merge_candidates f states sort false candidates ≡ ok merged)
          × IsMerged candidates merged
    merge_candidates_lem sort candidates is_sort some_candidate =
        let perm = is_sort.perm candidates in
        let (st, sts, e) = some_element (sort candidates) (Permᴰ-has_none perm ∙ some_candidate) in
        let back = subst (λ xs. Permᴰ xs candidates) e perm in
        (
          merge_loop f states false st sts,
          merge_candidates-cons sort candidates st sts e,
          record {
            distinct =
                merge_loop-AreDistinct f states ordered laws st sts
                  (subst (AreGrouped f states) e (is_sort.grouped candidates));
            covers = All-Permᴰ _ back (merge_loop-Covers f states ordered laws st sts);
            comes_from =
                All-imp f states ordered laws _ (λ m. Some-Permᴰ (ComesFrom f states m) back)
                  (merge_loop-ComesFrom f states ordered laws st sts);
          },
        )

    candidates_store-pruned :
        (sort : List St → List St) (nth_element partial_sort : ℕ → List St → List St) (t : S)
        (beam_size : ℕ) (return_sorted : Bool) (best : S) (candidates merged : List St)
        → let pruned = prune_candidates f states candidates (f.minus best t) in
          has_none pruned ≡ false
          → merge_candidates f states sort false pruned ≡ ok merged
          → candidates_store f states sort nth_element partial_sort false t beam_size return_sorted
              (record { best_score = best; candidates = candidates })
            ≡ ok (
                store_top_candidates f states nth_element partial_sort beam_size return_sorted
                  merged)
    unfolding candidates_store prune_candidates
    candidates_store-pruned sort nth_element partial_sort t beam_size return_sorted best [] merged
          some_kept e =
        absurd (cc)
    candidates_store-pruned sort nth_element partial_sort t beam_size return_sorted best (x ∷ xs)
          merged some_kept e =
        rw e refl

    prune_candidates-exact :
        (xs : List St) (threshold : S)
        → f.narrow threshold ≡ threshold
        → prune_candidates f states xs threshold
          ≡ keep_if (λ st. f.ge (states.score st) threshold) xs
    unfolding prune_candidates
    prune_candidates-exact xs threshold exact =
        ap (λ b. keep_if (λ st. f.ge (states.score st) b) xs) exact

    -- After the calls of `candidatesAdd` for the proposals of a frame, of which there is at least
    -- one, `candidatesStore` without log-addition makes no null pointer and stores the top of a
    -- list that has exactly one candidate for each hypothesis among the proposals within the
    -- threshold of the best score, with the best score of that hypothesis: as many as the beam is
    -- wide, or all if they are fewer, none of which has a smaller score than one that is left out,
    -- and in falling order where that was asked for. Conditions: comparison and subtraction behave
    -- as on floats that are no NaN, the threshold is not negative, the conversion to `float` of the
    -- best score less the threshold changes nothing, the sort is a permutation that puts candidates
    -- of one hypothesis together, and `std::nth_element` and `std::partial_sort` bring the best to
    -- the front.
    pub candidates_store_lem :
        (sort : List St → List St) (nth_element partial_sort : ℕ → List St → List St) (t : S)
        (beam_size : ℕ) (return_sorted : Bool) (st : St) (sts : List St)
        → let c = all_added f states ordered t (st ∷ sts) in
          let threshold = f.minus c.best_score t in
          IsSort sort
          → AreSelections f states nth_element partial_sort
          → ((a : S) → f.ge a (f.minus a t) ≡ true)
          → f.narrow threshold ≡ threshold
          → (merged stored : List St) × (candidates_store f states sort nth_element partial_sort
                false t beam_size return_sorted c
              ≡ ok stored)
            × IsMerged (prune_candidates f states (st ∷ sts) threshold) merged
            × AreTop f states beam_size return_sorted merged stored
    candidates_store_lem sort nth_element partial_sort t beam_size return_sorted st sts is_sort
          selections wide exact =
        let c = all_added f states ordered t (st ∷ sts) in
        let threshold = f.minus c.best_score t in
        let same = (prune_candidates-add_proposals f states ordered t (st ∷ sts) exact).0 in
        let kept : has_none (prune_candidates f states (st ∷ sts) threshold) ≡ false =
          ap has_none (prune_candidates-exact (st ∷ sts) threshold exact)
          ∙ after-nonempty f states ordered t st sts wide in
        let (merged, done, is_merged) =
          merge_candidates_lem sort (prune_candidates f states (st ∷ sts) threshold) is_sort kept in
        (
          merged,
          store_top_candidates f states nth_element partial_sort beam_size return_sorted merged,
          candidates_store-pruned sort nth_element partial_sort t beam_size return_sorted
              c.best_score c.candidates merged (ap has_none same ∙ kept)
              (ap (merge_candidates f states sort false) same ∙ done),
          is_merged,
          store_top_candidates-AreTop f states nth_element partial_sort selections beam_size
              return_sorted merged,
        )
