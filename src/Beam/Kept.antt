-- ===== src/Beam/Kept.antt =====
-- Storing the candidates of a frame never faults, and what every proposal has, each stored
-- hypothesis has, with log-addition or without.
use mathlib.Core.List.{Permᴰ}
use wav2letter.Base.{
  ℕ, zero, suc, ◌≡◌, refl, sym, ap, subst, ◌∙◌, ◌⊎◌, inl, inr, Bool, true, false, not, ◌&&◌, List,
  [], ◌∷◌, ◌++◌, length, min, take, keep_if, ltb, All, All-append, Bool-cases, ok,
}
use wav2letter.Beam.{
  Scores, States, is_valid_candidate, Candidates, candidates_reset, candidates_add, add_proposals,
  prune_candidates, merge_states, merge_loop, merge_candidates, store_top_candidates,
  candidates_store,
}
use wav2letter.Beam.Pruning.{has_none}
use wav2letter.Beam.Merging.{Some, here, there}
use wav2letter.Beam.Stored.{All-Permᴰ, Permᴰ-has_none, some_element}

module _ {ℓ} {A : Type ℓ} where
  pub take-All {κ} : (P : A → Type κ) (n : ℕ) (xs : List A) → All P xs → All P (take n xs)
  take-All P zero xs all = tt
  take-All P (suc n) [] all = tt
  take-All P (suc n) (x ∷ xs) all = (all.0, take-All P n xs all.1)

  keep_if-All {κ} : (P : A → Type κ) (p : A → Bool) (xs : List A) → All P xs → All P (keep_if p xs)
  keep_if-All P p [] all = tt
  keep_if-All P p (x ∷ xs) all = elim (Bool-cases (p x)) [
    | inl e ↦ rw (e, keep_if) (all.0, keep_if-All P p xs all.1)
    | inr e ↦ rw (e, keep_if) (keep_if-All P p xs all.1)
  ]

  keep_if-has_none :
      (p : A → Bool) (xs : List A) → Some (λ x. p x ≡ true) xs → has_none (keep_if p xs) ≡ false
  keep_if-has_none p [] s = elim s [ ]
  keep_if-has_none p (x ∷ xs) (here _ _ e) = rw (e, keep_if) refl
  keep_if-has_none p (x ∷ xs) (there _ _ s) = elim (Bool-cases (p x)) [
    | inl e ↦ rw (e, keep_if) refl
    | inr e ↦ rw (e, keep_if) (keep_if-has_none p xs s)
  ]

  Some-imp {κ μ} :
      {P : A → Type κ} {Q : A → Type μ} (xs : List A)
      → ((x : A) → P x → Q x)
      → Some P xs
      → Some Q xs
  Some-imp _ h (here x xs p) = here x xs (h x p)
  Some-imp _ h (there x xs s) = there x xs (Some-imp xs h s)

  Some-append {κ} : (P : A → Type κ) (xs ys : List A) → Some P xs → Some P (xs ++ ys)
  Some-append P _ ys (here x xs p) = here x (xs ++ ys) p
  Some-append P _ ys (there x xs s) = there x (xs ++ ys) (Some-append P xs ys s)

  Some-last {κ} : (P : A → Type κ) (xs : List A) (y : A) → P y → Some P (xs ++ y ∷ [])
  Some-last P [] y p = here y [] p
  Some-last P (x ∷ xs) y p = there x (xs ++ y ∷ []) (Some-last P xs y p)

  pub Permᴰ-sym : {xs ys : List A} → Permᴰ xs ys → Permᴰ ys xs
  Permᴰ-sym Permᴰ.nil = Permᴰ.nil
  Permᴰ-sym (Permᴰ.cons e p) = Permᴰ.cons (sym e) (Permᴰ-sym p)
  Permᴰ-sym (Permᴰ.swap e e') = Permᴰ.swap (sym e') (sym e)
  Permᴰ-sym (Permᴰ.trans p q) = Permᴰ.trans (Permᴰ-sym q) (Permᴰ-sym p)

module _ {ℓ κ} {S : Type ℓ} {St : Type κ} (f : Scores S) (states : States S St) where
  -- The best score is reached by a candidate, once there is one.
  abbrev Attained : Candidates f states → Type (ℓ ⊔ κ)
  Attained c =
      ((c.candidates ≡ []) × (c.best_score ≡ f.lowest))
      ⊎ Some (λ st. states.score st ≡ c.best_score) c.candidates

  -- The threshold `t` is not negative and there is no NaN; and the conversion to `float` of a score
  -- less the threshold, which rounds, never gives more than the score. The last one fails for a
  -- threshold that is small against the rounding error of the scores.
  pub record KeepsBest (t : S) : Type ℓ where
    pub ge_lowest : (a : S) → f.ge a f.lowest ≡ true
    pub ge_minus : (a : S) → f.ge a (f.minus a t) ≡ true
    pub ge_narrow : (a : S) → f.ge a (f.narrow (f.minus a t)) ≡ true

  -- What `mergeCandidates` and `storeTopCandidates` use of the standard library's sorts.
  pub record ArePermutations (sort : List St → List St)
      (nth_element partial_sort : ℕ → List St → List St) : Type κ where
    pub sort_perm : (xs : List St) → Permᴰ (sort xs) xs
    pub nth_perm : (n : ℕ) (xs : List St) → Permᴰ (nth_element n xs) xs
    pub partial_perm : (n : ℕ) (xs : List St) → Permᴰ (partial_sort n xs) xs

  candidates_add-Attained :
      (t : S) (st : St) (c : Candidates f states)
      → KeepsBest t
      → Attained c
      → Attained (candidates_add f states t st c)
  unfolding candidates_add is_valid_candidate
  candidates_add-Attained t st c k attained =
      elim (Bool-cases (f.ge (states.score st) c.best_score)) [
        | inl e ↦ rw (e, k.ge_minus (states.score st)) (inr (Some-last _ c.candidates st refl))
        | inr e ↦ elim attained [
          | inl empty ↦
              let lowest =
                subst (λ b. f.ge (states.score st) b ≡ true) (sym empty.1)
                  (k.ge_lowest (states.score st)) in
              absurd (cc)
          | inr some_best ↦ elim (Bool-cases (f.ge (states.score st) (f.minus c.best_score t))) [
            | inl v ↦ rw (e, v) (inr (Some-append _ c.candidates (st ∷ []) some_best))
            | inr v ↦ rw (e, v) (inr some_best)
          ]
        ]
      ]

  add_proposals-Attained :
      (t : S) (sts : List St) (c : Candidates f states)
      → KeepsBest t
      → Attained c
      → Attained (add_proposals f states t sts c)
  unfolding add_proposals
  add_proposals-Attained t [] c k attained = attained
  add_proposals-Attained t (st ∷ sts) c k attained =
      add_proposals-Attained t sts _ k (candidates_add-Attained t st c k attained)

  pruned-has_none :
      (t : S) (c : Candidates f states)
      → KeepsBest t
      → Attained c
      → has_none c.candidates ≡ false
      → has_none (prune_candidates f states c.candidates (f.minus c.best_score t)) ≡ false
  unfolding prune_candidates
  pruned-has_none t c k attained some_candidate = elim attained [
    | inl empty ↦ let none_there = ap has_none empty.0 in absurd (cc)
    | inr best ↦ keep_if-has_none _ c.candidates (
        Some-imp c.candidates
          (λ st e.
            subst (λ s. f.ge s (f.narrow (f.minus c.best_score t)) ≡ true) (sym e)
              (k.ge_narrow c.best_score))
          best)
  ]

  module _ {μ} (Q : St → Type μ) where
    add_proposals-All :
        (t : S) (sts : List St) (c : Candidates f states)
        → All Q sts
        → All Q c.candidates
        → All Q (add_proposals f states t sts c).candidates
    unfolding add_proposals candidates_add is_valid_candidate
    add_proposals-All t [] c all old = old
    add_proposals-All t (st ∷ sts) c all old =
        add_proposals-All t sts (candidates_add f states t st c) all.1 (grown st all.0)
      where
        grown : (x : St) → Q x → All Q (candidates_add f states t x c).candidates
        grown x q =
            elim (Bool-cases (is_valid_candidate f states c.best_score (states.score x) t).1) [
              | inl e ↦ rw e (All-append Q c.candidates (x ∷ []) old (q, tt))
              | inr e ↦ rw e old
            ]

    prune_candidates-All :
        (xs : List St) (threshold : S) → All Q xs → All Q (prune_candidates f states xs threshold)
    unfolding prune_candidates
    prune_candidates-All xs threshold all =
        keep_if-All Q (λ st. f.ge (states.score st) (f.narrow threshold)) xs all

    module _ (rescored : (a : St) (s : S) → Q a → Q (states.with_score s a)) where
      merge_states-All :
          (log_add : Bool) (old new : St) → Q old → Q (merge_states f states log_add old new)
      unfolding merge_states
      merge_states-All true old new q = rescored old _ q
      merge_states-All false old new q = rescored old _ q

      merge_loop-All :
          (log_add : Bool) (last : St) (sts : List St)
          → Q last
          → All Q sts
          → All Q (merge_loop f states log_add last sts)
      unfolding merge_loop
      merge_loop-All log_add last [] q all = (q, tt)
      merge_loop-All log_add last (st ∷ sts) q all = elim (Bool-cases (states.same st last)) [
        | inl e ↦ rw e (merge_loop-All log_add _ sts (merge_states-All log_add last st q) all.1)
        | inr e ↦ rw e (q, merge_loop-All log_add st sts all.0 all.1)
      ]

      -- The merged candidates, if there is one to merge.
      merge_candidates-All :
          (sort : List St → List St) (log_add : Bool) (xs : List St)
          → ((ys : List St) → Permᴰ (sort ys) ys)
          → has_none xs ≡ false
          → All Q xs
          → (merged : List St) × (merge_candidates f states sort log_add xs ≡ ok merged)
            × All Q merged
      unfolding merge_candidates
      merge_candidates-All sort log_add xs perm some_candidate all =
          let (st, sts, e) = some_element (sort xs) (Permᴰ-has_none (perm xs) ∙ some_candidate) in
          let sorted = subst (All Q) e (All-Permᴰ Q (Permᴰ-sym (perm xs)) all) in
          (
            merge_loop f states log_add st sts,
            rw (e, merge_candidates) refl,
            merge_loop-All log_add st sts sorted.0 sorted.1,
          )

      store_top_candidates-All :
          (nth_element partial_sort : ℕ → List St → List St) (beam_size : ℕ) (return_sorted : Bool)
          (xs : List St)
          → ((n : ℕ) (ys : List St) → Permᴰ (nth_element n ys) ys)
          → ((n : ℕ) (ys : List St) → Permᴰ (partial_sort n ys) ys)
          → All Q xs
          → All Q
              (store_top_candidates f states nth_element partial_sort beam_size return_sorted xs)
      unfolding store_top_candidates
      store_top_candidates-All nth_element partial_sort beam_size return_sorted xs nth part all =
          let n = min (length xs) beam_size in
          elim (Bool-cases (not return_sorted && ltb beam_size (length xs))) [
            | inl e ↦ rw e (take-All Q n _ (All-Permᴰ Q (Permᴰ-sym (nth n xs)) all))
            | inr e ↦ rw e (elim (Bool-cases return_sorted) [
              | inl r ↦ rw r (take-All Q n _ (All-Permᴰ Q (Permᴰ-sym (part n xs)) all))
              | inr r ↦ rw r (take-All Q n xs all)
            ])
          ]

      candidates_store-All :
          (sort : List St → List St) (nth_element partial_sort : ℕ → List St → List St)
          (log_add : Bool) (t : S) (beam_size : ℕ) (return_sorted : Bool) (best : S) (xs : List St)
          → ArePermutations sort nth_element partial_sort
          → (has_none xs ≡ false → has_none (prune_candidates f states xs (f.minus best t)) ≡ false)
          → All Q xs
          → (next : List St) × (candidates_store f states sort nth_element partial_sort log_add t
                beam_size return_sorted
                (record { best_score = best; candidates = xs })
              ≡ ok next)
            × All Q next
      unfolding candidates_store
      candidates_store-All sort nth_element partial_sort log_add t beam_size return_sorted best []
            perms kept all =
          ([], refl, tt)
      candidates_store-All sort nth_element partial_sort log_add t beam_size return_sorted best
            (x ∷ xs) perms kept all =
          let pruned = prune_candidates f states (x ∷ xs) (f.minus best t) in
          let (merged, done, all_merged) =
            merge_candidates-All sort log_add pruned perms.sort_perm (kept refl)
              (prune_candidates-All (x ∷ xs) (f.minus best t) all) in
          (
            store_top_candidates f states nth_element partial_sort beam_size return_sorted merged,
            rw done refl,
            store_top_candidates-All nth_element partial_sort beam_size return_sorted merged
                perms.nth_perm perms.partial_perm all_merged,
          )

      -- Storing a frame's proposals succeeds, and what holds of all of them, whatever their score,
      -- holds of all that are stored.
      pub stored_lem :
          (sort : List St → List St) (nth_element partial_sort : ℕ → List St → List St)
          (log_add : Bool) (t : S) (beam_size : ℕ) (return_sorted : Bool) (proposals : List St)
          → KeepsBest t
          → ArePermutations sort nth_element partial_sort
          → All Q proposals
          → (next : List St) × (candidates_store f states sort nth_element partial_sort log_add t
                beam_size return_sorted
                (add_proposals f states t proposals (candidates_reset f states))
              ≡ ok next)
            × All Q next
      unfolding candidates_reset
      stored_lem sort nth_element partial_sort log_add t beam_size return_sorted proposals keeps
            perms all =
          let c = add_proposals f states t proposals (candidates_reset f states) in
          candidates_store-All sort nth_element partial_sort log_add t beam_size return_sorted
            c.best_score c.candidates perms
            (pruned-has_none t c keeps (
              add_proposals-Attained t proposals (candidates_reset f states) keeps
                (inl (refl, refl))))
            (add_proposals-All t proposals (candidates_reset f states) all tt)
