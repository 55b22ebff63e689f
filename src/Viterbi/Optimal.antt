-- ===== src/Viterbi/Optimal.antt =====
-- The path that `compute` returns has the greatest score of all paths.
use wav2letter.Base.{
  ℕ, zero, suc, ◌+◌, ◌*◌, ◌<◌, ◌≡◌, refl, ap, sym, subst, ◌∙◌, false, List, [], ◌∷◌, length, get_or,
  All, ◌==◌, ok, ℤ, pos, minus_one, arith,
}
use wav2letter.Viterbi.{
  Scores, tabulate, best, arrivals, beta_row, alpha_row, frames, backtrack, compute,
}
use wav2letter.Viterbi.Maximum.{get_or-tabulate, AreLawful, IsBest, best-IsBest}

module _ {ℓ} {S : Type ℓ} (scores : Scores S) (IsFinite : S → Type 0)
    (lawful : AreLawful scores IsFinite) (input trans : ℕ → S) (n_tags : ℕ) where
  -- A path from its last tag back to its first one; `forward` is in the order of time.
  abbrev pub forward : List ℕ → List ℤ → List ℤ
  forward [] done = done
  forward (m ∷ tags) done = forward tags (pos m ∷ done)

  -- The score of a path: those of its tags in their frames, and of the transitions between them.
  unfoldable pub path_score : List ℕ → S
  path_score [] = scores.zero_score
  path_score (m ∷ []) = input m
  path_score (m ∷ n ∷ tags) =
      scores.plus (scores.plus (path_score (n ∷ tags)) (trans (m * n_tags + n)))
        (input (length (n ∷ tags) * n_tags + m))

  path_score-cons :
      (m n : ℕ) (tags : List ℕ) (t : ℕ)
      → length (n ∷ tags) ≡ t
      → path_score (m ∷ n ∷ tags)
        ≡ scores.plus
            (scores.plus (path_score (n ∷ tags)) (trans (m * n_tags + n)))
            (input (t * n_tags + m))
  unfolding path_score
  path_score-cons m n tags t e =
      ap
        (λ k.
          scores.plus (scores.plus (path_score (n ∷ tags)) (trans (m * n_tags + n)))
            (input (k * n_tags + m)))
        e

  -- A path of `t` tags.
  abbrev pub IsPath : ℕ → List ℕ → Type 0
  IsPath t tags = All (λ m. m < n_tags) tags × (length tags ≡ t)

  abbrev value : List S → ℕ → S
  value alpha m = get_or alpha m scores.minus_infinity

  -- A path of `t` frames that ends in `m`, that the back pointers lead along.
  record IsReached (t : ℕ) (alpha : List S) (betas : List (List ℤ)) (m : ℕ) : Type ℓ where
    tags : List ℕ
    is_path : IsPath t (m ∷ tags)
    score : path_score (m ∷ tags) ≡ value alpha m
    followed :
        (done : List ℤ)
        → backtrack scores input trans n_tags betas (pos m) done ≡ ok (forward (m ∷ tags) done)

  -- After `t` frames.
  record IsAt (t : ℕ) (alpha : List S) (betas : List (List ℤ)) : Type ℓ where
    finite : (m : ℕ) → m < n_tags → IsFinite (value alpha m)
    reached : (m : ℕ) → m < n_tags → IsReached t alpha betas m
    bound :
        (m : ℕ) (tags : List ℕ)
        → IsPath t (m ∷ tags)
        → scores.greater (path_score (m ∷ tags)) (value alpha m) ≡ false

  module _ (some_tag : 0 < n_tags) (input_finite : (i : ℕ) → IsFinite (input i))
      (trans_finite : (i : ℕ) → IsFinite (trans i)) where
    value-tabulate : (f : ℕ → S) (m : ℕ) → m < n_tags → value (tabulate n_tags 0 f) m ≡ f m
    value-tabulate f m h =
        let e : 0 + m ≡ m = omega arith in
        get_or-tabulate n_tags 0 m f scores.minus_infinity h ∙ ap f e

    start_bound :
        (m : ℕ) (tags : List ℕ)
        → IsPath 1 (m ∷ tags)
        → scores.greater (path_score (m ∷ tags)) (value (tabulate n_tags 0 input) m) ≡ false
    unfolding path_score
    start_bound m [] is_path = rw (value-tabulate input m is_path.0.0) (lawful.irrefl _)
    start_bound m (n ∷ tags) is_path = absurd (omega (arith, is_path.1))

    tabulate-IsAt : IsAt 1 (tabulate n_tags 0 input) []
    unfolding path_score backtrack
    tabulate-IsAt = record {
      finite = λ m h. subst IsFinite (sym (value-tabulate input m h)) (input_finite m);
      reached = λ m h. record {
        tags = [];
        is_path = ((h, tt), refl);
        score = sym (value-tabulate input m h);
        followed = λ done. refl;
      };
      bound = start_bound;
    }

    arrivals-IsBest :
        (t : ℕ) (alpha : List S) (betas : List (List ℤ)) (m : ℕ)
        → IsAt t alpha betas
        → IsBest scores IsFinite lawful input trans n_tags
            (arrivals scores input trans n_tags alpha m)
            n_tags
            (best scores input trans n_tags (arrivals scores input trans n_tags alpha m))
    arrivals-IsBest t alpha betas m at =
        best-IsBest scores IsFinite lawful input trans n_tags _ some_tag
          (lawful.finite_plus _ _ (at.finite 0 some_tag) (trans_finite _))

    alpha_row-value :
        (t : ℕ) (alpha : List S) (m : ℕ)
        → m < n_tags
        → value (alpha_row scores input trans n_tags t alpha) m
          ≡ scores.plus
              (best scores input trans n_tags (arrivals scores input trans n_tags alpha m)).1
              (input (t * n_tags + m))
    unfolding alpha_row
    alpha_row-value t alpha m h = value-tabulate _ m h

    beta_row-index :
        (alpha : List S) (m : ℕ)
        → m < n_tags
        → get_or (beta_row scores input trans n_tags alpha) m minus_one
          ≡ (best scores input trans n_tags (arrivals scores input trans n_tags alpha m)).0
    unfolding beta_row
    beta_row-index alpha m h =
        let e : 0 + m ≡ m = omega arith in
        get_or-tabulate n_tags 0 m _ minus_one h
        ∙ ap (λ k. (best scores input trans n_tags (arrivals scores input trans n_tags alpha k)).0)
            e

    module _ (t : ℕ) (alpha : List S) (betas : List (List ℤ)) (at : IsAt (suc t) alpha betas) where
      abbrev next : List S
      next = alpha_row scores input trans n_tags (suc t) alpha

      abbrev next_betas : List (List ℤ)
      next_betas = beta_row scores input trans n_tags alpha ∷ betas

      next-finite : (m : ℕ) → m < n_tags → IsFinite (value next m)
      next-finite m h =
          let found = arrivals-IsBest (suc t) alpha betas m at in
          rw (alpha_row-value (suc t) alpha m h, found.value_same)
            (lawful.finite_plus _ _
              (lawful.finite_plus _ _ (at.finite found.index found.in_range) (trans_finite _))
              (input_finite _))

      next-IsReached : (m : ℕ) → m < n_tags → IsReached (suc (suc t)) next next_betas m
      unfolding backtrack
      next-IsReached m h =
          let found = arrivals-IsBest (suc t) alpha betas m at in
          let old = at.reached found.index found.in_range in
          record {
            tags = found.index ∷ old.tags;
            is_path = ((h, old.is_path.0), ap suc old.is_path.1);
            score =
                path_score-cons m found.index old.tags (suc t) old.is_path.1
                ∙ ap
                    (λ s.
                      scores.plus (scores.plus s (trans (m * n_tags + found.index)))
                        (input (suc t * n_tags + m)))
                    old.score
                ∙ ap (λ s. scores.plus s (input (suc t * n_tags + m))) (sym found.value_same)
                ∙ sym (alpha_row-value (suc t) alpha m h);
            followed = λ done.
                ap (λ i. backtrack scores input trans n_tags betas i (pos m ∷ done))
                  (beta_row-index alpha m h ∙ found.index_same)
                ∙ old.followed (pos m ∷ done);
          }

      next-bound :
          (m : ℕ) (tags : List ℕ)
          → IsPath (suc (suc t)) (m ∷ tags)
          → scores.greater (path_score (m ∷ tags)) (value next m) ≡ false
      next-bound m [] is_path = absurd (omega (arith, is_path.1))
      next-bound m (n ∷ tags) is_path =
          let found = arrivals-IsBest (suc t) alpha betas m at in
          let rest : length (n ∷ tags) ≡ suc t = omega (arith, is_path.1) in
          let old = at.bound n tags (is_path.0.1, rest) in
          rw (alpha_row-value (suc t) alpha m is_path.0.0, path_score-cons m n tags (suc t) rest)
            (lawful.mono _ _ _ (
              lawful.trans _ _ _ (lawful.mono _ _ (trans (m * n_tags + n)) old)
                (found.greatest n is_path.0.1.0)))

      next-IsAt : IsAt (suc (suc t)) next next_betas
      next-IsAt = record { finite = next-finite; reached = next-IsReached; bound = next-bound }

    frames-IsAt :
        (k t : ℕ) (alpha : List S) (betas : List (List ℤ))
        → IsAt (suc t) alpha betas
        → let (alpha', betas') = frames scores input trans n_tags k (suc t) alpha betas in
          IsAt (suc t + k) alpha' betas'
    unfolding frames
    frames-IsAt zero t alpha betas at =
        let e : suc t ≡ suc t + 0 = omega arith in subst (λ n. IsAt n alpha betas) e at
    frames-IsAt (suc k) t alpha betas at =
        let e : suc (suc t) + k ≡ suc t + suc k = omega arith in
        let (alpha', betas') = frames scores input trans n_tags (suc k) (suc t) alpha betas in
        subst (λ n. IsAt n alpha' betas') e (frames-IsAt k (suc t) _ _ (next-IsAt t alpha betas at))

    final_bound :
        (k : ℕ) (alpha : List S) (betas : List (List ℤ))
        → IsAt (suc k) alpha betas
        → (m : ℕ) (tags : List ℕ) → path_score (m ∷ tags) ≡ value alpha m
        → ((i : ℕ) → i < n_tags → scores.greater (value alpha i) (value alpha m) ≡ false)
        → (other : List ℕ) → IsPath (suc k) other
        → scores.greater (path_score other) (path_score (m ∷ tags)) ≡ false
    final_bound k alpha betas at m tags e greatest [] is_path = absurd (omega (arith, is_path.1))
    final_bound k alpha betas at m tags e greatest (i ∷ other) is_path =
        rw e (lawful.trans _ _ _ (at.bound i other is_path) (greatest i is_path.0.0))

    -- For at least one frame and one tag `compute` reads no back pointer outside of its arrays, and
    -- returns a path of one tag in range for each frame whose score, the sum of its inputs and
    -- transitions in the order of the additions, no other path exceeds. Conditions: the operations
    -- behave as on floats that are no NaN, sums of finite scores are finite, and all inputs and
    -- transitions are finite.
    pub compute_lem :
        (k : ℕ) (path : List ℤ)
        → (tags : List ℕ) × (compute scores input trans n_tags (suc k) path ≡ ok (forward tags []))
          × IsPath (suc k) tags
          × ((other : List ℕ)
              → IsPath (suc k) other
              → scores.greater (path_score other) (path_score tags) ≡ false)
    unfolding compute
    compute_lem k path =
        let (alpha, betas) = frames scores input trans n_tags k 1 (tabulate n_tags 0 input) [] in
        let last : ℕ → S = λ n. scores.plus (value alpha n) scores.zero_score in
        let e : 1 + k ≡ suc k = omega arith in
        let at =
          subst (λ t. IsAt t alpha betas) e
            (frames-IsAt k 0 (tabulate n_tags 0 input) [] tabulate-IsAt) in
        let found =
          best-IsBest scores IsFinite lawful input trans n_tags last some_tag
            (subst IsFinite (sym (lawful.plus_zero (value alpha 0))) (at.finite 0 some_tag)) in
        let reached = at.reached found.index found.in_range in
        let some : (n_tags == 0) ≡ false = ground arith in
        (
          found.index ∷ reached.tags,
          rw (some, found.index_same) (reached.followed []),
          reached.is_path,
          final_bound k alpha betas at found.index reached.tags reached.score (λ i h.
              subst (λ a. scores.greater (value alpha i) a ≡ false) (lawful.plus_zero _)
                (subst (λ a. scores.greater a (last found.index) ≡ false) (lawful.plus_zero _)
                  (subst (λ a. scores.greater (last i) a ≡ false) found.value_same
                    (found.greatest i h)))),
        )
