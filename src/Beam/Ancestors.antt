-- ===== src/Beam/Ancestors.antt =====
-- The ancestor behind which decoding may forget: `findBestAncestor` of Utils.h in
-- src/libraries/decoder.
use wav2letter.Base.{
  ℕ, zero, suc, ◌+◌, ◌-◌, ◌<◌, ◌≤◌, ◌≡◌, ◌⊎◌, refl, ap, subst, ◌∙◌, inl, inr, Bool, true, false,
  List, [], ◌∷◌, length, drop, drop-drop, length-drop, ◌==◌, Bool-cases, All, arith,
}
use wav2letter.Beam.{Node, look_back_limit, best_loop, step_back, find_complete, find_best_ancestor}

module _ {ℓ} {S : Type ℓ} (zero_score : S) (greater : S → S → Bool)
    (is_complete : List (Node S) → Bool) where
  -- `end` lies `n` steps back from `chain`: as many as were asked for, or all that there are, and
  -- then on to the first complete one, for at most a hundred more.
  pub record IsBehind (look_back : ℕ) (chain end : List (Node S)) (n : ℕ) : Type ℓ where
    pub bound : n ≤ look_back + look_back_limit
    pub within : n ≤ length chain
    pub dropped : end ≡ drop n chain
    pub far : (look_back ≤ n) ⊎ (end ≡ [])
    pub passed : (k : ℕ) → look_back ≤ k → k < n → is_complete (drop k chain) ≡ false
    pub stopped : (end ≡ []) ⊎ (is_complete end ≡ true) ⊎ (n ≡ look_back + look_back_limit)

  step_back_lem :
      (k n : ℕ) (chain : List (Node S))
      → let (end, n') = step_back zero_score greater is_complete k n chain in
        (d : ℕ) × (n' ≡ n + d)
        × (end ≡ drop d chain)
        × (d ≤ k)
        × (d ≤ length chain)
        × ((d ≡ k) ⊎ (end ≡ []))
  unfolding step_back
  step_back_lem zero n chain = (0, omega arith, refl, omega arith, omega arith, inl refl)
  step_back_lem (suc k) n [] = (0, omega arith, refl, omega arith, omega arith, inr refl)
  step_back_lem (suc k) n (node ∷ chain) =
      let (d, steps, dropped, le, within, far) = step_back_lem k (suc n) chain in
      (
        suc d,
        omega arith,
        dropped,
        omega arith,
        omega arith,
        elim far [ inl e ↦ inl (omega arith) | inr e ↦ inr e ],
      )

  find_complete_lem :
      (limit n : ℕ) (chain : List (Node S))
      → n < limit
      → let (end, n') = find_complete zero_score greater is_complete limit n chain in
        (d : ℕ) × (n' ≡ n + d)
        × (end ≡ drop d chain)
        × (n' ≤ limit)
        × (d ≤ length chain)
        × ((j : ℕ) → j < d → is_complete (drop j chain) ≡ false)
        × ((end ≡ []) ⊎ (is_complete end ≡ true) ⊎ (n' ≡ limit))
  unfolding find_complete
  find_complete_lem limit n [] h =
      (0, omega arith, refl, omega arith, omega arith, λ j lt. absurd (omega arith), inl refl)
  find_complete_lem limit n (node ∷ chain) h = elim (Bool-cases (is_complete (node ∷ chain))) [
    | inl e ↦
        rw e (
          0,
          omega arith,
          refl,
          omega arith,
          omega arith,
          λ j lt. absurd (omega arith),
          inr (inl e),
        )
    | inr e ↦ elim (Bool-cases (suc n == limit)) [
      | inl e' ↦
          let at_limit : suc n ≡ limit = ground arith in
          rw (e, e')
            (
              1,
              omega arith,
              refl,
              omega arith,
              omega arith,
              not_before node chain e 0 (λ j lt. absurd (omega arith)),
              inr (inr at_limit),
            )
      | inr e' ↦
          let (d, steps, dropped, bound, within, before, stopped) =
            find_complete_lem limit (suc n) chain (ground arith) in
          rw (e, e')
            (
              suc d,
              omega arith,
              dropped,
              bound,
              omega arith,
              not_before node chain e d before,
              stopped,
            )
    ]
  ]
    where
      not_before :
          (node : Node S) (chain : List (Node S))
          → is_complete (node ∷ chain) ≡ false
          → (d : ℕ) → ((j : ℕ) → j < d → is_complete (drop j chain) ≡ false)
          → (j : ℕ) → j < suc d
          → is_complete (drop j (node ∷ chain)) ≡ false
      not_before node chain e d before zero lt = e
      not_before node chain e d before (suc j) lt = before j (omega arith)

  pub look_back_lem :
      (node : Node S) (ancestors : List (Node S)) (hyps : List (List (Node S))) (look_back : ℕ)
      → let best = best_loop zero_score greater is_complete node.score (node ∷ ancestors) hyps in
        let (end, n) =
          find_best_ancestor zero_score greater is_complete ((node ∷ ancestors) ∷ hyps) look_back in
        IsBehind look_back best end n
  unfolding find_best_ancestor
  look_back_lem node ancestors hyps look_back =
      let best = best_loop zero_score greater is_complete node.score (node ∷ ancestors) hyps in
      let (d, steps, dropped, le, within, far) = step_back_lem look_back 0 best in
      let (start, n) = step_back zero_score greater is_complete look_back 0 best in
      let (d', steps', dropped', bound, within', before, stopped) =
        find_complete_lem (look_back + look_back_limit) n start (omega arith) in
      let size = length-drop d best within in
      let same_size = ap length dropped in
      let none_left : start ≡ [] → d' ≡ 0 = λ e. let empty = ap length e in omega arith in
      record {
        bound = bound;
        within = omega arith;
        dropped = dropped' ∙ ap (drop d') dropped ∙ drop-drop d d' _ best (omega arith);
        far = elim far [
          | inl e ↦ inl (omega arith)
          | inr e ↦ inr (dropped' ∙ ap (drop d') e ∙ drop-nil d')
        ];
        passed = λ k le_k lt. elim far [
          | inl e ↦
              let from : drop (k - d) start ≡ drop k best =
                ap (drop (k - d)) dropped ∙ drop-drop d (k - d) k best (omega arith) in
              subst (λ c. is_complete c ≡ false) from (before (k - d) (omega arith))
          | inr e ↦ let gone = none_left e in absurd (omega arith)
        ];
        stopped = stopped;
      }
    where
      drop-nil : (n : ℕ) → drop {A = Node S} n [] ≡ []
      drop-nil zero = refl
      drop-nil (suc n) = refl

  -- The first hypothesis has a greater score than the second one; each has a node.
  abbrev pub ahead : List (Node S) → List (Node S) → Bool
  ahead [] other = false
  ahead (a ∷ chain) [] = true
  ahead (a ∷ chain) (b ∷ other) = greater a.score b.score

  -- The first of the hypotheses that none is ahead of.
  pub data IsTop : List (Node S) → List (List (Node S)) → Type ℓ where
    first :
        (chain : List (Node S)) (hyps : List (List (Node S)))
        → All (λ h. ahead h chain ≡ false) hyps
        → IsTop chain (chain ∷ hyps)
    later :
        (chain h : List (Node S)) (hyps : List (List (Node S)))
        → ahead chain h ≡ true
        → IsTop chain hyps
        → IsTop chain (h ∷ hyps)

  -- The comparison behaves as on floats that are no NaN.
  pub record IsStrict : Type ℓ where
    pub trans : (a b c : S) → greater a b ≡ true → greater b c ≡ true → greater a c ≡ true
    pub over : (a b c : S) → greater a b ≡ true → greater c b ≡ false → greater a c ≡ true

  module _ (strict : IsStrict) where
    skip_empty :
        (chain best : List (Node S)) (hyps : List (List (Node S)))
        → IsTop chain (best ∷ hyps)
        → IsTop chain (best ∷ [] ∷ hyps)
    skip_empty _ _ hyps (first chain _ all) = first chain ([] ∷ hyps) (refl, all)
    skip_empty _ _ hyps (later [] best _ e top) = absurd (cc)
    skip_empty _ _ hyps (later (nd ∷ chain) best _ e top) =
        later (nd ∷ chain) best ([] ∷ hyps) e (later (nd ∷ chain) [] hyps refl top)

    skip_lower :
        (chain : List (Node S)) (b nd : Node S) (best ancestors : List (Node S))
        (hyps : List (List (Node S)))
        → greater nd.score b.score ≡ false
        → IsTop chain ((b ∷ best) ∷ hyps)
        → IsTop chain ((b ∷ best) ∷ (nd ∷ ancestors) ∷ hyps)
    skip_lower _ b nd best ancestors hyps low (first _ _ all) =
        first (b ∷ best) ((nd ∷ ancestors) ∷ hyps) (low, all)
    skip_lower _ b nd best ancestors hyps low (later [] _ _ e top) = absurd (cc)
    skip_lower _ b nd best ancestors hyps low (later (x ∷ chain) _ _ e top) =
        later (x ∷ chain) (b ∷ best) ((nd ∷ ancestors) ∷ hyps) e
          (later (x ∷ chain) (nd ∷ ancestors) hyps (strict.over x.score b.score nd.score e low) top)

    put_lower :
        (chain : List (Node S)) (b nd : Node S) (best ancestors : List (Node S))
        (hyps : List (List (Node S)))
        → greater nd.score b.score ≡ true
        → IsTop chain ((nd ∷ ancestors) ∷ hyps)
        → IsTop chain ((b ∷ best) ∷ (nd ∷ ancestors) ∷ hyps)
    put_lower _ b nd best ancestors hyps high (first _ _ all) =
        later (nd ∷ ancestors) (b ∷ best) _ high (first (nd ∷ ancestors) hyps all)
    put_lower _ b nd best ancestors hyps high (later [] _ _ e top) = absurd (cc)
    put_lower _ b nd best ancestors hyps high (later (x ∷ chain) _ _ e top) =
        later (x ∷ chain) (b ∷ best) _ (strict.trans x.score nd.score b.score e high)
          (later (x ∷ chain) (nd ∷ ancestors) hyps e top)

    best_loop-IsTop :
        (b : Node S) (best : List (Node S)) (hyps : List (List (Node S)))
        → IsTop
            (best_loop zero_score greater is_complete b.score (b ∷ best) hyps)
            ((b ∷ best) ∷ hyps)
    unfolding best_loop
    best_loop-IsTop b best [] = first (b ∷ best) [] tt
    best_loop-IsTop b best ([] ∷ hyps) = skip_empty _ (b ∷ best) hyps (best_loop-IsTop b best hyps)
    best_loop-IsTop b best ((nd ∷ ancestors) ∷ hyps) =
        elim (Bool-cases (greater nd.score b.score)) [
          | inl e ↦
              rw e (put_lower _ b nd best ancestors hyps e (best_loop-IsTop nd ancestors hyps))
          | inr e ↦ rw e (skip_lower _ b nd best ancestors hyps e (best_loop-IsTop b best hyps))
        ]

    -- `findBestAncestor` for at least one hypothesis returns an ancestor of the first of those with
    -- the greatest score. The new `lookBack` says how many steps back the ancestor lies: as many as
    -- were asked for, or all that there are, and then on to the first one that is complete, but at
    -- most a hundred steps more. Condition: the comparison behaves as on floats that are no NaN.
    pub find_best_ancestor_lem :
        (node : Node S) (ancestors : List (Node S)) (hyps : List (List (Node S))) (look_back : ℕ)
        → let all = (node ∷ ancestors) ∷ hyps in
          let (end, n) = find_best_ancestor zero_score greater is_complete all look_back in
          (best : List (Node S)) × IsTop best all × IsBehind look_back best end n
    find_best_ancestor_lem node ancestors hyps look_back = (
      best_loop zero_score greater is_complete node.score (node ∷ ancestors) hyps,
      best_loop-IsTop node ancestors hyps,
      look_back_lem node ancestors hyps look_back,
    )
