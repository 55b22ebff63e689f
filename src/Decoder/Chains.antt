-- ===== src/Decoder/Chains.antt =====
-- In a valid state of LexiconDecoder or LexiconFreeDecoder of src/libraries/decoder every parent
-- pointer can be followed back to the first frame, and what getAllFinalHypothesis and
-- getBestHypothesis read off is a walk of the search.
use wav2letter.Base.{
  map_result, ℕ, zero, suc, ◌+◌, ◌-◌, ◌≤◌, ◌≡◌, refl, subst, ◌⊎◌, inl, inr, none, some, List, [],
  ◌∷◌, reverse, length, drop, get_elem?, ok, nat_eq, All, arith,
}
use wav2letter.Beam.{Node, DecodeResult, get_hypothesis, get_all_hypothesis}
use wav2letter.Beam.Hypotheses.{words_of, tokens_of, read_off, get_hypothesis_lem}
use wav2letter.Decoder.Buffer.{Hyps, frame_at}
use wav2letter.Decoder.State.{State, Setup, Decoder}
use wav2letter.Decoder.Online.{node, ancestors, last_frame, all_final_hypothesis}
use wav2letter.Decoder.Frames.{
  Place, place, Linked, starts, follows, frame_at-IsFrame, find_frame-found,
}
use wav2letter.Decoder.Valid.{IsValid, AreFrames}

module _ {ℓ} {A : Type ℓ} where
  pub All-get_elem? {κ} :
      (P : A → Type κ) (xs : List A) (i : ℕ) (x : A) → All P xs → get_elem? xs i ≡ some x → P x
  All-get_elem? P [] i x all e = cc
  All-get_elem? P (y ∷ ys) zero x all e = subst P (ground arith) all.0
  All-get_elem? P (y ∷ ys) (suc i) x all e = All-get_elem? P ys i x all.1 e

module _ {ℓ μ π} {S : Type ℓ} {X : Type μ} (P : Place X → Type π)
    (R : Place X → Place X → Type π) where
  -- `n` steps of the search that end in a place: the nodes that are passed, the last one first.
  pub data IsWalk : ℕ → Place X → List (Node S) → Type (ℓ ⊔ μ ⊔ π) where
    begins :
        (x : Place X) (nd : Node S) → nd.token ≡ x.1 → nd.word ≡ x.2 → P x → IsWalk 0 x (nd ∷ [])
    goes :
        (n : ℕ) (x y : Place X) (nd : Node S) (chain : List (Node S))
        → nd.token ≡ y.1
        → nd.word ≡ y.2
        → P y
        → R x y
        → IsWalk n x chain
        → IsWalk (suc n) y (nd ∷ chain)

  pub length-IsWalk :
      (n : ℕ) (x : Place X) (chain : List (Node S)) → IsWalk n x chain → length chain ≡ n + 1
  length-IsWalk _ _ _ (begins x nd e e' p) = omega arith
  length-IsWalk _ _ _ (goes n x y nd chain e e' p r walk) =
      omega (arith, length-IsWalk n x chain walk)

  -- The way back from the end of a walk is one.
  pub drop-IsWalk :
      (k n : ℕ) (x : Place X) (chain : List (Node S))
      → IsWalk n x chain
      → (drop k chain ≡ []) ⊎ ((y : Place X) × (k ≤ n) × IsWalk (n - k) y (drop k chain))
  drop-IsWalk zero n x chain walk =
      inr (x, omega arith, subst (λ m. IsWalk m x chain) (omega arith) walk)
  drop-IsWalk (suc k) _ _ _ (begins x nd e e' p) = inl (drop-nil k)
    where
      drop-nil : (j : ℕ) → drop {A = Node S} j [] ≡ []
      drop-nil zero = refl
      drop-nil (suc j) = refl
  drop-IsWalk (suc k) _ _ _ (goes n x y nd chain e e' p r walk) =
      elim (drop-IsWalk k n x chain walk) [
        | inl gone ↦ inl gone
        | inr (z, le, rest) ↦
            inr (z, omega arith, subst (λ m. IsWalk m z (drop k chain)) (omega arith) rest)
      ]

  -- The words and the tokens of a walk in the order of time.
  pub record IsDecoded (n : ℕ) (r : DecodeResult S) : Type (ℓ ⊔ μ ⊔ π) where
    pub last : Place X
    pub chain : List (Node S)
    pub walk : IsWalk n last chain
    pub words : r.words ≡ reverse (words_of chain)
    pub tokens : r.tokens ≡ reverse (tokens_of chain)

module _ {ℓ κ μ π} {S : Type ℓ} {L : Type κ} {X : Type μ} (P : Place X → Type π)
    (R : Place X → Place X → Type π) where
  pub ancestors-ComesFrom :
      (hyps : Hyps (State S L X)) (i p : ℕ) (st prev : State S L X) (chain : List (Node S))
      → st.parent ≡ some p
      → get_elem? (frame_at i hyps) p ≡ some prev
      → ancestors hyps i prev ≡ ok chain
      → ancestors hyps (suc i) st ≡ ok (node st ∷ chain)
  unfolding ancestors
  ancestors-ComesFrom hyps i p st prev chain parent at rest = rw (parent, ancestors, at, rest) refl

  pub ancestors-starts :
      (hyps : Hyps (State S L X)) (st : State S L X)
      → st.parent ≡ none
      → ancestors hyps 0 st ≡ ok (node st ∷ [])
  unfolding ancestors
  ancestors-starts hyps st parent = rw (parent, ancestors) refl

  -- Following the parents of a hypothesis never faults.
  pub ancestors-IsWalk :
      (hyps : Hyps (State S L X)) (i : ℕ) (st : State S L X)
      → AreFrames P R hyps i
      → P (place P R st)
      → Linked P R hyps i st
      → (chain : List (Node S)) × (ancestors hyps i st ≡ ok chain)
        × IsWalk P R i (place P R st) chain
  ancestors-IsWalk hyps zero st frames here (starts _ e) =
      (node st ∷ [], ancestors-starts hyps st e, begins (place P R st) (node st) refl refl here)
  ancestors-IsWalk hyps (suc i) st frames here (follows _ _ (p, parent, prev, at, step)) =
      let before = frames i (omega arith) in
      let at' =
        subst (λ frame. get_elem? frame p ≡ some prev) (frame_at-IsFrame P R hyps i before) at in
      let there = All-get_elem? (λ x. P (place P R x)) before.frame p prev before.places at' in
      let (chain, found, walk) =
        ancestors-IsWalk hyps i prev (λ j le. frames j (omega arith)) there
          (All-get_elem? (Linked P R hyps i) before.frame p prev before.linked at') in
      (
        node st ∷ chain,
        ancestors-ComesFrom hyps i p st prev chain parent at found,
        goes i (place P R prev) (place P R st) (node st) chain refl refl here step walk,
      )

  pub chains-All :
      (hyps : Hyps (State S L X)) (i : ℕ) (sts : List (State S L X))
      → AreFrames P R hyps i
      → All (λ st. P (place P R st)) sts
      → All (Linked P R hyps i) sts
      → (chains : List (List (Node S))) × (map_result (ancestors hyps i) sts ≡ ok chains)
        × All (λ chain. (x : Place X) × IsWalk P R i x chain) chains
  chains-All hyps i [] frames places linked = ([], refl, tt)
  chains-All hyps i (st ∷ sts) frames places linked =
      let (chain, found, walk) = ancestors-IsWalk hyps i st frames places.0 linked.0 in
      let (chains, rest, walks) = chains-All hyps i sts frames places.1 linked.1 in
      (chain ∷ chains, rw (found, rest) refl, ((place P R st, walk), walks))

  module _ {ν} {M : Type ν} (d : Setup S L X M) where
    pub last_frame-ok :
        (c : Decoder S L X M)
        → IsValid P R c
        → (chains : List (List (Node S))) × (last_frame d c ≡ ok chains)
          × All (λ chain. (x : Place X) × IsWalk P R (c.n_decoded - c.n_pruned) x chain) chains
    unfolding last_frame
    last_frame-ok c valid =
        let n = c.n_decoded - c.n_pruned in
        let last = valid.frames n (omega arith) in
        let (chains, found, walks) =
          chains-All c.hyps n last.frame valid.frames last.places last.linked in
        (chains, rw (find_frame-found P R c.hyps n last.frame last.found) found, walks)

    -- A walk is read off inside the vectors.
    pub get_hypothesis-ok :
        (n : ℕ) (x : Place X) (chain : List (Node S))
        → IsWalk P R n x chain
        → (r : DecodeResult S) × (get_hypothesis d.numbers.zero_score chain n ≡ ok r)
          × IsDecoded P R n r
    get_hypothesis-ok n x [] walk = let e = length-IsWalk P R n x [] walk in absurd (omega arith)
    get_hypothesis-ok n x (nd ∷ chain) walk =
        let e : length (nd ∷ chain) ≡ n + 1 = length-IsWalk P R n x (nd ∷ chain) walk in
        let full : n + 1 - length (nd ∷ chain) ≡ 0 = omega arith in
        (
          read_off d.numbers.zero_score nd.score (nd ∷ chain) n,
          get_hypothesis_lem d.numbers.zero_score nd chain n (omega arith),
          record {
            last = x;
            chain = nd ∷ chain;
            walk = walk;
            words = rw full refl;
            tokens = rw full refl;
          },
        )

    get_all_hypothesis-IsDecoded :
        (n : ℕ) (chains : List (List (Node S)))
        → All (λ chain. (x : Place X) × IsWalk P R n x chain) chains
        → (rs : List (DecodeResult S)) × (get_all_hypothesis d.numbers.zero_score chains n ≡ ok rs)
          × All (IsDecoded P R n) rs
    unfolding get_all_hypothesis
    get_all_hypothesis-IsDecoded n [] all = ([], refl, tt)
    get_all_hypothesis-IsDecoded n (chain ∷ chains) all =
        let (r, read, decoded) = get_hypothesis-ok n all.0.0 chain all.0.1 in
        let (rs, reads, others) = get_all_hypothesis-IsDecoded n chains all.1 in
        (r ∷ rs, rw (read, reads) refl, (decoded, others))

    -- All final hypotheses are read off without a fault, each a walk of one place for each frame.
    pub all_final_hypothesis-ok :
        (c : Decoder S L X M)
        → IsValid P R c
        → (rs : List (DecodeResult S)) × (all_final_hypothesis d c ≡ ok rs)
          × All (IsDecoded P R (c.n_decoded - c.n_pruned)) rs
    unfolding all_final_hypothesis
    all_final_hypothesis-ok c valid =
        let (chains, found, walks) = last_frame-ok c valid in
        let (rs, reads, decoded) =
          get_all_hypothesis-IsDecoded (c.n_decoded - c.n_pruned) chains walks in
        (rs, rw found reads, decoded)
