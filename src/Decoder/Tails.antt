-- ===== src/Decoder/Tails.antt =====
-- `prune` of LexiconDecoder.cpp and LexiconFreeDecoder.cpp in src/libraries/decoder forgets the past and
-- nothing else: the hypotheses that are left read as before, without the frames that are forgotten.
use mathlib.Core.List.{reverse_aux}
use wav2letter.Base.{
  map_result, ℕ, zero, suc, ◌+◌, ◌-◌, ◌≤◌, ◌≡◌, refl, sym, ap, subst, ◌∙◌, some, List, [], ◌∷◌,
  reverse, length, map, take, drop, get_elem?, ok, nat_eq, All, arith,
}
use wav2letter.Beam.{Node, DecodeResult, get_hypothesis, get_all_hypothesis}
use wav2letter.Beam.Hypotheses.{words_of, tokens_of, read_off, get_hypothesis_lem}
use wav2letter.Decoder.Buffer.{Hyps, frame_at}
use wav2letter.Decoder.State.{State, Setup}
use wav2letter.Decoder.Online.{node, ancestors}
use wav2letter.Decoder.Frames.{Place, place, ComesFrom, Linked, follows, frame_at-IsFrame}
use wav2letter.Decoder.Valid.{AreFrames}
use wav2letter.Decoder.Chains.{
  IsWalk, begins, goes, length-IsWalk, All-get_elem?, ancestors-ComesFrom, ancestors-starts,
  ancestors-IsWalk,
}
use wav2letter.Decoder.Pruned.{get_elem?-map, shape, ArePruned}
use wav2letter.Decoder.Forgetful.{place-shape, parent-shape_first, parent-shape, frame_at-pruned}

module _ {ℓ} {A : Type ℓ} where
  drop-after : (n : ℕ) (x : A) (xs ys : List A) → drop n xs ≡ x ∷ ys → drop (suc n) xs ≡ ys
  drop-after zero x [] ys e = cc
  drop-after zero x (z ∷ xs) ys e = ground arith
  drop-after (suc n) x [] ys e = cc
  drop-after (suc n) x (z ∷ xs) ys e = drop-after n x xs ys e

  drop-reverse_aux : (xs done : List A) → drop (length xs) (reverse_aux xs done) ≡ done
  drop-reverse_aux [] done = refl
  drop-reverse_aux (x ∷ xs) done =
      drop-after (length xs) x (reverse_aux xs (x ∷ done)) done (drop-reverse_aux xs (x ∷ done))

  -- The front of a list is the end of the reversed one.
  drop-reverse :
      (m s : ℕ) (xs done : List A)
      → length xs ≡ m + s
      → drop s (reverse_aux xs done) ≡ reverse_aux (take m xs) done
  drop-reverse zero s xs done e =
      let same : s ≡ length xs = omega arith in
      ap (λ n. drop n (reverse_aux xs done)) same ∙ drop-reverse_aux xs done
  drop-reverse (suc m) s [] done e = absurd (omega arith)
  drop-reverse (suc m) s (x ∷ xs) done e = drop-reverse m s xs (x ∷ done) (omega arith)

module _ {ℓ} {S : Type ℓ} where
  -- The same words and tokens without the first `start`.
  abbrev pub IsTail : ℕ → DecodeResult S → DecodeResult S → Type 0
  IsTail start r r' = (r'.tokens ≡ drop start r.tokens) × (r'.words ≡ drop start r.words)

  pub data AreTails (start : ℕ) : List (DecodeResult S) → List (DecodeResult S) → Type ℓ where
    no_tail : AreTails start [] []
    tails :
        (r r' : DecodeResult S) (rs rs' : List (DecodeResult S))
        → IsTail start r r'
        → AreTails start rs rs'
        → AreTails start (r ∷ rs) (r' ∷ rs')

  -- The chain `chain'` is the front of `chain`, which has `start` more nodes.
  pub record IsFront (n start : ℕ) (chain chain' : List (Node S)) : Type ℓ where
    pub length_all : length chain ≡ n + 1 + start
    pub length_front : length chain' ≡ n + 1
    pub tokens : tokens_of chain' ≡ take (suc n) (tokens_of chain)
    pub words : words_of chain' ≡ take (suc n) (words_of chain)

  pub data AreFronts (n start : ℕ) : List (List (Node S)) → List (List (Node S)) → Type ℓ where
    no_front : AreFronts n start [] []
    fronts :
        (c c' : List (Node S)) (cs cs' : List (List (Node S)))
        → IsFront n start c c'
        → AreFronts n start cs cs'
        → AreFronts n start (c ∷ cs) (c' ∷ cs')

  length-tokens_of : (chain : List (Node S)) → length (tokens_of chain) ≡ length chain
  length-tokens_of [] = refl
  length-tokens_of (nd ∷ chain) = ap suc (length-tokens_of chain)

  length-words_of : (chain : List (Node S)) → length (words_of chain) ≡ length chain
  length-words_of [] = refl
  length-words_of (nd ∷ chain) = ap suc (length-words_of chain)

  read_full :
      (zero_score : S) (n : ℕ) (chain : List (Node S))
      → length chain ≡ n + 1
      → (r : DecodeResult S) × (get_hypothesis zero_score chain n ≡ ok r)
        × (r.tokens ≡ reverse (tokens_of chain))
        × (r.words ≡ reverse (words_of chain))
  read_full zero_score n [] e = absurd (omega arith)
  read_full zero_score n (nd ∷ chain) e =
      let full : n + 1 - length (nd ∷ chain) ≡ 0 = omega arith in
      (
        read_off zero_score nd.score (nd ∷ chain) n,
        get_hypothesis_lem zero_score nd chain n (omega arith),
        rw full refl,
        rw full refl,
      )

  pub read_fronts :
      (zero_score : S) (n start : ℕ) (cs cs' : List (List (Node S)))
      → AreFronts n start cs cs'
      → (rs rs' : List (DecodeResult S)) × (get_all_hypothesis zero_score cs (n + start) ≡ ok rs)
        × (get_all_hypothesis zero_score cs' n ≡ ok rs')
        × AreTails start rs rs'
  unfolding get_all_hypothesis
  read_fronts zero_score n start _ _ no_front = ([], [], refl, refl, no_tail)
  read_fronts zero_score n start _ _ (fronts c c' cs cs' front rest) =
      let len = front.length_all in
      let (r, read, ts, ws) = read_full zero_score (n + start) c (omega arith) in
      let (r', read', ts', ws') = read_full zero_score n c' front.length_front in
      let (rs, rs', reads, reads', are_tails) = read_fronts zero_score n start cs cs' rest in
      let tokens : r'.tokens ≡ drop start r.tokens =
        ts'
        ∙ ap reverse front.tokens
        ∙ sym (drop-reverse (suc n) start (tokens_of c) [] (length-tokens_of c ∙ omega arith))
        ∙ ap (drop start) (sym ts) in
      let words : r'.words ≡ drop start r.words =
        ws'
        ∙ ap reverse front.words
        ∙ sym (drop-reverse (suc n) start (words_of c) [] (length-words_of c ∙ omega arith))
        ∙ ap (drop start) (sym ws) in
      (
        r ∷ rs,
        r' ∷ rs',
        rw (read, reads) refl,
        rw (read', reads') refl,
        tails r r' rs rs' (tokens, words) are_tails,
      )

module _ {ℓ κ μ π ν} {S : Type ℓ} {L : Type κ} {X : Type μ} (P : Place X → Type π)
    (R : Place X → Place X → Type π) {M : Type ν} (d : Setup S L X M) where
  walk-head :
      (n : ℕ) (x : Place X) (chain : List (Node S))
      → IsWalk P R n x chain
      → (nd : Node S) × (rest : List (Node S)) × (chain ≡ nd ∷ rest)
        × (nd.token ≡ x.1)
        × (nd.word ≡ x.2)
  walk-head _ _ _ (begins x nd e e' p) = (nd, [], refl, e, e')
  walk-head _ _ _ (goes n x y nd chain e e' p r walk) = (nd, chain, refl, e, e')

  module _ (largest : S) (start k : ℕ) (hyps hyps' : Hyps (State S L X))
      (pruned : ArePruned d largest start k hyps hyps')
      (frames : AreFrames P R hyps (k + start)) where
    -- Both chains of a hypothesis.
    abbrev HasFront : ℕ → State S L X → Type ℓ
    HasFront j st =
        (chain : List (Node S)) × (chain' : List (Node S)) × (ancestors hyps (j + start) st
          ≡ ok chain)
        × (ancestors hyps' j (shape d largest k j st) ≡ ok chain')
        × IsFront j start chain chain'

    token-shape : (j : ℕ) (st : State S L X) → (shape d largest k j st).token ≡ st.token
    token-shape j st = ap (λ x. x.1) (place-shape P R d largest k j st)

    word-shape : (j : ℕ) (st : State S L X) → (shape d largest k j st).word ≡ st.word
    word-shape j st = ap (λ x. x.2) (place-shape P R d largest k j st)

    first-HasFront :
        (st : State S L X) → P (place P R st) → Linked P R hyps (0 + start) st → HasFront 0 st
    first-HasFront st here linked =
        let (chain, found, walk) =
          ancestors-IsWalk P R hyps (0 + start) st (λ i le. frames i (omega arith)) here linked in
        let (nd, rest, e, token, word) = walk-head (0 + start) (place P R st) chain walk in
        let len = length-IsWalk P R (0 + start) (place P R st) chain walk in
        (
          chain,
          node (shape d largest k 0 st) ∷ [],
          found,
          ancestors-starts P R hyps' _ (parent-shape_first P R d largest k st),
          record {
            length_all = omega arith;
            length_front = omega arith;
            tokens = rw e (ap (λ t. t ∷ []) (token-shape 0 st ∙ sym token));
            words = rw e (ap (λ t. t ∷ []) (word-shape 0 st ∙ sym word));
          },
        )

    next-HasFront :
        (j p : ℕ) (st prev : State S L X)
        → suc j ≤ k
        → st.parent ≡ some p
        → get_elem? (frame_at (j + start) hyps) p ≡ some prev
        → HasFront j prev
        → HasFront (suc j) st
    next-HasFront j p st prev le parent at (chain, chain', found, found', front) =
        let len = front.length_all in
        let len' = front.length_front in
        (
          node st ∷ chain,
          node (shape d largest k (suc j) st) ∷ chain',
          subst (λ i. ancestors hyps i st ≡ ok (node st ∷ chain)) (omega arith)
              (ancestors-ComesFrom P R hyps (j + start) p st prev chain parent at found),
          ancestors-ComesFrom P R hyps' j p (shape d largest k (suc j) st)
              (shape d largest k j prev) chain' (parent-shape P R d largest k j st ∙ parent)
              (subst (λ frame. get_elem? frame p ≡ some (shape d largest k j prev))
                (sym (frame_at-pruned P R d largest start k hyps hyps' pruned j (omega arith)))
                (get_elem?-map (shape d largest k j) _ p prev at))
              found',
          record {
            length_all = omega arith;
            length_front = omega arith;
            tokens = rw (token-shape (suc j) st, front.tokens) refl;
            words = rw (word-shape (suc j) st, front.words) refl;
          },
        )

    comes_from :
        (i : ℕ) (st : State S L X) → Linked P R hyps (suc i) st → ComesFrom P R (frame_at i hyps) st
    comes_from i st (follows _ _ from) = from

    any-HasFront :
        (j : ℕ) (st : State S L X)
        → j ≤ k
        → P (place P R st)
        → Linked P R hyps (j + start) st
        → HasFront j st
    any-HasFront zero st le here linked = first-HasFront st here linked
    any-HasFront (suc j) st le here linked =
        let (p, parent, prev, at, step) =
          comes_from (j + start) st (subst (λ i. Linked P R hyps i st) (omega arith) linked) in
        let before = frames (j + start) (omega arith) in
        let at' =
          subst (λ frame. get_elem? frame p ≡ some prev)
            (frame_at-IsFrame P R hyps (j + start) before) at in
        next-HasFront j p st prev le parent at (
          any-HasFront j prev (omega arith)
            (All-get_elem? (λ st. P (place P R st)) before.frame p prev before.places at')
            (All-get_elem? (Linked P R hyps (j + start)) before.frame p prev before.linked at'))

    pub frame-AreFronts :
        (sts : List (State S L X))
        → All (λ st. P (place P R st)) sts
        → All (Linked P R hyps (k + start)) sts
        → (cs cs' : List (List (Node S))) × (map_result (ancestors hyps (k + start)) sts ≡ ok cs)
          × (map_result (ancestors hyps' k) (map (shape d largest k k) sts) ≡ ok cs')
          × AreFronts k start cs cs'
    frame-AreFronts [] places linked = ([], [], refl, refl, no_front)
    frame-AreFronts (st ∷ sts) places linked =
        let (c, c', found, found', front) = any-HasFront k st (omega arith) places.0 linked.0 in
        let (cs, cs', rest, rest', others) = frame-AreFronts sts places.1 linked.1 in
        (
          c ∷ cs,
          c' ∷ cs',
          rw (found, rest) refl,
          rw (found', rest') refl,
          fronts c c' cs cs' front others,
        )
