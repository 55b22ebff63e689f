-- ===== src/Beam/Hypotheses.antt =====
-- Following the parents: the hypothesis that is read off.
use mathlib.Core.List.{reverse_aux}
use wav2letter.Base.{
  ℕ, zero, suc, ◌+◌, ◌-◌, ◌≤◌, ◌≡◌, refl, ap, subst, true, List, [], ◌∷◌, ◌++◌, reverse, append-nil,
  length, replicate, set, leb, ok, ℤ, minus_one, arith,
}
use wav2letter.Beam.{Node, DecodeResult, fill, get_hypothesis}

module _ {ℓ} {S : Type ℓ} where
  abbrev pub words_of : List (Node S) → List ℤ
  words_of [] = []
  words_of (node ∷ chain) = node.word ∷ words_of chain

  abbrev pub tokens_of : List (Node S) → List ℤ
  tokens_of [] = []
  tokens_of (node ∷ chain) = node.token ∷ tokens_of chain

module _ {ℓ} {S : Type ℓ} (zero_score : S) where
  set-replicate :
      (m : ℕ) (a v : ℤ) (done : List ℤ)
      → set (replicate (suc m) a ++ done) m v ≡ replicate m a ++ v ∷ done
  set-replicate zero a v done = refl
  set-replicate (suc m) a v done = ap (λ xs. a ∷ xs) (set-replicate m a v done)

  abbrev partial : S → ℕ → List ℤ → List ℤ → DecodeResult S
  partial s m words tokens = record {
    score = s;
    words = replicate m minus_one ++ words;
    tokens = replicate m minus_one ++ tokens;
  }

  fill_lem :
      (final_frame i m : ℕ) (chain : List (Node S)) (s : S) (words tokens : List ℤ)
      → i + m ≡ final_frame + 1
      → length chain ≤ m
      → fill zero_score final_frame i chain (partial s m words tokens)
        ≡ ok (
            partial s
              (m - length chain)
              (reverse_aux (words_of chain) words)
              (reverse_aux (tokens_of chain) tokens))
  unfolding fill
  fill_lem final_frame i m [] s words tokens e h =
      let none_left : m - 0 ≡ m = omega arith in rw none_left refl
  fill_lem final_frame i zero (node ∷ chain) s words tokens e h = absurd (omega arith)
  fill_lem final_frame i (suc m) (node ∷ chain) s words tokens e h =
      let bound : leb i final_frame ≡ true = ground arith in
      let slot : final_frame - i ≡ m = omega arith in
      let rest : suc m - suc (length chain) ≡ m - length chain = omega arith in
      rw
        (
          bound,
          slot,
          rest,
          set-replicate m minus_one node.word words,
          set-replicate m minus_one node.token tokens,
        )
        (fill_lem final_frame (suc i) m chain s (node.word ∷ words) (node.token ∷ tokens)
          (omega arith) (omega arith))

  -- The words and the tokens in the order of time, behind -1 for the frames before the first one.
  abbrev pub read_off : S → List (Node S) → ℕ → DecodeResult S
  read_off s chain final_frame = record {
    score = s;
    words = replicate (final_frame + 1 - length chain) minus_one ++ reverse (words_of chain);
    tokens = replicate (final_frame + 1 - length chain) minus_one ++ reverse (tokens_of chain);
  }

  -- If a hypothesis and its ancestors are at most as many as the frames, `getHypothesis` writes
  -- inside its vectors only, and returns the score of the hypothesis and the words and tokens of
  -- the chain in the order of time, behind -1 for the frames that the chain does not reach.
  pub get_hypothesis_lem :
      (node : Node S) (ancestors : List (Node S)) (final_frame : ℕ)
      → let chain = node ∷ ancestors in
        length chain ≤ final_frame + 1
        → get_hypothesis zero_score chain final_frame ≡ ok (read_off node.score chain final_frame)
  unfolding get_hypothesis
  get_hypothesis_lem node ancestors final_frame h =
      subst
        (λ r.
          fill zero_score final_frame 0 (node ∷ ancestors) r
          ≡ ok (read_off node.score (node ∷ ancestors) final_frame))
        (ap (λ xs. record { score = node.score; words = xs; tokens = xs })
          (append-nil (replicate (final_frame + 1) minus_one)))
        (fill_lem final_frame 0 (final_frame + 1) (node ∷ ancestors) node.score [] [] (omega arith)
          h)
