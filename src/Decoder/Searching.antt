-- ===== src/Decoder/Searching.antt =====
-- The proposals of LexiconDecoder.cpp in src/libraries/decoder are made without a fault, and each is a
-- move of the search from the hypothesis that it extends.
use mathlib.Core.List.{Memᴰ}
use mathlib.Core.List.Memᴰ.{head, tail}
use wav2letter.Base.{
  ℕ, ◌*◌, ◌<◌, ◌≡◌, refl, subst, inl, inr, Bool, true, false, not, ◌&&◌, ◌||◌, some, List, [], ◌∷◌,
  ◌++◌, length, get_elem?, ok, ℤ, pos, minus_one, All, All-append, Bool-cases, Option-cases, ◌=?◌,
  int_eq, arith,
}
use wav2letter.Trie.{TrieNode, children, labels, find_child}
use wav2letter.Decoder.State.{State, Setup, is_asg, is_ctc}
use wav2letter.Decoder.Online.{top_tokens}
use wav2letter.Decoder.Valid.{IsSound, IsProposal, IsProposing}
use wav2letter.Decoder.Chains.{All-get_elem?}
use wav2letter.Decoder.Proposed.{
  concat_map-ok, concat_from-ok, IsToken, top_tokens-All, emission_score-ok, token_score-ok,
}
use wav2letter.Decoder.Lexicon.{
  Lexicon, node_at, follow, is_leaf, no_labels, is_root, candidate, weighted, lex_max_score,
  inner_proposals, word_proposals, unknown_proposals, child_proposals, same_node_proposal,
  blank_proposal, hypothesis_proposals, propose_frame, end_proposal, nice_ending, propose_end,
}
use wav2letter.Decoder.Moves.{
  IsPlace, IsMove, stays, blanks, ends, descends, completes, unknowns, node_at-child,
}

module _ {ℓ κ ν} {S : Type ℓ} {L : Type κ} {M : Type ν} (d : Setup S L (List ℤ) M) (x : Lexicon S)
    (n_tokens : ℕ) where
  abbrev pub LexState : Type (ℓ ⊔ κ)
  LexState = State S L (List ℤ)

  -- What the source uses of the members: a hypothesis starts at the root, the silence is a token, with CTC the blank is, and with ASG
  -- the transitions are a square matrix over the tokens.
  pub record Fits : Type (ℓ ⊔ κ) where
    pub sound : IsSound d
    pub root_path : d.root ≡ []
    pub sil_token : IsToken n_tokens d.sil
    pub blank_token : is_ctc d.opt.criterion_type ≡ true → IsToken n_tokens x.blank
    pub square : is_asg d.opt.criterion_type ≡ true → length x.transitions ≡ n_tokens * n_tokens

  abbrev pub Proposal : List LexState → LexState → Type (ℓ ⊔ κ)
  Proposal frame st = IsProposal (IsPlace d x n_tokens) (IsMove d x n_tokens) frame st

  module _ (frame : List LexState) (p : ℕ) (prev : LexState)
      (at : get_elem? frame p ≡ some prev) where
    module _ (lex : TrieNode S) (k : ℕ) (below : k < n_tokens)
        (found : node_at (prev.lex ++ pos k ∷ []) x.trie ≡ some lex) where
      inner_proposals-All :
          (lex_max score : S) (token_lm : L × S)
          → All (Proposal frame) (inner_proposals d x p prev lex_max lex (pos k) score token_lm)
      unfolding inner_proposals
      inner_proposals-All lex_max score token_lm =
          elim (Bool-cases (
            (not (is_ctc d.opt.criterion_type) || prev.prev_blank || not (pos k =? prev.token))
            && not (is_leaf lex))) [
              | inr off ↦ rw off tt
              | inl new ↦ rw new (
                (
                  ((k, refl, below), inl refl, lex, found),
                  (p, refl, prev, at, descends prev.lex prev.token prev.word (pos k) lex found),
                ),
                tt,
              )
            ]

      word_proposals-All :
          (cache : M) (lex_max : S) (ls : List ℤ) (score : S) (token_lm : L × S)
          → ((l : ℤ) → Memᴰ l ls → Memᴰ l (labels lex))
          → All (Proposal frame) (word_proposals d x cache p prev lex_max ls (pos k) score token_lm)
      unfolding word_proposals node_at
      word_proposals-All cache lex_max [] score token_lm sub = tt
      word_proposals-All cache lex_max (l ∷ ls) score token_lm sub = (
        (
          (
            (k, refl, below),
            inr (inr (prev.lex ++ pos k ∷ [], lex, found, sub l (head refl))),
            x.trie,
            refl,
          ),
          (
            p,
            refl,
            prev,
            at,
            completes prev.lex prev.token prev.word (pos k) l lex found (sub l (head refl)),
          ),
        ),
        word_proposals-All cache lex_max ls score token_lm (λ l' mem. sub l' (tail mem)),
      )

      no_labels-eq : (ls : List ℤ) → no_labels ls ≡ true → ls ≡ []
      no_labels-eq [] e = refl
      no_labels-eq (l ∷ ls) e = cc

      unknown_proposals-All :
          (cache : M) (lex_max score : S) (token_lm : L × S)
          → All
              (Proposal frame)
              (unknown_proposals d x cache p prev lex_max lex (pos k) score token_lm)
      unfolding unknown_proposals node_at
      unknown_proposals-All cache lex_max score token_lm =
          elim (Bool-cases (no_labels (labels lex))) [
            | inr some_label ↦ rw some_label tt
            | inl bare ↦
                elim (Bool-cases (d.numbers.greater d.opt.unk_score d.numbers.scores.lowest)) [
                  | inr off ↦ rw (bare, off) tt
                  | inl on ↦
                      rw (bare, on)
                        (
                          (
                            ((k, refl, below), inr (inl refl), x.trie, refl),
                            (
                              p,
                              refl,
                              prev,
                              at,
                              unknowns prev.lex prev.token prev.word (pos k) lex found
                                  (no_labels-eq (labels lex) bare) on,
                            ),
                          ),
                          tt,
                        )
                ]
          ]

    module _ (fits : Fits) (here : IsPlace d x n_tokens (prev.lex, prev.token, prev.word))
        (emissions : List S) (n_frames n_decoded t : ℕ) (cache : M)
        (filled : length emissions ≡ n_frames * n_tokens) (lt : t < n_frames) where
      child_proposals-ok :
          (prev_node : TrieNode S)
          → node_at prev.lex x.trie ≡ some prev_node
          → (token : ℕ) → token < n_tokens
          → (ys : List LexState) × (child_proposals d x emissions n_tokens n_decoded t cache p prev
                prev_node token
              ≡ ok ys)
            × All (Proposal frame) ys
      unfolding child_proposals
      child_proposals-ok prev_node e token below =
          elim (Option-cases (find_child (pos token) (children prev_node))) [
            | inl missing ↦ ([], rw (missing, child_proposals) refl, tt)
            | inr (lex, child) ↦
                let found = node_at-child prev.lex (pos token) x.trie prev_node lex e child in
                let (score, scored) =
                  token_score-ok d fits.sound x.transitions emissions n_tokens n_frames n_decoded
                    filled fits.square t (pos token) prev lt (token, refl, below) here.0 in
                let lex_max = lex_max_score d x prev.lex prev_node in
                let token_lm = d.lm.score cache prev.lm_state (pos token) in
                (
                  _,
                  rw (child, child_proposals, scored) refl,
                  All-append (Proposal frame) _ _
                      (All-append (Proposal frame) _ _
                        (inner_proposals-All lex token below found lex_max score token_lm)
                        (word_proposals-All lex token below found cache lex_max (labels lex) score
                          token_lm (λ l mem. mem)))
                      (unknown_proposals-All lex token below found cache lex_max score token_lm),
                )
          ]

      same_node_proposal-ok :
          (ys : List LexState) × (same_node_proposal d x emissions n_tokens n_decoded t cache p prev
            ≡ ok ys)
          × All (Proposal frame) ys
      unfolding same_node_proposal
      same_node_proposal-ok =
          elim (Bool-cases (not (is_ctc d.opt.criterion_type) || not prev.prev_blank)) [
            | inr off ↦ ([], rw off refl, tt)
            | inl on ↦
                let (score, scored) =
                  token_score-ok d fits.sound x.transitions emissions n_tokens n_frames n_decoded
                    filled fits.square t prev.token prev lt here.0 here.0 in
                (
                  candidate d x prev.lm_state prev.lex p score prev.token minus_one false ∷ [],
                  rw (on, scored) refl,
                  (
                    (
                      (here.0, inl refl, here.2, here.3),
                      (p, refl, prev, at, stays prev.lex prev.token prev.word),
                    ),
                    tt,
                  ),
                )
          ]

      blank_proposal-ok :
          (ys : List LexState) × (blank_proposal d x emissions n_tokens n_decoded t cache p prev
            ≡ ok ys)
          × All (Proposal frame) ys
      unfolding blank_proposal
      blank_proposal-ok = elim (Bool-cases (is_ctc d.opt.criterion_type)) [
        | inr off ↦ ([], rw off refl, tt)
        | inl on ↦
            let blank = fits.blank_token on in
            let (score, scored) =
              emission_score-ok d fits.sound x.transitions emissions n_tokens n_frames n_decoded
                filled fits.square t x.blank prev lt blank in
            (
              candidate d x prev.lm_state prev.lex p score x.blank minus_one true ∷ [],
              rw (on, scored) refl,
              (
                (
                  (blank, inl refl, here.2, here.3),
                  (p, refl, prev, at, blanks prev.lex prev.token prev.word on),
                ),
                tt,
              ),
            )
      ]

      hypothesis_proposals-ok :
          (ys : List LexState) × (hypothesis_proposals d x emissions n_tokens n_decoded t cache p
              prev
            ≡ ok ys)
          × All (Proposal frame) ys
      unfolding hypothesis_proposals follow
      hypothesis_proposals-ok =
          let (inner, e, q) =
            concat_map-ok (Proposal frame) (λ k. k < n_tokens)
              (child_proposals d x emissions n_tokens n_decoded t cache p prev here.2)
              (top_tokens d emissions t n_tokens) (child_proposals-ok here.2 here.3)
              (top_tokens-All d fits.sound emissions t n_tokens) in
          let (same, e', q') = same_node_proposal-ok in
          let (blank, e'', q'') = blank_proposal-ok in
          (
            inner ++ same ++ blank,
            rw (here.3, follow, e, e', e'') refl,
            All-append (Proposal frame) (inner ++ same) blank
                (All-append (Proposal frame) inner same q q') q'',
          )

  module _ (fits : Fits) where
    pub propose_frame-IsProposing :
        (emissions : List S) (n_frames n_decoded : ℕ)
        → length emissions ≡ n_frames * n_tokens
        → IsProposing
            (IsPlace d x n_tokens)
            (IsMove d x n_tokens)
            d
            fits.sound
            (propose_frame d x emissions n_tokens n_decoded)
            n_frames
    unfolding propose_frame
    propose_frame-IsProposing emissions n_frames n_decoded filled t cache frame lt places =
        concat_from-ok (Proposal frame)
          (hypothesis_proposals d x emissions n_tokens n_decoded t cache) 0 frame
          (λ p prev at.
            subst
              (λ i.
                (ys : List LexState) × (hypothesis_proposals d x emissions n_tokens n_decoded t
                    cache i prev
                  ≡ ok ys)
                × All (Proposal frame) ys)
              (omega arith)
              (hypothesis_proposals-ok frame p prev at fits
                (All-get_elem? (λ st. IsPlace d x n_tokens (st.lex, st.token, st.word)) frame p prev
                  places at)
                emissions n_frames n_decoded t cache filled lt))

    end_proposal-ok :
        (cache : M) (nice : Bool) (frame : List LexState) (p : ℕ) (prev : LexState)
        → get_elem? frame p ≡ some prev
        → IsPlace d x n_tokens (prev.lex, prev.token, prev.word)
        → (ys : List LexState) × (end_proposal d x cache nice p prev ≡ ok ys)
          × All (Proposal frame) ys
    unfolding end_proposal
    end_proposal-ok cache nice frame p prev at here =
        elim (Bool-cases (not nice || is_root prev.lex)) [
          | inr off ↦ ([], rw off refl, tt)
          | inl on ↦
              let lm = d.lm.finish cache prev.lm_state in
              (
                candidate d x lm.0 prev.lex p (weighted d x prev.score lm.1) d.sil minus_one false
                    ∷ [],
                rw on refl,
                (
                  (
                    (fits.sil_token, inl refl, here.2, here.3),
                    (p, refl, prev, at, ends prev.lex prev.token prev.word),
                  ),
                  tt,
                ),
              )
        ]

    pub propose_end-IsProposing :
        IsProposing (IsPlace d x n_tokens) (IsMove d x n_tokens) d fits.sound (propose_end d x) 1
    unfolding propose_end
    propose_end-IsProposing t cache frame lt places =
        concat_from-ok (Proposal frame) (end_proposal d x cache (nice_ending d x frame)) 0 frame
          (λ p prev at.
            subst
              (λ i.
                (ys : List LexState) × (end_proposal d x cache (nice_ending d x frame) i prev
                  ≡ ok ys)
                × All (Proposal frame) ys)
              (omega arith)
              (end_proposal-ok cache (nice_ending d x frame) frame p prev at (
                All-get_elem? (λ st. IsPlace d x n_tokens (st.lex, st.token, st.word)) frame p prev
                  places at)))
