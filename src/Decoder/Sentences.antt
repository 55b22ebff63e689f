-- ===== src/Decoder/Sentences.antt =====
-- The sentences of LexiconSeq2SeqDecoder.cpp in src/libraries/decoder: spelt in the lexicon, and closed
-- by the first end of sentence.
use mathlib.Core.List.{Memᴰ}
use mathlib.Core.List.Memᴰ.{head, tail}
use wav2letter.Base.{
  ℕ, ◌<◌, ◌≡◌, ◌⊎◌, refl, sym, subst, inl, inr, Bool, true, false, Option, none, some, List, [],
  ◌∷◌, ◌++◌, length, get_elem?, if◌then◌else◌, ok, ℤ, pos, minus_one, ◌=?◌, int_eq, nat_eq, All,
  All-append, Bool-cases, Option-cases,
}
use wav2letter.Beam.{DecodeResult}
use wav2letter.Trie.{TrieNode, children, labels, max_score, find_child}
use wav2letter.Decoder.State.{Setup}
use wav2letter.Decoder.Frames.{Place}
use wav2letter.Decoder.Valid.{IsSound, IsProposal}
use wav2letter.Decoder.Proposed.{concat_map-ok, read-ok}
use wav2letter.Decoder.Lexicon.{node_at, follow, is_root}
use wav2letter.Decoder.Seq2Seq.{AmUpdate, SeqDecoder, SeqState, seq_all_final, seq_best}
use wav2letter.Decoder.Rounds.{IsAmUpdate, IsExpanding}
use wav2letter.Decoder.Moves.{node_at-child}
use wav2letter.Decoder.Outputs.{IsOutput, seq_step-IsFinal, seq_results-ok}
use wav2letter.Decoder.Expansions.{
  eos_proposals, seq_words, token_proposals, lexicon_token, lexicon_expand, lexicon_seq_step,
}

module _ {ℓ κ α ν} {S : Type ℓ} {L : Type κ} {A : Type α} {M : Type ν}
    (d : Setup S L (List ℤ × Option A) M) (sound : IsSound d) (eos : ℤ) (trie : TrieNode S)
    (is_lm_token : Bool) where
  -- -1, or a label of the lexicon.
  abbrev pub IsLabel : ℤ → Type ℓ
  IsLabel word =
      (word ≡ minus_one)
      ⊎ ((path : List ℤ) × (nd : TrieNode S) × (node_at path trie ≡ some nd)
          × Memᴰ word (labels nd))

  pub record IsSeqPlace (x : Place (List ℤ × Option A)) : Type (ℓ ⊔ α) where
    pub label : IsLabel x.2
    pub node : TrieNode S
    pub found : node_at x.0.0 trie ≡ some node

  -- One round: after the end of the sentence nothing follows but the end again; the end comes at the
  -- root of the lexicon only; another token leads to a child, and may complete one of its labels.
  pub data IsSeqMove : Place (List ℤ × Option A) → Place (List ℤ × Option A) → Type (ℓ ⊔ α) where
    stops :
        (path : List ℤ) (am : Option A) (token word : ℤ)
        → (token =? eos) ≡ true
        → IsSeqMove ((path, am), token, word) ((path, none), eos, minus_one)
    ends :
        (path : List ℤ) (am : Option A) (token word next : ℤ)
        → (token =? eos) ≡ false
        → is_root path ≡ true
        → (next =? eos) ≡ true
        → IsSeqMove ((path, am), token, word) (([], none), next, minus_one)
    spells :
        (path : List ℤ) (am am' : Option A) (token word next : ℤ) (nd : TrieNode S)
        → (token =? eos) ≡ false
        → (next =? eos) ≡ false
        → node_at (path ++ next ∷ []) trie ≡ some nd
        → IsSeqMove ((path, am), token, word) ((path ++ next ∷ [], am'), next, minus_one)
    speaks :
        (path : List ℤ) (am am' : Option A) (token word next label : ℤ) (nd : TrieNode S)
        → (token =? eos) ≡ false
        → (next =? eos) ≡ false
        → node_at (path ++ next ∷ []) trie ≡ some nd
        → Memᴰ label (labels nd)
        → IsSeqMove ((path, am), token, word) (([], am'), next, label)

  -- A result of at most `max_output_length` rounds.
  abbrev pub IsSentence : ℕ → ℕ → DecodeResult S → Type (ℓ ⊔ α)
  IsSentence max_output_length size r = IsOutput IsSeqPlace IsSeqMove max_output_length size r

  abbrev SeqProposal : List (SeqState d eos) → SeqState d eos → Type (ℓ ⊔ κ ⊔ α)
  SeqProposal frame st = IsProposal IsSeqPlace IsSeqMove frame st

  module _ (frame : List (SeqState d eos)) (p : ℕ) (prev : SeqState d eos)
      (at : get_elem? frame p ≡ some prev) (going : (prev.token =? eos) ≡ false) where
    eos_proposals-All :
        (cache : M) (lex_max : S) (n : ℤ) (score : S)
        → All
            (SeqProposal frame)
            (eos_proposals d eos trie is_lm_token cache p prev lex_max n score)
    unfolding eos_proposals node_at
    eos_proposals-All cache lex_max n score = elim (Bool-cases (n =? eos)) [
      | inr other ↦ rw other tt
      | inl is_end ↦ elim (Bool-cases (is_root prev.lex.0)) [
        | inr inside ↦ rw (is_end, inside) tt
        | inl root ↦
            rw (is_end, root)
              (
                (
                  record { label = inl refl; node = trie; found = refl },
                  (
                    p,
                    refl,
                    prev,
                    at,
                    ends prev.lex.0 prev.lex.1 prev.token prev.word n going root is_end,
                  ),
                ),
                tt,
              )
      ]
    ]

    module _ (n : ℤ) (fresh : (n =? eos) ≡ false) (lex : TrieNode S)
        (found : node_at (prev.lex.0 ++ n ∷ []) trie ≡ some lex) where
      seq_words-All :
          (cache : M) (lex_max : S) (ls : List ℤ) (score : S) (lm : L × S) (out : Option A)
          → ((l : ℤ) → Memᴰ l ls → Memᴰ l (labels lex))
          → All
              (SeqProposal frame)
              (seq_words d eos trie is_lm_token cache p prev lex_max ls n score lm out)
      unfolding seq_words node_at
      seq_words-All cache lex_max [] score lm out sub = tt
      seq_words-All cache lex_max (l ∷ ls) score lm out sub =
          let label = sub l (head refl) in
          let others = seq_words-All cache lex_max ls score lm out (λ l' mem. sub l' (tail mem)) in
          (
            (
              record {
                label = inr (prev.lex.0 ++ n ∷ [], lex, found, label);
                node = trie;
                found = refl;
              },
              (
                p,
                refl,
                prev,
                at,
                speaks prev.lex.0 prev.lex.1 out prev.token prev.word n l lex going fresh found
                    label,
              ),
            ),
            elim (Bool-cases is_lm_token) [ inl on ↦ rw on tt | inr off ↦ rw off others ],
          )

    token_proposals-All :
        (cache : M) (lex_max : S) (prev_node : TrieNode S) (n : ℤ) (score : S) (out : Option A)
        → (n =? eos) ≡ false
        → node_at prev.lex.0 trie ≡ some prev_node
        → All
            (SeqProposal frame)
            (token_proposals d eos trie is_lm_token cache p prev lex_max prev_node n score out)
    unfolding token_proposals
    token_proposals-All cache lex_max prev_node n score out fresh e =
        elim (Option-cases (find_child n (children prev_node))) [
          | inl missing ↦ rw (missing, token_proposals) tt
          | inr (lex, child) ↦
              let found = node_at-child prev.lex.0 n trie prev_node lex e child in
              rw (child, token_proposals)
                (
                  (
                    record { label = inl refl; node = lex; found = found },
                    (
                      p,
                      refl,
                      prev,
                      at,
                      spells prev.lex.0 prev.lex.1 out prev.token prev.word n lex going fresh found,
                    ),
                  ),
                  seq_words-All n fresh lex found cache lex_max (labels lex) score _ out
                      (λ l mem. mem),
                )
        ]

    lexicon_token-ok :
        (cache : M) (prev_node : TrieNode S) (out : Option A) (scores : List S) (k : ℕ)
        → node_at prev.lex.0 trie ≡ some prev_node
        → k < length scores
        → (ys : List (SeqState d eos)) × (lexicon_token d eos trie is_lm_token cache p prev
              prev_node out scores k
            ≡ ok ys)
          × All (SeqProposal frame) ys
    unfolding lexicon_token
    lexicon_token-ok cache prev_node out scores k e lt =
        let (am_score, read_it) = read-ok scores k lt in
        let lex_max = (if is_root prev.lex.0 then d.numbers.zero_score else max_score prev_node) in
        let score = d.numbers.plus prev.score am_score in
        let at_end = eos_proposals-All cache lex_max (pos k) score in
        elim (Bool-cases (pos k =? eos)) [
          | inl is_end ↦ (
            eos_proposals d eos trie is_lm_token cache p prev lex_max (pos k) score ++ [],
            rw (read_it, is_end) refl,
            All-append (SeqProposal frame) _ [] at_end tt,
          )
          | inr fresh ↦ (
            eos_proposals d eos trie is_lm_token cache p prev lex_max (pos k) score
                ++ token_proposals d eos trie is_lm_token cache p prev lex_max prev_node (pos k)
                    score out,
            rw (read_it, fresh) refl,
            All-append (SeqProposal frame) _ _ at_end
                (token_proposals-All cache lex_max prev_node (pos k) score out fresh e),
          )
        ]

  lexicon_expand-IsExpanding :
      IsExpanding d sound eos IsSeqPlace IsSeqMove (lexicon_expand d eos trie is_lm_token)
  unfolding lexicon_expand follow
  lexicon_expand-IsExpanding = record {
    keeps = λ st here complete. (
      record { label = inl refl; node = here.node; found = here.found },
      stops st.lex.0 st.lex.1 st.token st.word complete,
    );
    expands = λ cache frame p st am_state scores tokens at here going below.
        rw (here.found, follow)
          (concat_map-ok (SeqProposal frame) (λ k. k < length scores)
            (lexicon_token d eos trie is_lm_token cache p st here.node (some am_state) scores)
            tokens
            (λ k lt.
              lexicon_token-ok frame p st at going cache here.node (some am_state) scores k
                here.found lt)
            below);
  }

  -- `decodeStep` of the attention decoder with a lexicon returns for any state before it, and then
  -- `getAllFinalHypothesis` and `getBestHypothesis` do. Each result is a walk of at most
  -- `maxOutputLength` rounds, with -1 before it: the tokens lead through the trie, each word is a
  -- label of the node that its token reaches, the end of the sentence comes at the root only, and
  -- nothing but the end follows it. Conditions: the acoustic model answers for each hypothesis with
  -- the same number of scores, a hypothesis starts at the root, the threshold is not negative, no
  -- score is a NaN, and for no score does the conversion to `float` of the score less the threshold
  -- give more than that score, and the sorts are permutations.
  pub sentences_lem :
      (am_update : AmUpdate S A) (n_classes max_output_length : ℕ)
      (c : SeqDecoder S L (List ℤ × Option A) M)
      → IsAmUpdate n_classes am_update
      → d.root.0 ≡ []
      → (c' : SeqDecoder S L (List ℤ × Option A) M) × (lexicon_seq_step d eos trie is_lm_token
            am_update max_output_length c
          ≡ ok c')
        × ((rs : List (DecodeResult S)) × (seq_all_final d eos max_output_length c' ≡ ok rs)
            × All (IsSentence max_output_length (length c'.hyps)) rs)
        × ((r : DecodeResult S) × (seq_best d eos max_output_length c' ≡ ok r)
            × IsSentence max_output_length (length c'.hyps) r)
  unfolding node_at
  sentences_lem am_update n_classes max_output_length c is_am root =
      let expand = lexicon_expand d eos trie is_lm_token in
      let start : IsSeqPlace (d.root, d.sil, minus_one) = record {
        label = inl refl;
        node = trie;
        found = subst (λ path. node_at path trie ≡ some trie) (sym root) refl;
      } in
      let (c', done, final) =
        seq_step-IsFinal d sound eos IsSeqPlace IsSeqMove expand lexicon_expand-IsExpanding
          am_update n_classes is_am max_output_length c start in
      let (all, best) =
        seq_results-ok d sound eos IsSeqPlace IsSeqMove expand lexicon_expand-IsExpanding am_update
          n_classes is_am max_output_length c' final in
      (c', done, all, best)
