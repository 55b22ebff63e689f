-- ===== src/Decoder/Lexicon.antt =====
-- src/libraries/decoder/LexiconDecoder.h and LexiconDecoder.cpp: what the decoder with a lexicon
-- proposes for a hypothesis. The pointer into the trie is the path from the root to the node, so
-- that two pointers are equal if their paths are.
use wav2letter.Base.{
  ℕ, ◌-◌, Bool, true, false, not, ◌&&◌, ◌||◌, Option, none, some, List, [], ◌∷◌, ◌++◌, ltb,
  if◌then◌else◌, Result, ok, err, fatal, ◌>>=◌, ℤ, pos, minus_one, is_negative, ◌=?◌, int_eq,
  list_eq,
}
use wav2letter.Beam.{Node, DecodeResult}
use wav2letter.Trie.{TrieNode, no_child, child, children, labels, max_score, find_child}
use wav2letter.Decoder.Proposals.{concat_map, concat_from, emission_score, token_score}
use wav2letter.Decoder.State.{is_ctc, DecoderOptions, Numbers, Lm, State, Sorts, Setup, Decoder}
use wav2letter.Decoder.Online.{
  top_tokens, decode_begin, decode_step, decode_end, best_hypothesis, all_final_hypothesis,
}

-- `isComplete` of `LexiconDecoderState`.
abbrev pub is_complete {ℓ} : {S : Type ℓ} → List (Node S) → Bool
is_complete [] = true
is_complete (node ∷ []) = true
is_complete (node ∷ parent ∷ chain) = not (is_negative parent.word)

abbrev pub is_root : List ℤ → Bool
is_root [] = true
is_root (i ∷ path) = false

unfoldable pub node_at {ℓ} : {S : Type ℓ} → List ℤ → TrieNode S → Option (TrieNode S)
node_at [] n = some n
node_at (i ∷ path) n = elim (find_child i (children n)) [
  | none ↦ none
  | some next ↦ node_at path next
]

-- A pointer into the trie, followed.
unfoldable pub follow {ℓ} : {S : Type ℓ} → List ℤ → TrieNode S → Result (TrieNode S)
follow path n = elim (node_at path n) [ none ↦ err fatal | some next ↦ ok next ]

abbrev pub is_leaf {ℓ} : {S : Type ℓ} → TrieNode S → Bool
is_leaf n = elim (children n) [ no_child ↦ true | child i next cs ↦ false ]

abbrev pub no_labels : List ℤ → Bool
no_labels [] = true
no_labels (l ∷ ls) = false

-- The members of LexiconDecoder that LexiconFreeDecoder does not have.
pub record Lexicon {ℓ} (S : Type ℓ) : Type ℓ where
  pub trie : TrieNode S
  pub blank : ℤ
  pub unk : ℤ
  pub transitions : List S
  pub is_lm_token : Bool

-- Two hypotheses that `mergeCandidates` takes for one.
unfoldable pub same_hypothesis {ℓ κ ν} :
    {S : Type ℓ} {L : Type κ} {M : Type ν}
    → Lm S L M
    → State S L (List ℤ)
    → State S L (List ℤ)
    → Bool
same_hypothesis lm a b =
    lm.same_state a.lm_state b.lm_state
    && (a.lex =? b.lex)
    && (a.token =? b.token)
    && (if a.prev_blank then b.prev_blank else not b.prev_blank)

abbrev pub setup {ℓ κ ν} :
    {S : Type ℓ} {L : Type κ} {M : Type ν}
    → Numbers S
    → Lm S L M
    → DecoderOptions S
    → ℤ
    → Sorts S (State S L (List ℤ))
    → Setup S L (List ℤ) M
setup numbers lm opt sil sorts = record {
  numbers = numbers;
  lm = lm;
  opt = opt;
  sil = sil;
  sorts = sorts;
  root = [];
  same = same_hypothesis lm;
  is_complete = is_complete;
}

module _ {ℓ κ ν} {S : Type ℓ} {L : Type κ} {M : Type ν} (d : Setup S L (List ℤ) M)
    (x : Lexicon S) where
  -- The candidate that `candidatesAdd` makes of its arguments.
  abbrev pub candidate : L → List ℤ → ℕ → S → ℤ → ℤ → Bool → State S L (List ℤ)
  candidate lm_state lex p score token word prev_blank = record {
    lm_state = lm_state;
    lex = lex;
    parent = some p;
    score = score;
    token = token;
    word = word;
    prev_blank = prev_blank;
  }

  abbrev pub weighted : S → S → S
  weighted score lm_score = d.numbers.plus score (d.numbers.times d.opt.lm_weight lm_score)

  -- `lexMaxScore`
  unfoldable pub lex_max_score : List ℤ → TrieNode S → S
  lex_max_score path n = if is_root path then d.numbers.zero_score else max_score n

  -- The state and the score of the language model for a whole word `label`.
  unfoldable pub word_lm : M → State S L (List ℤ) → S → ℤ → L × S → L × S
  word_lm cache prev lex_max label token_lm = if x.is_lm_token then token_lm else (
    (d.lm.score cache prev.lm_state label).0,
    d.numbers.scores.minus (d.lm.score cache prev.lm_state label).1 lex_max,
  )

  -- A new token is eaten up.
  unfoldable pub inner_proposals :
      ℕ → State S L (List ℤ) → S → TrieNode S → ℤ → S → L × S → List (State S L (List ℤ))
  inner_proposals p prev lex_max lex n score token_lm =
      let smeared =
        (if x.is_lm_token
          then token_lm
          else (prev.lm_state, d.numbers.scores.minus (max_score lex) lex_max)) in
      if (not (is_ctc d.opt.criterion_type) || prev.prev_blank || not (n =? prev.token))
        && not (is_leaf lex)
      then candidate smeared.0 (prev.lex ++ n ∷ []) p (weighted score smeared.1) n minus_one false
        ∷ []
      else []

  -- A true word.
  unfoldable pub word_proposals :
      M → ℕ → State S L (List ℤ) → S → List ℤ → ℤ → S → L × S → List (State S L (List ℤ))
  word_proposals cache p prev lex_max [] n score token_lm = []
  word_proposals cache p prev lex_max (label ∷ rest) n score token_lm =
      let lm = word_lm cache prev lex_max label token_lm in
      candidate lm.0 [] p (d.numbers.plus (weighted score lm.1) d.opt.word_score) n label false
      ∷ word_proposals cache p prev lex_max rest n score token_lm

  -- An unknown word.
  unfoldable pub unknown_proposals :
      M → ℕ → State S L (List ℤ) → S → TrieNode S → ℤ → S → L × S → List (State S L (List ℤ))
  unknown_proposals cache p prev lex_max lex n score token_lm =
      let lm = word_lm cache prev lex_max x.unk token_lm in
      if no_labels (labels lex) && d.numbers.greater d.opt.unk_score d.numbers.scores.lowest
      then candidate lm.0 [] p (d.numbers.plus (weighted score lm.1) d.opt.unk_score) n x.unk false
        ∷ []
      else []

  -- The end of a frame: `decodeEnd` for one hypothesis.
  unfoldable pub end_proposal :
      M → Bool → ℕ → State S L (List ℤ) → Result (List (State S L (List ℤ)))
  end_proposal cache has_nice_ending p prev =
      let lm = d.lm.finish cache prev.lm_state in
      ok (
        if not has_nice_ending || is_root prev.lex
        then candidate lm.0 prev.lex p (weighted prev.score lm.1) d.sil minus_one false ∷ []
        else [])

  unfoldable pub nice_ending : List (State S L (List ℤ)) → Bool
  nice_ending [] = false
  nice_ending (prev ∷ frame) = is_root prev.lex || nice_ending frame

  unfoldable pub propose_end :
      ℕ → M → List (State S L (List ℤ)) → Result (List (State S L (List ℤ)))
  propose_end t cache frame = concat_from (end_proposal cache (nice_ending frame)) 0 frame

  module _ (emissions : List S) (n_tokens n_decoded t : ℕ) (cache : M) where
    -- (1) The child for one token.
    unfoldable pub child_proposals :
        ℕ → State S L (List ℤ) → TrieNode S → ℕ → Result (List (State S L (List ℤ)))
    child_proposals p prev prev_node token = elim (find_child (pos token) (children prev_node)) [
      | none ↦ ok []
      | some lex ↦ (do
        score ← token_score d x.transitions emissions n_tokens n_decoded t (pos token) prev
        let lex_max = lex_max_score prev.lex prev_node
        let token_lm = d.lm.score cache prev.lm_state (pos token)
        ok (
            inner_proposals p prev lex_max lex (pos token) score token_lm
            ++ word_proposals cache p prev lex_max (labels lex) (pos token) score token_lm
            ++ unknown_proposals cache p prev lex_max lex (pos token) score token_lm))
    ]

    -- (2) The same node of the lexicon.
    unfoldable pub same_node_proposal : ℕ → State S L (List ℤ) → Result (List (State S L (List ℤ)))
    same_node_proposal p prev =
        if not (is_ctc d.opt.criterion_type) || not prev.prev_blank
        then (do
          score ← token_score d x.transitions emissions n_tokens n_decoded t prev.token prev
          ok (candidate prev.lm_state prev.lex p score prev.token minus_one false ∷ []))
        else ok []

    -- (3) With CTC only, the blank.
    unfoldable pub blank_proposal : ℕ → State S L (List ℤ) → Result (List (State S L (List ℤ)))
    blank_proposal p prev =
        if is_ctc d.opt.criterion_type
        then (do
          score ← emission_score d x.transitions emissions n_tokens n_decoded t x.blank prev
          ok (candidate prev.lm_state prev.lex p score x.blank minus_one true ∷ []))
        else ok []

    unfoldable pub hypothesis_proposals :
        ℕ → State S L (List ℤ) → Result (List (State S L (List ℤ)))
    hypothesis_proposals p prev = do
      prev_node ← follow prev.lex x.trie
      inner ← concat_map (child_proposals p prev prev_node) (top_tokens d emissions t n_tokens)
      same ← same_node_proposal p prev
      blank ← blank_proposal p prev
      ok (inner ++ same ++ blank)

  -- The proposals of frame `t`, in the order of the calls of `candidatesAdd`.
  unfoldable pub propose_frame :
      List S → ℕ → ℕ → ℕ → M → List (State S L (List ℤ)) → Result (List (State S L (List ℤ)))
  propose_frame emissions n_tokens n_decoded t cache frame =
      concat_from (hypothesis_proposals emissions n_tokens n_decoded t cache) 0 frame

  unfoldable pub step : List S → ℕ → ℕ → Decoder S L (List ℤ) M → Result (Decoder S L (List ℤ) M)
  step emissions n_frames n_tokens c =
      decode_step d (propose_frame emissions n_tokens c.n_decoded) n_frames c

  unfoldable pub finish : Decoder S L (List ℤ) M → Result (Decoder S L (List ℤ) M)
  finish c = decode_end d propose_end c

  -- `getBestHypothesis` and `getAllFinalHypothesis` test first whether a frame was decoded.
  unfoldable pub get_best_hypothesis : Decoder S L (List ℤ) M → ℕ → Result (DecodeResult S)
  get_best_hypothesis c look_back =
      if ltb (c.n_decoded - c.n_pruned - look_back) 1
      then ok (record { score = d.numbers.zero_score; words = []; tokens = [] })
      else best_hypothesis d c look_back

  unfoldable pub get_all_final_hypothesis : Decoder S L (List ℤ) M → Result (List (DecodeResult S))
  get_all_final_hypothesis c =
      if ltb (c.n_decoded - c.n_pruned) 1 then ok [] else all_final_hypothesis d c

  -- `decode` of Decoder.h, of all emissions at once.
  unfoldable pub decode : List S → ℕ → ℕ → Result (List (DecodeResult S))
  decode emissions n_frames n_tokens = do
    stepped ← step emissions n_frames n_tokens (decode_begin d)
    finished ← finish stepped
    get_all_final_hypothesis finished
