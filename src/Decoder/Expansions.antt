-- ===== src/Decoder/Expansions.antt =====
-- What LexiconSeq2SeqDecoder.cpp and LexiconFreeSeq2SeqDecoder.cpp of src/libraries/decoder propose for
-- a hypothesis that is not complete.
use wav2letter.Base.{
  ℕ, Bool, false, ◌&&◌, none, some, Option, List, [], ◌∷◌, ◌++◌, if◌then◌else◌, Result, ok, ◌>>=◌,
  ℤ, pos, minus_one, ◌=?◌, int_eq, list_eq,
}
use wav2letter.Trie.{TrieNode, children, labels, max_score, find_child}
use wav2letter.Decoder.Buffer.{read}
use wav2letter.Decoder.State.{Lm, State, Setup}
use wav2letter.Decoder.Proposals.{concat_map}
use wav2letter.Decoder.Lexicon.{follow, is_root}
use wav2letter.Decoder.Seq2Seq.{AmUpdate, SeqDecoder, Expand, seq_step}

module _ {ℓ κ μ α ν} {S : Type ℓ} {L : Type κ} {X : Type μ} {A : Type α} {M : Type ν}
    (d : Setup S L (X × Option A) M) where
  abbrev pub seq_candidate : L → X → ℕ → S → ℤ → ℤ → Option A → State S L (X × Option A)
  seq_candidate lm_state lex p score token word am_state = record {
    lm_state = lm_state;
    lex = (lex, am_state);
    parent = some p;
    score = score;
    token = token;
    word = word;
    prev_blank = false;
  }

  abbrev pub seq_weighted : S → S → S
  seq_weighted score lm_score = d.numbers.plus score (d.numbers.times d.opt.lm_weight lm_score)

-- Two hypotheses that `mergeCandidates` of LexiconFreeSeq2SeqDecoder takes for one.
unfoldable pub same_free_output {ℓ κ μ ν} :
    {S : Type ℓ} {L : Type κ} {X : Type μ} {M : Type ν}
    → Lm S L M
    → State S L X
    → State S L X
    → Bool
same_free_output lm a b = lm.same_state a.lm_state b.lm_state

-- The same for LexiconSeq2SeqDecoder.
unfoldable pub same_output {ℓ κ α ν} :
    {S : Type ℓ} {L : Type κ} {A : Type α} {M : Type ν}
    → Lm S L M
    → State S L (List ℤ × Option A)
    → State S L (List ℤ × Option A)
    → Bool
same_output lm a b =
    lm.same_state a.lm_state b.lm_state && (a.lex.0 =? b.lex.0) && (a.token =? b.token)

module _ {ℓ κ α ν} {S : Type ℓ} {L : Type κ} {A : Type α} {M : Type ν}
    (d : Setup S L (Unit {0} × Option A) M) (eos : ℤ) where
  unfoldable pub free_next :
      M → ℕ → State S L (Unit {0} × Option A) → Option A → ℤ → S → State S L (Unit {0} × Option A)
  free_next cache p prev out_state n score =
      let at_end = d.lm.finish cache prev.lm_state in
      let next = d.lm.score cache prev.lm_state n in
      if n =? eos
      then seq_candidate d at_end.0 tt p
          (seq_weighted d (d.numbers.plus score d.opt.eos_score) at_end.1) n minus_one none
      else seq_candidate d next.0 tt p (seq_weighted d score next.1) n minus_one out_state

  unfoldable pub free_token :
      M
      → ℕ
      → State S L (Unit {0} × Option A)
      → Option A
      → List S
      → ℕ
      → Result (List (State S L (Unit {0} × Option A)))
  free_token cache p prev out_state scores n = do
    score ← read scores n
    ok (free_next cache p prev out_state (pos n) (d.numbers.plus prev.score score) ∷ [])

  unfoldable pub free_expand : Expand d eos
  free_expand cache p prev out_state scores tokens =
      concat_map (free_token cache p prev out_state scores) tokens

module _ {ℓ κ α ν} {S : Type ℓ} {L : Type κ} {A : Type α} {M : Type ν}
    (d : Setup S L (List ℤ × Option A) M) (eos : ℤ) (trie : TrieNode S) (is_lm_token : Bool) where
  -- (1) The end of the sentence, at the root only.
  unfoldable pub eos_proposals :
      M → ℕ → State S L (List ℤ × Option A) → S → ℤ → S → List (State S L (List ℤ × Option A))
  eos_proposals cache p prev lex_max n score =
      let lm = d.lm.finish cache prev.lm_state in
      let lm_score = (if is_lm_token then lm.1 else d.numbers.scores.minus lm.1 lex_max) in
      if (n =? eos) && is_root prev.lex.0
      then seq_candidate d lm.0 [] p
          (seq_weighted d (d.numbers.plus score d.opt.eos_score) lm_score) n minus_one none
        ∷ []
      else []

  -- The words of a node; with a language model on tokens only the first of them.
  unfoldable pub seq_words :
      M
      → ℕ
      → State S L (List ℤ × Option A)
      → S
      → List ℤ
      → ℤ
      → S
      → L × S
      → Option A
      → List (State S L (List ℤ × Option A))
  seq_words cache p prev lex_max [] n score token_lm out_state = []
  seq_words cache p prev lex_max (word ∷ rest) n score token_lm out_state =
      let more = seq_words cache p prev lex_max rest n score token_lm out_state in
      let word_lm = d.lm.score cache prev.lm_state word in
      let lm =
        (if is_lm_token then token_lm else (word_lm.0, d.numbers.scores.minus word_lm.1 lex_max)) in
      seq_candidate d lm.0 [] p (seq_weighted d (d.numbers.plus score d.opt.word_score) lm.1) n word
        out_state
      ∷ (if is_lm_token then [] else more)

  -- (2) A token that leads to a child.
  unfoldable pub token_proposals :
      M
      → ℕ
      → State S L (List ℤ × Option A)
      → S
      → TrieNode S
      → ℤ
      → S
      → Option A
      → List (State S L (List ℤ × Option A))
  token_proposals cache p prev lex_max prev_node n score out_state =
      let token_lm = d.lm.score cache prev.lm_state n in
      elim (find_child n (children prev_node)) [
        | none ↦ []
        | some lex ↦
            let lm =
              (if is_lm_token
                then token_lm
                else (prev.lm_state, d.numbers.scores.minus (max_score lex) lex_max)) in
            seq_candidate d lm.0 (prev.lex.0 ++ n ∷ []) p (seq_weighted d score lm.1) n minus_one
              out_state
            ∷ seq_words cache p prev lex_max (labels lex) n score lm out_state
      ]

  unfoldable pub lexicon_token :
      M
      → ℕ
      → State S L (List ℤ × Option A)
      → TrieNode S
      → Option A
      → List S
      → ℕ
      → Result (List (State S L (List ℤ × Option A)))
  lexicon_token cache p prev prev_node out_state scores token =
      let n = pos token in
      let lex_max = (if is_root prev.lex.0 then d.numbers.zero_score else max_score prev_node) in
      do
        am_score ← read scores token
        let score = d.numbers.plus prev.score am_score
        ok (
            eos_proposals cache p prev lex_max n score
            ++ (if n =? eos
                then []
                else token_proposals cache p prev lex_max prev_node n score out_state))

  unfoldable pub lexicon_expand : Expand d eos
  lexicon_expand cache p prev out_state scores tokens = do
    prev_node ← follow prev.lex.0 trie
    concat_map (lexicon_token cache p prev prev_node out_state scores) tokens

  -- `decodeStep` of LexiconSeq2SeqDecoder.
  abbrev pub lexicon_seq_step :
      AmUpdate S A
      → ℕ
      → SeqDecoder S L (List ℤ × Option A) M
      → Result (SeqDecoder S L (List ℤ × Option A) M)
  lexicon_seq_step am_update max_output_length c =
      seq_step d eos lexicon_expand am_update max_output_length c
