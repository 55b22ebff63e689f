-- ===== src/Decoder/Free.antt =====
-- src/libraries/decoder/LexiconFreeDecoder.h and LexiconFreeDecoder.cpp: what the decoder without a
-- lexicon proposes for a hypothesis. The place in the lexicon is the unit; no hypothesis has a word.
use wav2letter.Base.{
  ℕ, Bool, true, false, not, ◌&&◌, ◌||◌, some, List, [], ◌∷◌, if◌then◌else◌, Result, ok, ◌>>=◌, ℤ,
  pos, minus_one, ◌=?◌, int_eq,
}
use wav2letter.Beam.{DecodeResult}
use wav2letter.Decoder.State.{
  is_asg, is_ctc, DecoderOptions, Numbers, Lm, State, Sorts, Setup, Decoder,
}
use wav2letter.Decoder.Online.{
  top_tokens, decode_begin, decode_step, decode_end, prune, best_hypothesis, all_final_hypothesis,
}
use wav2letter.Decoder.Proposals.{concat_map, concat_from, token_score}

-- `LexiconFreeDecoderState`
abbrev pub FreeState {ℓ κ} : Type ℓ → Type κ → Type (ℓ ⊔ κ)
FreeState S L = State S L (Unit {0})

unfoldable pub same_free_hypothesis {ℓ κ ν} :
    {S : Type ℓ} {L : Type κ} {M : Type ν} → Lm S L M → FreeState S L → FreeState S L → Bool
same_free_hypothesis lm a b =
    lm.same_state a.lm_state b.lm_state
    && (a.token =? b.token)
    && (if a.prev_blank then b.prev_blank else not b.prev_blank)

abbrev pub free_setup {ℓ κ ν} :
    {S : Type ℓ} {L : Type κ} {M : Type ν}
    → Numbers S
    → Lm S L M
    → DecoderOptions S
    → ℤ
    → Sorts S (FreeState S L)
    → Setup S L (Unit {0}) M
free_setup numbers lm opt sil sorts = record {
  numbers = numbers;
  lm = lm;
  opt = opt;
  sil = sil;
  sorts = sorts;
  root = tt;
  same = same_free_hypothesis lm;
  is_complete = λ chain. true;
}

module _ {ℓ κ ν} {S : Type ℓ} {L : Type κ} {M : Type ν} (d : Setup S L (Unit {0}) M) (blank : ℤ)
    (transitions : List S) where
  abbrev pub free_candidate : L → ℕ → S → ℤ → Bool → FreeState S L
  free_candidate lm_state p score token prev_blank = record {
    lm_state = lm_state;
    lex = tt;
    parent = some p;
    score = score;
    token = token;
    word = minus_one;
    prev_blank = prev_blank;
  }

  -- The test for a token that the language model scores.
  unfoldable pub is_new_token : ℤ → FreeState S L → Bool
  is_new_token n prev =
      (is_asg d.opt.criterion_type && not (n =? prev.token))
      || (is_ctc d.opt.criterion_type
          && not (n =? blank)
          && (not (n =? prev.token) || prev.prev_blank))

  unfoldable pub free_proposal : M → ℕ → FreeState S L → ℤ → S → FreeState S L
  free_proposal cache p prev n score =
      let lm = d.lm.score cache prev.lm_state n in
      if is_new_token n prev
      then free_candidate lm.0 p (d.numbers.plus score (d.numbers.times lm.1 d.opt.lm_weight)) n
          false
      else if is_ctc d.opt.criterion_type && (n =? blank)
      then free_candidate prev.lm_state p score n true
      else free_candidate prev.lm_state p score n false

  unfoldable pub free_end_proposal : M → ℕ → FreeState S L → Result (List (FreeState S L))
  free_end_proposal cache p prev =
      let lm = d.lm.finish cache prev.lm_state in
      ok (
        free_candidate lm.0 p (d.numbers.plus prev.score (d.numbers.times d.opt.lm_weight lm.1))
          d.sil false
        ∷ [])

  unfoldable pub free_propose_end : ℕ → M → List (FreeState S L) → Result (List (FreeState S L))
  free_propose_end t cache frame = concat_from (free_end_proposal cache) 0 frame

  module _ (emissions : List S) (n_tokens n_decoded t : ℕ) (cache : M) where
    unfoldable pub free_token_proposal : ℕ → FreeState S L → ℕ → Result (List (FreeState S L))
    free_token_proposal p prev token = do
      score ← token_score d transitions emissions n_tokens n_decoded t (pos token) prev
      ok (free_proposal cache p prev (pos token) score ∷ [])

    unfoldable pub free_hypothesis_proposals : ℕ → FreeState S L → Result (List (FreeState S L))
    free_hypothesis_proposals p prev =
        concat_map (free_token_proposal p prev) (top_tokens d emissions t n_tokens)

  -- The proposals of frame `t`, in the order of the calls of `candidatesAdd`.
  unfoldable pub free_propose_frame :
      List S → ℕ → ℕ → ℕ → M → List (FreeState S L) → Result (List (FreeState S L))
  free_propose_frame emissions n_tokens n_decoded t cache frame =
      concat_from (free_hypothesis_proposals emissions n_tokens n_decoded t cache) 0 frame

  unfoldable pub free_step :
      List S → ℕ → ℕ → Decoder S L (Unit {0}) M → Result (Decoder S L (Unit {0}) M)
  free_step emissions n_frames n_tokens c =
      decode_step d (free_propose_frame emissions n_tokens c.n_decoded) n_frames c

  unfoldable pub free_finish : Decoder S L (Unit {0}) M → Result (Decoder S L (Unit {0}) M)
  free_finish c = decode_end d free_propose_end c

  -- The members that LexiconDecoder has with the same words. `getBestHypothesis` and
  -- `getAllFinalHypothesis` do not test whether a frame was decoded.
  abbrev pub free_begin : Decoder S L (Unit {0}) M
  free_begin = decode_begin d

  abbrev pub free_prune : Decoder S L (Unit {0}) M → ℕ → Result (Decoder S L (Unit {0}) M)
  free_prune c look_back = prune d c look_back

  abbrev pub free_best_hypothesis : Decoder S L (Unit {0}) M → ℕ → Result (DecodeResult S)
  free_best_hypothesis c look_back = best_hypothesis d c look_back

  abbrev pub free_all_final_hypothesis : Decoder S L (Unit {0}) M → Result (List (DecodeResult S))
  free_all_final_hypothesis c = all_final_hypothesis d c
