-- ===== src/Decoder/Seq2Seq.antt =====
-- What LexiconSeq2SeqDecoder.cpp and LexiconFreeSeq2SeqDecoder.cpp of src/libraries/decoder have in
-- common: the output tokens are decoded one by one, up to a greatest length, and the acoustic model
-- is asked for the scores of the next token. The acoustic state of a hypothesis stands beside its
-- place in the lexicon; the null pointer is `none`. The update function of the acoustic model is a
-- parameter, and leaves the number of the round as it is.
use wav2letter.Base.{
  map_result, ℕ, zero, suc, ◌+◌, Bool, true, false, Option, none, some, List, [], ◌∷◌, ◌++◌, length,
  get_or, take, min, ltb, leb, if◌then◌else◌, Result, ok, err, guard, fatal, ◌>>=◌, ◌>>◌, ℤ,
  minus_one, ◌=?◌, int_eq, assign, nat_eq,
}
use wav2letter.Beam.{Node, DecodeResult, get_hypothesis, get_all_hypothesis}
use wav2letter.Decoder.Buffer.{Hyps, frame_at, find_frame, extend_buffer, count_from, read}
use wav2letter.Decoder.State.{State, Setup}
use wav2letter.Decoder.Online.{store_frame, first_hypothesis, update_lm_cache, ancestors}

-- `AMUpdateFunc`, applied to the emissions: the tokens and the acoustic states of the hypotheses and
-- the number of the round give the scores of the next tokens and the new acoustic states.
abbrev pub AmUpdate {ℓ α} : Type ℓ → Type α → Type (ℓ ⊔ α)
AmUpdate S A = List ℤ → List (Option A) → ℕ → List (List S) × List (Option A)

-- `last` is the frame of the buffer that the final hypotheses were moved from.
pub record SeqDecoder {ℓ κ μ ν} (S : Type ℓ) (L : Type κ) (X : Type μ) (M : Type ν)
    : Type (ℓ ⊔ κ ⊔ μ ⊔ ν) where
  pub hyps : Hyps (State S L X)
  pub last : ℕ
  pub cache : M

abbrev pub is_empty {ℓ} : {A : Type ℓ} → List A → Bool
is_empty [] = true
is_empty (x ∷ xs) = false

abbrev pub last_row {ℓ} : {S : Type ℓ} → List S → List (List S) → List S
last_row row [] = row
last_row row (next ∷ rows) = last_row next rows

-- `amScores.back().size()`
unfoldable pub n_classes_of {ℓ} : {S : Type ℓ} → List (List S) → Result ℕ
n_classes_of [] = err fatal
n_classes_of (row ∷ rows) = ok (length (last_row row rows))

module _ {ℓ κ μ α ν} {S : Type ℓ} {L : Type κ} {X : Type μ} {A : Type α} {M : Type ν}
    (d : Setup S L (X × Option A) M) (eos : ℤ) where
  abbrev pub SeqState : Type (ℓ ⊔ κ ⊔ μ ⊔ α)
  SeqState = State S L (X × Option A)

  -- What the acoustic model is asked: the hypotheses that are not complete.
  unfoldable pub raw_tokens : List SeqState → List ℤ
  raw_tokens [] = []
  raw_tokens (st ∷ sts) =
      let rest = raw_tokens sts in if st.token =? eos then rest else st.token ∷ rest

  unfoldable pub raw_states : List SeqState → List (Option A)
  raw_states [] = []
  raw_states (st ∷ sts) =
      let rest = raw_states sts in if st.token =? eos then rest else st.lex.1 ∷ rest

  -- A complete hypothesis is kept.
  unfoldable pub keep_complete : ℕ → SeqState → SeqState
  keep_complete p st = record {
    lm_state = st.lm_state;
    lex = (st.lex.0, none);
    parent = some p;
    score = st.score;
    token = eos;
    word = minus_one;
    prev_blank = false;
  }

  -- The tokens that are tried, of as many as the last row of the scores has.
  unfoldable pub best_tokens : List S → ℕ → Result (List ℕ)
  best_tokens scores n_classes =
      let score : ℕ → S = λ l. get_or scores l d.numbers.zero_score in
      let idx = count_from 0 n_classes in
      let n = min (length scores) d.opt.beam_size_token in
      do
        guard (leb n n_classes) fatal
        ok (
            take n (
              if ltb d.opt.beam_size_token (length scores)
              then d.sorts.sort_tokens score d.opt.beam_size_token idx
              else idx))

  -- What a decoder proposes for a hypothesis, its new acoustic state and the scores of its tokens.
  abbrev pub Expand : Type (ℓ ⊔ κ ⊔ μ ⊔ α ⊔ ν)
  Expand = M → ℕ → SeqState → Option A → List S → List ℕ → Result (List SeqState)

  module _ (expand : Expand) where
    -- One hypothesis that is not complete; without an acoustic state nothing is proposed.
    unfoldable pub expand_one :
        M → List (List S) → List (Option A) → ℕ → ℕ → ℕ → SeqState → Result (List SeqState)
    expand_one cache am_scores out_states n_classes p valid st = do
      out_state ← read out_states valid
      elim out_state [
        | none ↦ ok []
        | some am_state ↦ (do
          scores ← read am_scores valid
          tokens ← best_tokens scores n_classes
          expand cache p st (some am_state) scores tokens)
      ]

    -- The loop over the hypotheses: `p` is `hypo`, `valid` is `validHypo`.
    unfoldable pub expand_all :
        M → List (List S) → List (Option A) → ℕ → ℕ → ℕ → List SeqState → Result (List SeqState)
    expand_all cache am_scores out_states n_classes p valid [] = ok []
    expand_all cache am_scores out_states n_classes p valid (st ∷ sts) =
        let complete = expand_all cache am_scores out_states n_classes (suc p) valid sts in
        let others = expand_all cache am_scores out_states n_classes (suc p) (suc valid) sts in
        if st.token =? eos then (do rest ← complete; ok (keep_complete p st ∷ rest)) else (do
          ys ← expand_one cache am_scores out_states n_classes p valid st
          rest ← others
          ok (ys ++ rest))

    module _ (am_update : AmUpdate S A) where
      -- The proposals of a round; `amScores.back()` of no scores is undefined.
      unfoldable pub seq_propose : ℕ → M → List SeqState → Result (List SeqState)
      seq_propose t cache frame =
          let (am_scores, out_states) = am_update (raw_tokens frame) (raw_states frame) t in
          do
            n_classes ← n_classes_of am_scores
            expand_all cache am_scores out_states n_classes 0 0 frame

      -- The rounds from `t` on: the round that the loop ends in, and the buffer.
      unfoldable pub seq_frames : ℕ → ℕ → Hyps SeqState → M → Result (ℕ × Hyps SeqState × M)
      seq_frames zero t hyps cache = ok (t, hyps, cache)
      seq_frames (suc n) t hyps cache =
          if is_empty (raw_tokens (frame_at t hyps)) then ok (t, hyps, cache) else (do
            proposals ← seq_propose t cache (frame_at t hyps)
            next ← store_frame d true proposals
            seq_frames n (suc t) (assign (t + 1) next hyps) (update_lm_cache d cache next))

      -- Back to a round with a hypothesis.
      unfoldable pub last_nonempty : ℕ → Hyps SeqState → ℕ
      last_nonempty zero hyps = zero
      last_nonempty (suc t) hyps =
          let before = last_nonempty t hyps in
          if is_empty (frame_at (suc t) hyps) then before else suc t

      unfoldable pub seq_step :
          ℕ → SeqDecoder S L (X × Option A) M → Result (SeqDecoder S L (X × Option A) M)
      seq_step max_output_length c =
          let (cache, start) = d.lm.start in
          let hyps =
            assign 0 (first_hypothesis d start ∷ [])
              (extend_buffer (max_output_length + 2) c.hyps) in
          do
            after ← seq_frames max_output_length 0 hyps cache
            let last = last_nonempty after.0 after.1
            ok (record {
              hyps = assign (max_output_length + 1) (frame_at last after.1) after.1;
              last = last;
              cache = after.2;
            })

  -- The final hypotheses with their ancestors.
  unfoldable pub final_chains : ℕ → SeqDecoder S L (X × Option A) M → Result (List (List (Node S)))
  final_chains max_output_length c = do
    frame ← find_frame (max_output_length + 1) c.hyps
    map_result (ancestors c.hyps c.last) frame

  unfoldable pub seq_all_final :
      ℕ → SeqDecoder S L (X × Option A) M → Result (List (DecodeResult S))
  seq_all_final max_output_length c = do
    chains ← final_chains max_output_length c
    get_all_hypothesis d.numbers.zero_score chains (length c.hyps)

  -- `data()` of an empty vector may not be followed.
  unfoldable pub seq_best : ℕ → SeqDecoder S L (X × Option A) M → Result (DecodeResult S)
  seq_best max_output_length c = do
    frame ← find_frame (max_output_length + 1) c.hyps
    elim frame [
      | [] ↦ err fatal
      | st ∷ sts ↦ (do
        chain ← ancestors c.hyps c.last st
        get_hypothesis d.numbers.zero_score chain (length c.hyps))
    ]
