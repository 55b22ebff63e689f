-- ===== src/Decoder/FreeSentences.antt =====
-- The sentences of LexiconFreeSeq2SeqDecoder.cpp in src/libraries/decoder: closed by the first end of
-- sentence.
use wav2letter.Base.{
  ℕ, ◌<◌, ◌≡◌, refl, inl, inr, true, false, Option, none, some, List, [], ◌∷◌, length, get_elem?,
  ok, ℤ, pos, minus_one, ◌=?◌, int_eq, All, Bool-cases,
}
use wav2letter.Beam.{DecodeResult}
use wav2letter.Decoder.State.{Setup}
use wav2letter.Decoder.Frames.{Place}
use wav2letter.Decoder.Valid.{IsSound, IsProposal}
use wav2letter.Decoder.Proposed.{concat_map-ok, read-ok}
use wav2letter.Decoder.Seq2Seq.{AmUpdate, SeqDecoder, SeqState, seq_step, seq_all_final, seq_best}
use wav2letter.Decoder.Rounds.{IsAmUpdate, IsExpanding}
use wav2letter.Decoder.Outputs.{IsOutput, seq_step-IsFinal, seq_results-ok}
use wav2letter.Decoder.Expansions.{free_next, free_token, free_expand}

module _ {ℓ κ α ν} {S : Type ℓ} {L : Type κ} {A : Type α} {M : Type ν}
    (d : Setup S L (Unit {0} × Option A) M) (sound : IsSound d) (eos : ℤ) where
  pub record IsWordless (x : Place (Unit {0} × Option A)) : Type α where
    pub no_word : x.2 ≡ minus_one

  -- One round: after the end of the sentence nothing follows but the end again.
  pub data IsFreeMove : Place (Unit {0} × Option A) → Place (Unit {0} × Option A) → Type α where
    stops :
        (am : Option A) (token word : ℤ)
        → (token =? eos) ≡ true
        → IsFreeMove ((tt, am), token, word) ((tt, none), eos, minus_one)
    goes_on :
        (am am' : Option A) (token word next : ℤ)
        → (token =? eos) ≡ false
        → IsFreeMove ((tt, am), token, word) ((tt, am'), next, minus_one)

  abbrev pub IsFreeSentence : ℕ → ℕ → DecodeResult S → Type (ℓ ⊔ α)
  IsFreeSentence max_output_length size r = IsOutput IsWordless IsFreeMove max_output_length size r

  abbrev FreeProposal : List (SeqState d eos) → SeqState d eos → Type (ℓ ⊔ κ ⊔ α)
  FreeProposal frame st = IsProposal IsWordless IsFreeMove frame st

  free_token-ok :
      (frame : List (SeqState d eos)) (p : ℕ) (prev : SeqState d eos) (cache : M) (out : Option A)
      (scores : List S) (k : ℕ)
      → get_elem? frame p ≡ some prev
      → (prev.token =? eos) ≡ false
      → k < length scores
      → (ys : List (SeqState d eos)) × (free_token d eos cache p prev out scores k ≡ ok ys)
        × All (FreeProposal frame) ys
  unfolding free_token free_next
  free_token-ok frame p prev cache out scores k at going lt =
      let (am_score, read_it) = read-ok scores k lt in
      let score = d.numbers.plus prev.score am_score in
      (
        free_next d eos cache p prev out (pos k) score ∷ [],
        rw read_it refl,
        elim (Bool-cases (pos k =? eos)) [
          | inl is_end ↦ rw is_end (
            (
              record { no_word = refl },
              (p, refl, prev, at, goes_on prev.lex.1 none prev.token prev.word (pos k) going),
            ),
            tt,
          )
          | inr fresh ↦ rw fresh (
            (
              record { no_word = refl },
              (p, refl, prev, at, goes_on prev.lex.1 out prev.token prev.word (pos k) going),
            ),
            tt,
          )
        ],
      )

  free_expand-IsExpanding : IsExpanding d sound eos IsWordless IsFreeMove (free_expand d eos)
  unfolding free_expand
  free_expand-IsExpanding = record {
    keeps =
        λ st here complete. (record { no_word = refl }, stops st.lex.1 st.token st.word complete);
    expands = λ cache frame p st am_state scores tokens at here going below.
        concat_map-ok (FreeProposal frame) (λ k. k < length scores)
          (free_token d eos cache p st (some am_state) scores) tokens
          (λ k lt. free_token-ok frame p st cache (some am_state) scores k at going lt) below;
  }

  -- `decodeStep` of the attention decoder without a lexicon returns for any state before it, and
  -- then `getAllFinalHypothesis` and `getBestHypothesis` do. Each result is a walk of at most
  -- `maxOutputLength` rounds, with -1 before it, in which nothing but the end of the sentence
  -- follows the end. Conditions: the acoustic model answers for each hypothesis with the same
  -- number of scores, the threshold is not negative, no score is a NaN, and for no score does the
  -- conversion to `float` of the score less the threshold give more than that score, and the sorts
  -- are permutations.
  pub free_sentences_lem :
      (am_update : AmUpdate S A) (n_classes max_output_length : ℕ)
      (c : SeqDecoder S L (Unit {0} × Option A) M)
      → IsAmUpdate n_classes am_update
      → (c' : SeqDecoder S L (Unit {0} × Option A) M) × (seq_step d eos
            (free_expand d eos)
            am_update
            max_output_length
            c
          ≡ ok c')
        × ((rs : List (DecodeResult S)) × (seq_all_final d eos max_output_length c' ≡ ok rs)
            × All (IsFreeSentence max_output_length (length c'.hyps)) rs)
        × ((r : DecodeResult S) × (seq_best d eos max_output_length c' ≡ ok r)
            × IsFreeSentence max_output_length (length c'.hyps) r)
  free_sentences_lem am_update n_classes max_output_length c is_am =
      let expand = free_expand d eos in
      let (c', done, final) =
        seq_step-IsFinal d sound eos IsWordless IsFreeMove expand free_expand-IsExpanding am_update
          n_classes is_am max_output_length c (record { no_word = refl }) in
      let (all, best) =
        seq_results-ok d sound eos IsWordless IsFreeMove expand free_expand-IsExpanding am_update
          n_classes is_am max_output_length c' final in
      (c', done, all, best)
