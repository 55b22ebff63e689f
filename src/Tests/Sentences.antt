-- ===== src/Tests/Sentences.antt =====
-- The theorems on LexiconSeq2SeqDecoder and LexiconFreeSeq2SeqDecoder of src/libraries/decoder at a
-- lexicon of one word, with numbers as scores.
use wav2letter.Base.{
  ℕ, ◌≡◌, refl, ap, false, suc, Option, none, some, List, [], ◌∷◌, length, map, ok, ℤ, pos,
  minus_one, All,
}
use wav2letter.Beam.{DecodeResult}
use wav2letter.Decoder.State.{Setup}
use wav2letter.Decoder.Valid.{IsSound}
use wav2letter.Decoder.Lexicon.{Lexicon}
use wav2letter.Decoder.Seq2Seq.{AmUpdate, SeqDecoder, seq_step, seq_all_final, seq_best}
use wav2letter.Decoder.Expansions.{lexicon_seq_step, free_expand, same_output, same_free_output}
use wav2letter.Decoder.Rounds.{IsAmUpdate}
use wav2letter.Decoder.Sentences.{IsSentence, sentences_lem}
use wav2letter.Decoder.FreeSentences.{IsFreeSentence, free_sentences_lem}
use wav2letter.Tests.Decoders.{
  numbers, counting_lm, options, one_word, same_sorts, keeps_best, same_order,
}

-- The same scores for the tokens 0, 1 and 2 at any time; 2 is the end of the sentence.
abbrev scores_of_one : List ℕ
scores_of_one = 4 ∷ 4 ∷ 3 ∷ []

abbrev steady : AmUpdate ℕ ℕ
steady tokens states t = (map (λ token. scores_of_one) tokens, map (λ token. some 0) tokens)

length-map_steady {ℓ} : {B : Type ℓ} (b : B) (ts : List ℤ) → length (map (λ t. b) ts) ≡ length ts
length-map_steady b [] = refl
length-map_steady b (t ∷ ts) = ap suc (length-map_steady b ts)

three_classes : (ts : List ℤ) → All (λ row. length row ≡ 3) (map (λ t. scores_of_one) ts)
three_classes [] = tt
three_classes (t ∷ ts) = (refl, three_classes ts)

steady-IsAmUpdate : IsAmUpdate 3 steady
steady-IsAmUpdate = record {
  rows = λ ts ss t. length-map_steady _ ts;
  outs = λ ts ss t. length-map_steady _ ts;
  classes = λ ts ss t. three_classes ts;
}

abbrev spelling : Setup ℕ ℕ (List ℤ × Option ℕ) (Unit {0})
spelling = record {
  numbers = numbers;
  lm = counting_lm;
  opt = options;
  sil = minus_one;
  sorts = same_sorts;
  root = ([], none);
  same = same_output counting_lm;
  is_complete = λ chain. false;
}

spelling-IsSound : IsSound spelling
spelling-IsSound = record {
  keeps_best = keeps_best spelling;
  perms = record {
    sort_perm = same_order;
    nth_perm = λ n. same_order;
    partial_perm = λ n. same_order;
  };
  tokens_perm = λ e n. same_order;
}

abbrev fresh : SeqDecoder ℕ ℕ (List ℤ × Option ℕ) (Unit {0})
fresh = record { hyps = []; last = 0; cache = tt }

sentences_lem_example :
    (c' : SeqDecoder ℕ ℕ (List ℤ × Option ℕ) (Unit {0})) × (lexicon_seq_step spelling
        (pos 2)
        (Lexicon.trie one_word)
        false
        steady
        5
        fresh
      ≡ ok c')
    × ((rs : List (DecodeResult ℕ)) × (seq_all_final spelling (pos 2) 5 c' ≡ ok rs)
        × All
            (IsSentence spelling spelling-IsSound
              (pos 2)
              (Lexicon.trie one_word)
              false
              5
              (length c'.hyps))
            rs)
    × ((r : DecodeResult ℕ) × (seq_best spelling (pos 2) 5 c' ≡ ok r)
        × IsSentence spelling spelling-IsSound
            (pos 2)
            (Lexicon.trie one_word)
            false
            5
            (length c'.hyps)
            r)
sentences_lem_example =
    sentences_lem spelling spelling-IsSound (pos 2) (Lexicon.trie one_word) false steady 3 5 fresh
      steady-IsAmUpdate refl

abbrev freely : Setup ℕ ℕ (Unit {0} × Option ℕ) (Unit {0})
freely = record {
  numbers = numbers;
  lm = counting_lm;
  opt = options;
  sil = minus_one;
  sorts = same_sorts;
  root = (tt, none);
  same = same_free_output counting_lm;
  is_complete = λ chain. false;
}

freely-IsSound : IsSound freely
freely-IsSound = record {
  keeps_best = keeps_best freely;
  perms = record {
    sort_perm = same_order;
    nth_perm = λ n. same_order;
    partial_perm = λ n. same_order;
  };
  tokens_perm = λ e n. same_order;
}

abbrev fresh_free : SeqDecoder ℕ ℕ (Unit {0} × Option ℕ) (Unit {0})
fresh_free = record { hyps = []; last = 0; cache = tt }

free_sentences_lem_example :
    (c' : SeqDecoder ℕ ℕ (Unit {0} × Option ℕ) (Unit {0})) × (seq_step freely
        (pos 2)
        (free_expand freely (pos 2))
        steady
        4
        fresh_free
      ≡ ok c')
    × ((rs : List (DecodeResult ℕ)) × (seq_all_final freely (pos 2) 4 c' ≡ ok rs)
        × All (IsFreeSentence freely freely-IsSound (pos 2) 4 (length c'.hyps)) rs)
    × ((r : DecodeResult ℕ) × (seq_best freely (pos 2) 4 c' ≡ ok r)
        × IsFreeSentence freely freely-IsSound (pos 2) 4 (length c'.hyps) r)
free_sentences_lem_example =
    free_sentences_lem freely freely-IsSound (pos 2) steady 3 4 fresh_free steady-IsAmUpdate
